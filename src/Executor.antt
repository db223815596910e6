-- ===== src/Executor.antt =====
-- internal/executor: the interface Executor and the registry of executors by action type. The mutex
-- makes each method of the registry one step.
pub mod Lookup
use chaosplane.Prelude.{
  ℕ, String, Option, none, some, [], ◌∷◌, length, Dict, lookup, insert, concat, quote,
}
use chaosplane.Api.Meta.{Error, Result, ok, err}
use chaosplane.Api.Experiment.{ChaosExperiment}

-- What the three methods answer: `nil` or an error.
pub record Executor : Type 0 where
  pub validate : ChaosExperiment → Option Error
  pub execute : ChaosExperiment → Option Error
  pub rollback : ChaosExperiment → Option Error

pub record Registry : Type 0 where
  pub executors : Dict Executor

unfoldable pub new_registry : Registry
new_registry = record { executors = [] }

unfoldable pub register : Registry → String → Executor → Registry
register r action_type exec = record { executors = insert action_type exec r.executors }

unfoldable pub get : Registry → String → Result Executor
get r action_type = elim (lookup action_type r.executors) [
  | none ↦ err (concat ("no executor registered for action type " ∷ quote action_type ∷ []))
  | some exec ↦ ok exec
]

-- `none` is the panic of a second registration.
unfoldable pub must_register : Registry → String → Executor → Option Registry
unfolding register
must_register r action_type exec = elim (lookup action_type r.executors) [
  | some _ ↦ none
  | none ↦ some (register r action_type exec)
]

unfoldable pub list : Registry → Dict Executor
list r = r.executors

unfoldable pub count : Registry → ℕ
count r = length r.executors
