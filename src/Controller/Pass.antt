-- ===== src/Controller/Pass.antt =====
-- One pass of a reconciler: the calls that it makes to the API server, the executors and the event
-- recorder, in order, each with its answer, and what `Reconcile` returns. The answers come from the
-- environment; the text of events and the log are left out.
use chaosplane.Prelude.{String, Bool, true, false, Option, none, some, List, [], ◌∷◌, pos}
use chaosplane.Api.Meta.{Time, Duration, Error, Result, ok, err}
use chaosplane.Api.Experiment.{ChaosExperiment}
use chaosplane.Executor.{Executor, Registry, get}
use chaosplane.Probe.{Probe, Prober}

-- controllerutil's functions on the list of finalizers.
pub record Finalizers : Type 0 where
  pub contains : List String → String → Bool
  pub add : List String → String → List String
  pub remove : List String → String → List String

-- What a pass meets: the clock, the executors, the probes, and for each write of the API server the
-- error that it answers, if any. A pass makes each kind of write once at most.
pub record Env : Type 0 where
  pub now : Time
  pub registry : Registry
  pub run : Prober
  pub finalizers : Finalizers
  pub update_error : Option Error
  pub patch_error : Option Error
  pub status_error : Option Error

-- An executor with the action type that the registry has it under.
pub record Registered : Type 0 where
  pub kind : String
  pub methods : Executor

-- `r.Registry.Get(kind)`
abbrev pub find_executor : Env → String → Result Registered
find_executor env kind = elim (get env.registry kind) [
  | err e ↦ err e
  | ok exec ↦ ok (record { kind = kind; methods = exec })
]

-- The calls, in order. An execution and a rollback carry the type that their executor is registered
-- under.
pub data Effect : Type 0 where
  executes : String → Option Error → Effect
  rolls_back : String → Option Error → Effect
  emits : String → String → Effect
  runs : List Probe → Effect
  updates : ChaosExperiment → Option Error → Effect
  patches : ChaosExperiment → Option Error → Effect
  writes_status : ChaosExperiment → Option Error → Effect

-- ctrl.Result
pub record Requeue : Type 0 where
  pub requeue : Bool
  pub requeue_after : Duration

pub record Pass : Type 0 where
  pub effects : List Effect
  pub result : Result Requeue

abbrev pub stop : Requeue
stop = record { requeue = false; requeue_after = pos 0 }

abbrev pub again : Requeue
again = record { requeue = true; requeue_after = pos 0 }

abbrev pub after : Duration → Requeue
after d = record { requeue = false; requeue_after = d }

abbrev pub return : Requeue → Pass
return r = record { effects = []; result = ok r }

abbrev pub fail : Error → Pass
fail e = record { effects = []; result = err e }

infixr 6 ◌▹◌
abbrev pub ◌▹◌ : Effect → Pass → Pass
e ▹ p = record p { effects = e ∷ p.effects }

-- `if err := r.Status().Update(ctx, exp); err != nil { return ctrl.Result{}, err }`
abbrev pub write_status : Env → ChaosExperiment → Pass → Pass
write_status env exp next = elim env.status_error [
  | some e ↦ writes_status exp (some e) ▹ fail e
  | none ↦ writes_status exp none ▹ next
]

-- The same for `r.Update`.
abbrev pub update : Env → ChaosExperiment → Pass → Pass
update env exp next = elim env.update_error [
  | some e ↦ updates exp (some e) ▹ fail e
  | none ↦ updates exp none ▹ next
]

-- The same for `r.Patch`.
abbrev pub patch : Env → ChaosExperiment → Pass → Pass
patch env exp next = elim env.patch_error [
  | some e ↦ patches exp (some e) ▹ fail e
  | none ↦ patches exp none ▹ next
]
