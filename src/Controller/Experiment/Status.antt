-- ===== src/Controller/Experiment/Status.antt =====
-- experiment_controller.go: the annotations that it reads, `setCondition`, and the methods that write
-- a status. `exp` is the copy that the pass has read; what the pass writes of it is in its effects.
use chaosplane.Prelude.{
  String, Bool, false, none, some, [], ◌∷◌, ◌==◌, string_eq, pos, ◌*◌, ◌^◌, lookup, concat,
}
use chaosplane.Prelude.Int.{◌-ℤ◌, saturate64}
use chaosplane.Api.Meta.{Time, Duration, ConditionStatus, condition_true, condition_false}
use chaosplane.Api.Experiment.{ChaosExperiment, completing, completed, failed, aborted}
use chaosplane.Controller.Conditions.{upsert}
use chaosplane.Controller.Pass.{Env, Pass, emits, stop, again, return, ◌▹◌, write_status}

abbrev pub finalizer_name : String
finalizer_name = "chaosplane.dev/experiment-protection"

abbrev pub abort_annotation : String
abort_annotation = "chaosplane.dev/abort"

abbrev pub executed_annotation : String
executed_annotation = "chaosplane.dev/executed"

abbrev pub five_seconds : Duration
five_seconds = pos (5 * 10 ^ 9)

-- `exp.Annotations[key] == "true"`
unfoldable pub is_annotated : String → ChaosExperiment → Bool
is_annotated key exp = elim (lookup key exp.meta.annotations) [
  | none ↦ false
  | some v ↦ v == "true"
]

-- `fmt.Sprintf("%s/%s", exp.Namespace, exp.Name)`
unfoldable pub exp_ref : ChaosExperiment → String
exp_ref exp = concat (exp.meta.namespace ∷ "/" ∷ exp.meta.name ∷ [])

-- `time.Since(t)`
unfoldable pub since : Env → Time → Duration
unfolding saturate64 ◌-ℤ◌
since env t = saturate64 (env.now -ℤ t)

unfoldable pub set_condition :
    Env → String → ConditionStatus → String → String → ChaosExperiment → ChaosExperiment
set_condition env kind status reason message exp = record exp {
  status = record (exp.status) {
    conditions =
        upsert
          (record {
            kind = kind;
            status = status;
            reason = reason;
            message = message;
            last_transition_time = env.now;
            observed_generation = exp.meta.generation;
          })
          exp.status.conditions;
  };
}

-- The three calls of `setCondition` that go together.
unfoldable pub set_conditions :
    Env
    → ConditionStatus
    → ConditionStatus
    → ConditionStatus
    → String
    → String
    → ChaosExperiment
    → ChaosExperiment
unfolding set_condition
set_conditions env progressing available degraded reason message exp =
    set_condition env "Degraded" degraded reason message (
      set_condition env "Available" available reason message
        (set_condition env "Progressing" progressing reason message exp))

unfoldable pub set_failed : Env → ChaosExperiment → String → Pass
unfolding set_conditions
set_failed env exp reason =
    let ended = record exp {
      status = record (exp.status) { phase = failed; end_time = some env.now; message = reason };
    } in
    write_status env
      (set_conditions env condition_false condition_false condition_true "ExperimentFailed" reason
        ended)
      (emits "Warning" "Failed" ▹ return stop)

unfoldable pub set_completed : Env → ChaosExperiment → Pass
unfolding set_conditions
set_completed env exp =
    let ended = record exp {
      status = record (exp.status) { phase = completed; end_time = some env.now };
    } in
    write_status env
      (set_conditions env condition_false condition_true condition_false "ExperimentCompleted"
        "Experiment completed successfully" ended)
      (emits "Normal" "Completed" ▹ return stop)

unfoldable pub set_aborted : Env → ChaosExperiment → Pass
unfolding set_conditions
set_aborted env exp =
    let ended = record exp {
      status = record (exp.status) { phase = aborted; end_time = some env.now };
    } in
    write_status env
      (set_conditions env condition_false condition_false condition_false "ExperimentAborted"
        "Experiment was aborted" ended)
      (emits "Warning" "Aborted" ▹ return stop)

unfoldable pub transition_to_completing : Env → ChaosExperiment → Pass
unfolding set_condition
transition_to_completing env exp =
    write_status env
      (set_condition env "Progressing" condition_true "ExperimentCompleting"
        "Experiment is rolling back"
        (record exp { status = record (exp.status) { phase = completing } }))
      (return again)
