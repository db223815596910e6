-- ===== src/Controller/Workflow/Status.antt =====
-- workflow_controller.go: what a pass of the workflow reconciler meets and does, `setWorkflowCondition`,
-- `setFailed`, `setCompleted`, `setAborted` and `reconcilePaused`.
use chaosplane.Prelude.{
  ◌*◌, ◌^◌, String, Bool, false, Option, none, some, List, [], ◌∷◌, ◌++◌, ◌==◌, string_eq, pos,
  lookup, length, if◌then◌else◌,
}
use chaosplane.Api.Meta.{
  Time, Duration, Error, Result, ok, err, ConditionStatus, condition_true, condition_false,
}
use chaosplane.Api.Experiment.{ChaosExperiment}
use chaosplane.Api.Workflow.{ChaosWorkflow, running, completed, failed, aborted}
use chaosplane.Controller.Conditions.{upsert}
use chaosplane.Controller.Pass.{Requeue, stop, again, after}
use chaosplane.Controller.Workflow.Graph.{Order, format_progress}

-- The loops over maps, each with its own order.
pub data Loop : Type 0 where
  sorting readying retrying checking flattening : Loop

-- The answer to a Get.
pub data Fetched : Type 0 where
  found : ChaosExperiment → Fetched
  not_found : Fetched
  unavailable : Error → Fetched

-- What a pass meets: the clock, the API server's answers, and the orders of the loops over maps.
pub record World : Type 0 where
  pub now : Time
  pub get : String → String → Fetched  -- by namespace and name
  pub list : String → Result (List ChaosExperiment)
  pub update : ChaosExperiment → Option Error
  pub status_error : Option Error
  pub range : Loop → Order

pub data Act : Type 0 where
  writes_status : ChaosWorkflow → Option Error → Act
  updates : ChaosExperiment → Option Error → Act
  emits : String → String → Act

pub record Step : Type 0 where
  pub acts : List Act
  pub result : Result Requeue

abbrev pub return : Requeue → Step
return r = record { acts = []; result = ok r }

infixr 6 ◌▹◌
abbrev pub ◌▹◌ : List Act → Step → Step
a ▹ s = record s { acts = a ++ s.acts }

abbrev pub write_status : World → ChaosWorkflow → Step → Step
write_status world wf next = elim world.status_error [
  | some e ↦ record { acts = writes_status wf (some e) ∷ []; result = err e }
  | none ↦ (writes_status wf none ∷ []) ▹ next
]

abbrev pub ten_seconds : Duration
ten_seconds = pos (10 * 10 ^ 9)

unfoldable pub is_marked : String → ChaosWorkflow → Bool
is_marked key wf = elim (lookup key wf.meta.annotations) [ none ↦ false | some v ↦ v == "true" ]

unfoldable pub set_workflow_condition :
    World → String → ConditionStatus → String → String → ChaosWorkflow → ChaosWorkflow
set_workflow_condition world kind status reason message wf = record wf {
  status = record (wf.status) {
    conditions =
        upsert
          (record {
            kind = kind;
            status = status;
            reason = reason;
            message = message;
            last_transition_time = world.now;
            observed_generation = wf.meta.generation;
          })
          wf.status.conditions;
  };
}

-- The three calls that go together.
unfoldable pub set_workflow_conditions :
    World
    → ConditionStatus
    → ConditionStatus
    → ConditionStatus
    → String
    → String
    → ChaosWorkflow
    → ChaosWorkflow
unfolding set_workflow_condition
set_workflow_conditions world progressing available degraded reason message wf =
    set_workflow_condition world "Degraded" degraded reason message (
      set_workflow_condition world "Available" available reason message
        (set_workflow_condition world "Progressing" progressing reason message wf))

unfoldable pub fail_workflow : World → ChaosWorkflow → String → Step
unfolding set_workflow_conditions
fail_workflow world wf reason =
    write_status world
      (set_workflow_conditions world condition_false condition_false condition_true "WorkflowFailed"
        reason
        (record wf { status = record (wf.status) { phase = failed; end_time = some world.now } }))
      ((emits "Warning" "Failed" ∷ []) ▹ return stop)

unfoldable pub complete_workflow : World → ChaosWorkflow → Step
unfolding set_workflow_conditions format_progress
complete_workflow world wf =
    write_status world
      (set_workflow_conditions world condition_false condition_true condition_false
        "WorkflowCompleted" "Workflow completed successfully"
        (record wf {
          status = record (wf.status) {
            phase = completed;
            end_time = some world.now;
            progress = format_progress wf.status.template_statuses (length wf.spec.templates);
          };
        }))
      ((emits "Normal" "Completed" ∷ []) ▹ return stop)

unfoldable pub abort_workflow : World → ChaosWorkflow → Step
unfolding set_workflow_conditions
abort_workflow world wf =
    write_status world
      (set_workflow_conditions world condition_false condition_false condition_false
        "WorkflowAborted" "Workflow was aborted"
        (record wf { status = record (wf.status) { phase = aborted; end_time = some world.now } }))
      ((emits "Warning" "Aborted" ∷ []) ▹ return stop)

unfoldable pub reconcile_paused : World → ChaosWorkflow → Step
unfolding set_workflow_condition is_marked
reconcile_paused world wf =
    if is_marked "chaosplane.dev/resume" wf
    then write_status world
        (set_workflow_condition world "Progressing" condition_true "WorkflowResumed"
          "Workflow resumed" (record wf { status = record (wf.status) { phase = running } }))
        ((emits "Normal" "Resumed" ∷ []) ▹ return again)
    else return (after ten_seconds)
