-- ===== src/Controller/Workflow/Reconcile.antt =====
-- workflow_controller.go: `reconcilePending`, `handleAbort`, `isOwnedBy` and `Reconcile`.
use chaosplane.Prelude.{
  Bool, true, false, some, List, [], ◌∷◌, ◌==◌, string_eq, ◌&&◌, any, if◌then◌else◌, length, insert,
}
use chaosplane.Api.Meta.{Error, ok, err, condition_true}
use chaosplane.Api.Experiment.{ChaosExperiment, ExperimentPhase}
use chaosplane.Api.Workflow.{
  ChaosWorkflow, WorkflowPhase, empty, pending, running, paused, completed, failed, aborted,
  unknown,
}
use chaosplane.Controller.Pass.{again, stop}
use chaosplane.Controller.Workflow.Graph.{topological_sort, format_progress}
use chaosplane.Controller.Workflow.Status.{
  World, sorting, Act, updates, emits, Step, return, ◌▹◌, write_status, is_marked,
  set_workflow_condition, fail_workflow, abort_workflow, reconcile_paused,
}
use chaosplane.Controller.Workflow.Running.{reconcile_running_workflow}

unfoldable pub start_workflow : World → ChaosWorkflow → Step
unfolding set_workflow_condition format_progress
start_workflow world wf =
    write_status world
      (set_workflow_condition world "Progressing" condition_true "WorkflowStarted"
        "Workflow is running"
        (record wf {
          status = record (wf.status) {
            phase = running;
            start_time = some world.now;
            observed_generation = wf.meta.generation;
            progress = format_progress [] (length wf.spec.templates);
          };
        }))
      ((emits "Normal" "Started" ∷ []) ▹ return again)

unfoldable pub reconcile_pending_workflow : World → ChaosWorkflow → Step
unfolding topological_sort fail_workflow start_workflow
reconcile_pending_workflow world wf =
    elim (topological_sort (world.range sorting) wf.spec.templates) [
      | err e ↦ fail_workflow world wf e
      | ok order ↦ start_workflow world wf
    ]

unfoldable pub is_owned_by : ChaosExperiment → ChaosWorkflow → Bool
is_owned_by exp wf = any (λ uid. uid == wf.meta.uid) exp.meta.owner_uids

abbrev pub is_abortable : ExperimentPhase → Bool
is_abortable ExperimentPhase.running = true
is_abortable ExperimentPhase.pending = true
is_abortable _ = false

abbrev pub with_abort : ChaosExperiment → ChaosExperiment
with_abort exp = record exp {
  meta = record (exp.meta) {
    annotations = insert "chaosplane.dev/abort" "true" exp.meta.annotations;
  };
}

-- The loop over the namespace's experiments; an update that fails is passed over.
unfoldable pub abort_experiments : World → ChaosWorkflow → List ChaosExperiment → List Act
unfolding is_owned_by
abort_experiments world wf [] = []
abort_experiments world wf (exp ∷ exps) =
    let rest = abort_experiments world wf exps in
    if is_owned_by exp wf && is_abortable exp.status.phase
    then updates (with_abort exp) (world.update (with_abort exp)) ∷ rest
    else rest

unfoldable pub handle_workflow_abort : World → ChaosWorkflow → Step
unfolding abort_experiments abort_workflow
handle_workflow_abort world wf = elim (world.list wf.meta.namespace) [
  | err e ↦ abort_workflow world wf
  | ok exps ↦ abort_experiments world wf exps ▹ abort_workflow world wf
]

abbrev pub is_running_phase : WorkflowPhase → Bool
is_running_phase running = true
is_running_phase _ = false

unfoldable pub dispatch_workflow : World → ChaosWorkflow → Step
unfolding reconcile_pending_workflow reconcile_running_workflow reconcile_paused
dispatch_workflow world wf = elim wf.status.phase [
  | empty ↦ reconcile_pending_workflow world wf
  | pending ↦ reconcile_pending_workflow world wf
  | running ↦ reconcile_running_workflow world wf
  | paused ↦ reconcile_paused world wf
  | completed ↦ return stop
  | failed ↦ return stop
  | aborted ↦ return stop
  | unknown text ↦ return stop
]

-- A workflow that was read.
unfoldable pub reconcile_workflow : World → ChaosWorkflow → Step
unfolding handle_workflow_abort dispatch_workflow
reconcile_workflow world wf =
    if is_marked "chaosplane.dev/abort" wf && is_running_phase wf.status.phase
    then handle_workflow_abort world wf
    else dispatch_workflow world wf

-- The answer to the Get that a pass starts with.
pub data WorkflowRead : Type 0 where
  absent : WorkflowRead
  unreadable : Error → WorkflowRead
  present : ChaosWorkflow → WorkflowRead

unfoldable pub reconcile_read : World → WorkflowRead → Step
unfolding reconcile_workflow
reconcile_read world absent = return stop
reconcile_read world (unreadable e) = record { acts = []; result = err e }
reconcile_read world (present wf) = reconcile_workflow world wf
