-- ===== src/Controller/Workflow/Progress.antt =====
-- workflow_controller.go: `checkTemplateProgress`, which always answers a nil error.
use chaosplane.Prelude.{
  ◌*◌, ◌^◌, String, Bool, true, false, Option, none, some, List, [], ◌∷◌, pos, lookup, Dict,
  if◌then◌else◌, concat, leb_ℤ,
}
use chaosplane.Prelude.Int.{◌-ℤ◌, saturate64, sub64}
use chaosplane.Api.Meta.{Time, Duration}
use chaosplane.Api.Experiment.{ChaosExperiment, ExperimentPhase}
use chaosplane.Api.Workflow.{
  WorkflowTemplate, TemplateStatus, WorkflowPhase, experiment, delay, condition, parallel, suspend,
  unknown, completed, failed, ExperimentRef, SuspendSpec, TemplateType, DelaySpec, ParallelSpec,
}
use chaosplane.Controller.Pass.{Requeue, stop, after}
use chaosplane.Controller.Workflow.Graph.{is_over}
use chaosplane.Controller.Workflow.Status.{
  World, found, not_found, unavailable, ten_seconds, is_marked,
}
use chaosplane.Controller.Workflow.Templates.{Board, put, fetch}

abbrev five_seconds : Duration
five_seconds = pos (5 * 10 ^ 9)

abbrev finished : World → WorkflowPhase → String → TemplateStatus → TemplateStatus
finished world phase message ts = record ts {
  phase = phase;
  end_time = some world.now;
  message = message;
}

-- `time.Since(t)`
unfoldable pub elapsed : World → Time → Duration
unfolding saturate64 ◌-ℤ◌
elapsed world t = saturate64 (world.now -ℤ t)

-- The text of a phase.
abbrev phase_text : ExperimentPhase → String
phase_text ExperimentPhase.empty = ""
phase_text ExperimentPhase.pending = "Pending"
phase_text ExperimentPhase.steady_state_checking = "SteadyStateChecking"
phase_text ExperimentPhase.running = "Running"
phase_text ExperimentPhase.completing = "Completing"
phase_text ExperimentPhase.recovering = "Recovering"
phase_text ExperimentPhase.completed = "Completed"
phase_text ExperimentPhase.failed = "Failed"
phase_text ExperimentPhase.aborted = "Aborted"
phase_text (ExperimentPhase.unknown text) = text

unfoldable pub experiment_progress :
    World → TemplateStatus → ChaosExperiment → Board → Board × Requeue
experiment_progress world ts exp b =
    let failure =
      finished world failed (concat ("experiment " ∷ phase_text exp.status.phase ∷ [])) ts in
    elim exp.status.phase [
      | ExperimentPhase.completed ↦
          (put (finished world completed "experiment completed" ts) b, stop)
      | ExperimentPhase.failed ↦ (put failure b, stop)
      | ExperimentPhase.aborted ↦ (put failure b, stop)
      | _ ↦ (b, after five_seconds)
    ]

unfoldable pub check_experiment :
    World → Option ExperimentRef → TemplateStatus → Board → Board × Requeue
unfolding fetch experiment_progress
check_experiment world none ts b = (b, stop)
check_experiment world (some ref) ts b = elim (fetch world b.wf ref) [
  | found exp ↦ experiment_progress world ts exp b
  | not_found ↦ (b, after five_seconds)
  | unavailable e ↦ (b, after five_seconds)
]

unfoldable pub check_delay : World → Duration → Time → TemplateStatus → Board → Board × Requeue
unfolding elapsed
check_delay world duration start ts b =
    if leb_ℤ duration (elapsed world start)
    then (put (finished world completed "delay completed" ts) b, stop)
    else (b, after (sub64 duration (elapsed world start)))

-- All the templates of a parallel one have a status, completed or failed.
unfoldable pub all_done : List String → Dict TemplateStatus → Bool
all_done [] statuses = true
all_done (name ∷ names) statuses = elim (lookup name statuses) [
  | none ↦ false
  | some s ↦ if is_over s.phase then all_done names statuses else false
]

-- The timeout, where there is one, has passed.
unfoldable pub suspend_expired : World → Option SuspendSpec → Option Time → Bool
unfolding elapsed
suspend_expired world (some spec) (some start) = elim spec.timeout [
  | none ↦ false
  | some t ↦ leb_ℤ t (elapsed world start)
]
suspend_expired world _ _ = false

unfoldable pub check_suspend : World → Option SuspendSpec → TemplateStatus → Board → Board × Requeue
unfolding is_marked suspend_expired
check_suspend world spec ts b =
    if is_marked "chaosplane.dev/resume" b.wf
    then (put (finished world completed "resumed" ts) b, after ten_seconds)
    else if suspend_expired world spec ts.start_time
    then (put (finished world completed "suspend timed out" ts) b, after ten_seconds)
    else (b, after ten_seconds)

-- A delay that has no start or no spec is left alone.
unfoldable pub delay_progress :
    World → Option Time → Option DelaySpec → TemplateStatus → Board → Board × Requeue
unfolding check_delay
delay_progress world (some start) (some d) ts b = check_delay world d.duration start ts b
delay_progress world _ _ ts b = (b, stop)

unfoldable pub check_parallel :
    World → Option ParallelSpec → TemplateStatus → Board → Board × Requeue
unfolding all_done
check_parallel world none ts b = (b, stop)
check_parallel world (some p) ts b =
    if all_done p.templates b.statuses
    then (put (finished world completed "all parallel templates completed" ts) b, stop)
    else (b, after five_seconds)

-- `switch tmpl.Type`, of a template with a status.
unfoldable pub check_kind :
    World → TemplateType → WorkflowTemplate → TemplateStatus → Board → Board × Requeue
unfolding check_experiment delay_progress check_parallel check_suspend
check_kind world experiment tmpl ts b = check_experiment world tmpl.experiment_ref ts b
check_kind world delay tmpl ts b = delay_progress world ts.start_time tmpl.delay ts b
check_kind world condition tmpl ts b = (b, stop)
check_kind world parallel tmpl ts b = check_parallel world tmpl.parallel ts b
check_kind world suspend tmpl ts b = check_suspend world tmpl.suspend ts b
check_kind world (unknown kind) tmpl ts b = (b, stop)

unfoldable pub check_template_progress : World → WorkflowTemplate → Board → Board × Requeue
unfolding check_kind
check_template_progress world tmpl b = elim (lookup tmpl.name b.statuses) [
  | none ↦ (b, stop)
  | some ts ↦ check_kind world tmpl.kind tmpl ts b
]
