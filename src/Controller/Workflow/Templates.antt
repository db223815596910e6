-- ===== src/Controller/Workflow/Templates.antt =====
-- workflow_controller.go: `executeTemplate`, which always answers a nil error.
use chaosplane.Prelude.{
  ◌*◌, ◌^◌, String, Option, none, some, List, [], ◌∷◌, ◌++◌, ◌==◌, string_eq, pos, lookup, insert,
  Dict, length, if◌then◌else◌, concat,
}
use chaosplane.Prelude.Text.{itoa, duration_string}
use chaosplane.Api.Meta.{Duration, condition_false}
use chaosplane.Api.Workflow.{
  TemplateType, DelaySpec, ParallelSpec, ChaosWorkflow, WorkflowTemplate, TemplateStatus,
  WorkflowPhase, experiment, delay, condition, parallel, suspend, unknown, empty, running, paused,
  completed, failed, ExperimentRef, ConditionSpec,
}
use chaosplane.Controller.Pass.{Requeue, stop, again, after}
use chaosplane.Controller.Workflow.Conditions.{evaluate_condition}
use chaosplane.Controller.Workflow.Status.{
  World, Act, emits, Fetched, found, not_found, unavailable, ten_seconds, set_workflow_condition,
}

-- What the loops of reconcileRunning change: the workflow, the map of statuses, and what was done.
pub record Board : Type 0 where
  pub wf : ChaosWorkflow
  pub statuses : Dict TemplateStatus
  pub acts : List Act

abbrev five_seconds : Duration
five_seconds = pos (5 * 10 ^ 9)

abbrev pub put : TemplateStatus → Board → Board
put ts b = record b { statuses = insert ts.name ts b.statuses }

abbrev pub act : Act → Board → Board
act a b = record b { acts = b.acts ++ a ∷ [] }

-- The status of a template, a new one if it has none.
unfoldable pub status_of : String → Dict TemplateStatus → TemplateStatus
status_of name statuses = elim (lookup name statuses) [
  | some ts ↦ ts
  | none ↦ record { name = name; phase = empty; start_time = none; end_time = none; message = "" }
]

abbrev started : World → TemplateStatus → String → TemplateStatus
started world ts message = record ts {
  phase = running;
  start_time = some world.now;
  message = message;
}

abbrev refused : World → TemplateStatus → String → TemplateStatus
refused world ts message = record (started world ts message) { phase = failed }

abbrev finished : World → WorkflowPhase → String → TemplateStatus → TemplateStatus
finished world phase message ts = record ts {
  phase = phase;
  end_time = some world.now;
  message = message;
}

-- The experiment that a template refers to, in the workflow's namespace by default.
unfoldable pub fetch : World → ChaosWorkflow → ExperimentRef → Fetched
fetch world wf ref =
    world.get (if ref.namespace == "" then wf.meta.namespace else ref.namespace) ref.name

unfoldable pub execute_experiment :
    World → Option ExperimentRef → TemplateStatus → Board → Board × Requeue
unfolding fetch
execute_experiment world none ts b = (put (refused world ts "experimentRef is required") b, stop)
execute_experiment world (some ref) ts b =
    let next : TemplateStatus = elim (fetch world b.wf ref) [
      | found exp ↦ started world ts "creating experiment"
      | not_found ↦ started world ts "waiting for experiment to be created"
      | unavailable e ↦ refused world ts (concat ("failed to get experiment: " ∷ e ∷ []))
    ] in
    (act (emits "Normal" "TemplateStarted") (put next b), after five_seconds)

unfoldable pub execute_condition :
    World → Option ConditionSpec → TemplateStatus → Board → Board × Requeue
unfolding evaluate_condition
execute_condition world none ts b = (put (refused world ts "condition spec is required") b, stop)
execute_condition world (some c) ts b =
    let message =
      if evaluate_condition c.expression
      then concat ("condition true, routing to " ∷ c.if_true ∷ [])
      else concat ("condition false, routing to " ∷ c.if_false ∷ []) in
    (
      act (emits "Normal" "ConditionEvaluated")
          (put (finished world completed message (started world ts message)) b),
      again,
    )

unfoldable pub suspend_at : World → String → TemplateStatus → Board → Board × Requeue
unfolding set_workflow_condition
suspend_at world name ts b =
    let board =
      act (emits "Normal" "TemplateStarted") (put (started world ts "waiting for resume") b) in
    (
      record board {
        wf =
            set_workflow_condition world "Progressing" condition_false "WorkflowPaused"
              (concat ("Waiting for resume at " ∷ name ∷ []))
              (record (b.wf) { status = record (b.wf.status) { phase = paused } });
      },
      after ten_seconds,
    )

unfoldable pub execute_delay : World → Option DelaySpec → TemplateStatus → Board → Board × Requeue
execute_delay world none ts b = (put (refused world ts "delay spec is required") b, stop)
execute_delay world (some d) ts b = (
  act (emits "Normal" "TemplateStarted")
      (put (started world ts (concat ("waiting " ∷ duration_string d.duration ∷ []))) b),
  after d.duration,
)

unfoldable pub execute_parallel :
    World → Option ParallelSpec → TemplateStatus → Board → Board × Requeue
execute_parallel world none ts b = (put (refused world ts "parallel spec is required") b, stop)
execute_parallel world (some p) ts b = (
  act (emits "Normal" "TemplateStarted") (
      put
        (started world ts
          (concat ("running " ∷ itoa (length p.templates) ∷ " parallel templates" ∷ [])))
        b),
  after five_seconds,
)

-- `switch tmpl.Type`
unfoldable pub execute_kind :
    World → TemplateType → WorkflowTemplate → TemplateStatus → Board → Board × Requeue
unfolding execute_experiment execute_delay execute_condition execute_parallel suspend_at
execute_kind world experiment tmpl ts b = execute_experiment world tmpl.experiment_ref ts b
execute_kind world delay tmpl ts b = execute_delay world tmpl.delay ts b
execute_kind world condition tmpl ts b = execute_condition world tmpl.condition ts b
execute_kind world parallel tmpl ts b = execute_parallel world tmpl.parallel ts b
execute_kind world suspend tmpl ts b = suspend_at world tmpl.name ts b
execute_kind world (unknown kind) tmpl ts b = (
  put (record ts { phase = failed; message = concat ("unknown template type: " ∷ kind ∷ []) }) b,
  stop,
)

unfoldable pub execute_template : World → WorkflowTemplate → Board → Board × Requeue
unfolding status_of execute_kind
execute_template world tmpl b = execute_kind world tmpl.kind tmpl (status_of tmpl.name b.statuses) b
