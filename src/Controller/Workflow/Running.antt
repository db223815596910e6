-- ===== src/Controller/Workflow/Running.antt =====
-- workflow_controller.go: `reconcileRunning`. Its two loops never meet an error of executeTemplate or
-- checkTemplateProgress, which answer none.
use chaosplane.Prelude.{
  String, Bool, true, false, none, some, List, [], ◌∷◌, ◌==◌, string_eq, nat_eq, pos, lookup,
  insert, Dict, length, is_empty, any, if◌then◌else◌, concat, ltb_ℤ, ℤ, ◌||◌,
}
use chaosplane.Prelude.Codes.{codes}
use chaosplane.Prelude.Int.{wrap64, ◌-ℤ◌, negsuc}
use chaosplane.Prelude.Text.{itoa_ℤ}
use chaosplane.Api.Meta.{Duration}
use chaosplane.Api.Workflow.{
  ChaosWorkflow, TemplateStatus, ErrorHandlingStrategy, unset, abort, continue, retry, rollback,
  unknown, completed, failed, running, pending,
}
use chaosplane.Controller.Pass.{after}
use chaosplane.Controller.Workflow.Graph.{
  keys, is_in, ready_templates, find_template, format_progress,
}
use chaosplane.Controller.Workflow.Conditions.{scan_retry}
use chaosplane.Controller.Workflow.Status.{
  World, readying, retrying, checking, flattening, Step, return, ◌▹◌, write_status, fail_workflow,
  complete_workflow,
}
use chaosplane.Controller.Workflow.Templates.{Board, execute_template}
use chaosplane.Controller.Workflow.Progress.{check_template_progress}

-- `statusMap`: of two statuses with one name the last stays.
abbrev pub status_map : List TemplateStatus → Dict TemplateStatus → Dict TemplateStatus
status_map [] m = m
status_map (s ∷ ss) m = status_map ss (insert s.name s m)

-- The names whose status passes a test, as the map from them to `true`.
abbrev pub those : (TemplateStatus → Bool) → Dict TemplateStatus → Dict Bool
those p [] = []
those p ((k, s) ∷ m) = if p s then (k, true) ∷ those p m else those p m

abbrev pub is_completed : TemplateStatus → Bool
is_completed s = elim s.phase [ completed ↦ true | failed ↦ true | _ ↦ false ]

abbrev pub is_failed : TemplateStatus → Bool
is_failed s = elim s.phase [ failed ↦ true | _ ↦ false ]

abbrev pub is_running : TemplateStatus → Bool
is_running s = elim s.phase [ running ↦ true | _ ↦ false ]

abbrev pub max_retries : ℤ
max_retries = pos 3

-- `retryCount+1` in an int.
abbrev plus_one : ℤ → ℤ
plus_one n = wrap64 (n -ℤ negsuc 0)

-- The body of the loop over the failed templates.
unfoldable pub retry_one : String → Dict TemplateStatus → Dict TemplateStatus
unfolding scan_retry ◌-ℤ◌ wrap64
retry_one name statuses = elim (lookup name statuses) [
  | none ↦ statuses
  | some ts ↦
      let count = scan_retry (codes ts.message) in
      if ltb_ℤ count max_retries
      then insert name
          (record ts {
            phase = pending;
            message = concat ("retry " ∷ itoa_ℤ (plus_one count) ∷ []);
          })
          statuses
      else statuses
]

unfoldable pub retry_all : List String → Dict TemplateStatus → Dict TemplateStatus
unfolding retry_one
retry_all [] statuses = statuses
retry_all (name ∷ names) statuses = retry_all names (retry_one name statuses)

-- The map holds pointers into the workflow's list of statuses: what is written through them is in
-- the list, at the last status of each name.
abbrev pub write_back : Dict TemplateStatus → List TemplateStatus → List TemplateStatus
write_back m [] = []
write_back m (s ∷ ss) =
    (if any (λ t. t.name == s.name) ss then s else elim (lookup s.name m) [ none ↦ s | some t ↦ t ])
    ∷ write_back m ss

abbrev pub shortest : Duration → Duration → Duration
shortest requeue_after d =
    if ltb_ℤ (pos 0) d
    then (if is_zero requeue_after || ltb_ℤ d requeue_after then d else requeue_after)
    else requeue_after
  where
    is_zero : ℤ → Bool
    is_zero (pos n) = n == 0
    is_zero (negsuc n) = false

-- The loop over the ready templates.
unfoldable pub execute_all : World → Dict Bool → List String → Board → Duration → Board × Duration
unfolding execute_template find_template
execute_all world busy [] b d = (b, d)
execute_all world busy (name ∷ names) b d =
    if is_in name busy
    then execute_all world busy names b d
    else elim (find_template name b.wf.spec.templates) [
      | none ↦ execute_all world busy names b d
      | some tmpl ↦
          let (next, r) = execute_template world tmpl b in
          execute_all world busy names next (shortest d r.requeue_after)
    ]

-- The loop over the running templates.
unfoldable pub check_all : World → List String → Board → Duration → Board × Duration
unfolding check_template_progress find_template
check_all world [] b d = (b, d)
check_all world (name ∷ names) b d = elim (find_template name b.wf.spec.templates) [
  | none ↦ check_all world names b d
  | some tmpl ↦
      let (next, r) = check_template_progress world tmpl b in
      check_all world names next (shortest d r.requeue_after)
]

unfoldable pub flatten_statuses : List String → Dict TemplateStatus → List TemplateStatus
flatten_statuses [] m = []
flatten_statuses (name ∷ names) m = elim (lookup name m) [
  | none ↦ flatten_statuses names m
  | some s ↦ s ∷ flatten_statuses names m
]

-- From the loops on, with the statuses after the retries.
unfoldable pub run_templates : World → ChaosWorkflow → Dict TemplateStatus → Dict Bool → Step
unfolding ready_templates execute_all check_all flatten_statuses format_progress
run_templates world wf statuses busy =
    let ready =
      ready_templates (world.range readying) wf.spec.templates (those is_completed statuses) in
    let (executed, d) =
      execute_all world busy ready (record { wf = wf; statuses = statuses; acts = [] }) (pos 0) in
    let (checked, soonest) = check_all world (world.range checking (keys busy)) executed d in
    let listed =
      flatten_statuses (world.range flattening (keys checked.statuses)) checked.statuses in
    let status = record (checked.wf.status) {
      template_statuses = listed;
      progress = format_progress listed (length wf.spec.templates);
    } in
    checked.acts
    ▹ write_status world (record (checked.wf) { status = status })
        (return (after (if ltb_ℤ (pos 0) soonest then soonest else five_seconds)))
  where
    five_seconds : Duration
    five_seconds = pos 5000000000

-- After the error handling.
unfoldable pub proceed : World → ChaosWorkflow → Dict TemplateStatus → Dict Bool → Step
unfolding complete_workflow run_templates
proceed world wf statuses busy =
    if length (those is_completed statuses) == length wf.spec.templates
    then complete_workflow world wf
    else run_templates world wf statuses busy

abbrev pub strategy_text : ErrorHandlingStrategy → String
strategy_text rollback = "rollback"
strategy_text _ = "abort"

-- The statuses after the loop over the failed templates, and the workflow that shares them.
unfoldable pub retried : World → Dict TemplateStatus → Dict TemplateStatus
unfolding retry_all
retried world statuses = retry_all (world.range retrying (keys (those is_failed statuses))) statuses

abbrev pub noted : Dict TemplateStatus → ChaosWorkflow → ChaosWorkflow
noted statuses wf = record wf {
  status = record (wf.status) {
    template_statuses = write_back statuses wf.status.template_statuses;
  };
}

-- `switch strategy`, when some template has failed.
unfoldable pub handle_failures :
    World → ErrorHandlingStrategy → ChaosWorkflow → Dict TemplateStatus → Dict Bool → Step
unfolding fail_workflow proceed retried
handle_failures world unset wf statuses busy =
    fail_workflow world wf "template failed, strategy: abort"
handle_failures world abort wf statuses busy =
    fail_workflow world wf "template failed, strategy: abort"
handle_failures world rollback wf statuses busy =
    fail_workflow world wf "template failed, strategy: rollback"
handle_failures world continue wf statuses busy = proceed world wf statuses busy
handle_failures world (unknown text) wf statuses busy = proceed world wf statuses busy
handle_failures world retry wf statuses busy =
    proceed world (noted (retried world statuses) wf) (retried world statuses) busy

unfoldable pub reconcile_running_workflow : World → ChaosWorkflow → Step
unfolding handle_failures proceed
reconcile_running_workflow world wf =
    let statuses = status_map wf.status.template_statuses [] in
    let busy = those is_running statuses in
    if is_empty (those is_failed statuses)
    then proceed world wf statuses busy
    else handle_failures world wf.spec.error_handling.strategy wf statuses busy
