-- ===== src/Controller/Workflow/Phases.antt =====
-- The state machine of a workflow's phases.
use chaosplane.Prelude.{
  ◌≡◌, ◌⊎◌, inl, inr, refl, arith, sym, subst, String, Bool, true, false, List, [], ◌∷◌, ◌++◌, All,
  Dict, Option-cases, if◌then◌else◌, is_empty, length, ◌==◌, ◌&&◌, nat_eq,
}
use chaosplane.Api.Meta.{ok, err}
use chaosplane.Api.Experiment.{ChaosExperiment}
use chaosplane.Api.Workflow.{
  ChaosWorkflow, TemplateStatus, WorkflowPhase, ErrorHandlingStrategy, empty, pending, running,
  paused, completed, failed, aborted, unknown,
}
use chaosplane.Controller.Workflow.Graph.{topological_sort}
use chaosplane.Controller.Workflow.Status.{
  World, Act, writes_status, updates, emits, Step, is_marked, abort_workflow,
  set_workflow_conditions, set_workflow_condition, sorting, ◌▹◌, fail_workflow, complete_workflow,
  reconcile_paused, write_status,
}
use chaosplane.Controller.Workflow.Running.{
  status_map, those, is_completed, is_failed, is_running, retried, noted, run_templates, proceed,
  handle_failures, reconcile_running_workflow,
}
use chaosplane.Controller.Workflow.Loops.{Sound, IsEvent, execute_all-Sound, check_all-Sound}
use chaosplane.Controller.Workflow.Reconcile.{
  is_running_phase, abort_experiments, handle_workflow_abort, reconcile_workflow, dispatch_workflow,
  reconcile_pending_workflow, start_workflow,
}

-- The phases that a pass may write from a phase.
abbrev pub CanMove : WorkflowPhase → WorkflowPhase → Type 0
CanMove empty q = (q ≡ running) ⊎ (q ≡ failed)
CanMove pending q = (q ≡ running) ⊎ (q ≡ failed)
CanMove running q = (q ≡ running) ⊎ (q ≡ paused) ⊎ (q ≡ failed) ⊎ (q ≡ completed) ⊎ (q ≡ aborted)
CanMove paused q = q ≡ running
CanMove _ q = ⊥

abbrev pub Respects : WorkflowPhase → Act → Type 0
Respects p (writes_status wf e) = CanMove p wf.status.phase
Respects p _ = Unit

write_status-Respects :
    (p : WorkflowPhase) (world : World) (wf : ChaosWorkflow) (next : Step)
    → CanMove p wf.status.phase
    → All (Respects p) next.acts
    → All (Respects p) (write_status world wf next).acts
write_status-Respects p world wf next m h = elim (Option-cases world.status_error) [
  | inl n ↦ ground (arith, n)
  | inr (e, s) ↦ ground (arith, s)
]

fail_workflow-Respects :
    (p : WorkflowPhase) (world : World) (wf : ChaosWorkflow) (reason : String)
    → CanMove p failed
    → All (Respects p) (fail_workflow world wf reason).acts
unfolding fail_workflow set_workflow_conditions
fail_workflow-Respects p world wf reason m = write_status-Respects p world _ _ m (tt, tt)

events-Respects : (p : WorkflowPhase) (acts : List Act) → All IsEvent acts → All (Respects p) acts
events-Respects p [] h = tt
events-Respects p (emits kind reason ∷ acts) h = (tt, events-Respects p acts h.1)
events-Respects p (updates exp e ∷ acts) h = absurd h.0
events-Respects p (writes_status wf e ∷ acts) h = absurd h.0

All-append : {A : Type 0} (P : A → Type 0) (xs ys : List A) → All P xs → All P ys → All P (xs ++ ys)
All-append P [] ys h k = k
All-append P (x ∷ xs) ys h k = (h.0, All-append P xs ys h.1 k)

run_templates-Respects :
    (world : World) (wf : ChaosWorkflow) (statuses : Dict TemplateStatus) (busy : Dict Bool)
    → wf.status.phase ≡ running
    → All (Respects running) (run_templates world wf statuses busy).acts
unfolding run_templates
run_templates-Respects world wf statuses busy h =
    let start : Sound (record { wf = wf; statuses = statuses; acts = [] }) = record {
      phase = inl h;
      events = tt;
    } in
    let after = check_all-Sound world _ _ _ (execute_all-Sound world busy _ _ _ start) in
    All-append _ _ _ (events-Respects running _ after.events)
      (write_status-Respects running world _ _ (ground (arith, after.phase)) tt)

proceed-Respects :
    (world : World) (wf : ChaosWorkflow) (statuses : Dict TemplateStatus) (busy : Dict Bool)
    → wf.status.phase ≡ running
    → All (Respects running) (proceed world wf statuses busy).acts
unfolding proceed complete_workflow set_workflow_conditions
proceed-Respects world wf statuses busy h =
    elim (length (those is_completed statuses) == length wf.spec.templates)
      as (λ c.
        All (Respects running)
          (if c then complete_workflow world wf else run_templates world wf statuses busy).acts) [
            | true ↦ write_status-Respects running world _ _ (ground arith) (tt, tt)
            | false ↦ run_templates-Respects world wf statuses busy h
          ]

handle_failures-Respects :
    (world : World) (strategy : ErrorHandlingStrategy) (wf : ChaosWorkflow)
    (statuses : Dict TemplateStatus) (busy : Dict Bool)
    → wf.status.phase ≡ running
    → All (Respects running) (handle_failures world strategy wf statuses busy).acts
unfolding handle_failures
handle_failures-Respects world ErrorHandlingStrategy.unset wf statuses busy h =
    fail_workflow-Respects running world wf _ (ground arith)
handle_failures-Respects world ErrorHandlingStrategy.abort wf statuses busy h =
    fail_workflow-Respects running world wf _ (ground arith)
handle_failures-Respects world ErrorHandlingStrategy.rollback wf statuses busy h =
    fail_workflow-Respects running world wf _ (ground arith)
handle_failures-Respects world ErrorHandlingStrategy.continue wf statuses busy h =
    proceed-Respects world wf statuses busy h
handle_failures-Respects world (ErrorHandlingStrategy.unknown text) wf statuses busy h =
    proceed-Respects world wf statuses busy h
handle_failures-Respects world ErrorHandlingStrategy.retry wf statuses busy h =
    proceed-Respects world (noted (retried world statuses) wf) (retried world statuses) busy h

reconcile_running_workflow-Respects :
    (world : World) (wf : ChaosWorkflow)
    → wf.status.phase ≡ running
    → All (Respects running) (reconcile_running_workflow world wf).acts
unfolding reconcile_running_workflow
reconcile_running_workflow-Respects world wf h =
    elim (is_empty (those is_failed (status_map wf.status.template_statuses [])))
      as (λ c.
        All (Respects running)
          (if c
            then proceed world wf (status_map wf.status.template_statuses [])
                (those is_running (status_map wf.status.template_statuses []))
            else handle_failures world wf.spec.error_handling.strategy wf
                (status_map wf.status.template_statuses [])
                (those is_running (status_map wf.status.template_statuses []))).acts) [
                  | true ↦
                      proceed-Respects world wf (status_map wf.status.template_statuses [])
                        (those is_running (status_map wf.status.template_statuses [])) h
                  | false ↦
                      handle_failures-Respects world wf.spec.error_handling.strategy wf
                        (status_map wf.status.template_statuses [])
                        (those is_running (status_map wf.status.template_statuses [])) h
                ]

reconcile_pending_workflow-Respects :
    (p : WorkflowPhase) (world : World) (wf : ChaosWorkflow)
    → CanMove p running
    → CanMove p failed
    → All (Respects p) (reconcile_pending_workflow world wf).acts
unfolding reconcile_pending_workflow start_workflow set_workflow_condition
reconcile_pending_workflow-Respects p world wf r f =
    elim (topological_sort (world.range sorting) wf.spec.templates)
      as (λ o.
        All (Respects p)
          (elim o as (λ _. Step) [
            | err e ↦ fail_workflow world wf e
            | ok order ↦ start_workflow world wf
          ]).acts) [
            | err e ↦ fail_workflow-Respects p world wf e f
            | ok order ↦ write_status-Respects p world _ _ r (tt, tt)
          ]

reconcile_paused-Respects :
    (world : World) (wf : ChaosWorkflow) → All (Respects paused) (reconcile_paused world wf).acts
unfolding reconcile_paused set_workflow_condition
reconcile_paused-Respects world wf = elim (Option-cases world.status_error) [
  | inl n ↦ ground (arith, n)
  | inr (e, s) ↦ ground (arith, s)
]

abort_experiments-Respects :
    (p : WorkflowPhase) (world : World) (wf : ChaosWorkflow) (exps : List ChaosExperiment)
    → All (Respects p) (abort_experiments world wf exps)
unfolding abort_experiments
abort_experiments-Respects p world wf [] = tt
abort_experiments-Respects p world wf (exp ∷ exps) =
    ground (arith, abort_experiments-Respects p world wf exps)

abort_workflow-Respects :
    (world : World) (wf : ChaosWorkflow) → All (Respects running) (abort_workflow world wf).acts
unfolding abort_workflow set_workflow_conditions
abort_workflow-Respects world wf = write_status-Respects running world _ _ (ground arith) (tt, tt)

handle_workflow_abort-Respects :
    (world : World) (wf : ChaosWorkflow)
    → All (Respects running) (handle_workflow_abort world wf).acts
unfolding handle_workflow_abort
handle_workflow_abort-Respects world wf =
    elim (world.list wf.meta.namespace)
      as (λ o.
        All (Respects running)
          (elim o as (λ _. Step) [
            | err e ↦ abort_workflow world wf
            | ok exps ↦ abort_experiments world wf exps ▹ abort_workflow world wf
          ]).acts) [
            | err e ↦ abort_workflow-Respects world wf
            | ok exps ↦
                All-append _ _ _ (abort_experiments-Respects running world wf exps)
                  (abort_workflow-Respects world wf)
          ]

dispatch_workflow-Respects :
    (world : World) (wf : ChaosWorkflow) (p : WorkflowPhase)
    → wf.status.phase ≡ p
    → All (Respects p) (dispatch_workflow world wf).acts
unfolding dispatch_workflow
dispatch_workflow-Respects world wf empty h =
    ground (arith, h, reconcile_pending_workflow-Respects empty world wf (inl refl) (inr refl))
dispatch_workflow-Respects world wf pending h =
    ground (arith, h, reconcile_pending_workflow-Respects pending world wf (inl refl) (inr refl))
dispatch_workflow-Respects world wf running h =
    ground (arith, h, reconcile_running_workflow-Respects world wf h)
dispatch_workflow-Respects world wf paused h = ground (arith, h, reconcile_paused-Respects world wf)
dispatch_workflow-Respects world wf completed h = ground (arith, h)
dispatch_workflow-Respects world wf failed h = ground (arith, h)
dispatch_workflow-Respects world wf aborted h = ground (arith, h)
dispatch_workflow-Respects world wf (unknown text) h = ground (arith, h)

is_running_phase_lem : (p : WorkflowPhase) → is_running_phase p ≡ true → p ≡ running
is_running_phase_lem p h = ground arith

-- A pass writes a workflow's status only in a phase that the state machine allows: a new one starts or
-- fails, a running one goes on, pauses, fails, completes or is aborted, a paused one resumes. One that
-- is Completed, Failed, Aborted or in an unknown phase is never written.
pub reconcile_workflow-Respects :
    (world : World) (wf : ChaosWorkflow)
    → All (Respects wf.status.phase) (reconcile_workflow world wf).acts
unfolding reconcile_workflow
reconcile_workflow-Respects world wf =
    elim (is_marked "chaosplane.dev/abort" wf && is_running_phase wf.status.phase)
        as (λ c.
          (c ≡ true → wf.status.phase ≡ running)
          → All (Respects wf.status.phase)
              (if c then handle_workflow_abort world wf else dispatch_workflow world wf).acts) [
                | true ↦ λ h.
                    subst (λ p. All (Respects p) (handle_workflow_abort world wf).acts)
                      (sym (h refl)) (handle_workflow_abort-Respects world wf)
                | false ↦ λ h. dispatch_workflow-Respects world wf wf.status.phase refl
              ]
      (λ h. is_running_phase_lem wf.status.phase (ground (arith, h)))
