-- ===== src/Controller/Workflow/Aborts.antt =====
-- The abort of a workflow, and the phases that a pass moves between.
use chaosplane.Prelude.{
  ◌≡◌, ◌⊎◌, inl, inr, arith, sym, subst, String, true, List, [], ◌∷◌, ◌++◌, Any, ◌==◌, string_eq,
  ◌&&◌, any, eq_iff, nat_eq, Option-cases,
}
use chaosplane.Api.Meta.{ok}
use chaosplane.Api.Experiment.{ChaosExperiment, ExperimentPhase}
use chaosplane.Api.Workflow.{ChaosWorkflow, running, aborted}
use chaosplane.Controller.Workflow.Status.{
  World, Act, writes_status, updates, is_marked, abort_workflow, set_workflow_conditions,
}
use chaosplane.Controller.Workflow.Reconcile.{
  is_owned_by, is_abortable, with_abort, abort_experiments, handle_workflow_abort,
  reconcile_workflow,
}

-- An experiment that the workflow owns and that is pending or running.
abbrev pub Concerns : ChaosWorkflow → ChaosExperiment → Type 0
Concerns wf exp =
    Any (λ uid. uid ≡ wf.meta.uid) exp.meta.owner_uids
    × ((exp.status.phase ≡ ExperimentPhase.running) ⊎ (exp.status.phase ≡ ExperimentPhase.pending))

-- A step writes an experiment's abort mark.
abbrev pub MarksAbort : World → ChaosExperiment → List Act → Type 0
MarksAbort world exp acts =
    Any (λ a. a ≡ updates (with_abort exp) (world.update (with_abort exp))) acts

-- A step writes the status of a workflow, in the phase `Aborted`.
abbrev pub IsAbortWrite : Act → Type 0
IsAbortWrite (writes_status wf e) = wf.status.phase ≡ aborted
IsAbortWrite _ = ⊥

any-owner :
    (uid : String) (uids : List String) → Any (λ u. u ≡ uid) uids → any (λ u. u == uid) uids ≡ true
any-owner uid [] h = ground arith
any-owner uid (u ∷ uids) h = ground (arith, h, eq_iff u uid, any-owner uid uids)

owned_and_abortable :
    (wf : ChaosWorkflow) (exp : ChaosExperiment)
    → Concerns wf exp
    → (is_owned_by exp wf && is_abortable exp.status.phase) ≡ true
unfolding is_owned_by
owned_and_abortable wf exp (o, inl p) =
    ground (arith, any-owner wf.meta.uid exp.meta.owner_uids o, p)
owned_and_abortable wf exp (o, inr p) =
    ground (arith, any-owner wf.meta.uid exp.meta.owner_uids o, p)

abort_experiments-head :
    (world : World) (wf : ChaosWorkflow) (exp : ChaosExperiment) (exps : List ChaosExperiment)
    → Concerns wf exp
    → MarksAbort world exp (abort_experiments world wf (exp ∷ exps))
unfolding abort_experiments
abort_experiments-head world wf exp exps c = ground (arith, owned_and_abortable wf exp c)

abort_experiments-MarksAbort :
    (world : World) (wf : ChaosWorkflow) (exps : List ChaosExperiment) (exp : ChaosExperiment)
    → Any (λ e. e ≡ exp) exps
    → Concerns wf exp
    → MarksAbort world exp (abort_experiments world wf exps)
unfolding abort_experiments
abort_experiments-MarksAbort world wf [] exp h c = ground arith
abort_experiments-MarksAbort world wf (e ∷ exps) exp (inl s) c =
    subst (λ x. MarksAbort world exp (abort_experiments world wf (x ∷ exps))) (sym s)
      (abort_experiments-head world wf exp exps c)
abort_experiments-MarksAbort world wf (e ∷ exps) exp (inr r) c =
    ground (arith, abort_experiments-MarksAbort world wf exps exp r c)

abort_workflow-writes :
    (world : World) (wf : ChaosWorkflow) → Any IsAbortWrite (abort_workflow world wf).acts
unfolding abort_workflow set_workflow_conditions
abort_workflow-writes world wf = elim (Option-cases world.status_error) [
  | inl n ↦ ground (arith, n)
  | inr (e, s) ↦ ground (arith, s)
]

Any-left : {A : Type 0} (P : A → Type 0) (xs ys : List A) → Any P xs → Any P (xs ++ ys)
Any-left P [] ys h = ground arith
Any-left P (x ∷ xs) ys (inl p) = inl p
Any-left P (x ∷ xs) ys (inr h) = inr (Any-left P xs ys h)

Any-right : {A : Type 0} (P : A → Type 0) (xs ys : List A) → Any P ys → Any P (xs ++ ys)
Any-right P [] ys h = h
Any-right P (x ∷ xs) ys h = inr (Any-right P xs ys h)

-- A running workflow that carries the abort mark, and whose experiments can be listed, asks, in one pass, each of its experiments that is
-- pending or running to abort, also when another request fails, and writes the phase `Aborted`.
pub reconcile_workflow-aborts :
    (world : World) (wf : ChaosWorkflow) (exps : List ChaosExperiment) (exp : ChaosExperiment)
    → is_marked "chaosplane.dev/abort" wf ≡ true
    → wf.status.phase ≡ running
    → world.list wf.meta.namespace ≡ ok exps
    → Any (λ e. e ≡ exp) exps
    → Concerns wf exp
    → MarksAbort world exp (reconcile_workflow world wf).acts
      × Any IsAbortWrite (reconcile_workflow world wf).acts
unfolding reconcile_workflow handle_workflow_abort
reconcile_workflow-aborts world wf exps exp m p l h c =
    let steps : (reconcile_workflow world wf).acts
        ≡ abort_experiments world wf exps ++ (abort_workflow world wf).acts =
      ground (arith, m, p, l) in
    (
      subst (MarksAbort world exp) (sym steps) (
          Any-left _ (abort_experiments world wf exps) (abort_workflow world wf).acts
            (abort_experiments-MarksAbort world wf exps exp h c)),
      subst (Any IsAbortWrite) (sym steps) (
          Any-right _ (abort_experiments world wf exps) (abort_workflow world wf).acts
            (abort_workflow-writes world wf)),
    )
