-- ===== src/Controller/Experiment/Once.antt =====
-- How often the action of an experiment is executed.
use chaosplane.Prelude.{
  ℕ, suc, ◌+◌, ◌≤◌, ◌≡◌, refl, Bool, true, false, List, [], ◌++◌, arith, none, some,
}
use chaosplane.Prelude.{lookup-insert_self, zero, leb_ℤ, is_some}
use chaosplane.Prelude.Int.{double64}
use chaosplane.Api.Meta.{Time, ok}
use chaosplane.Executor.{Executor, get}
use chaosplane.Api.Experiment.{
  ChaosExperiment, ExperimentPhase, empty, pending, steady_state_checking, running,
}
use chaosplane.Controller.Pass.{Env, Effect}
use chaosplane.Controller.Experiment.Starting.{reconcile_pending, reconcile_steady_state_checking}
use chaosplane.Controller.Experiment.Status.{
  executed_annotation, abort_annotation, finalizer_name, since, is_annotated,
}
use chaosplane.Controller.Experiment.Running.{reconcile_running, mark_executed}
use chaosplane.Controller.Experiment.Reconcile.{reconcile_found}
use chaosplane.Controller.Experiment.Finishing.{
  reconcile_completing, reconcile_recovering, handle_deletion,
}
use chaosplane.Controller.Experiment.Trace.{
  start_after, phase_after, executed_after, executions, failed_writes, executions-append,
  failed_writes-append,
}
use chaosplane.Controller.Experiment.History.{History, created, passes, Serves, Anyhow}

is_annotated-mark_executed :
    (exp : ChaosExperiment) → is_annotated executed_annotation (mark_executed exp) ≡ true
unfolding is_annotated mark_executed
is_annotated-mark_executed exp =
    ground (arith, lookup-insert_self executed_annotation "true" exp.meta.annotations)

-- The executions that are still to come if every write succeeds.
abbrev budget : ExperimentPhase → Bool → ℕ
budget empty false = 1
budget pending false = 1
budget steady_state_checking false = 1
budget running false = 1
budget _ _ = 0

reconcile_running-budget :
    (b : Bool) (env : Env) (exp : ChaosExperiment)
    → is_annotated executed_annotation exp ≡ b
    → executions (reconcile_running env exp).effects
        + budget
            (phase_after running (reconcile_running env exp).effects)
            (executed_after b (reconcile_running env exp).effects)
      ≤ budget running b + failed_writes (reconcile_running env exp).effects
unfolding reconcile_running phase_after executed_after executions failed_writes is_annotated
reconcile_running-budget b env exp h = ground (arith, is_annotated-mark_executed exp)

reconcile_found-budget :
    (b : Bool) (env : Env) (exp : ChaosExperiment)
    → is_annotated executed_annotation exp ≡ b
    → executions (reconcile_found env exp).effects
        + budget
            (phase_after exp.status.phase (reconcile_found env exp).effects)
            (executed_after b (reconcile_found env exp).effects)
      ≤ budget exp.status.phase b + failed_writes (reconcile_found env exp).effects
unfolding reconcile_found phase_after executed_after executions failed_writes handle_deletion
    reconcile_pending reconcile_steady_state_checking reconcile_completing reconcile_recovering
reconcile_found-budget b env exp h = ground (arith, reconcile_running-budget b env exp h)

History-budget :
    {P : Env → ChaosExperiment → Type 0} {first e : ChaosExperiment} {es : List Effect}
    → History P first es e
    → executions es + budget e.status.phase (is_annotated executed_annotation e)
      ≤ budget first.status.phase (is_annotated executed_annotation first) + failed_writes es
unfolding executions failed_writes
History-budget created = omega arith
History-budget {first} (passes {es} {e} past env p serves) =
    rw (executions-append, failed_writes-append, serves.executed, serves.phase)
      (omega (
        arith,
        History-budget past,
        reconcile_found-budget (is_annotated executed_annotation e) env e refl,
      ))

budget-le-one : (p : ExperimentPhase) (b : Bool) → budget p b ≤ 1
budget-le-one p b = ground arith

-- In any history the action is executed once, and once more for each write that the API server
-- refuses, at most. Where every write succeeds it is executed at most once.
pub executions-le-failed_writes :
    {P : Env → ChaosExperiment → Type 0} {first e : ChaosExperiment} {es : List Effect}
    → History P first es e
    → executions es ≤ 1 + failed_writes es
executions-le-failed_writes {first} past = omega (
  arith,
  History-budget past,
  budget-le-one first.status.phase (is_annotated executed_annotation first),
)

-- A running experiment that is within its duration and not to be aborted, whose action succeeds, and
-- whose patch the API server refuses.
pub record Retries (env : Env) (exp : ChaosExperiment) (exec : Executor) (start : Time)
    : Type 0 where
  pub is_running : exp.status.phase ≡ running
  pub live : exp.meta.deletion_timestamp ≡ none
  pub held : env.finalizers.contains exp.meta.finalizers finalizer_name ≡ true
  pub not_aborted : is_annotated abort_annotation exp ≡ false
  pub no_conditions : exp.spec.abort_conditions ≡ []
  pub not_executed : is_annotated executed_annotation exp ≡ false
  pub start_time : exp.status.start_time ≡ some start
  pub in_time : leb_ℤ exp.spec.duration (since env start) ≡ false
  pub in_timeout : leb_ℤ (double64 exp.spec.duration) (since env start) ≡ false
  pub registered : get env.registry exp.spec.action.kind ≡ ok exec
  pub executes_well : exec.execute exp ≡ none
  pub refused : is_some env.patch_error ≡ true

retry_effects :
    (env : Env) (exp : ChaosExperiment) (exec : Executor) (start : Time)
    → Retries env exp exec start
    → (executions (reconcile_found env exp).effects ≡ 1)
      × (failed_writes (reconcile_found env exp).effects ≡ 1)
      × Serves exp (reconcile_found env exp).effects exp
unfolding reconcile_found reconcile_running executions failed_writes phase_after executed_after
    start_after
retry_effects env exp exec start r = (ground arith, ground arith, ground arith)

-- Where an experiment is running within its duration and timeout, has its finalizer and no abort
-- conditions, is neither to be aborted nor being deleted nor yet marked as executed, its action
-- succeeds, and the patch that marks it is refused each time, there is for each `n` a history in
-- which the action was executed `n` times and `n` writes were refused.
pub executes_again :
    (env : Env) (exp : ChaosExperiment) (exec : Executor) (start : Time) (n : ℕ)
    → Retries env exp exec start
    → (es : List Effect) × History Anyhow exp es exp × (executions es ≡ n) × (failed_writes es ≡ n)
unfolding executions failed_writes
executes_again env exp exec start zero r = ([], created, refl, refl)
executes_again env exp exec start (suc n) r =
    let (es, past, ran, refused) = executes_again env exp exec start n r in
    let (one, fault, served) = retry_effects env exp exec start r in
    (
      es ++ (reconcile_found env exp).effects,
      passes past env tt served,
      rw executions-append (omega (arith, ran, one)),
      rw failed_writes-append (omega (arith, refused, fault)),
    )
