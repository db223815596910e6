-- ===== src/Controller/Experiment/Phases.antt =====
-- The state machine of the experiment's phases.
use chaosplane.Prelude.{
  ◌≡◌, refl, ◌⊎◌, inl, inr, arith, List, subst, sym, ◌∙◌, Option-cases, Bool-cases,
}
use chaosplane.Api.Experiment.{
  ChaosExperiment, ExperimentPhase, empty, pending, steady_state_checking, running, completing,
  recovering, completed, failed, aborted,
}
use chaosplane.Controller.Pass.{Env, Effect}
use chaosplane.Controller.Experiment.Starting.{reconcile_pending, reconcile_steady_state_checking}
use chaosplane.Controller.Experiment.Running.{reconcile_running}
use chaosplane.Controller.Experiment.Reconcile.{reconcile_found, dispatch, add_finalizer}
use chaosplane.Controller.Experiment.Status.{finalizer_name}
use chaosplane.Controller.Experiment.Finishing.{
  reconcile_completing, reconcile_recovering, handle_deletion,
}
use chaosplane.Controller.Experiment.Trace.{phase_after, executions, executions-append}
use chaosplane.Controller.Experiment.History.{History, created, passes}

-- The phases of an experiment that is on its way.
pub data IsActive : ExperimentPhase → Type 0 where
  is_empty : IsActive empty
  is_pending : IsActive pending
  is_checking : IsActive steady_state_checking
  is_running : IsActive running
  is_completing : IsActive completing
  is_recovering : IsActive recovering

infix 40 ◌⟶◌
pub data ◌⟶◌ : ExperimentPhase → ExperimentPhase → Type 0 where
  check_new : empty ⟶ steady_state_checking
  check : pending ⟶ steady_state_checking
  begin_new : empty ⟶ running
  begin : pending ⟶ running
  pass_check : steady_state_checking ⟶ running
  finish : running ⟶ completing
  abort : running ⟶ aborted
  recover : completing ⟶ recovering
  complete : completing ⟶ completed
  settle : recovering ⟶ completed
  give_up : {p : ExperimentPhase} → IsActive p → p ⟶ failed

ruleset edges = (
  check_new, check, begin_new, begin, pass_check, finish, abort, recover, complete, settle, give_up,
  is_empty, is_pending, is_checking, is_running, is_completing, is_recovering,
)

abbrev pub Moves : ExperimentPhase → ExperimentPhase → Type 0
Moves p q = (q ≡ p) ⊎ (p ⟶ q)

pending-Moves :
    (env : Env) (e : ChaosExperiment)
    → Moves pending (phase_after pending (reconcile_pending env e).effects)
unfolding reconcile_pending phase_after
pending-Moves env e = grind (arith, edges)

checking-Moves :
    (env : Env) (e : ChaosExperiment)
    → Moves steady_state_checking
        (phase_after steady_state_checking (reconcile_steady_state_checking env e).effects)
unfolding reconcile_steady_state_checking phase_after
checking-Moves env e = grind (arith, edges)

-- What each phase's method may lead to, as equations.
running_cases :
    (env : Env) (e : ChaosExperiment)
    → let q = phase_after running (reconcile_running env e).effects in
      (q ≡ running) ⊎ (q ≡ completing) ⊎ (q ≡ aborted) ⊎ (q ≡ failed)
unfolding reconcile_running phase_after
running_cases env e = ground arith

running-Moves :
    (env : Env) (e : ChaosExperiment)
    → Moves running (phase_after running (reconcile_running env e).effects)
running-Moves env e = grind (arith, edges, running_cases env e)

completing-Moves :
    (env : Env) (e : ChaosExperiment)
    → Moves completing (phase_after completing (reconcile_completing env e).effects)
unfolding reconcile_completing phase_after
completing-Moves env e = grind (arith, edges)

recovering-Moves :
    (env : Env) (e : ChaosExperiment)
    → Moves recovering (phase_after recovering (reconcile_recovering env e).effects)
unfolding reconcile_recovering phase_after
recovering-Moves env e = grind (arith, edges)

deletion-phase_after :
    (env : Env) (e : ChaosExperiment) (p : ExperimentPhase)
    → phase_after p (handle_deletion env e).effects ≡ p
unfolding handle_deletion phase_after
deletion-phase_after env e p = ground arith

new-Moves :
    (env : Env) (e : ChaosExperiment)
    → Moves empty (phase_after empty (reconcile_pending env e).effects)
unfolding reconcile_pending phase_after
new-Moves env e = grind (arith, edges)

dispatch-Moves :
    (env : Env) (e : ChaosExperiment) (p : ExperimentPhase)
    → Moves p (phase_after p (dispatch env e p).effects)
unfolding dispatch phase_after
dispatch-Moves env e empty = new-Moves env e
dispatch-Moves env e pending = pending-Moves env e
dispatch-Moves env e steady_state_checking = checking-Moves env e
dispatch-Moves env e running = running-Moves env e
dispatch-Moves env e completing = completing-Moves env e
dispatch-Moves env e recovering = recovering-Moves env e
dispatch-Moves env e _ = inl refl

-- Each pass leaves the phase or takes one edge of the state machine: a new experiment is checked or
-- started, a checked one is started, a running one is finished or aborted, and so on; only a phase
-- that is on its way may be given up as Failed.
pub reconcile_found-Moves :
    (env : Env) (e : ChaosExperiment)
    → Moves e.status.phase (phase_after e.status.phase (reconcile_found env e).effects)
unfolding reconcile_found add_finalizer
reconcile_found-Moves env e = elim (Option-cases e.meta.deletion_timestamp) [
  | inr (t, d) ↦ rw (d, reconcile_found) (inl (deletion-phase_after env e e.status.phase))
  | inl live ↦ elim (Bool-cases (env.finalizers.contains e.meta.finalizers finalizer_name)) [
    | inl held ↦ rw (live, held, reconcile_found) (dispatch-Moves env e e.status.phase)
    | inr bare ↦ rw (live, bare, reconcile_found) (inl (unfold phase_after in ground arith))
  ]
]

-- The final phases.
pub data IsFinished : ExperimentPhase → Type 0 where
  is_completed : IsFinished completed
  is_failed : IsFinished failed
  is_aborted : IsFinished aborted

finished-Moves : {p q : ExperimentPhase} → IsFinished p → Moves p q → q ≡ p
finished-Moves f (inl e) = e
finished-Moves is_completed (inr (give_up a)) = elim a [ ]
finished-Moves is_failed (inr (give_up a)) = elim a [ ]
finished-Moves is_aborted (inr (give_up a)) = elim a [ ]

finished-executions :
    (env : Env) (e : ChaosExperiment)
    → IsFinished e.status.phase
    → executions (reconcile_found env e).effects ≡ 0
unfolding reconcile_found handle_deletion executions
finished-executions env e f = at e.status.phase f refl
  where
    at :
        (p : ExperimentPhase)
        → IsFinished p
        → e.status.phase ≡ p
        → executions (reconcile_found env e).effects ≡ 0
    at p is_completed q = ground arith
    at p is_failed q = ground arith
    at p is_aborted q = ground arith

-- A finished experiment keeps its phase in every history, and its action is not executed again.
pub finished_stays :
    {P : Env → ChaosExperiment → Type 0} {first e : ChaosExperiment} {es : List Effect}
    → History P first es e
    → IsFinished first.status.phase
    → (e.status.phase ≡ first.status.phase) × (executions es ≡ 0)
unfolding executions
finished_stays created f = (refl, refl)
finished_stays (passes {es} {e} past env p serves) f =
    let (same, none_yet) = finished_stays past f in
    let f' = subst IsFinished (sym same) f in
    (
      serves.phase ∙ finished-Moves f' (reconcile_found-Moves env e) ∙ same,
      rw executions-append (omega (arith, none_yet, finished-executions env e f')),
    )
