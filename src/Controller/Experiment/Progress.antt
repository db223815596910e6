-- ===== src/Controller/Experiment/Progress.antt =====
-- An experiment comes to an end.
use chaosplane.Prelude.{
  ℕ, suc, ◌+◌, ◌≤◌, ◌<◌, ◌≡◌, refl, Bool, true, false, none, some, List, ◌||◌, arith, leb_ℤ, ◌⊎◌,
  inl, inr, subst, sym, ◌≢◌,
}
use chaosplane.Api.Meta.{ok}
use chaosplane.Api.Experiment.{
  ChaosExperiment, ExperimentPhase, empty, pending, steady_state_checking, running, completing,
  recovering,
}
use chaosplane.Probe.{run_all}
use chaosplane.Controller.Pass.{Env, Effect}
use chaosplane.Controller.Experiment.Status.{finalizer_name, since}
use chaosplane.Controller.Experiment.Starting.{reconcile_pending, reconcile_steady_state_checking}
use chaosplane.Controller.Experiment.Running.{reconcile_running}
use chaosplane.Controller.Experiment.Finishing.{
  recovery_expired, reconcile_completing, reconcile_recovering,
}
use chaosplane.Controller.Experiment.Reconcile.{reconcile_found}
use chaosplane.Controller.Experiment.Trace.{phase_after}
use chaosplane.Controller.Experiment.History.{History, created, passes}
use chaosplane.Controller.Experiment.Phases.{
  IsActive, is_empty, is_pending, is_checking, is_running, is_completing, is_recovering, IsFinished,
  is_completed, is_failed, is_aborted, Moves, check_new, check, begin_new, begin, pass_check,
  finish, abort, recover, complete, settle, give_up, reconcile_found-Moves,
}

-- The passes that are left at most.
abbrev pub rank : ExperimentPhase → ℕ
rank empty = 5
rank pending = 5
rank steady_state_checking = 4
rank running = 3
rank completing = 2
rank recovering = 1
rank _ = 0

-- The duration has passed since the start, or no start is known.
abbrev pub is_due : Env → ChaosExperiment → Bool
is_due env e = elim e.status.start_time [
  | none ↦ true
  | some start ↦ leb_ℤ e.spec.duration (since env start)
]

-- The recovery has timed out, or the probes give an answer other than `not yet`.
abbrev pub is_decided : Env → ChaosExperiment → Bool
is_decided env e = elim e.spec.steady_state [
  | none ↦ true
  | some s ↦
      recovery_expired env e s || elim ((run_all env.run s.after).1) [ ok false ↦ false | _ ↦ true ]
]

-- A pass over an experiment that is not being deleted, with a status that can be written; in Running
-- the duration has passed, and in Recovering the outcome is known.
pub record Proceeds (env : Env) (e : ChaosExperiment) : Type 0 where
  pub live : e.meta.deletion_timestamp ≡ none
  pub held : env.finalizers.contains e.meta.finalizers finalizer_name ≡ true
  pub written : env.status_error ≡ none
  pub due : e.status.phase ≡ running → is_due env e ≡ true
  pub decided : e.status.phase ≡ recovering → is_decided env e ≡ true

pending-rank :
    (env : Env) (e : ChaosExperiment)
    → env.status_error ≡ none
    → rank (phase_after e.status.phase (reconcile_pending env e).effects) < 5
unfolding reconcile_pending phase_after
pending-rank env e h = ground arith

checking-rank :
    (env : Env) (e : ChaosExperiment)
    → env.status_error ≡ none
    → rank (phase_after e.status.phase (reconcile_steady_state_checking env e).effects) < 4
unfolding reconcile_steady_state_checking phase_after
checking-rank env e h = ground arith

running-rank :
    (env : Env) (e : ChaosExperiment)
    → env.status_error ≡ none
    → is_due env e ≡ true
    → rank (phase_after e.status.phase (reconcile_running env e).effects) < 3
unfolding reconcile_running phase_after
running-rank env e h due = ground arith

completing-rank :
    (env : Env) (e : ChaosExperiment)
    → env.status_error ≡ none
    → rank (phase_after e.status.phase (reconcile_completing env e).effects) < 2
unfolding reconcile_completing phase_after
completing-rank env e h = ground arith

recovering-rank :
    (env : Env) (e : ChaosExperiment)
    → env.status_error ≡ none
    → is_decided env e ≡ true
    → rank (phase_after e.status.phase (reconcile_recovering env e).effects) < 1
unfolding reconcile_recovering phase_after
recovering-rank env e h d = ground arith

-- A pass that can proceed takes an unfinished experiment at least one phase further.
reconcile_found-rank :
    (env : Env) (e : ChaosExperiment)
    → Proceeds env e
    → (rank e.status.phase ≡ 0)
      ⊎ (rank (phase_after e.status.phase (reconcile_found env e).effects) < rank e.status.phase)
unfolding reconcile_found
reconcile_found-rank env e p = ground (
  arith,
  pending-rank env e p.written,
  checking-rank env e p.written,
  running-rank env e p.written,
  completing-rank env e p.written,
  recovering-rank env e p.written,
)

-- The passes of a history.
abbrev pub passes_of :
    {P : Env → ChaosExperiment → Type 0} {first e : ChaosExperiment} {es : List Effect}
    → History P first es e
    → ℕ
passes_of created = 0
passes_of (passes past env p serves) = suc (passes_of past)

rank-zero-Moves : (p q : ExperimentPhase) → rank p ≡ 0 → Moves p q → rank q ≡ 0
rank-zero-Moves p q z (inl e) = rw e z
rank-zero-Moves p q z (inr check_new) = absurd (omega arith)
rank-zero-Moves p q z (inr check) = absurd (omega arith)
rank-zero-Moves p q z (inr begin_new) = absurd (omega arith)
rank-zero-Moves p q z (inr begin) = absurd (omega arith)
rank-zero-Moves p q z (inr pass_check) = absurd (omega arith)
rank-zero-Moves p q z (inr finish) = absurd (omega arith)
rank-zero-Moves p q z (inr abort) = refl
rank-zero-Moves p q z (inr recover) = absurd (omega arith)
rank-zero-Moves p q z (inr complete) = refl
rank-zero-Moves p q z (inr settle) = refl
rank-zero-Moves p q z (inr (give_up a)) = refl

History-rank :
    {first e : ChaosExperiment} {es : List Effect} (past : History Proceeds first es e)
    → (rank e.status.phase ≡ 0) ⊎ (rank e.status.phase + passes_of past ≤ rank first.status.phase)
History-rank created = inr (omega arith)
History-rank (passes {es} {e} past env p serves) = rw serves.phase (
    ground (
      arith,
      History-rank past,
      reconcile_found-rank env e p,
      λ (z : rank e.status.phase ≡ 0). rank-zero-Moves _ _ z (reconcile_found-Moves env e),
    ))

abbrev IsKnown : ExperimentPhase → Type 0
IsKnown p = IsActive p ⊎ IsFinished p

Moves-IsKnown : (p q : ExperimentPhase) → IsKnown p → Moves p q → IsKnown q
Moves-IsKnown p q k (inl e) = subst IsKnown (sym e) k
Moves-IsKnown p q k (inr check_new) = inl is_checking
Moves-IsKnown p q k (inr check) = inl is_checking
Moves-IsKnown p q k (inr begin_new) = inl is_running
Moves-IsKnown p q k (inr begin) = inl is_running
Moves-IsKnown p q k (inr pass_check) = inl is_running
Moves-IsKnown p q k (inr finish) = inl is_completing
Moves-IsKnown p q k (inr abort) = inr is_aborted
Moves-IsKnown p q k (inr recover) = inl is_recovering
Moves-IsKnown p q k (inr complete) = inr is_completed
Moves-IsKnown p q k (inr settle) = inr is_completed
Moves-IsKnown p q k (inr (give_up a)) = inr is_failed

History-IsKnown :
    {P : Env → ChaosExperiment → Type 0} {first e : ChaosExperiment} {es : List Effect}
    → History P first es e
    → IsKnown first.status.phase
    → IsKnown e.status.phase
History-IsKnown created k = k
History-IsKnown (passes {es} {e} past env p serves) k =
    rw serves.phase (Moves-IsKnown _ _ (History-IsKnown past k) (reconcile_found-Moves env e))

IsActive-rank : {p : ExperimentPhase} → IsActive p → rank p ≢ 0
IsActive-rank is_empty = omega arith
IsActive-rank is_pending = omega arith
IsActive-rank is_checking = omega arith
IsActive-rank is_running = omega arith
IsActive-rank is_completing = omega arith
IsActive-rank is_recovering = omega arith

rank-le-five : (p : ExperimentPhase) → rank p ≤ 5
rank-le-five p = ground arith

-- A new experiment, or one on its way, is Completed, Failed or Aborted after five passes that can
-- proceed: each reads an experiment that has its finalizer and is not being deleted, its status write
-- succeeds, the duration has passed if it reads Running, and if it reads Recovering, the recovery
-- timeout has passed or the probes after the chaos do not answer no. This holds whatever the probes
-- before the chaos and the abort conditions, the executors and the registry answer.
pub five_passes_finish :
    {first e : ChaosExperiment} {es : List Effect} (past : History Proceeds first es e)
    → IsActive first.status.phase
    → 5 ≤ passes_of past
    → IsFinished e.status.phase
five_passes_finish {first} {e} past a enough = elim (History-IsKnown past (inl a)) [
  | inr f ↦ f
  | inl active ↦ absurd (elim (History-rank past) [
    | inl z ↦ IsActive-rank active z
    | inr le ↦ IsActive-rank active (omega (arith, rank-le-five first.status.phase))
  ])
]
