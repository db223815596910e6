-- ===== src/Controller/Experiment/Rollback.antt =====
-- Chaos is rolled back before an experiment counts as finished.
use chaosplane.Prelude.{◌≡◌, Bool, true, arith}
use chaosplane.Api.Experiment.{ChaosExperiment, ExperimentPhase, running}
use chaosplane.Api.Meta.{ok, err}
use chaosplane.Controller.Pass.{Env, Effect}
use chaosplane.Executor.{get}
use chaosplane.Controller.Experiment.Starting.{reconcile_pending, reconcile_steady_state_checking}
use chaosplane.Controller.Experiment.Running.{reconcile_running}
use chaosplane.Controller.Experiment.Reconcile.{reconcile_found}
use chaosplane.Controller.Experiment.Finishing.{
  reconcile_completing, reconcile_recovering, handle_deletion,
}
use chaosplane.Controller.Experiment.Trace.{
  phase_after, clean_after, is_quiet, clean_after-append, start_after,
}
use chaosplane.Controller.Experiment.History.{History, created, passes}
use text.Mathlib.TextPositions.{eq_refl}
use chaosplane.Prelude.{String, string_eq, subst, false, none, some, List, ◌≢◌, refl, is_some}
use chaosplane.Api.Experiment.{completing}

-- Where the phase is quiet, no chaos is in place.
abbrev pub IsSafe : ExperimentPhase → Bool → Type 0
IsSafe p b = is_quiet p ≡ true → b ≡ true

abbrev Keeps : String → ExperimentPhase → Bool → List Effect → Type 0
Keeps kind p b es = IsSafe (phase_after p es) (clean_after kind b es)

-- The type of the action is `kind`.
abbrev pub IsOfKind : String → ChaosExperiment → Type 0
IsOfKind kind exp = exp.spec.action.kind ≡ kind

abbrev pub Unedited : String → Env → ChaosExperiment → Type 0
Unedited kind env exp = IsOfKind kind exp

reconcile_running-Keeps :
    (b : Bool) (env : Env) (exp : ChaosExperiment)
    → Keeps exp.spec.action.kind running b (reconcile_running env exp).effects
unfolding reconcile_running phase_after clean_after
reconcile_running-Keeps b env exp = ground (arith, eq_refl exp.spec.action.kind)

reconcile_found-Keeps :
    (b : Bool) (env : Env) (exp : ChaosExperiment)
    → IsSafe exp.status.phase b
    → Keeps exp.spec.action.kind exp.status.phase b (reconcile_found env exp).effects
unfolding reconcile_found phase_after clean_after handle_deletion reconcile_pending
    reconcile_steady_state_checking reconcile_completing reconcile_recovering
reconcile_found-Keeps b env exp h =
    ground (arith, eq_refl exp.spec.action.kind, reconcile_running-Keeps b env exp)

-- After any history in which the type of the action stays the same, with any failures of writes,
-- probes and executors, an experiment whose phase is neither Running, Completing nor Failed has no
-- chaos of that type in place: since the last execution of the action, if any, a rollback by the executor of that
-- type has succeeded.
pub History-IsSafe :
    {kind : String} {first e : ChaosExperiment} {es : List Effect}
    → History (Unedited kind) first es e
    → is_quiet e.status.phase ≡ true
    → clean_after kind true es ≡ true
unfolding clean_after
History-IsSafe created h = refl
History-IsSafe {kind} (passes {es} {e} {e'} past env p serves) h = ground (
  arith,
  clean_after-append kind true es (reconcile_found env e).effects,
  subst (λ k. Keeps k e.status.phase (clean_after kind true es) (reconcile_found env e).effects) p
      (reconcile_found-Keeps (clean_after kind true es) env e (History-IsSafe past)),
  serves.phase,
)

-- The registry has an executor for the action, and its rollback succeeds.
unfoldable pub can_roll_back : Env → ChaosExperiment → Bool
can_roll_back env exp = elim (get env.registry exp.spec.action.kind) [
  | err e ↦ false
  | ok exec ↦ elim (exec.rollback exp) [ none ↦ true | some e ↦ false ]
]

-- As `is_quiet`, with Failed among the phases.
abbrev pub is_settled : ExperimentPhase → Bool
is_settled running = false
is_settled completing = false
is_settled _ = true

-- The type of the action is `kind`, and its rollback succeeds.
abbrev pub CanRollBack : String → Env → ChaosExperiment → Type 0
CanRollBack kind env exp = (can_roll_back env exp ≡ true) × IsOfKind kind exp

record Settles (p : ExperimentPhase) (t : Bool) (b : Bool) : Type 0 where
  clean : is_settled p ≡ true → b ≡ true
  timed : p ≡ running → t ≡ true

reconcile_running-Settles :
    (b : Bool) (env : Env) (exp : ChaosExperiment)
    → can_roll_back env exp ≡ true
    → is_some exp.status.start_time ≡ true
    → Settles
        (phase_after running (reconcile_running env exp).effects)
        (is_some (start_after exp.status.start_time (reconcile_running env exp).effects))
        (clean_after exp.spec.action.kind b (reconcile_running env exp).effects)
unfolding reconcile_running phase_after clean_after start_after can_roll_back
reconcile_running-Settles b env exp h t = ground (arith, eq_refl exp.spec.action.kind)

reconcile_found-Settles :
    (b : Bool) (env : Env) (exp : ChaosExperiment)
    → can_roll_back env exp ≡ true
    → Settles exp.status.phase (is_some exp.status.start_time) b
    → Settles
        (phase_after exp.status.phase (reconcile_found env exp).effects)
        (is_some (start_after exp.status.start_time (reconcile_found env exp).effects))
        (clean_after exp.spec.action.kind b (reconcile_found env exp).effects)
unfolding reconcile_found phase_after clean_after start_after can_roll_back handle_deletion
    reconcile_pending reconcile_steady_state_checking reconcile_completing reconcile_recovering
reconcile_found-Settles b env exp h s =
    ground (arith, eq_refl exp.spec.action.kind, reconcile_running-Settles b env exp h)

History-Settles :
    {kind : String} {first e : ChaosExperiment} {es : List Effect}
    → History (CanRollBack kind) first es e
    → Settles first.status.phase (is_some first.status.start_time) true
    → Settles e.status.phase (is_some e.status.start_time) (clean_after kind true es)
unfolding clean_after
History-Settles created s = s
History-Settles {kind} (passes {es} {e} {e'} past env (able, same) serves) s =
    let step =
      subst
        (λ k.
          Settles (phase_after e.status.phase (reconcile_found env e).effects)
            (is_some (start_after e.status.start_time (reconcile_found env e).effects))
            (clean_after k (clean_after kind true es) (reconcile_found env e).effects))
        same
        (reconcile_found-Settles (clean_after kind true es) env e able (History-Settles past s)) in
    rw (clean_after-append, serves.phase, serves.start_time) step

-- While each pass reads the same type of action and finds an executor of it whose rollback succeeds,
-- an experiment that began outside Running leaves no chaos of that type in place when it is out of
-- Running and Completing, in Failed too: a rollback of that type has succeeded since the action was
-- last executed.
pub failed_clean :
    {kind : String} {first e : ChaosExperiment} {es : List Effect}
    → History (CanRollBack kind) first es e
    → first.status.phase ≢ running
    → is_settled e.status.phase ≡ true
    → clean_after kind true es ≡ true
failed_clean past h settled =
    (History-Settles past (record { clean = λ _. refl; timed = λ r. absurd (h r) })).clean settled
