-- ===== src/Controller/Experiment/Reports.antt =====
-- The conditions that the status writes report.
use chaosplane.Probe.{run_all}
use chaosplane.Prelude.{
  ◌≢◌, refl, Bool, true, false, List, arith, string_eq, eq_iff, ◌≡◌, some, none, String, Option,
  All, Option-cases, inl, inr,
}
use chaosplane.Api.Meta.{
  Condition, Result, ok, err, ConditionStatus, condition_true, condition_false,
}
use chaosplane.Api.Experiment.{
  ChaosExperiment, ChaosExperimentStatus, ExperimentPhase, running, completed, failed, aborted,
}
use chaosplane.Controller.Conditions.{upsert, condition_status, condition_status-upsert}
use chaosplane.Controller.Pass.{Env, Effect, Pass, writes_status, write_status}
use chaosplane.Controller.Experiment.Status.{
  set_failed, set_completed, set_aborted, transition_to_completing,
}
use chaosplane.Controller.Experiment.Starting.{
  started, start_checking, start_running, checked, reconcile_steady_state_checking,
}
use chaosplane.Controller.Experiment.Finishing.{start_recovering}

abbrev pub status_of : String → ChaosExperimentStatus → Option ConditionStatus
status_of kind s = condition_status kind s.conditions

abbrev Shows : ConditionStatus → ConditionStatus → ConditionStatus → ChaosExperimentStatus → Type 0
Shows progressing available degraded s =
    (status_of "Progressing" s ≡ some progressing)
    × (status_of "Available" s ≡ some available)
    × (status_of "Degraded" s ≡ some degraded)

-- Every condition but Progressing is as it was.
abbrev KeepsOthers : ChaosExperimentStatus → ChaosExperimentStatus → Type 0
KeepsOthers old s = (kind : String) → kind ≢ "Progressing" → status_of kind s ≡ status_of kind old

-- The conditions that go with a phase: the three of a finished or a running experiment, and otherwise
-- that it is progressing, with the others as they were.
abbrev pub Fits : ChaosExperimentStatus → ChaosExperimentStatus → ExperimentPhase → Type 0
Fits old s completed = Shows condition_false condition_true condition_false s
Fits old s failed = Shows condition_false condition_false condition_true s
Fits old s aborted = Shows condition_false condition_false condition_false s
Fits old s running = Shows condition_true condition_false condition_false s
Fits old s _ = (status_of "Progressing" s ≡ some condition_true) × KeepsOthers old s

abbrev pub Reports : ChaosExperimentStatus → Effect → Type 0
Reports old (writes_status e r) = Fits old e.status e.status.phase
Reports old _ = Unit {0}

write_status-Reports :
    (old : ChaosExperimentStatus) (env : Env) (exp : ChaosExperiment) (next : Pass)
    → Reports old (writes_status exp none)
    → All (Reports old) next.effects
    → All (Reports old) (write_status env exp next).effects
write_status-Reports old env exp next h k = elim (Option-cases env.status_error) [
  | inl e ↦ rw e (h, k)
  | inr (x, e) ↦ rw e (h, tt)
]

-- A status write sets Progressing alone.
others-upsert :
    (c : Condition) (cs : List Condition) (kind : String)
    → c.kind ≡ "Progressing"
    → kind ≢ "Progressing"
    → condition_status kind (upsert c cs) ≡ condition_status kind cs
others-upsert c cs kind e n =
    ground (arith, condition_status-upsert kind c cs, e, n, eq_iff c.kind kind)

-- All three conditions are set.
ended-Reports :
    (old : ChaosExperimentStatus) (env : Env) (exp : ChaosExperiment) (reason : String)
    → All (Reports old) (set_failed env exp reason).effects
      × All (Reports old) (set_completed env exp).effects
      × All (Reports old) (set_aborted env exp).effects
      × All (Reports old) (start_running env exp).effects
unfolding set_failed set_completed set_aborted start_running
ended-Reports old env exp reason = (
  write_status-Reports old env _ _
      (simp condition_status-upsert, simp condition_status-upsert, simp condition_status-upsert)
      (tt, tt),
  write_status-Reports old env _ _
      (simp condition_status-upsert, simp condition_status-upsert, simp condition_status-upsert)
      (tt, tt),
  write_status-Reports old env _ _
      (simp condition_status-upsert, simp condition_status-upsert, simp condition_status-upsert)
      (tt, tt),
  write_status-Reports old env _ _
      (simp condition_status-upsert, simp condition_status-upsert, simp condition_status-upsert)
      (tt, tt),
)

checked-Reports :
    (env : Env) (exp : ChaosExperiment) (answer : Result Bool)
    → All (Reports exp.status) (checked env exp answer).effects
unfolding checked started
checked-Reports env exp (err e) = (tt, (ended-Reports exp.status env exp _).0)
checked-Reports env exp (ok false) = (tt, (ended-Reports exp.status env exp _).0)
checked-Reports env exp (ok true) = (
  tt,
  write_status-Reports exp.status env _ _
      (simp condition_status-upsert, simp condition_status-upsert, simp condition_status-upsert)
      (tt, tt),
)

steady_state_checking-Reports :
    (env : Env) (exp : ChaosExperiment)
    → All (Reports exp.status) (reconcile_steady_state_checking env exp).effects
unfolding reconcile_steady_state_checking
steady_state_checking-Reports env exp = elim (Option-cases exp.spec.steady_state) [
  | inl e ↦ rw (reconcile_steady_state_checking, e) ((ended-Reports exp.status env exp _).0)
  | inr (s, e) ↦
      rw (reconcile_steady_state_checking, e)
        (tt, (tt, checked-Reports env exp (run_all env.run s.before).1))
]

-- Each method that writes a status, and the pass in SteadyStateChecking, reports the conditions that
-- fit the phase that it writes: Completed is available only, Failed degraded only, Aborted none of the
-- three, and Running progressing only. SteadyStateChecking, Completing and Recovering are progressing,
-- and every other condition stays as it was.
pub outcome-Reports :
    (env : Env) (exp : ChaosExperiment) (reason : String)
    → All (Reports exp.status) (set_failed env exp reason).effects
      × All (Reports exp.status) (set_completed env exp).effects
      × All (Reports exp.status) (set_aborted env exp).effects
      × All (Reports exp.status) (start_running env exp).effects
      × All (Reports exp.status) (reconcile_steady_state_checking env exp).effects
      × All (Reports exp.status) (start_checking env exp).effects
      × All (Reports exp.status) (transition_to_completing env exp).effects
      × All (Reports exp.status) (start_recovering env exp).effects
unfolding start_checking transition_to_completing start_recovering
outcome-Reports env exp reason =
    let (failure, completion, abortion, start) = ended-Reports exp.status env exp reason in
    (
      failure,
      completion,
      abortion,
      start,
      steady_state_checking-Reports env exp,
      write_status-Reports exp.status env _ _
          (simp condition_status-upsert, λ kind n. others-upsert _ _ kind refl n) (tt, tt),
      write_status-Reports exp.status env _ _
          (simp condition_status-upsert, λ kind n. others-upsert _ _ kind refl n) tt,
      write_status-Reports exp.status env _ _
          (simp condition_status-upsert, λ kind n. others-upsert _ _ kind refl n) (tt, tt),
    )
