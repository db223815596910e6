-- ===== src/Controller/Experiment/Finishing.antt =====
-- experiment_controller.go: `reconcileCompleting`, `reconcileRecovering` and `handleDeletion`.
use chaosplane.Prelude.{
  Bool, true, false, none, some, [], ◌∷◌, if◌then◌else◌, pos, ltb_ℤ, leb_ℤ, concat,
}
use chaosplane.Api.Meta.{Result, ok, err, condition_true}
use chaosplane.Api.Experiment.{
  ChaosExperiment, SteadyStateSpec, ExperimentPhase, running, completing, recovering,
}
use chaosplane.Probe.{run_all}
use chaosplane.Controller.Pass.{
  Env, Pass, find_executor, rolls_back, emits, runs, stop, again, after, return, ◌▹◌, write_status,
  update,
}
use chaosplane.Controller.Experiment.Status.{
  finalizer_name, five_seconds, since, set_condition, set_failed, set_completed,
}
use chaosplane.Controller.Experiment.Starting.{has_probes}

unfoldable pub start_recovering : Env → ChaosExperiment → Pass
unfolding set_condition
start_recovering env exp =
    write_status env
      (set_condition env "Progressing" condition_true "Recovering" "Running after probes"
        (record exp {
          status = record (exp.status) { phase = recovering; recovery_start_time = some env.now };
        }))
      (emits "Normal" "Recovering" ▹ return again)

unfoldable pub reconcile_completing : Env → ChaosExperiment → Pass
unfolding set_failed set_completed start_recovering has_probes
reconcile_completing env exp = elim (find_executor env exp.spec.action.kind) [
  | err e ↦ set_failed env exp (concat ("completing: executor lost: " ∷ e ∷ []))
  | ok exec ↦ emits "Normal" "RollingBack" ▹ elim (exec.methods.rollback exp) [
    | some e ↦
        rolls_back exec.kind (some e)
        ▹ emits "Warning" "RollbackFailed"
        ▹ set_failed env exp (concat ("rollback failed: " ∷ e ∷ []))
    | none ↦
        rolls_back exec.kind none
        ▹ (if has_probes (λ s. s.after) exp.spec.steady_state
            then start_recovering env exp
            else set_completed env exp)
  ]
]

-- The recovery timeout, where one is set, has passed.
unfoldable pub recovery_expired : Env → ChaosExperiment → SteadyStateSpec → Bool
recovery_expired env exp s = elim exp.status.recovery_start_time [
  | none ↦ false
  | some start ↦
      if ltb_ℤ (pos 0) s.recovery_timeout then leb_ℤ s.recovery_timeout (since env start) else false
]

unfoldable pub recovered : Env → ChaosExperiment → Result Bool → Pass
unfolding set_failed set_completed
recovered env exp (err e) = set_failed env exp (concat ("after probe failed: " ∷ e ∷ []))
recovered env exp (ok false) = return (after five_seconds)
recovered env exp (ok true) = emits "Normal" "Recovered" ▹ set_completed env exp

unfoldable pub reconcile_recovering : Env → ChaosExperiment → Pass
unfolding recovered recovery_expired
reconcile_recovering env exp = elim exp.spec.steady_state [
  | none ↦ set_failed env exp "steady-state spec missing in Recovering phase"
  | some s ↦
      if recovery_expired env exp s
      then set_failed env exp "after steady-state probes did not pass within recovery timeout"
      else (let (ran, answer) = run_all env.run s.after in runs ran ▹ recovered env exp answer)
]

-- The phases in which a deletion rolls back.
unfoldable pub needs_rollback : ExperimentPhase → Bool
needs_rollback running = true
needs_rollback completing = true
needs_rollback recovering = true
needs_rollback _ = false

-- A rollback that fails, or that has no executor, is passed over.
unfoldable pub roll_back_deleted : Env → ChaosExperiment → Pass → Pass
roll_back_deleted env exp next = elim (find_executor env exp.spec.action.kind) [
  | err e ↦ next
  | ok exec ↦ emits "Normal" "RollingBack" ▹ elim (exec.methods.rollback exp) [
    | some e ↦ rolls_back exec.kind (some e) ▹ emits "Warning" "RollbackFailed" ▹ next
    | none ↦ rolls_back exec.kind none ▹ emits "Normal" "Completed" ▹ next
  ]
]

unfoldable pub release_finalizer : Env → ChaosExperiment → Pass
release_finalizer env exp =
    update env
      (record exp {
        meta = record (exp.meta) {
          finalizers = env.finalizers.remove exp.meta.finalizers finalizer_name;
        };
      })
      (return stop)

unfoldable pub handle_deletion : Env → ChaosExperiment → Pass
unfolding needs_rollback roll_back_deleted release_finalizer
handle_deletion env exp =
    if env.finalizers.contains exp.meta.finalizers finalizer_name
    then (if needs_rollback exp.status.phase
        then roll_back_deleted env exp (release_finalizer env exp)
        else release_finalizer env exp)
    else return stop
