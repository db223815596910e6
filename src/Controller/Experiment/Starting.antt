-- ===== src/Controller/Experiment/Starting.antt =====
-- experiment_controller.go: `reconcilePending` and `reconcileSteadyStateChecking`.
use chaosplane.Prelude.{
  String, Bool, true, false, Option, none, some, List, [], ◌∷◌, not, is_empty, if◌then◌else◌,
  concat, quote,
}
use chaosplane.Api.Meta.{Result, ok, err, condition_true, condition_false}
use chaosplane.Api.Experiment.{
  ChaosExperiment, ProbeSpec, SteadyStateSpec, steady_state_checking, running,
}
use chaosplane.Executor.{get}
use chaosplane.Probe.{run_all}
use chaosplane.Controller.Pass.{Env, Pass, emits, runs, again, return, ◌▹◌, write_status}
use chaosplane.Controller.Experiment.Status.{exp_ref, set_condition, set_failed}

-- The status of an experiment that starts to run; only the first of the two callers observes the
-- generation.
unfoldable pub started : Env → String → ChaosExperiment → ChaosExperiment
unfolding set_condition
started env message exp =
    let running_now = record exp {
      status = record (exp.status) { phase = running; start_time = some env.now };
    } in
    set_condition env "Degraded" condition_false "ExperimentStarted" "Experiment is running" (
      set_condition env "Available" condition_false "ExperimentStarted" "Experiment is running"
        (set_condition env "Progressing" condition_true "ExperimentStarted" message running_now))

unfoldable pub observed : ChaosExperiment → ChaosExperiment
observed exp = record exp {
  status = record (exp.status) { observed_generation = exp.meta.generation };
}

-- `exp.Spec.SteadyState != nil && len(probes) > 0`
unfoldable pub has_probes : (SteadyStateSpec → List ProbeSpec) → Option SteadyStateSpec → Bool
has_probes probes none = false
has_probes probes (some s) = not (is_empty (probes s))

unfoldable pub start_checking : Env → ChaosExperiment → Pass
unfolding set_condition observed
start_checking env exp =
    let checking =
      observed (record exp { status = record (exp.status) { phase = steady_state_checking } }) in
    write_status env
      (set_condition env "Progressing" condition_true "SteadyStateChecking" "Running before probes"
        checking)
      (emits "Normal" "SteadyStateChecking" ▹ return again)

unfoldable pub start_running : Env → ChaosExperiment → Pass
unfolding started observed
start_running env exp =
    write_status env (started env "Experiment is running" (observed exp))
      (emits "Normal" "Started" ▹ return again)

unfoldable pub reconcile_pending : Env → ChaosExperiment → Pass
unfolding set_failed has_probes start_checking start_running exp_ref
reconcile_pending env exp = elim (get env.registry exp.spec.action.kind) [
  | err e ↦ set_failed env exp (
      concat (
        "experiment "
        ∷ exp_ref exp
        ∷ ": no executor for action "
        ∷ quote exp.spec.action.kind
        ∷ []))
  | ok exec ↦ elim (exec.validate exp) [
    | some e ↦
        set_failed env exp (concat ("experiment " ∷ exp_ref exp ∷ ": validation failed: " ∷ e ∷ []))
    | none ↦
        if has_probes (λ s. s.before) exp.spec.steady_state
        then start_checking env exp
        else start_running env exp
  ]
]

unfoldable pub checked : Env → ChaosExperiment → Result Bool → Pass
unfolding set_failed started exp_ref
checked env exp (err e) =
    emits "Warning" "SteadyStateCheckFailed"
    ▹ set_failed env exp (concat ("experiment " ∷ exp_ref exp ∷ ": before probe failed: " ∷ e ∷ []))
checked env exp (ok false) =
    emits "Warning" "SteadyStateCheckFailed"
    ▹ set_failed env exp
        (concat ("experiment " ∷ exp_ref exp ∷ ": before steady-state probe did not pass" ∷ []))
checked env exp (ok true) =
    emits "Normal" "SteadyStateCheckPassed"
    ▹ write_status env (started env "Before probes passed, experiment is running" exp)
        (emits "Normal" "Started" ▹ return again)

unfoldable pub reconcile_steady_state_checking : Env → ChaosExperiment → Pass
unfolding checked
reconcile_steady_state_checking env exp = elim exp.spec.steady_state [
  | none ↦ set_failed env exp (
      concat (
        "experiment "
        ∷ exp_ref exp
        ∷ ": steady-state spec missing in SteadyStateChecking phase"
        ∷ []))
  | some s ↦
      emits "Normal" "SteadyStateCheckStarted"
      ▹ (let (ran, answer) = run_all env.run s.before in runs ran ▹ checked env exp answer)
]
