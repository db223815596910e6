-- ===== src/Controller/Experiment/Running.antt =====
-- experiment_controller.go: `reconcileRunning`, the abort conditions and `handleAbort`.
use chaosplane.Prelude.{
  true, false, Option, none, some, List, [], ◌∷◌, ◌&&◌, not, is_empty, if◌then◌else◌, ltb_ℤ, leb_ℤ,
  insert, concat, quote,
}
use chaosplane.Prelude.Int.{sub64, double64}
use chaosplane.Api.Meta.{Duration, Error, Result, ok, err}
use chaosplane.Api.Experiment.{
  ChaosExperiment, AbortAction, AbortConditionSpec, ProbeSpec, rollback,
}
use chaosplane.Probe.{Probe, Prober, new_probe}
use chaosplane.Controller.Pass.{
  Env, Pass, Registered, find_executor, executes, rolls_back, emits, runs, after, return, ◌▹◌,
  patch,
}
use chaosplane.Controller.Experiment.Status.{
  abort_annotation, executed_annotation, five_seconds, is_annotated, exp_ref, since, set_failed,
  set_aborted, transition_to_completing,
}

unfoldable pub handle_abort : Env → ChaosExperiment → Pass
unfolding set_failed set_aborted exp_ref
handle_abort env exp = elim (find_executor env exp.spec.action.kind) [
  | err e ↦ set_failed env exp (
      concat (
        "experiment "
        ∷ exp_ref exp
        ∷ ": abort: executor for action "
        ∷ quote exp.spec.action.kind
        ∷ " lost: "
        ∷ e
        ∷ []))
  | ok exec ↦ emits "Normal" "RollbackStarted" ▹ elim (exec.methods.rollback exp) [
    | some e ↦
        rolls_back exec.kind (some e)
        ▹ emits "Warning" "RollbackFailed"
        ▹ set_failed env exp
            (concat ("experiment " ∷ exp_ref exp ∷ ": abort rollback failed: " ∷ e ∷ []))
    | none ↦ rolls_back exec.kind none ▹ emits "Normal" "RollbackCompleted" ▹ set_aborted env exp
  ]
]

unfoldable pub abort_condition_to_probe_spec : AbortConditionSpec → ProbeSpec
abort_condition_to_probe_spec ac = record {
  name = ac.name;
  kind = ac.kind;
  prometheus = ac.prometheus;
  http = ac.http;
  k8s = ac.k8s;
}

unfoldable pub abort_condition_error : AbortConditionSpec → Error → Error
abort_condition_error ac e = concat ("abort condition " ∷ quote ac.name ∷ ": " ∷ e ∷ [])

-- The probes that were run, and `some` action of the first condition that is met, `none` if none is.
unfoldable pub check_abort_conditions :
    Prober → List AbortConditionSpec → List Probe × Result (Option AbortAction)
unfolding abort_condition_to_probe_spec abort_condition_error
check_abort_conditions run [] = ([], ok none)
check_abort_conditions run (ac ∷ rest) = elim (new_probe (abort_condition_to_probe_spec ac)) [
  | err e ↦ ([], err (abort_condition_error ac e))
  | ok p ↦ elim (run p) [
    | err e ↦ (p ∷ [], err (abort_condition_error ac e))
    | ok true ↦ (p ∷ [], ok (some ac.action))
    | ok false ↦ let (ran, answer) = check_abort_conditions run rest in (p ∷ ran, answer)
  ]
]

-- `return ctrl.Result{RequeueAfter: …}` at the end of `reconcileRunning`
unfoldable pub wait : ChaosExperiment → Duration → Pass
wait exp elapsed =
    let remaining = sub64 exp.spec.duration elapsed in
    if not (is_empty exp.spec.abort_conditions) && ltb_ℤ five_seconds remaining
    then return (after five_seconds)
    else return (after remaining)

unfoldable pub mark_executed : ChaosExperiment → ChaosExperiment
mark_executed exp = record exp {
  meta = record (exp.meta) { annotations = insert executed_annotation "true" exp.meta.annotations };
}

-- `Execute` has failed with `e`.
unfoldable pub undo : Env → ChaosExperiment → Registered → Error → Pass
unfolding set_failed exp_ref
undo env exp exec e =
    emits "Warning" "ExecuteFailed"
    ▹ emits "Normal" "RollbackStarted"
    ▹ elim (exec.methods.rollback exp) [
      | some r ↦
          rolls_back exec.kind (some r)
          ▹ emits "Warning" "RollbackFailed"
          ▹ set_failed env exp (
              concat (
                "experiment "
                ∷ exp_ref exp
                ∷ ": execution failed: "
                ∷ e
                ∷ "; rollback also failed: "
                ∷ r
                ∷ []))
      | none ↦
          rolls_back exec.kind none
          ▹ emits "Normal" "RollbackCompleted"
          ▹ set_failed env exp
              (concat ("experiment " ∷ exp_ref exp ∷ ": execution failed: " ∷ e ∷ []))
    ]

unfoldable pub run_action : Env → ChaosExperiment → Registered → Pass → Pass
unfolding mark_executed undo
run_action env exp exec next = emits "Normal" "Executing" ▹ elim (exec.methods.execute exp) [
  | some e ↦ executes exec.kind (some e) ▹ undo env exp exec e
  | none ↦ executes exec.kind none ▹ patch env (mark_executed exp) next
]

-- The part of `reconcileRunning` behind the two timeouts.
unfoldable pub execute_once : Env → ChaosExperiment → Duration → Pass
unfolding run_action wait is_annotated set_failed exp_ref
execute_once env exp elapsed =
    if is_annotated executed_annotation exp
    then wait exp elapsed
    else elim (find_executor env exp.spec.action.kind) [
      | err e ↦ set_failed env exp (
          concat (
            "experiment "
            ∷ exp_ref exp
            ∷ ": executor for action "
            ∷ quote exp.spec.action.kind
            ∷ " lost during running phase: "
            ∷ e
            ∷ []))
      | ok exec ↦ run_action env exp exec (wait exp elapsed)
    ]

-- The part of `reconcileRunning` behind the abort checks.
unfoldable pub run_timed : Env → ChaosExperiment → Pass
unfolding execute_once transition_to_completing set_failed exp_ref
run_timed env exp = elim exp.status.start_time [
  | none ↦
      set_failed env exp
        (concat ("experiment " ∷ exp_ref exp ∷ ": running experiment has no startTime" ∷ []))
  | some start ↦
      let elapsed = since env start in
      if leb_ℤ (double64 exp.spec.duration) elapsed
      then emits "Warning" "Timeout" ▹ transition_to_completing env exp
      else if leb_ℤ exp.spec.duration elapsed
      then emits "Normal" "DurationElapsed" ▹ transition_to_completing env exp
      else execute_once env exp elapsed
]

-- A check that fails is logged and passed over. Only `rollback` goes through Completing.
unfoldable pub run_checked : Env → ChaosExperiment → Result (Option AbortAction) → Pass
unfolding run_timed handle_abort transition_to_completing
run_checked env exp (err e) = run_timed env exp
run_checked env exp (ok none) = run_timed env exp
run_checked env exp (ok (some rollback)) =
    emits "Warning" "AbortConditionTriggered" ▹ transition_to_completing env exp
run_checked env exp (ok (some action)) =
    emits "Warning" "AbortConditionTriggered" ▹ handle_abort env exp

unfoldable pub reconcile_running : Env → ChaosExperiment → Pass
unfolding run_checked run_timed handle_abort is_annotated
reconcile_running env exp =
    if is_annotated abort_annotation exp
    then emits "Warning" "AbortTriggered" ▹ handle_abort env exp
    else if is_empty exp.spec.abort_conditions
    then run_timed env exp
    else (let (ran, answer) = check_abort_conditions env.run exp.spec.abort_conditions in
        runs ran ▹ run_checked env exp answer)
