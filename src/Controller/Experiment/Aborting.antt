-- ===== src/Controller/Experiment/Aborting.antt =====
-- What the abort conditions of a running experiment decide.
use text.Mathlib.TextPositions.{eq_refl}
use chaosplane.Prelude.{
  ◌≡◌, ◌≢◌, refl, Bool, true, false, Option, none, some, List, [], ◌∷◌, ◌++◌, arith, All, ◌⊎◌,
  is_empty, map,
}
use chaosplane.Api.Meta.{Result, ok, err}
use chaosplane.Api.Experiment.{
  ChaosExperiment, AbortConditionSpec, AbortAction, rollback, running, aborted,
}
use chaosplane.Probe.{Probe, Prober, run_spec}
use chaosplane.Probe.Verdict.{probes_of}
use chaosplane.Controller.Pass.{Env}
use chaosplane.Controller.Experiment.Status.{is_annotated, abort_annotation}
use chaosplane.Controller.Experiment.Running.{
  abort_condition_to_probe_spec, check_abort_conditions, abort_condition_error, reconcile_running,
}
use chaosplane.Controller.Experiment.Trace.{phase_after, clean_after, executions}
use chaosplane.Controller.Experiment.Rollback.{can_roll_back}

-- The answer of a condition's probe.
abbrev pub answer : Prober → AbortConditionSpec → Result Bool
answer run ac = run_spec run (abort_condition_to_probe_spec ac)

-- What a condition that is not simply unmet makes of the check.
abbrev pub decision : AbortConditionSpec → Result Bool → Result (Option AbortAction)
decision ac (err e) = err (abort_condition_error ac e)
decision ac (ok true) = ok (some ac.action)
decision ac (ok false) = ok none

-- The probes that the conditions configure.
abbrev pub probes_of_conditions : List AbortConditionSpec → List Probe
probes_of_conditions acs = probes_of (map abort_condition_to_probe_spec acs)

-- The first condition that is met, or whose probe fails or is not configured, decides. The probes that
-- are run are those of the conditions up to it, each once and in order; none behind it is run.
pub check_abort_conditions-first :
    (run : Prober) (unmet : List AbortConditionSpec) (ac : AbortConditionSpec)
    (rest : List AbortConditionSpec)
    → All (λ c. answer run c ≡ ok false) unmet
    → answer run ac ≢ ok false
    → check_abort_conditions run (unmet ++ ac ∷ rest)
      ≡ (probes_of_conditions (unmet ++ ac ∷ []), decision ac (answer run ac))
unfolding check_abort_conditions run_spec probes_of
check_abort_conditions-first run [] ac rest h n = ground arith
check_abort_conditions-first run (u ∷ unmet) ac rest h n =
    ground (arith, h.0, check_abort_conditions-first run unmet ac rest h.1 n)

check_abort_conditions-is_empty :
    (run : Prober) (acs : List AbortConditionSpec) (action : AbortAction)
    → (check_abort_conditions run acs).1 ≡ ok (some action)
    → is_empty acs ≡ false
unfolding check_abort_conditions
check_abort_conditions-is_empty run [] action h = cc
check_abort_conditions-is_empty run (ac ∷ acs) action h = refl

-- The abort annotation, and an abort condition that is met and whose action is not `rollback` (also
-- `pause`), end the experiment in the pass that sees them: where its rollback and the status write
-- succeed, the phase is Aborted, nothing is executed, and no chaos of the
-- action is in place.
pub reconcile_running-aborts :
    (env : Env) (exp : ChaosExperiment) (action : AbortAction)
    → (is_annotated abort_annotation exp ≡ true)
      ⊎ (((check_abort_conditions env.run exp.spec.abort_conditions).1 ≡ ok (some action))
          × (action ≢ rollback))
    → can_roll_back env exp ≡ true
    → env.status_error ≡ none
    → let es = (reconcile_running env exp).effects in
      (phase_after running es ≡ aborted)
      × (executions es ≡ 0)
      × (clean_after exp.spec.action.kind false es ≡ true)
unfolding reconcile_running can_roll_back phase_after executions clean_after
reconcile_running-aborts env exp action h r w =
    let met = check_abort_conditions-is_empty env.run exp.spec.abort_conditions action in
    (ground (arith, met), ground (arith, met), ground (arith, met, eq_refl exp.spec.action.kind))
