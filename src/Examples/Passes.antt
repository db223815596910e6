-- ===== src/Examples/Passes.antt =====
-- Single passes over the experiment.
use chaosplane.Prelude.{
  ◌≡◌, refl, ◌*◌, ◌^◌, ◌⊎◌, inr, true, false, List, [], ◌∷◌, some, arith, pos, All, any, String,
  ◌==◌, string_eq,
}
use chaosplane.Api.Experiment.{ChaosExperiment, aborted, running, completing, pause}
use chaosplane.Controller.Pass.{Env, Effect, after}
use chaosplane.Controller.Experiment.Reconcile.{reconcile_found}
use chaosplane.Controller.Experiment.Running.{reconcile_running, check_abort_conditions}
use chaosplane.Controller.Experiment.Trace.{executions, failed_writes, clean_after, phase_after}
use chaosplane.Controller.Experiment.History.{Anyhow, History}
use chaosplane.Controller.Experiment.Phases.{Moves, reconcile_found-Moves}
use chaosplane.Controller.Experiment.Once.{executes_again}
use chaosplane.Controller.Experiment.Waiting.{
  Ends, Waits, reconcile_running-Waits, overflow_finishes,
}
use chaosplane.Controller.Experiment.Deletion.{Releases, deletion-Releases}
use chaosplane.Controller.Experiment.Reports.{Reports, outcome-Reports}
use chaosplane.Controller.Experiment.Aborting.{reconcile_running-aborts}
use chaosplane.Controller.Experiment.Status.{
  set_failed, set_completed, set_aborted, transition_to_completing,
}
use chaosplane.Controller.Experiment.Starting.{
  start_checking, start_running, reconcile_steady_state_checking,
}
use chaosplane.Controller.Experiment.Finishing.{start_recovering}
use chaosplane.Examples.Server.{step}
use chaosplane.Examples.Samples.{
  kill_cart, kill_in, calm, no_patch, no_rollback, seconds, healthy, cart_condition, cart_probe,
  without,
}

reconcile_found-Moves_example : Moves running (
    phase_after running
      (reconcile_found (calm (seconds 61)) (kill_in running (some (seconds 0)))).effects)
reconcile_found-Moves_example =
    reconcile_found-Moves (calm (seconds 61)) (kill_in running (some (seconds 0)))

abbrev half_done : ChaosExperiment
half_done = kill_in running (some (seconds 0))

executes_again_example :
    (es : List Effect) × History Anyhow half_done es half_done
    × (executions es ≡ 3)
    × (failed_writes es ≡ 3)
unfolding step
executes_again_example =
    executes_again (no_patch (seconds 30)) half_done healthy (seconds 0) 3 (record {
      is_running = refl;
      live = refl;
      held = refl;
      not_aborted = refl;
      no_conditions = refl;
      not_executed = refl;
      start_time = refl;
      in_time = refl;
      in_timeout = refl;
      registered = refl;
      executes_well = refl;
      refused = refl;
    })

reconcile_running-Waits_example :
    Ends running (reconcile_running (calm (seconds 30)) half_done).effects
    ⊎ Waits half_done (30 * 10 ^ 9) (60 * 10 ^ 9) (after (seconds 30))
unfolding step
reconcile_running-Waits_example =
    reconcile_running-Waits (calm (seconds 30)) half_done (seconds 0) (30 * 10 ^ 9) (60 * 10 ^ 9)
      (after (seconds 30)) (omega arith) (omega arith) refl refl refl refl

abbrev endless : ChaosExperiment
endless = record half_done { spec = record (half_done.spec) { duration = pos (2 ^ 62) } }

overflow_finishes_example :
    (phase_after running (reconcile_running (calm (seconds 1)) endless).effects ≡ completing)
    × (executions (reconcile_running (calm (seconds 1)) endless).effects ≡ 0)
unfolding step
overflow_finishes_example =
    overflow_finishes (calm (seconds 1)) endless (seconds 0) (10 ^ 9) (2 ^ 62) (omega arith)
      (omega arith) refl refl refl refl refl refl

any-without : (n : String) (l : List String) → any (λ x. x == n) (without n l) ≡ false
any-without n [] = refl
any-without n (x ∷ l) = ground (arith, any-without n l)

abbrev deleted : ChaosExperiment
deleted = record half_done {
  meta = record (half_done.meta) { deletion_timestamp = some (seconds 5) };
}

deletion-Releases_example :
    Releases
      (no_rollback (seconds 6))
      deleted
      (reconcile_found (no_rollback (seconds 6)) deleted).effects
deletion-Releases_example =
    deletion-Releases (no_rollback (seconds 6)) deleted (seconds 5)
      (record { contains-remove = λ l n. any-without n l }) refl refl

abbrev Outcome : Env → ChaosExperiment → String → Type 0
Outcome env exp reason =
    All (Reports exp.status) (set_failed env exp reason).effects
    × All (Reports exp.status) (set_completed env exp).effects
    × All (Reports exp.status) (set_aborted env exp).effects
    × All (Reports exp.status) (start_running env exp).effects
    × All (Reports exp.status) (reconcile_steady_state_checking env exp).effects
    × All (Reports exp.status) (start_checking env exp).effects
    × All (Reports exp.status) (transition_to_completing env exp).effects
    × All (Reports exp.status) (start_recovering env exp).effects

abbrev watched : ChaosExperiment
watched = record kill_cart {
  spec = record (kill_cart.spec) {
    steady_state = some (record {
      before = cart_probe ∷ [];
      after = cart_probe ∷ [];
      recovery_timeout = seconds 30;
    });
  };
}

outcome-Reports_example : Outcome (calm (seconds 1)) watched "probe failed"
outcome-Reports_example = outcome-Reports (calm (seconds 1)) watched "probe failed"

abbrev pausing : ChaosExperiment
pausing = record half_done {
  spec = record (half_done.spec) { abort_conditions = cart_condition pause ∷ [] };
}

reconcile_running-aborts_example :
    (phase_after running (reconcile_running (calm (seconds 1)) pausing).effects ≡ aborted)
    × (executions (reconcile_running (calm (seconds 1)) pausing).effects ≡ 0)
    × (clean_after "pod-kill" false (reconcile_running (calm (seconds 1)) pausing).effects ≡ true)
unfolding step check_abort_conditions
reconcile_running-aborts_example =
    reconcile_running-aborts (calm (seconds 1)) pausing pause (inr (refl, λ e. cc)) refl refl
