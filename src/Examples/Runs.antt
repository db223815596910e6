-- ===== src/Examples/Runs.antt =====
-- Whole runs of the experiment.
use chaosplane.Prelude.{
  ℕ, ◌≡◌, refl, ◌+◌, ◌≤◌, true, none, arith, Bool, false, any, ◌==◌, string_eq,
}
use chaosplane.Api.Experiment.{
  ChaosExperiment, ExperimentPhase, completed, failed, running, recovering,
}
use chaosplane.Controller.Experiment.Status.{finalizer_name}
use chaosplane.Controller.Experiment.Trace.{executions, failed_writes, clean_after}
use chaosplane.Controller.Experiment.History.{Anyhow}
use chaosplane.Controller.Experiment.Rollback.{CanRollBack, Unedited, History-IsSafe, failed_clean}
use chaosplane.Controller.Experiment.Once.{executions-le-failed_writes}
use chaosplane.Controller.Experiment.Phases.{is_failed, is_empty, finished_stays, IsFinished}
use chaosplane.Controller.Experiment.Progress.{Proceeds, is_due, five_passes_finish}
use chaosplane.Examples.Server.{Run, turn, begin, step}
use chaosplane.Examples.Samples.{kill_cart, kill_in, calm, no_patch, seconds}

-- Started, executed with the mark refused, executed again, finished and rolled back.
abbrev rough_run : Run (Unedited "pod-kill") kill_cart
unfolding step
rough_run =
    turn
      (turn
        (turn
          (turn (turn (begin (Unedited "pod-kill") kill_cart) (calm (seconds 0)) refl)
            (no_patch (seconds 1)) refl)
          (calm (seconds 2)) refl)
        (calm (seconds 61)) refl)
      (calm (seconds 62)) refl

abbrev smooth_run : Run (CanRollBack "pod-kill") kill_cart
unfolding step
smooth_run =
    turn
      (turn
        (turn (turn (begin (CanRollBack "pod-kill") kill_cart) (calm (seconds 0)) (refl, refl))
          (calm (seconds 1)) (refl, refl))
        (calm (seconds 61)) (refl, refl))
      (calm (seconds 62)) (refl, refl)

rough_run_ends : rough_run.last.status.phase ≡ completed
unfolding step
rough_run_ends = refl

History-IsSafe_example : clean_after "pod-kill" true rough_run.effects ≡ true
unfolding step
History-IsSafe_example = History-IsSafe rough_run.history refl

failed_clean_example : clean_after "pod-kill" true smooth_run.effects ≡ true
unfolding step
failed_clean_example = failed_clean smooth_run.history (λ e. cc) refl

executions-le-failed_writes_example :
    executions rough_run.effects ≤ 1 + failed_writes rough_run.effects
executions-le-failed_writes_example = executions-le-failed_writes rough_run.history

executed_twice : executions rough_run.effects ≡ 2
unfolding step
executed_twice = refl

abbrev needs_time : ExperimentPhase → Bool
needs_time running = true
needs_time recovering = true
needs_time _ = false

elsewhere :
    (now : ℕ) (e : ChaosExperiment)
    → e.meta.deletion_timestamp ≡ none
    → any (λ x. x == finalizer_name) e.meta.finalizers ≡ true
    → needs_time e.status.phase ≡ false
    → Proceeds (calm (seconds now)) e
elsewhere now e live held h = record {
  live = live;
  held = held;
  written = refl;
  due = λ q. ground arith;
  decided = λ q. ground arith;
}

due_now :
    (now : ℕ) (e : ChaosExperiment)
    → e.meta.deletion_timestamp ≡ none
    → any (λ x. x == finalizer_name) e.meta.finalizers ≡ true
    → e.status.phase ≡ running
    → is_due (calm (seconds now)) e ≡ true
    → Proceeds (calm (seconds now)) e
due_now now e live held p h = record {
  live = live;
  held = held;
  written = refl;
  due = λ q. h;
  decided = λ q. ground arith;
}

-- Five passes: started, due, rolled back, and two that find it completed.
abbrev late_run : Run Proceeds kill_cart
unfolding step
late_run =
    turn
      (turn
        (turn
          (turn (turn (begin Proceeds kill_cart) (calm (seconds 0)) (elsewhere 0 _ refl refl refl))
            (calm (seconds 61)) (due_now 61 _ refl refl refl refl))
          (calm (seconds 62)) (elsewhere 62 _ refl refl refl))
        (calm (seconds 63)) (elsewhere 63 _ refl refl refl))
      (calm (seconds 64)) (elsewhere 64 _ refl refl refl)

five_passes_finish_example : IsFinished late_run.last.status.phase
unfolding step
five_passes_finish_example = five_passes_finish late_run.history is_empty (omega arith)

abbrev idle_run : Run Anyhow (kill_in failed none)
idle_run = turn (begin Anyhow (kill_in failed none)) (calm (seconds 9)) tt

finished_stays_example : (idle_run.last.status.phase ≡ failed) × (executions idle_run.effects ≡ 0)
finished_stays_example = finished_stays idle_run.history is_failed
