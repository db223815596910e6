-- ===== src/Controller/Experiment/Waiting.antt =====
-- When a running experiment is looked at again, and the timeouts of its duration.
use chaosplane.Prelude.{
  ℕ, ◌+◌, ◌*◌, ◌^◌, ◌≤◌, ◌<◌, ◌≡◌, ◌≢◌, ◌⊎◌, some, none, List, [], true, false, arith, pos, ◌<ℤ◌,
  pos_part, leb_ℤ,
}
use chaosplane.Prelude.Int.{sub64, double64}
use chaosplane.Api.Meta.{Time, ok}
use chaosplane.Api.Experiment.{ChaosExperiment, ExperimentPhase, running, completing}
use chaosplane.Controller.Pass.{Env, Effect, Requeue, after}
use chaosplane.Controller.Experiment.Status.{since, abort_annotation, is_annotated}
use chaosplane.Controller.Experiment.Running.{wait, run_timed, reconcile_running}
use chaosplane.Controller.Experiment.Trace.{phase_after, executions}

-- The pass asks for another one within the duration, after some time, and within five seconds where
-- there are abort conditions to check.
pub record Waits (exp : ChaosExperiment) (elapsed duration : ℕ) (r : Requeue) : Type 0 where
  pub delayed : r ≡ after r.requeue_after
  pub later : pos 0 <ℤ r.requeue_after
  pub in_time : elapsed + pos_part r.requeue_after ≤ duration
  pub checks : exp.spec.abort_conditions ≢ [] → pos_part r.requeue_after ≤ 5 * 10 ^ 9

wait-Waits :
    (exp : ChaosExperiment) (n m : ℕ) (r : Requeue)
    → n < m
    → m < 2 ^ 63
    → exp.spec.duration ≡ pos m
    → (wait exp (pos n)).result ≡ ok r
    → Waits exp n m r
unfolding wait sub64
wait-Waits exp n m r lt fits d e = record {
  delayed = ground arith;
  later = ground arith;
  in_time = ground arith;
  checks = λ c. ground arith;
}

-- The phase is left.
abbrev pub Ends : ExperimentPhase → List Effect → Type 0
Ends p es = phase_after p es ≢ p

run_timed-Waits :
    (env : Env) (exp : ChaosExperiment) (started : Time) (n m : ℕ) (r : Requeue)
    → n < m
    → m < 2 ^ 63
    → exp.spec.duration ≡ pos m
    → exp.status.start_time ≡ some started
    → since env started ≡ pos n
    → (run_timed env exp).result ≡ ok r
    → Ends running (run_timed env exp).effects ⊎ Waits exp n m r
unfolding run_timed phase_after
run_timed-Waits env exp started n m r lt fits d s k e =
    ground (arith, wait-Waits exp n m r lt fits d)

-- A pass over an experiment that has been running for less than its duration, and that returns no
-- error, takes it out of Running, or else asks for the next pass at a time within the duration, after
-- some time, and within five seconds where there are abort conditions.
pub reconcile_running-Waits :
    (env : Env) (exp : ChaosExperiment) (started : Time) (n m : ℕ) (r : Requeue)
    → n < m
    → m < 2 ^ 63
    → exp.spec.duration ≡ pos m
    → exp.status.start_time ≡ some started
    → since env started ≡ pos n
    → (reconcile_running env exp).result ≡ ok r
    → Ends running (reconcile_running env exp).effects ⊎ Waits exp n m r
unfolding reconcile_running phase_after
reconcile_running-Waits env exp started n m r lt fits d s k e =
    ground (arith, run_timed-Waits env exp started n m r lt fits d s k)

double64_overflows : (m n : ℕ) → 2 ^ 62 ≤ m → m < 2 ^ 63 → leb_ℤ (double64 (pos m)) (pos n) ≡ true
unfolding double64
double64_overflows m n l h = ground arith

-- Twice a duration of 2^62 nanoseconds or more, within an int64, wraps around to a negative timeout. A
-- pass over such an experiment in Running, which is not annotated for an abort and has no abort
-- conditions, sends it to Completing at once and does not execute its action, where the status write
-- succeeds.
pub overflow_finishes :
    (env : Env) (exp : ChaosExperiment) (started : Time) (n m : ℕ)
    → 2 ^ 62 ≤ m
    → m < 2 ^ 63
    → exp.spec.duration ≡ pos m
    → exp.status.start_time ≡ some started
    → since env started ≡ pos n
    → env.status_error ≡ none
    → is_annotated abort_annotation exp ≡ false
    → exp.spec.abort_conditions ≡ []
    → let es = (reconcile_running env exp).effects in
      (phase_after running es ≡ completing) × (executions es ≡ 0)
unfolding reconcile_running phase_after executions
overflow_finishes env exp started n m l h d s k w a c =
    (ground (arith, double64_overflows m n l h), ground (arith, double64_overflows m n l h))
