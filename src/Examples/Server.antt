-- ===== src/Examples/Server.antt =====
-- An API server that keeps what it is sent: it meets what the histories ask of one.
use chaosplane.Prelude.Int.{double64, sub64}
use chaosplane.Controller.Conditions.{upsert}
use chaosplane.Executor.{get}
use chaosplane.Probe.{new_probe, run_all}
use chaosplane.Controller.Experiment.Starting.{reconcile_pending, reconcile_steady_state_checking}
use chaosplane.Controller.Experiment.Running.{reconcile_running}
use chaosplane.Controller.Experiment.Finishing.{
  reconcile_completing, reconcile_recovering, handle_deletion,
}
use chaosplane.Controller.Experiment.Rollback.{can_roll_back}
use chaosplane.Prelude.{lookup, insert, refl, List, [], ◌∷◌, none}
use chaosplane.Api.Experiment.{ChaosExperiment}
use chaosplane.Controller.Pass.{Env, Effect, writes_status, patches, updates}
use chaosplane.Controller.Experiment.Status.{is_annotated, since}
use chaosplane.Controller.Experiment.Reconcile.{reconcile_found}
use chaosplane.Controller.Experiment.Trace.{
  phase_after, start_after, executed_after, clean_after, executions, failed_writes,
}
use chaosplane.Controller.Experiment.History.{Serves, History, created, passes}

unfoldable pub serve : ChaosExperiment → List Effect → ChaosExperiment
serve e [] = e
serve e (writes_status x none ∷ es) = serve (record e { status = x.status }) es
serve e (patches x none ∷ es) =
    serve (record e { meta = record (e.meta) { annotations = x.meta.annotations } }) es
serve e (updates x none ∷ es) =
    serve (record e { meta = record (e.meta) { finalizers = x.meta.finalizers } }) es
serve e (_ ∷ es) = serve e es

pub serve-Serves : (e : ChaosExperiment) (es : List Effect) → Serves e es (serve e es)
unfolding serve phase_after start_after executed_after is_annotated
serve-Serves e [] = record { phase = refl; start_time = refl; executed = refl }
serve-Serves e (writes_status x none ∷ es) =
    let r = serve-Serves (record e { status = x.status }) es in
    record { phase = r.phase; start_time = r.start_time; executed = r.executed }
serve-Serves e (patches x none ∷ es) =
    let r =
      serve-Serves (record e { meta = record (e.meta) { annotations = x.meta.annotations } }) es in
    record { phase = r.phase; start_time = r.start_time; executed = r.executed }
serve-Serves e (updates x none ∷ es) =
    let r =
      serve-Serves (record e { meta = record (e.meta) { finalizers = x.meta.finalizers } }) es in
    record { phase = r.phase; start_time = r.start_time; executed = r.executed }
serve-Serves e (_ ∷ es) =
    let r = serve-Serves e es in
    record { phase = r.phase; start_time = r.start_time; executed = r.executed }

-- One pass and what the server makes of it. A test that names `step` sees through the reconciler.
unfoldable pub step : Env → ChaosExperiment → ChaosExperiment
unfolding serve reconcile_found reconcile_pending reconcile_steady_state_checking reconcile_running
    reconcile_completing reconcile_recovering handle_deletion get lookup insert double64 sub64 since
    new_probe run_all phase_after clean_after executions failed_writes can_roll_back upsert
step env e = serve e (reconcile_found env e).effects

pub record Run (P : Env → ChaosExperiment → Type 0) (first : ChaosExperiment) : Type 0 where
  pub effects : List Effect
  pub last : ChaosExperiment
  pub history : History P first effects last

module _ {P : Env → ChaosExperiment → Type 0} {first : ChaosExperiment} where
  abbrev pub turn : (r : Run P first) (env : Env) → P env r.last → Run P first
  turn r env p = record {
    effects = _;
    last = _;
    history = passes r.history env p (serve-Serves r.last (reconcile_found env r.last).effects);
  }

abbrev pub begin : (P : Env → ChaosExperiment → Type 0) (first : ChaosExperiment) → Run P first
begin P first = record { effects = []; last = first; history = created }
