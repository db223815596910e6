-- ===== src/Controller/Experiment/Reconcile.antt =====
-- experiment_controller.go: `Reconcile`.
use chaosplane.Prelude.{none, some, if◌then◌else◌}
use chaosplane.Api.Meta.{Error}
use chaosplane.Api.Experiment.{
  ChaosExperiment, ExperimentPhase, empty, pending, steady_state_checking, running, completing,
  recovering,
}
use chaosplane.Controller.Pass.{Env, Pass, stop, again, return, fail, update}
use chaosplane.Controller.Experiment.Status.{finalizer_name}
use chaosplane.Controller.Experiment.Starting.{reconcile_pending, reconcile_steady_state_checking}
use chaosplane.Controller.Experiment.Running.{reconcile_running}
use chaosplane.Controller.Experiment.Finishing.{
  reconcile_completing, reconcile_recovering, handle_deletion,
}

-- What `r.Get` answers.
pub data Read : Type 0 where
  found : ChaosExperiment → Read
  not_found : Read
  failure : Error → Read

unfoldable pub add_finalizer : Env → ChaosExperiment → Pass
add_finalizer env exp =
    update env
      (record exp {
        meta = record (exp.meta) {
          finalizers = env.finalizers.add exp.meta.finalizers finalizer_name;
        };
      })
      (return again)

-- The `switch` on the phase. A phase that is final or unknown is left alone.
unfoldable pub dispatch : Env → ChaosExperiment → ExperimentPhase → Pass
dispatch env exp empty = reconcile_pending env exp
dispatch env exp pending = reconcile_pending env exp
dispatch env exp steady_state_checking = reconcile_steady_state_checking env exp
dispatch env exp running = reconcile_running env exp
dispatch env exp completing = reconcile_completing env exp
dispatch env exp recovering = reconcile_recovering env exp
dispatch env exp _ = return stop

-- `Reconcile` on an experiment that was read.
unfoldable pub reconcile_found : Env → ChaosExperiment → Pass
unfolding add_finalizer dispatch
reconcile_found env exp = elim exp.meta.deletion_timestamp [
  | some _ ↦ handle_deletion env exp
  | none ↦
      if env.finalizers.contains exp.meta.finalizers finalizer_name
      then dispatch env exp exp.status.phase
      else add_finalizer env exp
]

unfoldable pub reconcile : Env → Read → Pass
unfolding reconcile_found
reconcile env (found exp) = reconcile_found env exp
reconcile env not_found = return stop
reconcile env (failure e) = fail e
