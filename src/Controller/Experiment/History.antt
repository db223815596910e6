-- ===== src/Controller/Experiment/History.antt =====
-- Histories: passes over one experiment, one after the other, whatever the environment answers and
-- whatever users change in between.
use chaosplane.Prelude.{◌≡◌, List, [], ◌++◌, is_some}
use chaosplane.Api.Experiment.{ChaosExperiment}
use chaosplane.Controller.Pass.{Env, Effect}
use chaosplane.Controller.Experiment.Status.{executed_annotation, is_annotated}
use chaosplane.Controller.Experiment.Reconcile.{reconcile_found}
use chaosplane.Controller.Experiment.Trace.{phase_after, start_after, executed_after}

-- What the program relies on in the API server, its cache and its users: the object that the next pass
-- reads has the phase of the last status that was written, a start time exactly if that has one, and
-- the mark of the executed action that was patched in; so the read is not behind the writes. All else
-- may have changed: the specification, the abort annotation, a deletion, and the start time itself,
-- which is stored in whole seconds.
pub record Serves (e : ChaosExperiment) (effects : List Effect) (e' : ChaosExperiment)
    : Type 0 where
  pub phase : e'.status.phase ≡ phase_after e.status.phase effects
  pub start_time : is_some e'.status.start_time ≡ is_some (start_after e.status.start_time effects)
  pub executed :
      is_annotated executed_annotation e'
      ≡ executed_after (is_annotated executed_annotation e) effects

-- `History P first es e`: passes that began with `first` had the effects `es`, and the next pass will
-- read `e`. `P` holds of the environment and the experiment of each pass.
pub data History (P : Env → ChaosExperiment → Type 0) (first : ChaosExperiment)
    : List Effect → ChaosExperiment → Type 0 where
  created : History P first [] first
  passes :
      {es : List Effect} {e e' : ChaosExperiment}
      → History P first es e
      → (env : Env) → P env e
      → Serves e (reconcile_found env e).effects e'
      → History P first (es ++ (reconcile_found env e).effects) e'

-- Any environment.
abbrev pub Anyhow : Env → ChaosExperiment → Type 0
Anyhow env e = Unit
