-- ===== src/Controller/Experiment/Deletion.antt =====
-- What the deletion of an experiment does.
use chaosplane.Prelude.{
  ℕ, suc, ◌≡◌, Bool, true, false, Option, none, some, List, [], ◌∷◌, arith, ◌&&◌, if◌then◌else◌,
  String,
}
use chaosplane.Api.Meta.{Time, ok, err}
use chaosplane.Api.Experiment.{ChaosExperiment}
use chaosplane.Executor.{get}
use chaosplane.Controller.Pass.{Env, Effect, rolls_back, updates, Finalizers}
use chaosplane.Controller.Experiment.Status.{finalizer_name}
use chaosplane.Controller.Experiment.Finishing.{needs_rollback, handle_deletion}
use chaosplane.Controller.Experiment.Reconcile.{reconcile_found}
use chaosplane.Controller.Experiment.Trace.{executions}

-- controllerutil: a finalizer that was removed is not contained.
pub record FinalizersLaws (f : Finalizers) : Type 0 where
  pub contains-remove : (l : List String) (n : String) → f.contains (f.remove l n) n ≡ false

unfoldable pub rollbacks : List Effect → ℕ
rollbacks [] = 0
rollbacks (rolls_back a e ∷ es) = suc (rollbacks es)
rollbacks (_ ∷ es) = rollbacks es

-- The object that the last effect updates, if it is an update.
unfoldable pub last_update : List Effect → Option ChaosExperiment
last_update [] = none
last_update (updates e r ∷ []) = some e
last_update (_ ∷ es) = last_update es

abbrev pub is_registered : Env → ChaosExperiment → Bool
is_registered env exp = elim (get env.registry exp.spec.action.kind) [
  | ok exec ↦ true
  | err e ↦ false
]

pub record Releases (env : Env) (exp : ChaosExperiment) (es : List Effect) : Type 0 where
  pub tried :
      rollbacks es ≡ (if needs_rollback exp.status.phase && is_registered env exp then 1 else 0)
  pub not_run : executions es ≡ 0
  pub released :
      (e : ChaosExperiment) × (last_update es ≡ some e)
      × (env.finalizers.contains e.meta.finalizers finalizer_name ≡ false)

-- A pass over an experiment that is being deleted and holds its finalizer tries one rollback, exactly
-- where the phase is Running, Completing or Recovering and the action has an executor; it executes
-- nothing; and its last effect is the update that drops the finalizer, whatever the rollback answered.
pub deletion-Releases :
    (env : Env) (exp : ChaosExperiment) (t : Time)
    → FinalizersLaws env.finalizers
    → exp.meta.deletion_timestamp ≡ some t
    → env.finalizers.contains exp.meta.finalizers finalizer_name ≡ true
    → Releases env exp (reconcile_found env exp).effects
unfolding reconcile_found handle_deletion rollbacks executions last_update
deletion-Releases env exp t laws d held = record {
  tried = ground arith;
  not_run = ground arith;
  released = (
    record exp {
      meta = record (exp.meta) {
        finalizers = env.finalizers.remove exp.meta.finalizers finalizer_name;
      };
    },
    ground arith,
    laws.contains-remove exp.meta.finalizers finalizer_name,
  );
}
