-- ===== src/Examples/Samples.antt =====
-- An experiment that kills a pod, and environments in which it goes well or badly.
use chaosplane.Prelude.{
  ℕ, ◌*◌, ◌^◌, String, true, Option, none, some, List, [], ◌∷◌, ◌==◌, string_eq, any, if◌then◌else◌,
  pos,
}
use chaosplane.Api.Meta.{ok, ObjectMeta, Duration}
use chaosplane.Api.Experiment.{
  ChaosExperiment, ChaosExperimentSpec, ChaosExperimentStatus, ExperimentPhase, ProbeSpec,
  AbortConditionSpec, http, empty, AbortAction,
}
use chaosplane.Executor.{Executor, Registry}
use chaosplane.Controller.Pass.{Env, Finalizers}
use chaosplane.Controller.Experiment.Status.{finalizer_name}

abbrev pub without : String → List String → List String
without n [] = []
without n (x ∷ xs) = let rest = without n xs in if x == n then rest else x ∷ rest

abbrev pub plain_finalizers : Finalizers
plain_finalizers = record {
  contains = λ l n. any (λ x. x == n) l;
  add = λ l n. n ∷ l;
  remove = λ l n. without n l;
}

abbrev pub healthy : Executor
healthy = record { validate = λ _. none; execute = λ _. none; rollback = λ _. none }

abbrev pub stuck : Executor
stuck = record { validate = λ _. none; execute = λ _. none; rollback = λ _. some "pod is gone" }

abbrev pub registry_of : Executor → Registry
registry_of x = record { executors = ("pod-kill", x) ∷ [] }

-- `n` seconds.
abbrev pub seconds : ℕ → Duration
seconds n = pos (n * 10 ^ 9)

-- The environment at a time, in which all goes well.
abbrev pub calm : Duration → Env
calm now = record {
  now = now;
  registry = registry_of healthy;
  run = λ _. ok true;
  finalizers = plain_finalizers;
  update_error = none;
  patch_error = none;
  status_error = none;
}

abbrev pub no_patch : Duration → Env
no_patch now = record (calm now) { patch_error = some "conflict" }

abbrev pub no_rollback : Duration → Env
no_rollback now = record (calm now) { registry = registry_of stuck }

abbrev pub kill_meta : ObjectMeta
kill_meta = record {
  namespace = "shop";
  name = "kill-cart";
  uid = "u1";
  generation = 1;
  deletion_timestamp = none;
  finalizers = finalizer_name ∷ [];
  annotations = [];
  labels = [];
  owner_uids = [];
}

abbrev pub kill_spec : ChaosExperimentSpec
kill_spec = record {
  target = record { kind = "pod"; namespace = "shop"; label_selector = none; names = "cart" ∷ [] };
  action = record { kind = "pod-kill"; parameters = ""; duration = none };
  duration = seconds 60;
  rollback = none;
  execution = record { parallelism = none };
  steady_state = none;
  abort_conditions = [];
}

abbrev pub status_in : ExperimentPhase → Option Duration → ChaosExperimentStatus
status_in phase start = record {
  phase = phase;
  start_time = start;
  end_time = none;
  recovery_start_time = none;
  conditions = [];
  observed_generation = 0;
  affected_resources = [];
  message = "";
}

abbrev pub kill_in : ExperimentPhase → Option Duration → ChaosExperiment
kill_in phase start = record { meta = kill_meta; spec = kill_spec; status = status_in phase start }

abbrev pub kill_cart : ChaosExperiment
kill_cart = kill_in empty none

abbrev pub cart_probe : ProbeSpec
cart_probe = record {
  name = "cart";
  kind = http;
  prometheus = none;
  http =
      some (record {
        url = "http://cart";
        method = "";
        expected_status = pos 200;
        expected_body = "";
      });
  k8s = none;
}

abbrev pub cart_condition : AbortAction → AbortConditionSpec
cart_condition action = record {
  name = "cart";
  kind = http;
  prometheus = none;
  http = cart_probe.http;
  k8s = none;
  action = action;
}
