-- ===== src/Executors/Family.antt =====
-- The recording executors (internal/executor/pod, stress and node/cpu_stress.go) as values with their
-- three methods. The state of one is its records and the daemons.
use chaosplane.Prelude.{String, Option, none, some, List, [], ◌∷◌, concat}
use chaosplane.Api.Meta.{Error, ok, err}
use chaosplane.Api.Experiment.{ChaosExperiment}
use chaosplane.Executors.Pods.{Lookups, parse_parameters}
use chaosplane.Executors.Network.{validate_target}
use chaosplane.Executors.Kinds.{missing}
use chaosplane.Executors.Recording.{DaemonClient, Recording, NodeLookups, validate_names}
use chaosplane.Executors.Stress.{
  pod_cpu_stress, pod_memory_stress, pod_io_stress, pod_dns_error, pod_http_abort, pod_http_delay,
  stress_cpu, stress_memory, node_cpu_stress, roll_back,
}

pub record RecordingExecutor (W : Type 0) : Type 0 where
  pub execute : ChaosExperiment → Recording W → Recording W × Option Error
  pub rollback : ChaosExperiment → Recording W → Recording W × Option Error
  pub validate : ChaosExperiment → Option Error

unfoldable pub validate_http : Lookups → String → List String → ChaosExperiment → Option Error
unfolding validate_target parse_parameters
validate_http api prefix keys exp = elim (validate_target exp prefix) [
  | some e ↦ some e
  | none ↦ elim (parse_parameters api exp) [
    | err e ↦ some (concat (prefix ∷ ": " ∷ e ∷ []))
    | ok params ↦ missing prefix params keys
  ]
]

module _ {W : Type 0} (client : DaemonClient W) (api : Lookups) where
  unfoldable pub new_pod_cpu_stress : RecordingExecutor W
  unfolding pod_cpu_stress roll_back validate_target
  new_pod_cpu_stress = record {
    execute = pod_cpu_stress client api;
    rollback = roll_back client "pod-cpu-stress";
    validate = λ exp. validate_target exp "pod-cpu-stress";
  }

  unfoldable pub new_pod_memory_stress : RecordingExecutor W
  unfolding pod_memory_stress roll_back validate_target
  new_pod_memory_stress = record {
    execute = pod_memory_stress client api;
    rollback = roll_back client "pod-memory-stress";
    validate = λ exp. validate_target exp "pod-memory-stress";
  }

  unfoldable pub new_pod_io_stress : RecordingExecutor W
  unfolding pod_io_stress roll_back validate_target
  new_pod_io_stress = record {
    execute = pod_io_stress client api;
    rollback = roll_back client "pod-io-stress";
    validate = λ exp. validate_target exp "pod-io-stress";
  }

  unfoldable pub new_pod_dns_error : RecordingExecutor W
  unfolding pod_dns_error roll_back validate_target
  new_pod_dns_error = record {
    execute = pod_dns_error client api;
    rollback = roll_back client "pod-dns-error";
    validate = λ exp. validate_target exp "pod-dns-error";
  }

  unfoldable pub new_pod_http_abort : RecordingExecutor W
  unfolding pod_http_abort roll_back validate_http
  new_pod_http_abort = record {
    execute = pod_http_abort client api;
    rollback = roll_back client "pod-http-abort";
    validate = validate_http api "pod-http-abort" ("port" ∷ []);
  }

  unfoldable pub new_pod_http_delay : RecordingExecutor W
  unfolding pod_http_delay roll_back validate_http
  new_pod_http_delay = record {
    execute = pod_http_delay client api;
    rollback = roll_back client "pod-http-delay";
    validate = validate_http api "pod-http-delay" ("port" ∷ "delay" ∷ []);
  }

  module _ (nodes : NodeLookups) where
    unfoldable pub new_stress_cpu : RecordingExecutor W
    unfolding stress_cpu roll_back validate_names
    new_stress_cpu = record {
      execute = stress_cpu client api nodes;
      rollback = roll_back client "stress-cpu";
      validate = λ exp. validate_names exp "stress-cpu";
    }

    unfoldable pub new_stress_memory : RecordingExecutor W
    unfolding stress_memory roll_back validate_names
    new_stress_memory = record {
      execute = stress_memory client api nodes;
      rollback = roll_back client "stress-memory";
      validate = λ exp. validate_names exp "stress-memory";
    }

    unfoldable pub new_node_cpu_stress : RecordingExecutor W
    unfolding node_cpu_stress roll_back validate_names
    new_node_cpu_stress = record {
      execute = node_cpu_stress client api nodes;
      rollback = roll_back client "node-cpu-stress";
      validate = λ exp. validate_names exp "node-cpu-stress";
    }
