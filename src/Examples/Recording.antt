-- ===== src/Examples/Recording.antt =====
-- Daemons that log their calls, one of which fails: runs of the recording executors.
use chaosplane.Prelude.{
  ◌≡◌, ◌≢◌, refl, String, true, none, some, List, [], ◌∷◌, ◌++◌, arith, ◌==◌, string_eq, eq_iff,
  if◌then◌else◌, lookup, insert, text_at, concat, pos,
}
use chaosplane.Api.Meta.{ok, err}
use chaosplane.Daemon.Server.{Server, Response, Stamp}
use chaosplane.Daemon.Netns.{resolve, container_info, netlink_impl, read_cgroup_v2_path}
use chaosplane.Executors.Pods.{parse_parameters, resolve_target_pods}
use chaosplane.Executors.Recording.{
  DaemonClient, NodeExecution, Recording, cancel_in_turn, cancel_execution, exec_site, exec_sites,
}
use chaosplane.Executors.Stress.{pod_cpu_stress, pod_io_stress, port_of}
use chaosplane.Executors.Family.{new_pod_http_abort, new_stress_cpu}
use chaosplane.Executors.Stopping.{
  StoppedAt, cancel_in_turn-StoppedAt, stress_daemons, pod_io_stress-refused,
}
use chaosplane.Examples.Daemon.{Counts, counting, quiet}
use chaosplane.Examples.Netns.{small_node}
use chaosplane.Examples.Network.{pod_on, two_pods, slow_carts}

-- The state is the list of the executions that were cancelled.
abbrev accepted_as : String → Response
accepted_as id = record { success = true; applied = true; message = ""; execution_id = id }

abbrev logging : DaemonClient (List String)
logging = record {
  dial = λ e. none;
  exec_stress_chaos = λ e req log. (log, ok (accepted_as e));
  exec_dns_chaos = λ e req log. (log, ok (accepted_as e));
  exec_http_chaos = λ e req log. (log, ok (accepted_as e));
  exec_node_chaos = λ e req log. (log, ok (accepted_as e));
  cancel_chaos = λ e id log.
      if id == "b"
      then (log, err "unavailable")
      else (log ++ id ∷ [], ok (record { success = true; message = "" }));
}

abbrev three : List NodeExecution
three =
    record { node_name = "n1"; execution_id = "a" }
    ∷ record { node_name = "n2"; execution_id = "b" }
    ∷ record { node_name = "n3"; execution_id = "c" }
    ∷ []

three_stop :
    cancel_in_turn "stress-cpu" "u1" logging three []
    ≡ ("a" ∷ [], some "stress-cpu: cancel execution b: unavailable")
unfolding cancel_in_turn cancel_execution concat
three_stop = refl

three_error :
    (cancel_in_turn "stress-cpu" "u1" logging three []).1
    ≡ some "stress-cpu: cancel execution b: unavailable"
unfolding cancel_in_turn cancel_execution concat
three_error = refl

cancel_in_turn-StoppedAt_example :
    StoppedAt "stress-cpu" "u1" logging three []
      (cancel_in_turn "stress-cpu" "u1" logging three []).0
      "stress-cpu: cancel execution b: unavailable"
cancel_in_turn-StoppedAt_example =
    cancel_in_turn-StoppedAt "stress-cpu" "u1" logging three []
      "stress-cpu: cancel execution b: unavailable" three_error

both_recorded :
    (pod_cpu_stress logging two_pods slow_carts
      (record { execution_ids = []; daemons = [] })).0.execution_ids
    ≡ (
      "u1",
      record { node_name = "n1"; execution_id = "n1:50051" }
          ∷ record { node_name = "n2"; execution_id = "n2:50051" }
          ∷ [],
    )
      ∷ []
unfolding pod_cpu_stress parse_parameters resolve_target_pods exec_site exec_sites concat lookup
    insert
both_recorded = refl

no_port : port_of "pod-http-abort" [] ≡ ok (pos 0)
unfolding port_of lookup
no_port = refl

abbrev node_server : Server Counts
node_server = record {
  store = record { executions = [] };
  programs = [];
  host = quiet;
  resolver = some (
      resolve (container_info small_node) (netlink_impl small_node)
        (read_cgroup_v2_path small_node));
}

abbrev first_stamp : Stamp
first_stamp = record { id = "x"; now = pos 1000 }

abbrev silent : DaemonClient (String → Server Counts)
silent = record {
  dial = λ e. none;
  exec_stress_chaos = λ e req w. (w, err "unavailable");
  exec_dns_chaos = λ e req w. (w, err "unavailable");
  exec_http_chaos = λ e req w. (w, err "unavailable");
  exec_node_chaos = λ e req w. (w, err "unavailable");
  cancel_chaos = λ e id w. (w, err "unavailable");
}

abbrev all_nodes : Recording (String → Server Counts)
all_nodes = record { execution_ids = []; daemons = λ e. node_server }

carts_found :
    resolve_target_pods two_pods slow_carts.spec.target
    ≡ ok (pod_on "cart-0" "n1" ∷ pod_on "cart-1" "n2" ∷ [])
unfolding resolve_target_pods
carts_found = refl

cart_named : (pod_on "cart-0" "n1").name ≢ ""
cart_named e = ground (arith, (eq_iff "cart-0" "").1 e)

pod_io_stress-refused_example :
    let after =
      pod_io_stress (stress_daemons counting first_stamp silent) two_pods slow_carts all_nodes in
    (after.1 ≢ none)
    × (after.0.execution_ids ≡ [])
    × ((e : String) → after.0.daemons e ≡ node_server)
pod_io_stress-refused_example =
    pod_io_stress-refused counting first_stamp (λ e. container_info small_node)
      (λ e. netlink_impl small_node) (λ e. read_cgroup_v2_path small_node) silent two_pods
      slow_carts all_nodes _ _ (λ e. refl) carts_found cart_named

port_wanted :
    (new_pod_http_abort logging two_pods).validate slow_carts
    ≡ some "pod-http-abort: port parameter is required"
unfolding new_pod_http_abort parse_parameters concat lookup text_at
port_wanted = refl

two_named :
    (new_stress_cpu logging two_pods (record { get_node = ok; list_nodes = λ s. ok [] })).validate
      slow_carts
    ≡ none
unfolding new_stress_cpu
two_named = refl
