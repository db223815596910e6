-- ===== src/Daemon/Server.antt =====
-- internal/daemon/server.go: the server's state, the requests, and the resolution of their targets.
use chaosplane.Prelude.{
  String, Bool, true, false, Option, none, some, [], ◌∷◌, ◌==◌, string_eq, ◌&&◌, if◌then◌else◌,
  Dict, text_at, concat, ℤ,
}
use chaosplane.Prelude.Codes.{codes, atoi_nearest}
use chaosplane.Api.Meta.{Time, Result, ok, err}
use chaosplane.Daemon.Store.{ExecutionStore, add}
use chaosplane.Daemon.Host.{PodTarget, Programs}

-- netns.PodRef and netns.Resolution; a Resolver is its method Resolve, the one that the server calls.
pub record PodRef : Type 0 where
  pub namespace : String
  pub name : String
  pub container_id : String
  pub node_name : String

pub record Resolution : Type 0 where
  pub container_pid : ℤ
  pub netns_path : String
  pub host_veth_ifindex : ℤ
  pub host_veth_name : String
  pub pod_eth0_ifindex : ℤ
  pub cgroup_v2_path : String

abbrev pub Resolver : Type 0
Resolver = PodRef → Result Resolution

-- The host is a field: a handler changes it by commands. The resolver is set once, or not.
pub record Server (H : Type 0) : Type 0 where
  pub store : ExecutionStore
  pub programs : Programs
  pub host : H
  pub resolver : Option Resolver

-- The five responses of the Exec methods have the same fields.
pub record Response : Type 0 where
  pub success : Bool
  pub applied : Bool
  pub message : String
  pub execution_id : String

abbrev pub refuse : String → Response
refuse message = record { success = false; applied = false; message = message; execution_id = "" }

abbrev pub accept : String → String → Response
accept message id = record { success = true; applied = true; message = message; execution_id = id }

pub record NetworkChaosRequest : Type 0 where
  pub experiment_id : String
  pub target_iface : String
  pub action : String
  pub parameters : Dict String
  pub pod_name : String
  pub namespace : String
  pub container_id : String
  pub node_name : String

pub record StressChaosRequest : Type 0 where
  pub experiment_id : String
  pub stressor_type : String
  pub parameters : Dict String

pub record DnsChaosRequest : Type 0 where
  pub experiment_id : String
  pub action : String
  pub parameters : Dict String

pub record HttpChaosRequest : Type 0 where
  pub experiment_id : String
  pub action : String
  pub port : ℤ
  pub parameters : Dict String

pub record NodeChaosRequest : Type 0 where
  pub experiment_id : String
  pub action : String
  pub parameters : Dict String

unfoldable pub call_resolver : Resolver → NetworkChaosRequest → Result (String × ℤ)
call_resolver resolve req =
    elim (resolve (record {
      namespace = req.namespace;
      name = req.pod_name;
      container_id = req.container_id;
      node_name = req.node_name;
    })) [
      | ok res ↦ ok (res.host_veth_name, res.host_veth_ifindex)
      | err e ↦ err (
          concat (
            "resolve host-side veth for pod " ∷ req.namespace ∷ "/" ∷ req.pod_name ∷ ": " ∷ e ∷ []))
    ]

-- resolveTarget: the interface and its index, or the message of a refusal.
unfoldable pub resolve_target : Option Resolver → NetworkChaosRequest → Result (String × ℤ)
unfolding call_resolver text_at
resolve_target resolver req =
    if req.pod_name == "" && req.container_id == ""
    then ok (
      (if req.target_iface == "" then "eth0" else req.target_iface),
      atoi_nearest (codes (text_at "ifIndex" req.parameters)),
    )
    else elim resolver [
      | none ↦ err (
          concat (
            "cannot resolve host-side veth for pod " ∷ req.namespace ∷ "/" ∷ req.pod_name
            ∷ ": no CRI resolver configured on this daemon" ∷ []))
      | some resolve ↦ call_resolver resolve req
    ]

unfoldable pub call_pod_resolver : Resolver → Dict String → Result PodTarget
unfolding text_at
call_pod_resolver resolve params =
    elim (resolve (record {
      namespace = text_at "podNamespace" params;
      name = text_at "podName" params;
      container_id = text_at "containerId" params;
      node_name = text_at "nodeName" params;
    })) [
      | ok res ↦ ok (record {
        scoped = true;
        host_veth = res.host_veth_name;
        cgroup_v2_path = res.cgroup_v2_path;
      })
      | err e ↦ err (
          concat (
            "resolve pod "
            ∷ text_at "podNamespace" params
            ∷ "/"
            ∷ text_at "podName" params
            ∷ ": "
            ∷ e
            ∷ []))
    ]

-- resolvePodTarget
unfoldable pub resolve_pod_target : Option Resolver → Dict String → Result PodTarget
unfolding call_pod_resolver text_at
resolve_pod_target resolver params =
    if text_at "podName" params == "" && text_at "containerId" params == ""
    then ok (record { scoped = false; host_veth = ""; cgroup_v2_path = "" })
    else elim resolver [
      | none ↦ err (
          concat (
            "cannot resolve pod "
            ∷ text_at "podNamespace" params
            ∷ "/"
            ∷ text_at "podName" params
            ∷ ": no CRI resolver configured on this daemon"
            ∷ []))
      | some resolve ↦ call_pod_resolver resolve params
    ]

-- What the call of a handler brings: the fresh UUID and the time.
pub record Stamp : Type 0 where
  pub id : String
  pub now : Time

-- `s.store.Add(execID, …)` of a fault of a kind.
unfoldable pub record_execution :
    {H : Type 0} → Stamp → String → String → Dict String → Server H → Server H
record_execution stamp experiment kind params s = record s {
  store =
      add stamp.id
        (record {
          id = stamp.id;
          experiment_id = experiment;
          kind = kind;
          status = "running";
          start_time = stamp.now;
          parameters = params;
        })
        s.store;
}
