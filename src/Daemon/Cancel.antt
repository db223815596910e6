-- ===== src/Daemon/Cancel.antt =====
-- internal/daemon/server.go: `CancelChaos` and `GetChaosStatus`.
use chaosplane.Prelude.{
  String, Bool, true, false, none, some, List, [], ◌∷◌, map, ◌==◌, string_eq, if◌then◌else◌, Dict,
  text_at, concat,
}
use chaosplane.Api.Meta.{Time}
use chaosplane.Daemon.Store.{ExecutionInfo, get, drop, list}
use chaosplane.Daemon.Commands.{or_default}
use chaosplane.Daemon.Host.{
  Runner, partition_restore, tc_delete, http_restore, iptables_unblock, stress_ng_stop, dns_restore,
  unload,
}
use chaosplane.Daemon.Server.{Server}

pub record CancelResponse : Type 0 where
  pub success : Bool
  pub message : String

-- executionStatus; the start is kept as a time.
pub record ExecutionStatus : Type 0 where
  pub execution_id : String
  pub experiment_id : String
  pub kind : String  -- Type
  pub status : String
  pub start_time : Time

module _ {H : Type 0} (os : Runner H) where
  unfoldable pub undo_network : String → Dict String → Server H → Server H
  unfolding text_at unload
  undo_network id params s =
      let iface = or_default (text_at "iface" params) "eth0" in
      let datapath = text_at "datapath" params in
      if datapath == "ebpf"
      then (let (programs, h) = unload os id s.programs s.host in
          record s { programs = programs; host = h })
      else if datapath == "iptables"
      then record s {
        host =
            partition_restore os iface (text_at "direction" params) (text_at "target_cidr" params)
              s.host;
      }
      else record s { host = (tc_delete os iface s.host).0 }

  unfoldable pub undo_node : Dict String → H → H
  unfolding text_at
  undo_node params h = stress_ng_stop os (
      if text_at "iface" params == ""
      then h
      else iptables_unblock os (text_at "iface" params) "both" h)

  -- The switch on the type; the errors of the commands are logged only.
  unfoldable pub undo : ExecutionInfo → String → Server H → Server H
  unfolding undo_network undo_node
  undo info id s =
      if info.kind == "network"
      then undo_network id info.parameters s
      else if info.kind == "stress"
      then record s { host = stress_ng_stop os s.host }
      else if info.kind == "dns"
      then record s { host = dns_restore os info.parameters s.host }
      else if info.kind == "http"
      then record s { host = http_restore os info.parameters s.host }
      else if info.kind == "node"
      then record s { host = undo_node info.parameters s.host }
      else s

  unfoldable pub cancel_chaos : String → Server H → Server H × CancelResponse
  unfolding undo
  cancel_chaos id s = elim (get id s.store) [
    | none ↦
        (s, record { success = false; message = concat ("execution " ∷ id ∷ " not found" ∷ []) })
    | some info ↦
        let undone = undo info id s in
        (
          record undone { store = drop id undone.store },
          record { success = true; message = concat ("execution " ∷ id ∷ " cancelled" ∷ []) },
        )
  ]

abbrev pub execution_status : ExecutionInfo → ExecutionStatus
execution_status info = record {
  execution_id = info.id;
  experiment_id = info.experiment_id;
  kind = info.kind;
  status = info.status;
  start_time = info.start_time;
}

unfoldable pub get_chaos_status : {H : Type 0} → Server H → List ExecutionStatus
unfolding list
get_chaos_status s = map execution_status (list s.store)
