-- ===== src/Daemon/Handlers.antt =====
-- internal/daemon/server.go: the Exec methods. Each answers a nil error beside its response.
use chaosplane.Prelude.{
  ℕ, ◌%◌, ◌^◌, ◌-◌, String, Option, none, some, [], ◌∷◌, ◌==◌, string_eq, ◌&&◌, if◌then◌else◌, Dict,
  insert, text_at, concat, quote, ℤ, pos, negsuc, leb_ℤ,
}
use chaosplane.Prelude.Codes.{codes, atoi}
use chaosplane.Prelude.Text.{itoa_ℤ}
use chaosplane.Prelude.Trim.{trim_end}
use chaosplane.Api.Meta.{Error, ok, err}
use chaosplane.Daemon.Commands.{or_default}
use chaosplane.Daemon.Host.{
  Runner, PodTarget, tc_add_netem, http_abort, http_delay, iptables_block, partition,
  stress_ng_start, dns_intercept, load_tc_drop,
}
use chaosplane.Daemon.Server.{
  Server, Response, refuse, accept, Stamp, NetworkChaosRequest, StressChaosRequest, DnsChaosRequest,
  HttpChaosRequest, NodeChaosRequest, resolve_target, resolve_pod_target, record_execution,
}

-- `uint32(p)` of an int.
unfoldable pub to_uint32 : ℤ → ℕ
to_uint32 (pos n) = n % 2 ^ 32
to_uint32 (negsuc n) = 2 ^ 32 - 1 - n % 2 ^ 32

-- The drop percentage, 10 by default.
unfoldable pub drop_percent : String → ℕ
unfolding to_uint32
drop_percent v = elim (atoi (codes (trim_end b'%' v))) [ none ↦ 10 | some p ↦ to_uint32 p ]

-- The duration of a stress fault in seconds, 60 by default.
unfoldable pub stress_seconds : String → ℤ
stress_seconds v = elim (atoi (codes v)) [ none ↦ pos 60 | some d ↦ d ]

module _ {H : Type 0} (os : Runner H) (stamp : Stamp) where
  -- What follows a command: a refusal with the error, or the record of the execution.
  unfoldable pub settle :
      Server H
      → H × Option Error
      → (Error → String)
      → String
      → String
      → Dict String
      → String
      → Server H × Response
  unfolding record_execution
  settle s (h, some e) refusal experiment kind params message =
      (record s { host = h }, refuse (refusal e))
  settle s (h, none) refusal experiment kind params message = (
    record_execution stamp experiment kind params (record s { host = h }),
    accept message stamp.id,
  )

  unfoldable pub exec_partition : Server H → NetworkChaosRequest → String → Server H × Response
  exec_partition s req iface =
      settle s
        (partition os iface (text_at "direction" req.parameters)
          (text_at "target_cidr" req.parameters) s.host)
        (λ e. concat ("network partition failed on iface " ∷ iface ∷ ": " ∷ e ∷ []))
        req.experiment_id "network"
        (insert "datapath" "iptables" (insert "iface" iface req.parameters))
        "network chaos applied: partition"

  -- The netem path, which every action but an eBPF loss takes.
  unfoldable pub exec_netem : Server H → NetworkChaosRequest → String → Server H × Response
  exec_netem s req iface =
      settle s (tc_add_netem os iface req.action req.parameters s.host)
        (λ e.
          concat
            ("network chaos " ∷ quote req.action ∷ " failed on iface " ∷ iface ∷ ": " ∷ e ∷ []))
        req.experiment_id "network"
        (insert "iface" iface (insert "datapath" "netem" req.parameters))
        (concat ("network chaos applied: " ∷ req.action ∷ []))

  -- After the attempt to attach: the eBPF loss, or its fallback.
  unfoldable pub exec_attached :
      Server H → NetworkChaosRequest → String → Option Error → Server H × Response
  unfolding record_execution
  exec_attached s req iface none = (
    record_execution stamp req.experiment_id "network"
        (insert "iface" iface (insert "datapath" "ebpf" req.parameters)) s,
    accept (concat ("network chaos applied: " ∷ req.action ∷ [])) stamp.id,
  )
  exec_attached s req iface (some e) =
      settle s (tc_add_netem os iface "loss" req.parameters s.host)
        (λ f. concat (
          "ebpf loss attach failed (" ∷ e ∷ ") and netem fallback failed (" ∷ f ∷ ") on iface "
          ∷ iface ∷ []))
        req.experiment_id "network"
        (insert "iface" iface (insert "datapath" "netem-fallback" req.parameters))
        (concat ("network chaos applied: " ∷ req.action ∷ []))

  unfoldable pub exec_ebpf : Server H → NetworkChaosRequest → String → ℤ → Server H × Response
  unfolding drop_percent
  exec_ebpf s req iface if_index =
      let (programs, h, failure) =
        load_tc_drop os stamp.id if_index (drop_percent (text_at "percent" req.parameters))
          s.programs s.host in
      exec_attached (record s { programs = programs; host = h }) req iface failure

  -- On a resolved target.
  unfoldable pub exec_network_on : Server H → NetworkChaosRequest → String → ℤ → Server H × Response
  exec_network_on s req iface if_index =
      if req.action == "partition"
      then exec_partition s req iface
      else if text_at "mode" req.parameters == "ebpf" && req.action == "loss"
      then exec_ebpf s req iface if_index
      else exec_netem s req iface

  unfoldable pub exec_network_chaos : Server H → NetworkChaosRequest → Server H × Response
  unfolding exec_network_on
  exec_network_chaos s req = elim (resolve_target s.resolver req) [
    | err message ↦ (s, refuse message)
    | ok (iface, if_index) ↦ exec_network_on s req iface if_index
  ]

  unfoldable pub exec_stress_on : Server H → StressChaosRequest → PodTarget → Server H × Response
  unfolding stress_seconds
  exec_stress_on s req target =
      if target.scoped && target.cgroup_v2_path == ""
      then (
        s,
        refuse (
            concat (
              "stress chaos "
              ∷ quote req.stressor_type
              ∷ ": pod resolved but cgroup v2 path is empty; refusing to stress the whole node"
              ∷ [])),
      )
      else settle s
          (stress_ng_start os req.stressor_type req.parameters
            (stress_seconds (text_at "duration" req.parameters)) target.cgroup_v2_path s.host)
          (λ e. concat ("stress chaos " ∷ quote req.stressor_type ∷ " failed: " ∷ e ∷ []))
          req.experiment_id "stress" req.parameters
          (concat ("stress chaos applied: " ∷ req.stressor_type ∷ []))

  unfoldable pub exec_stress_chaos : Server H → StressChaosRequest → Server H × Response
  unfolding exec_stress_on
  exec_stress_chaos s req = elim (resolve_pod_target s.resolver req.parameters) [
    | err message ↦ (s, refuse message)
    | ok target ↦ exec_stress_on s req target
  ]

  unfoldable pub exec_dns_on : Server H → DnsChaosRequest → PodTarget → Server H × Response
  exec_dns_on s req target =
      let params = insert "iface" target.host_veth req.parameters in
      settle s (dns_intercept os req.action target params s.host)
        (λ e. concat ("dns chaos " ∷ quote req.action ∷ " failed: " ∷ e ∷ [])) req.experiment_id
        "dns" params (concat ("dns chaos applied: " ∷ req.action ∷ []))

  unfoldable pub exec_dns_chaos : Server H → DnsChaosRequest → Server H × Response
  unfolding exec_dns_on
  exec_dns_chaos s req = elim (resolve_pod_target s.resolver req.parameters) [
    | err message ↦ (s, refuse message)
    | ok target ↦ exec_dns_on s req target
  ]

  unfoldable pub exec_http_on : Server H → HttpChaosRequest → PodTarget → Server H × Response
  exec_http_on s req target =
      let params =
        insert "port" (itoa_ℤ req.port) (insert "iface" target.host_veth req.parameters) in
      let refusal = λ (e : Error).
        concat (
          "http chaos "
          ∷ quote req.action
          ∷ " failed on port "
          ∷ itoa_ℤ req.port
          ∷ ": "
          ∷ e
          ∷ []) in
      let message = concat ("http chaos applied: " ∷ req.action ∷ []) in
      if req.action == "abort"
      then settle s (http_abort os target req.port s.host) refusal req.experiment_id "http"
          (insert "action" req.action params) message
      else if req.action == "delay"
      then settle s (http_delay os target (text_at "delay" params) s.host) refusal req.experiment_id
          "http" (insert "action" req.action params) message
      else (s, refuse (concat ("unsupported http chaos action: " ∷ req.action ∷ [])))

  unfoldable pub exec_http_chaos : Server H → HttpChaosRequest → Server H × Response
  unfolding exec_http_on
  exec_http_chaos s req =
      if leb_ℤ req.port (pos 0)
      then (s, refuse "http chaos requires a positive port")
      else elim (resolve_pod_target s.resolver req.parameters) [
        | err message ↦ (s, refuse message)
        | ok target ↦ exec_http_on s req target
      ]

  unfoldable pub exec_node_chaos : Server H → NodeChaosRequest → Server H × Response
  exec_node_chaos s req =
      let refusal =
        λ (e : Error). concat ("node chaos " ∷ quote req.action ∷ " failed: " ∷ e ∷ []) in
      let message = concat ("node chaos applied: " ∷ req.action ∷ []) in
      if req.action == "cpu-stress"
      then settle s (stress_ng_start os "cpu" req.parameters (pos 60) "" s.host) refusal
          req.experiment_id "node" req.parameters message
      else if req.action == "partition"
      then settle s
          (iptables_block os (or_default (text_at "iface" req.parameters) "eth0") "both" s.host)
          refusal req.experiment_id "node" req.parameters message
      else (s, refuse (concat ("unsupported node chaos action: " ∷ req.action ∷ [])))
