-- ===== src/Examples/Daemon.antt =====
-- Runs of the model of internal/daemon on a host that counts its rules and qdiscs.
use chaosplane.Prelude.{
  ℕ, ◌+◌, ◌-◌, ◌≡◌, refl, String, true, false, Option, none, some, List, [], ◌∷◌, arith, ◌==◌,
  string_eq, nat_eq, if◌then◌else◌, pos, insert, lookup, text_at,
}
use chaosplane.Api.Meta.{Error, ok}
use chaosplane.Daemon.Store.{get, add}
use chaosplane.Daemon.Host.{
  Runner, iptables_block, append_rules, partition, http_delay, partition_restore, delete_rules,
  tc_delete,
}
use chaosplane.Daemon.Server.{
  Server, Stamp, record_execution, resolve_target, resolve_pod_target, NodeChaosRequest,
}
use chaosplane.Daemon.Commands.{block_rules, partition_rules}
use chaosplane.Daemon.Handlers.{
  settle, exec_partition, exec_network_chaos, exec_http_chaos, exec_node_chaos,
}
use chaosplane.Daemon.Cancel.{undo, cancel_chaos}
use chaosplane.Daemon.Targets.{IsNamed}
use chaosplane.Daemon.History.{
  Call, network, http, exec, started, executed, cancelled, Reached-IsBalanced, exec-cancel_chaos,
}
use chaosplane.Daemon.NodeLeak.{exec_node_chaos-leak}
use chaosplane.Daemon.Outstanding.{outstanding}
use chaosplane.Daemon.Claims.{Claim, rules, rule, qdisc, times, Accountable, Dependable}

abbrev pub Counts : Type 0
Counts = Claim → ℕ

unfoldable pub with_claim : Claim → Counts → Counts
with_claim d h = λ c. h c + times c (d ∷ [])

without_claim : Claim → Counts → Counts
without_claim d h = λ c. h c - times c (d ∷ [])

run_iptables : List String → Counts → Counts × Option Error
unfolding with_claim without_claim
run_iptables [] h = (h, none)
run_iptables (op ∷ body) h =
    if op == "-A"
    then (with_claim (rule body) h, none)
    else if op == "-D"
    then (without_claim (rule body) h, none)
    else (h, none)

-- A second root qdisc is refused.
unfoldable pub run_tc : List String → Counts → Counts × Option Error
unfolding with_claim without_claim
run_tc (qdisc_word ∷ op ∷ dev ∷ iface ∷ more) h =
    if op == "add"
    then (if h (qdisc iface) == 0
        then (with_claim (qdisc iface) h, none)
        else (h, some "File exists"))
    else if op == "del"
    then (without_claim (qdisc iface) h, none)
    else (h, none)
run_tc _ h = (h, none)

unfoldable pub counting : Runner Counts
unfolding run_iptables run_tc
counting = record {
  run = λ name args h.
      if name == "iptables"
      then run_iptables args h
      else if name == "tc"
      then run_tc args h
      else (h, none);
  start = λ name args h. (h, none);
  new_program = λ name percent h. (h, ok percent);
  attach = λ i p h. (h, ok p);
  close_program = λ p h. h;
  close_link = λ l h. h;
}

abbrev pub counts : Counts → Claim → ℕ
counts h c = h c

pub counting-Accountable : Accountable counting counts
unfolding counting
counting-Accountable = record {
  append_ok = λ body h e c. refl;
  append_err = λ body h n c. ground (arith, n refl);
  delete_ok = λ body h e c. refl;
  delete_err = λ body h n c. ground (arith, n refl);
  add_ok = λ iface args h e c. ground (arith, e);
  add_err = λ iface args h n c. ground (arith, n);
  remove_ok = λ iface h e c. refl;
  remove_err = λ iface h n c. ground (arith, n refl);
  kill = λ h c. refl;
  starts = λ name args h c. refl;
  loads = λ name percent h c. refl;
  attaches = λ i p h c. refl;
  closes_program = λ p h c. refl;
  closes_link = λ l h c. refl;
}

pub counting-Dependable : Dependable counting counts
unfolding counting
counting-Dependable = record {
  laws = counting-Accountable;
  deletes = λ body h n. ground (arith, n refl);
  removes = λ iface h n. ground (arith, n refl);
}

abbrev pub quiet : Counts
quiet = λ c. 0

abbrev pub idle : Server Counts
idle = record { store = record { executions = [] }; programs = []; host = quiet; resolver = none }

abbrev pub first_stamp : Stamp
first_stamp = record { id = "5f0c9a51"; now = pos 1000 }

abbrev second_stamp : Stamp
second_stamp = record { id = "77ab01d2"; now = pos 2000 }

-- A partition of eth0 from a network, and a delay of a port.
abbrev pub cut_off : Call
cut_off = network (record {
  experiment_id = "cut";
  target_iface = "";
  action = "partition";
  parameters = ("target_cidr", "10.0.0.0/8") ∷ [];
  pod_name = "";
  namespace = "";
  container_id = "";
  node_name = "";
})

abbrev slow_down : Call
slow_down =
    http (record { experiment_id = "slow"; action = "delay"; port = pos 80; parameters = [] })

-- A partition of the node that names no interface.
abbrev block_node : NodeChaosRequest
block_node = record { experiment_id = "block"; action = "partition"; parameters = [] }

abbrev cut_state : Server Counts
cut_state = (exec counting first_stamp idle cut_off).0

abbrev both_state : Server Counts
both_state = (exec counting second_stamp cut_state slow_down).0

abbrev slowed_state : Server Counts
slowed_state = (cancel_chaos counting "5f0c9a51" both_state).0

egress_rule : List String
egress_rule = "FORWARD" ∷ "-i" ∷ "eth0" ∷ "-d" ∷ "10.0.0.0/8" ∷ "-j" ∷ "DROP" ∷ []

pub cut_fresh : get "5f0c9a51" idle.store ≡ none
unfolding get lookup
cut_fresh = refl

cut_done : (exec counting first_stamp idle cut_off).1.success ≡ true
unfolding exec_network_chaos exec_partition counting settle lookup insert resolve_target text_at
    partition append_rules partition_rules
cut_done = refl

slow_fresh : get "77ab01d2" cut_state.store ≡ none
unfolding exec_network_chaos exec_partition counting settle lookup insert get add resolve_target
    text_at partition append_rules partition_rules record_execution
slow_fresh = refl

slow_done : (exec counting second_stamp cut_state slow_down).1.success ≡ true
unfolding exec_network_chaos exec_partition exec_http_chaos http_delay counting settle lookup insert
    resolve_target resolve_pod_target text_at partition append_rules partition_rules
    record_execution
slow_done = refl

slowed_counts :
    (counts slowed_state.host (rule egress_rule) ≡ 0) × (counts slowed_state.host (qdisc "lo") ≡ 1)
unfolding exec_network_chaos exec_partition exec_http_chaos http_delay counting settle lookup insert
    resolve_target resolve_pod_target text_at partition append_rules partition_rules
    record_execution cancel_chaos egress_rule get add undo partition_restore delete_rules tc_delete
slowed_counts = (refl, refl)

iface_open : text_at "iface" block_node.parameters ≡ ""
unfolding text_at lookup
iface_open = refl

pub no_resolver : IsNamed none
no_resolver resolve e = ground (arith, e)

Reached-IsBalanced_example :
    counts slowed_state.host (qdisc "lo")
    ≡ 0 + outstanding (qdisc "lo") slowed_state.store.executions
Reached-IsBalanced_example =
    Reached-IsBalanced counting-Dependable none no_resolver quiet slowed_state
      (cancelled both_state "5f0c9a51" (
        executed cut_state second_stamp slow_down
          (executed idle first_stamp cut_off started cut_fresh tt cut_done) slow_fresh tt
          slow_done))
      (qdisc "lo")

exec-cancel_chaos_example :
    ((c : Claim) → counts (cancel_chaos counting "5f0c9a51" cut_state).0.host c ≡ 0)
    × ((cancel_chaos counting "5f0c9a51" cut_state).0.store.executions ≡ [])
exec-cancel_chaos_example =
    exec-cancel_chaos counting-Dependable first_stamp idle cut_off no_resolver tt cut_fresh cut_done

block_done : (exec_node_chaos counting first_stamp idle block_node).1.success ≡ true
unfolding exec_node_chaos counting settle lookup text_at iptables_block append_rules block_rules
block_done = refl

exec_node_chaos-leak_example :
    counts
      (cancel_chaos counting "5f0c9a51"
        (exec_node_chaos counting first_stamp idle block_node).0).0.host
      (rule ("INPUT" ∷ "-i" ∷ "eth0" ∷ "-j" ∷ "DROP" ∷ []))
    ≡ 0
      + times
          (rule ("INPUT" ∷ "-i" ∷ "eth0" ∷ "-j" ∷ "DROP" ∷ []))
          (rules (block_rules "eth0" "both"))
exec_node_chaos-leak_example =
    exec_node_chaos-leak counting-Accountable first_stamp idle block_node refl iface_open block_done
      (rule ("INPUT" ∷ "-i" ∷ "eth0" ∷ "-j" ∷ "DROP" ∷ []))

-- What the executor of node-restart asks for.
restart_refused :
    (exec_node_chaos counting first_stamp idle
      (record { experiment_id = "r"; action = "restart"; parameters = [] })).1.success
    ≡ false
unfolding exec_node_chaos
restart_refused = refl
