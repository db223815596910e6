-- ===== src/Examples/Network.antt =====
-- Two pods on two nodes, one of which is not reached: runs of the network executors.
use chaosplane.Prelude.{
  ℤ, int_eq, Bool-cases, ℕ, zero, suc, ◌≡◌, ◌≢◌, ◌⊎◌, inl, inr, refl, ◌∙◌, ap, String, Bool, true,
  false, Option, none, some, [], ◌∷◌, arith, ◌==◌, string_eq, eq_iff, if◌then◌else◌, lookup, insert,
  text_at, pos, concat,
}
use chaosplane.Prelude.Trim.{join_words, trim_text, split_text}
use chaosplane.Prelude.Text.{itoa_ℤ}
use chaosplane.Prelude.Codes.{atoi}
use chaosplane.Api.Meta.{Result, ok, err}
use chaosplane.Api.Experiment.{ChaosExperiment}
use chaosplane.Daemon.Server.{Stamp, Resolver, resolve_target}
use chaosplane.Daemon.Targets.{IsNamed}
use chaosplane.Daemon.Claims.{Claim, qdisc}
use chaosplane.Daemon.Commands.{netem_args}
use chaosplane.Daemon.Host.{tc_add_netem}
use chaosplane.Daemon.Handlers.{exec_network_chaos, exec_netem, settle}
use chaosplane.Executors.Pods.{Pod, Lookups, parse_parameters, resolve_target_pods}
use chaosplane.Executors.Network.{Daemons, Base, records_of, exec_on_pod}
use chaosplane.Executors.Kinds.{delay, partition, ebpf_dns, validate, action_of, execute, rollback}
use chaosplane.Executors.Fleet.{Links, Fleet, fleet_daemons, IsFresh}
use chaosplane.Executors.Restoring.{execute-rollback}
use chaosplane.Executors.Forgetting.{IsMap, rollback-forgets}
use chaosplane.Examples.Samples.{kill_cart}
use chaosplane.Examples.Daemon.{Counts, counting, run_tc, counts, counting-Dependable, quiet}
use chaosplane.Examples.Netns.{small_node}
use chaosplane.Daemon.Netns.{
  Link, resolve, container_info, netlink_impl, read_cgroup_v2_path, pod_eth0_of, host_link_of,
  unified_path,
}
use chaosplane.Daemon.Pairing.{resolve-IsNamed}

-- IDs `x`, `xx` and so on.
abbrev strokes : ℕ → String
strokes zero = ""
strokes (suc n) = String.◌∷◌ "x" (strokes n)

abbrev stroke_stamps : ℕ → Stamp
stroke_stamps n = record { id = strokes n; now = pos n }

abbrev is_empty : String → Bool
is_empty String.[] = true
is_empty (String.◌∷◌ c s) = false

strokes-different : (m n : ℕ) → strokes m ≡ strokes n → m ≡ n
strokes-different zero zero e = refl
strokes-different zero (suc n) e = ground (arith, ap is_empty e)
strokes-different (suc m) zero e = ground (arith, ap is_empty e)
strokes-different (suc m) (suc n) e = ap suc (strokes-different m n (ground (arith, e)))

abbrev pub pod_on : String → String → Pod
pod_on name node = record {
  name = name;
  namespace = "shop";
  node_name = node;
  container_ids = "containerd://c1" ∷ [];
}

abbrev pub two_pods : Lookups
two_pods = record {
  get_pod = λ namespace name. ok (if name == "cart-0" then pod_on name "n1" else pod_on name "n2");
  list_pods = λ namespace selector. ok [];
  selector_error = λ selector. none;
  show_labels = λ labels. "";
  unmarshal = λ raw. ok (("latency", "50ms") ∷ []);
}

-- The client of the second node is made, and its calls fail.
abbrev links : Links
links = record {
  dial = λ e. none;
  call = λ e. if e == "n2:50051" then some "connection refused" else none;
}

abbrev knows_cart : Option Resolver
knows_cart =
    some (
      resolve (container_info small_node) (netlink_impl small_node)
        (read_cgroup_v2_path small_node))

abbrev idle_fleet : Fleet Counts
idle_fleet = record {
  server = λ e. record {
    store = record { executions = [] };
    programs = [];
    host = quiet;
    resolver = knows_cart;
  };
  issued = 1;
}

abbrev fresh_base : Base (Fleet Counts)
fresh_base = record { execution_ids = []; daemons = idle_fleet }

abbrev pub slow_carts : ChaosExperiment
slow_carts = record kill_cart {
  spec = record kill_cart.spec {
    target = record {
      kind = "Pod";
      namespace = "shop";
      label_selector = none;
      names = "cart-0" ∷ "cart-1" ∷ [];
    };
    action = record {
      kind = "network-delay";
      parameters = "{\"latency\":\"50ms\"}";
      duration = none;
    };
  };
}

fleet-IsFresh : IsFresh stroke_stamps idle_fleet
unfolding lookup
fleet-IsFresh = record { different = strokes-different; unused = λ e n later. refl }

abbrev link_name : Result Link → String
link_name (ok l) = l.name
link_name (err e) = ""

small_links : (i : ℤ) (l : Link) → small_node.link_by_index i ≡ ok l → l.name ≢ ""
small_links i l found empty = elim (Bool-cases (i == pos 17)) [
  | inl t ↦
      let veth : ok (record { index = pos 17; name = "veth1"; peer_idx = pos 3 }) ≡ ok l =
        ground (arith, t, found) in
      ground (arith, (eq_iff "veth1" "").1 (ap link_name veth ∙ empty))
  | inr f ↦ ground (arith, f, found)
]

cart-IsNamed : (e : String) → IsNamed (idle_fleet.server e).resolver
cart-IsNamed e = resolve-IsNamed small_node small_links

no_records : records_of slow_carts.meta.uid fresh_base.execution_ids ≡ []
unfolding records_of lookup
no_records = refl

abbrev carts : Daemons (Fleet Counts)
carts = fleet_daemons counting stroke_stamps links

no_partition :
    (action_of delay ≢ "partition")
    ⊎ ((execute two_pods carts delay slow_carts fresh_base).1 ≡ none)
no_partition = inl λ e. ground (arith, (eq_iff "delay" "partition").1 e)

abbrev slowed : Base (Fleet Counts)
slowed = (execute two_pods carts delay slow_carts fresh_base).0

-- The delay of the first pod is in place, and the second pod's daemon was not reached.
slowed_first :
    ((execute two_pods carts delay slow_carts fresh_base).1
      ≡ some "network-delay: exec on pod shop/cart-1: connection refused")
    × (counts (slowed.daemons.server "n1:50051").host (qdisc "veth1") ≡ 1)
unfolding execute parse_parameters resolve_target_pods exec_on_pod concat exec_network_chaos
    resolve_target exec_netem settle tc_add_netem counting run_tc resolve container_info pod_eth0_of
    itoa_ℤ atoi trim_text host_link_of read_cgroup_v2_path split_text unified_path
slowed_first = (refl, refl)

execute-rollback_example :
    ((rollback carts slow_carts slowed).1 ≡ none)
    × ((e : String)
        → (((rollback carts slow_carts slowed).0.daemons.server e).store.executions ≡ [])
          × ((c : Claim)
              → counts ((rollback carts slow_carts slowed).0.daemons.server e).host c ≡ 0))
execute-rollback_example =
    execute-rollback counting-Dependable stroke_stamps links two_pods delay slow_carts fresh_base
      no_records fleet-IsFresh cart-IsNamed no_partition

-- Daemons that do not answer CancelChaos.
abbrev mute : Daemons (Fleet Counts)
mute = record carts { cancel_chaos = λ e id w. (w, err "unavailable") }

mute_rollback :
    (rollback mute slow_carts slowed).1 ≡ some "rollback errors: [cancel x: unavailable]"
unfolding execute parse_parameters resolve_target_pods exec_on_pod rollback concat
    exec_network_chaos resolve_target exec_netem settle tc_add_netem counting run_tc lookup insert
    join_words resolve container_info pod_eth0_of itoa_ℤ atoi trim_text host_link_of
    read_cgroup_v2_path split_text unified_path
mute_rollback = refl

slowed-IsMap : IsMap slowed.execution_ids
unfolding execute parse_parameters resolve_target_pods exec_on_pod concat exec_network_chaos
    resolve_target exec_netem settle tc_add_netem counting run_tc lookup insert resolve
    container_info pod_eth0_of itoa_ℤ atoi trim_text host_link_of read_cgroup_v2_path split_text
    unified_path
slowed-IsMap = (refl, tt)

rollback-forgets_example :
    ((rollback mute slow_carts (rollback mute slow_carts slowed).0).1 ≡ none)
    × ((rollback mute slow_carts (rollback mute slow_carts slowed).0).0.daemons
        ≡ (rollback mute slow_carts slowed).0.daemons)
rollback-forgets_example = rollback-forgets mute slow_carts slowed slowed-IsMap

-- The action that the DNS executor asks for adds no fault to the qdisc.
dns_error_does_nothing :
    netem_args (action_of ebpf_dns) (("domains", "shop.example") ∷ []) ≡ "netem" ∷ []
unfolding netem_args
dns_error_does_nothing = refl

bandwidth_ignores_burst :
    netem_args "bandwidth" (("rate", "2mbit") ∷ ("burst", "64kbit") ∷ ("latency", "50ms") ∷ [])
    ≡ "tbf" ∷ "rate" ∷ "2mbit" ∷ "burst" ∷ "32kbit" ∷ "latency" ∷ "400ms" ∷ []
unfolding netem_args lookup text_at
bandwidth_ignores_burst = refl

partition_without_cidr :
    validate two_pods partition slow_carts
    ≡ some "network-partition: target_cidr parameter is required"
unfolding validate parse_parameters concat lookup text_at
partition_without_cidr = refl
