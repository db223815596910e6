-- ===== src/Executors/Kinds.antt =====
-- internal/executor/network: the network executors, each `Execute`, `Rollback` and `Validate` over
-- the base executor.
use chaosplane.Prelude.{
  String, Option, none, some, List, [], ◌∷◌, ◌==◌, string_eq, if◌then◌else◌, Dict, insert, text_at,
  concat,
}
use chaosplane.Api.Meta.{Error, ok, err}
use chaosplane.Api.Experiment.{ChaosExperiment}
use chaosplane.Executors.Pods.{Lookups, parse_parameters}
use chaosplane.Executors.Network.{Daemons, Base, exec_network, rollback_executions, validate_target}

-- DelayExecutor and the others, by the action that they ask the daemons for.
pub data NetworkKind : Type 0 where
  delay loss corrupt duplicate bandwidth partition ebpf_delay ebpf_loss ebpf_dns : NetworkKind

abbrev pub action_of : NetworkKind → String
action_of delay = "delay"
action_of loss = "loss"
action_of corrupt = "corrupt"
action_of duplicate = "duplicate"
action_of bandwidth = "bandwidth"
action_of partition = "partition"
action_of ebpf_delay = "delay"
action_of ebpf_loss = "loss"
action_of ebpf_dns = "dns-error"

abbrev pub prefix_of : NetworkKind → String
prefix_of ebpf_delay = "ebpf-network-delay"
prefix_of ebpf_loss = "ebpf-network-loss"
prefix_of ebpf_dns = "ebpf-dns-chaos"
prefix_of kind = concat ("network-" ∷ action_of kind ∷ [])

-- The parameters that the daemons get.
abbrev pub sent : NetworkKind → Dict String → Dict String
sent ebpf_delay params = insert "mode" "ebpf" params
sent ebpf_loss params = insert "mode" "ebpf" params
sent ebpf_dns params = insert "mode" "ebpf" params
sent _ params = params

module _ (api : Lookups) where
  unfoldable pub execute :
      {W : Type 0} → Daemons W → NetworkKind → ChaosExperiment → Base W → Base W × Option Error
  unfolding exec_network
  execute rpc kind exp b = elim (parse_parameters api exp) [
    | err e ↦ (b, some (concat (prefix_of kind ∷ ": " ∷ e ∷ [])))
    | ok params ↦ exec_network rpc api exp (action_of kind) (sent kind params) (prefix_of kind) b
  ]

unfoldable pub rollback :
    {W : Type 0} → Daemons W → ChaosExperiment → Base W → Base W × Option Error
unfolding rollback_executions
rollback rpc exp b = rollback_executions rpc exp.meta.uid b

-- The first parameter of a list that is missing.
abbrev pub missing : String → Dict String → List String → Option Error
missing prefix params [] = none
missing prefix params (key ∷ keys) =
    let rest = missing prefix params keys in
    if text_at key params == ""
    then some (concat (prefix ∷ ": " ∷ key ∷ " parameter is required" ∷ []))
    else rest

abbrev pub required : NetworkKind → List String
required delay = "latency" ∷ []
required ebpf_delay = "latency" ∷ []
required ebpf_dns = "domains" ∷ []
required bandwidth = "rate" ∷ "burst" ∷ "latency" ∷ []
required partition = "target_cidr" ∷ "direction" ∷ []
required _ = "percent" ∷ []

-- The direction of a partition, once it is there.
abbrev pub direction_error : NetworkKind → Dict String → Option Error
direction_error partition params =
    let direction = text_at "direction" params in
    if direction == "ingress"
    then none
    else if direction == "egress"
    then none
    else if direction == "both"
    then none
    else some "network-partition: direction must be ingress, egress, or both"
direction_error _ params = none

abbrev pub validate_parameters : NetworkKind → Dict String → Option Error
validate_parameters kind params = elim (missing (prefix_of kind) params (required kind)) [
  | some e ↦ some e
  | none ↦ direction_error kind params
]

unfoldable pub validate : Lookups → NetworkKind → ChaosExperiment → Option Error
unfolding validate_target parse_parameters
validate api kind exp = elim (validate_target exp (prefix_of kind)) [
  | some e ↦ some e
  | none ↦ elim (parse_parameters api exp) [
    | err e ↦ some (concat (prefix_of kind ∷ ": " ∷ e ∷ []))
    | ok params ↦ validate_parameters kind params
  ]
]
