-- ===== src/Daemon/Outstanding.antt =====
-- The claims of an execution and of a store, and that each Exec method that succeeds records exactly
-- the claims it has made.
use chaosplane.Prelude.{
  ℕ, ◌+◌, ◌≡◌, inl, inr, refl, ap, String, true, false, Option, none, some, List, [], ◌∷◌, arith,
  ◌==◌, string_eq, if◌then◌else◌, Dict, lookup, insert, remove, text_at, Bool-cases,
}
use chaosplane.Prelude.Trim.{split_text}
use chaosplane.Api.Meta.{Error}
use chaosplane.Daemon.Store.{ExecutionInfo, add}
use chaosplane.Daemon.Commands.{or_default, http_abort_rule_body, partition_rules, block_rules}
use chaosplane.Daemon.Host.{Runner, dns_rules, domains_of}
use chaosplane.Daemon.Server.{Server, Response, Stamp, record_execution}
use chaosplane.Daemon.Handlers.{settle}
use chaosplane.Daemon.Claims.{Claim, rule, qdisc, times, rules}

-- The claims of a network fault, by its datapath.
unfoldable pub network_claims : Dict String → List Claim
network_claims params =
    let iface = or_default (text_at "iface" params) "eth0" in
    let cidr = text_at "target_cidr" params in
    if text_at "datapath" params == "ebpf"
    then []
    else if text_at "datapath" params == "iptables"
    then (if cidr == ""
        then []
        else rules (partition_rules iface (or_default (text_at "direction" params) "both") cidr))
    else qdisc iface ∷ []

unfoldable pub dns_claims : Dict String → List Claim
dns_claims params =
    let iface = text_at "iface" params in
    rules (
      dns_rules iface (if iface == "" then false else true)
        (domains_of (split_text b',' (text_at "domains" params))))

unfoldable pub http_claims : Dict String → List Claim
http_claims params =
    let iface = text_at "iface" params in
    let scoped = if iface == "" then false else true in
    if text_at "action" params == "abort"
    then (if text_at "port" params == ""
        then []
        else rule (http_abort_rule_body iface (text_at "port" params) scoped) ∷ [])
    else if text_at "action" params == "delay"
    then qdisc (if scoped then iface else "lo") ∷ []
    else []

unfoldable pub node_claims : Dict String → List Claim
node_claims params =
    if text_at "iface" params == "" then [] else rules (block_rules (text_at "iface" params) "both")

-- The claims of an execution, by its type.
unfoldable pub claims_of : String → Dict String → List Claim
unfolding network_claims dns_claims http_claims node_claims
claims_of kind params =
    if kind == "network"
    then network_claims params
    else if kind == "dns"
    then dns_claims params
    else if kind == "http"
    then http_claims params
    else if kind == "node"
    then node_claims params
    else []

-- How often the executions of a store hold a claim.
unfoldable pub outstanding : Claim → Dict ExecutionInfo → ℕ
unfolding claims_of
outstanding c [] = 0
outstanding c ((id, info) ∷ m) = times c (claims_of info.kind info.parameters) + outstanding c m

pub outstanding-insert :
    (c : Claim) (id : String) (info : ExecutionInfo) (m : Dict ExecutionInfo)
    → lookup id m ≡ none
    → outstanding c (insert id info m)
      ≡ outstanding c m + times c (claims_of info.kind info.parameters)
unfolding outstanding insert lookup
outstanding-insert c id info [] h = omega arith
outstanding-insert c id info ((k, i) ∷ m) h = elim (Bool-cases (id == k)) [
  | inl e ↦ ground (arith, e, h)
  | inr e ↦ ground (arith, e, outstanding-insert c id info m (ground (arith, e, h)))
]

pub outstanding-remove :
    (c : Claim) (id : String) (info : ExecutionInfo) (m : Dict ExecutionInfo)
    → lookup id m ≡ some info
    → outstanding c m ≡ outstanding c (remove id m) + times c (claims_of info.kind info.parameters)
unfolding outstanding remove lookup
outstanding-remove c id info [] h = ground (arith, h)
outstanding-remove c id info ((k, i) ∷ m) h = elim (Bool-cases (id == k)) [
  | inl e ↦
      let same : i ≡ info = ground (arith, e, h) in
      ground (arith, e, ap (λ (x : ExecutionInfo). times c (claims_of x.kind x.parameters)) same)
  | inr e ↦ ground (arith, e, outstanding-remove c id info m (ground (arith, e, h)))
]

module _ {H : Type 0} (os : Runner H) (held : H → Claim → ℕ) where
  -- A request was carried out and booked: the host holds the claims of the new execution besides what
  -- it held.
  abbrev pub Booked : String → Server H → Server H → Type 0
  Booked id s s' =
      (info : ExecutionInfo) × (s'.store ≡ add id info s.store)
      × ((c : Claim)
          → held s'.host c ≡ held s.host c + times c (claims_of info.kind info.parameters))
      × (s'.resolver ≡ s.resolver)

  -- A handler that answers with success has booked its work.
  abbrev pub Books : Stamp → Server H → Server H × Response → Type 0
  Books stamp s r = r.1.success ≡ true → Booked stamp.id s r.0

  pub settle-Booked :
      (stamp : Stamp) (s : Server H) (r : H × Option Error) (refusal : Error → String)
      (experiment kind : String) (params : Dict String) (message : String)
      → (r.1 ≡ none → (c : Claim) → held r.0 c ≡ held s.host c + times c (claims_of kind params))
      → (settle os stamp s r refusal experiment kind params message).1.success ≡ true
      → Booked stamp.id s (settle os stamp s r refusal experiment kind params message).0
  unfolding settle record_execution
  settle-Booked stamp s (h, some e) refusal experiment kind params message held_more done =
      ground (arith, done)
  settle-Booked stamp s (h, none) refusal experiment kind params message held_more done =
      (_, refl, held_more refl, refl)
