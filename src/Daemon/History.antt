-- ===== src/Daemon/History.antt =====
-- Sequences of calls of the daemon (internal/daemon/server.go): what the host holds in their course.
use chaosplane.Prelude.{
  ℕ, ◌+◌, ◌≡◌, inl, inr, refl, sym, ◌∙◌, ap, subst, String, true, Option, none, some, [], arith,
  lookup, remove, Option-cases, lookup-insert_self, remove-insert,
}
use chaosplane.Daemon.Store.{get, drop, add}
use chaosplane.Daemon.Host.{Runner}
use chaosplane.Daemon.Server.{
  Server, Response, Resolver, Stamp, NetworkChaosRequest, StressChaosRequest, DnsChaosRequest,
  HttpChaosRequest, NodeChaosRequest,
}
use chaosplane.Daemon.Handlers.{
  exec_network_chaos, exec_stress_chaos, exec_dns_chaos, exec_http_chaos, exec_node_chaos,
}
use chaosplane.Daemon.Cancel.{cancel_chaos}
use chaosplane.Daemon.Targets.{IsNamed}
use chaosplane.Daemon.Claims.{Claim, Accountable, Dependable, Dependable-Undoes}
use chaosplane.Daemon.Outstanding.{outstanding, outstanding-insert, outstanding-remove, Booked}
use chaosplane.Daemon.Booking.{exec_network_chaos-Booked}
use chaosplane.Daemon.Records.{IsPaired}
use chaosplane.Daemon.PodBooking.{
  exec_stress_chaos-Booked, exec_dns_chaos-Booked, exec_http_chaos-Booked, exec_node_chaos-Booked,
}
use chaosplane.Daemon.Undoing.{undo-held, undo-kept}

-- A call of one of the five Exec methods.
pub data Call : Type 0 where
  network : NetworkChaosRequest → Call
  stress : StressChaosRequest → Call
  dns : DnsChaosRequest → Call
  http : HttpChaosRequest → Call
  node : NodeChaosRequest → Call

abbrev pub exec : {H : Type 0} → Runner H → Stamp → Server H → Call → Server H × Response
exec os stamp s (network req) = exec_network_chaos os stamp s req
exec os stamp s (stress req) = exec_stress_chaos os stamp s req
exec os stamp s (dns req) = exec_dns_chaos os stamp s req
exec os stamp s (http req) = exec_http_chaos os stamp s req
exec os stamp s (node req) = exec_node_chaos os stamp s req

abbrev pub IsUndoable : Call → Type 0
IsUndoable (node req) = IsPaired req
IsUndoable _ = Unit

-- A daemon that has carried out calls, each under a fresh UUID, and cancelled some, in any order.
pub data Reached {H : Type 0} (os : Runner H) (resolver : Option Resolver) (base : H)
    : Server H → Type 0 where
  started : Reached os resolver base (record {
    store = record { executions = [] };
    programs = [];
    host = base;
    resolver = resolver;
  })
  executed :
      (s : Server H) (stamp : Stamp) (call : Call)
      → Reached os resolver base s
      → get stamp.id s.store ≡ none
      → IsUndoable call
      → (exec os stamp s call).1.success ≡ true
      → Reached os resolver base (exec os stamp s call).0
  cancelled :
      (s : Server H) (id : String)
      → Reached os resolver base s
      → Reached os resolver base (cancel_chaos os id s).0

module _ {H : Type 0} {os : Runner H} {held : H → Claim → ℕ} (a : Accountable os held) where
  -- A call that succeeds puts on the host exactly the claims of the execution that it records, and
  -- keeps the resolver: of every fault but a node fault that `IsPaired` excludes, where the resolver
  -- names its interfaces.
  pub exec-Booked :
      (stamp : Stamp) (s : Server H) (call : Call)
      → IsNamed s.resolver
      → IsUndoable call
      → (exec os stamp s call).1.success ≡ true
      → Booked os held stamp.id s (exec os stamp s call).0
  exec-Booked stamp s (network req) named fit = exec_network_chaos-Booked a stamp s req named
  exec-Booked stamp s (stress req) named fit = exec_stress_chaos-Booked a stamp s req
  exec-Booked stamp s (dns req) named fit = exec_dns_chaos-Booked a stamp s req named
  exec-Booked stamp s (http req) named fit = exec_http_chaos-Booked a stamp s req named
  exec-Booked stamp s (node req) named fit = exec_node_chaos-Booked a stamp s req fit

module _ {H : Type 0} {os : Runner H} {held : H → Claim → ℕ} (a : Dependable os held) where
  -- The host holds what it held at first and what the stored executions hold.
  abbrev pub IsBalanced : H → Server H → Type 0
  IsBalanced base s = (c : Claim) → held s.host c ≡ held base c + outstanding c s.store.executions

  exec-IsBalanced :
      (base : H) (stamp : Stamp) (s s' : Server H)
      → IsBalanced base s
      → get stamp.id s.store ≡ none
      → Booked os held stamp.id s s'
      → IsBalanced base s'
  unfolding get add
  exec-IsBalanced base stamp s s' balanced fresh (info, stored, more, same) c = omega (
    arith,
    balanced c,
    more c,
    outstanding-insert c stamp.id info s.store.executions fresh,
    ap (λ m. outstanding c m.executions) stored,
  )

  cancel_chaos-IsBalanced :
      (base : H) (id : String) (s : Server H)
      → IsBalanced base s
      → IsBalanced base (cancel_chaos os id s).0
  unfolding cancel_chaos get drop
  cancel_chaos-IsBalanced base id s balanced c =
      elim (Option-cases (lookup id s.store.executions)) [
        | inl e ↦ rw (cancel_chaos, e) (balanced c)
        | inr (info, e) ↦
            rw (cancel_chaos, e)
              (omega (
                arith,
                balanced c,
                undo-held (Dependable-Undoes a) info id s c,
                outstanding-remove c id info s.store.executions e,
                ap (λ m. outstanding c (remove id m.executions)) (undo-kept os info id s).0,
              ))
      ]

  cancel_chaos-resolver :
      (id : String) (s : Server H) → (cancel_chaos os id s).0.resolver ≡ s.resolver
  unfolding cancel_chaos
  cancel_chaos-resolver id s = elim (Option-cases (get id s.store)) [
    | inl e ↦ rw (cancel_chaos, e)
    | inr (info, e) ↦ rw (cancel_chaos, e) ((undo-kept os info id s).1)
  ]

  module _ (resolver : Option Resolver) (named : IsNamed resolver) (base : H) where
    Reached-kept :
        (s : Server H) → Reached os resolver base s → (s.resolver ≡ resolver) × IsBalanced base s
    unfolding outstanding
    Reached-kept s started = (refl, λ c. omega arith)
    Reached-kept s (executed s₀ stamp call before fresh fit done) =
        let (same, balanced) = Reached-kept s₀ before in
        let booked = exec-Booked a.laws stamp s₀ call (subst IsNamed (sym same) named) fit done in
        (
          booked.3 ∙ same,
          exec-IsBalanced base stamp s₀ (exec os stamp s₀ call).0 balanced fresh booked,
        )
    Reached-kept s (cancelled s₀ id before) =
        let (same, balanced) = Reached-kept s₀ before in
        (cancel_chaos-resolver id s₀ ∙ same, cancel_chaos-IsBalanced base id s₀ balanced)

    -- A daemon starts with an empty store on some host, and its resolver, if it has one, names the
    -- interface of each pod that it finds. It carries out Exec calls that succeed, each under an
    -- execution ID that is not in its store, and CancelChaos calls with any ID, in any order. A node
    -- call names an interface if it is a partition, and names none otherwise. Then the host always
    -- holds each iptables rule and root qdisc as often as at the start and as the recorded executions
    -- hold it together. So it holds what it held at the start when every execution has been cancelled.
    -- On the host a command that fails changes no rule and no qdisc, and a command that takes back a
    -- rule or a root qdisc that is there does not fail.
    pub Reached-IsBalanced :
        (s : Server H)
        → Reached os resolver base s
        → (c : Claim) → held s.host c ≡ held base c + outstanding c s.store.executions
    Reached-IsBalanced s reached = (Reached-kept s reached).1

  -- An Exec call that succeeds under a new execution ID, followed by CancelChaos of that ID, leaves
  -- the store as it was and each iptables rule and root qdisc as often on the host as before: for a
  -- network, stress, dns or http fault where the resolver names the interfaces of pods, and for a node
  -- fault that names an interface if and only if it is a partition. On the host a command that fails
  -- changes no rule and no qdisc, and one that takes back a rule or a root qdisc that is there does not
  -- fail.
  pub exec-cancel_chaos :
      (stamp : Stamp) (s : Server H) (call : Call)
      → IsNamed s.resolver
      → IsUndoable call
      → get stamp.id s.store ≡ none
      → (exec os stamp s call).1.success ≡ true
      → let after = (cancel_chaos os stamp.id (exec os stamp s call).0).0 in
        ((c : Claim) → held after.host c ≡ held s.host c)
        × (after.store.executions ≡ s.store.executions)
  unfolding cancel_chaos get drop add
  exec-cancel_chaos stamp s call named fit fresh done =
      let done_s = (exec os stamp s call).0 in
      let (info, stored, more, same) = exec-Booked a.laws stamp s call named fit done in
      let found : get stamp.id done_s.store ≡ some info =
        ap (get stamp.id) stored ∙ lookup-insert_self stamp.id info s.store.executions in
      rw (cancel_chaos, found)
        (
          λ c. omega (arith, more c, undo-held (Dependable-Undoes a) info stamp.id done_s c),
          ap (λ m. remove stamp.id m.executions) ((undo-kept os info stamp.id done_s).0 ∙ stored)
              ∙ remove-insert stamp.id info s.store.executions fresh,
        )
