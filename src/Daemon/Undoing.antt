-- ===== src/Daemon/Undoing.antt =====
-- `CancelChaos` of internal/daemon/server.go takes back what the execution has put on the host.
use chaosplane.Prelude.{
  ℕ, ◌-◌, ◌≡◌, inl, inr, String, true, false, List, arith, ◌==◌, string_eq, eq_iff, if◌then◌else◌,
  Dict, lookup, text_at, Bool-cases, if-alike, Option-cases,
}
use chaosplane.Daemon.Store.{ExecutionInfo}
use chaosplane.Daemon.Commands.{or_default, http_abort_rule_body, partition_rules, block_rules}
use chaosplane.Daemon.Host.{
  Runner, Programs, delete_rules, partition_restore, tc_delete, http_restore, iptables_unblock,
  stress_ng_stop, dns_restore, unload,
}
use chaosplane.Daemon.Server.{Server}
use chaosplane.Daemon.Cancel.{undo_network, undo_node, undo}
use chaosplane.Daemon.Claims.{Claim, Accountable, Undoes, delete_rules-held}
use chaosplane.Daemon.Outstanding.{network_claims, dns_claims, http_claims, node_claims, claims_of}

module _ {H : Type 0} {os : Runner H} {held : H → Claim → ℕ} {taken : Claim → List Claim → ℕ}
    (u : Undoes os held taken) where
  unload-held :
      (id : String) (programs : Programs) (h : H) (c : Claim)
      → held (unload os id programs h).1 c ≡ held h c
  unfolding unload
  unload-held id programs h c = elim (Option-cases (lookup id programs)) [
    | inl e ↦ ground (arith, e)
    | inr ((p, l), e) ↦
        ground (arith, e, u.laws.closes_program p (os.close_link l h) c, u.laws.closes_link l h c)
  ]

  undo_network-held :
      (id : String) (params : Dict String) (s : Server H) (c : Claim)
      → held (undo_network os id params s).host c ≡ held s.host c - taken c (network_claims params)
  unfolding undo_network network_claims partition_restore tc_delete
  undo_network-held id params s c =
      let iface = or_default (text_at "iface" params) "eth0" in
      let direction = or_default (text_at "direction" params) "both" in
      ground (
        arith,
        unload-held id s.programs s.host c,
        u.remove iface s.host c,
        u.nothing c,
        delete_rules-held u (partition_rules iface direction (text_at "target_cidr" params)) s.host
            c,
      )

  dns_restore-held :
      (params : Dict String) (h : H) (c : Claim)
      → held (dns_restore os params h) c ≡ held h c - taken c (dns_claims params)
  unfolding dns_restore dns_claims
  dns_restore-held params h c = delete_rules-held u _ h c

  http_restore-held :
      (params : Dict String) (h : H) (c : Claim)
      → held (http_restore os params h) c ≡ held h c - taken c (http_claims params)
  unfolding http_restore http_claims tc_delete
  http_restore-held params h c =
      let iface = text_at "iface" params in
      let scoped = if iface == "" then false else true in
      ground (
        arith,
        u.delete (http_abort_rule_body iface (text_at "port" params) scoped) h c,
        u.remove (if scoped then iface else "lo") h c,
        u.nothing c,
      )

  undo_node-held :
      (params : Dict String) (h : H) (c : Claim)
      → held (undo_node os params h) c ≡ held h c - taken c (node_claims params)
  unfolding undo_node node_claims stress_ng_stop iptables_unblock
  undo_node-held params h c =
      let iface = text_at "iface" params in
      let unblocked = delete_rules os (block_rules iface "both") h in
      ground (
        arith,
        u.laws.kill h c,
        u.laws.kill unblocked c,
        delete_rules-held u (block_rules iface "both") h c,
        u.nothing c,
      )

  pub undo-held :
      (info : ExecutionInfo) (id : String) (s : Server H) (c : Claim)
      → held (undo os info id s).host c
        ≡ held s.host c - taken c (claims_of info.kind info.parameters)
  unfolding undo claims_of stress_ng_stop
  undo-held info id s c = elim (Bool-cases (info.kind == "stress")) [
    | inl b ↦
        let stress = (eq_iff info.kind "stress").0 b in
        rw stress (omega (arith, u.laws.kill s.host c, u.nothing c))
    | inr b ↦ rw b (
        let undone = λ (t : Server H) (l : List Claim). held t.host c ≡ held s.host c - taken c l in
        if-alike undone (info.kind == "network") (undo_network-held id info.parameters s c) (
          if-alike undone (info.kind == "dns") (dns_restore-held info.parameters s.host c) (
            if-alike undone (info.kind == "http") (http_restore-held info.parameters s.host c) (
              if-alike undone (info.kind == "node") (undo_node-held info.parameters s.host c)
                (omega (arith, u.nothing c))))))
  ]

-- A node fault that names no interface: only the stressors are stopped.
pub undo-unnamed :
    {H : Type 0} {os : Runner H} {held : H → Claim → ℕ} (a : Accountable os held)
    (info : ExecutionInfo) (id : String) (s : Server H)
    → info.kind ≡ "node"
    → text_at "iface" info.parameters ≡ ""
    → (c : Claim) → held (undo os info id s).host c ≡ held s.host c
unfolding undo undo_node stress_ng_stop
undo-unnamed a info id s node shut c = rw (node, shut) (a.kill s.host c)

pub undo-kept :
    {H : Type 0} (os : Runner H) (info : ExecutionInfo) (id : String) (s : Server H)
    → ((undo os info id s).store ≡ s.store) × ((undo os info id s).resolver ≡ s.resolver)
unfolding undo undo_network
undo-kept os info id s = (ground arith, ground arith)
