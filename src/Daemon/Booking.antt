-- ===== src/Daemon/Booking.antt =====
-- Each Exec method that succeeds books what it has done, where the request names what it faults.
use chaosplane.Prelude.{
  ℕ, ◌+◌, ◌≡◌, ◌≢◌, inl, inr, refl, sym, ◌∙◌, ap, String, true, false, ◌&&◌, Option, none, some, [],
  ◌∷◌, arith, ◌==◌, string_eq, eq_iff, ℤ, Dict, insert, text_at, text_at-insert, Bool-cases,
  if-both,
}
use Prim.Native.String.{slice}
use chaosplane.Prelude.Text.{concat}
use chaosplane.Api.Meta.{Error, Result-cases}
use chaosplane.Daemon.Commands.{or_default, partition_rules, netem_args}
use chaosplane.Daemon.Host.{Runner, Programs, tc_add_netem, partition, load_tc_drop}
use chaosplane.Daemon.Server.{Server, Stamp, record_execution, NetworkChaosRequest, resolve_target}
use chaosplane.Daemon.Handlers.{
  drop_percent, exec_partition, exec_netem, exec_attached, exec_ebpf, exec_network_on,
  exec_network_chaos,
}
use chaosplane.Daemon.Targets.{IsNamed, resolve_target-named}
use chaosplane.Daemon.Claims.{Claim, qdisc, times, rules, Accountable, append_rules-held}
use chaosplane.Daemon.Outstanding.{claims_of, Booked, Books, settle-Booked}

network_claims-iptables :
    (iface : String) (params : Dict String)
    → iface ≢ ""
    → text_at "target_cidr" params ≢ ""
    → claims_of "network" (insert "datapath" "iptables" (insert "iface" iface params))
      ≡ rules (
          partition_rules iface
            (or_default (text_at "direction" params) "both")
            (text_at "target_cidr" params))
unfolding claims_of
network_claims-iptables iface params n c =
    simp text_at-insert (ground (arith, eq_iff iface "", eq_iff (text_at "target_cidr" params) ""))

network_claims-netem :
    (iface datapath : String) (params : Dict String)
    → iface ≢ ""
    → (datapath == "ebpf") ≡ false
    → (datapath == "iptables") ≡ false
    → claims_of "network" (insert "iface" iface (insert "datapath" datapath params))
      ≡ qdisc iface ∷ []
unfolding claims_of
network_claims-netem iface datapath params n e i =
    simp text_at-insert (ground (arith, eq_iff iface ""))

network_claims-ebpf :
    (iface : String) (params : Dict String)
    → claims_of "network" (insert "iface" iface (insert "datapath" "ebpf" params)) ≡ []
unfolding claims_of
network_claims-ebpf iface params = simp text_at-insert

module _ {H : Type 0} {os : Runner H} {held : H → Claim → ℕ} (a : Accountable os held) where
  partition-held :
      (iface direction cidr : String) (h : H)
      → (partition os iface direction cidr h).1 ≡ none
      → (cidr ≢ "")
        × ((c : Claim)
            → held (partition os iface direction cidr h).0 c
              ≡ held h c
                + times c (rules (partition_rules iface (or_default direction "both") cidr)))
  unfolding partition
  partition-held iface direction cidr h e = elim (Bool-cases (cidr == "")) [
    | inl t ↦ ground (arith, e, t)
    | inr f ↦ (
      ground (arith, f, eq_iff cidr ""),
      λ c. ground (
        arith,
        f,
        append_rules-held a (partition_rules iface (or_default direction "both") cidr) h
            (ground (arith, e, f)) c,
      ),
    )
  ]

  module _ (stamp : Stamp) where
    exec_partition-Booked :
        (s : Server H) (req : NetworkChaosRequest) (iface : String)
        → iface ≢ ""
        → (exec_partition os stamp s req iface).1.success ≡ true
        → Booked os held stamp.id s (exec_partition os stamp s req iface).0
    unfolding exec_partition
    exec_partition-Booked s req iface n = settle-Booked os held stamp s _ _ _ _ _ _ λ e c.
        let done =
          partition-held iface (text_at "direction" req.parameters)
            (text_at "target_cidr" req.parameters) s.host e in
        done.1 c
        ∙ ap (λ l. held s.host c + times c l)
            (sym (network_claims-iptables iface req.parameters n done.0))

    exec_netem-Booked :
        (s : Server H) (req : NetworkChaosRequest) (iface : String)
        → iface ≢ ""
        → (exec_netem os stamp s req iface).1.success ≡ true
        → Booked os held stamp.id s (exec_netem os stamp s req iface).0
    unfolding exec_netem tc_add_netem
    exec_netem-Booked s req iface n = settle-Booked os held stamp s _ _ _ _ _ _ λ e c.
        a.add_ok iface (netem_args req.action req.parameters) s.host e c
        ∙ ap (λ l. held s.host c + times c l)
            (sym (network_claims-netem iface "netem" req.parameters n refl refl))

  -- An eBPF program holds neither rules nor qdiscs, whether it was attached or not.
  pub load_tc_drop-held :
      (id : String) (i : ℤ) (percent : ℕ) (programs : Programs) (h : H) (c : Claim)
      → held (load_tc_drop os id i percent programs h).1 c ≡ held h c
  unfolding load_tc_drop
  load_tc_drop-held id i percent programs h c =
      let name = concat ("tc_drop_" ∷ slice id 0 8 ∷ []) in
      let loaded = (os.new_program name percent h).0 in
      elim (Result-cases (os.new_program name percent h).1) [
        | inr (failure, e) ↦ ground (arith, e, a.loads name percent h c)
        | inl (p, e) ↦ elim (Result-cases (os.attach i p loaded).1) [
          | inr (failure, f) ↦ ground (
            arith,
            e,
            f,
            a.loads name percent h c,
            a.attaches i p loaded c,
            a.closes_program p (os.attach i p loaded).0 c,
          )
          | inl (l, f) ↦ ground (arith, e, f, a.loads name percent h c, a.attaches i p loaded c)
        ]
      ]

  module _ (stamp : Stamp) where
    exec_attached-Booked :
        (s : Server H) (req : NetworkChaosRequest) (iface : String) (failure : Option Error)
        → iface ≢ ""
        → (exec_attached os stamp s req iface failure).1.success ≡ true
        → Booked os held stamp.id s (exec_attached os stamp s req iface failure).0
    unfolding exec_attached tc_add_netem record_execution
    exec_attached-Booked s req iface none n done =
        (_, refl, λ c. rw network_claims-ebpf (omega arith), refl)
    exec_attached-Booked s req iface (some failure) n done =
        settle-Booked os held stamp s _ _ _ _ _ _
          (λ e c.
            a.add_ok iface (netem_args "loss" req.parameters) s.host e c
            ∙ ap (λ l. held s.host c + times c l)
                (sym (network_claims-netem iface "netem-fallback" req.parameters n refl refl)))
          done

    exec_ebpf-Booked :
        (s : Server H) (req : NetworkChaosRequest) (iface : String) (i : ℤ)
        → iface ≢ ""
        → (exec_ebpf os stamp s req iface i).1.success ≡ true
        → Booked os held stamp.id s (exec_ebpf os stamp s req iface i).0
    unfolding exec_ebpf
    exec_ebpf-Booked s req iface i n done =
        let percent = drop_percent (text_at "percent" req.parameters) in
        let loaded = load_tc_drop os stamp.id i percent s.programs s.host in
        let (info, stored, held_more, same) =
          exec_attached-Booked (record s { programs = loaded.0; host = loaded.1 }) req iface
            loaded.2 n done in
        (
          info,
          stored,
          λ c. omega (arith, held_more c, load_tc_drop-held stamp.id i percent s.programs s.host c),
          same,
        )

  module _ (stamp : Stamp) (s : Server H) where
    exec_network_on-Booked :
        (req : NetworkChaosRequest) (iface : String) (i : ℤ)
        → iface ≢ ""
        → Books os held stamp s (exec_network_on os stamp s req iface i)
    unfolding exec_network_on
    exec_network_on-Booked req iface i n =
        if-both (Books os held stamp s) (req.action == "partition")
          (λ _. exec_partition-Booked stamp s req iface n)
          λ _.
            if-both (Books os held stamp s)
              (text_at "mode" req.parameters == "ebpf" && req.action == "loss")
              (λ _. exec_ebpf-Booked stamp s req iface i n)
              (λ _. exec_netem-Booked stamp s req iface n)

    pub exec_network_chaos-Booked :
        (req : NetworkChaosRequest)
        → IsNamed s.resolver
        → Books os held stamp s (exec_network_chaos os stamp s req)
    unfolding exec_network_chaos
    exec_network_chaos-Booked req named = elim (Result-cases (resolve_target s.resolver req)) [
      | inl ((iface, i), e) ↦
          rw (exec_network_chaos, e)
            (exec_network_on-Booked req iface i
              (resolve_target-named s.resolver named req iface i e))
      | inr (failure, e) ↦ rw (exec_network_chaos, e) (λ done. ground (arith, done))
    ]
