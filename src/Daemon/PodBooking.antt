-- ===== src/Daemon/PodBooking.antt =====
-- The other Exec methods of internal/daemon/server.go that succeed book what they have done.
use chaosplane.Prelude.{
  ℕ, ◌+◌, ◌≡◌, ◌≢◌, inl, inr, sym, ◌∙◌, ap, String, none, [], ◌∷◌, arith, ◌==◌, string_eq, eq_iff,
  if◌then◌else◌, ℤ, pos, Dict, insert, text_at, leb_ℤ, if-both, ◌&&◌, Bool-cases,
}
use chaosplane.Prelude.Text.{itoa_ℤ}
use chaosplane.Prelude.Trim.{split_text}
use chaosplane.Api.Meta.{Result-cases}
use chaosplane.Daemon.Commands.{
  or_default, http_abort_rule_body, block_rules, stress_args, cgroup_script,
}
use chaosplane.Daemon.Host.{
  Runner, PodTarget, dns_rules, domains_of, http_abort, http_delay, iptables_block, stress_ng_start,
  dns_intercept,
}
use chaosplane.Daemon.Server.{
  Server, Stamp, StressChaosRequest, DnsChaosRequest, HttpChaosRequest, NodeChaosRequest,
  resolve_pod_target,
}
use chaosplane.Daemon.Handlers.{
  exec_stress_on, exec_stress_chaos, exec_dns_on, exec_dns_chaos, exec_http_on, exec_http_chaos,
  exec_node_chaos, stress_seconds,
}
use chaosplane.Daemon.Targets.{IsNamed, IsScoped, resolve_pod_target-IsScoped}
use chaosplane.Daemon.Claims.{Claim, times, rules, Accountable, append_rules-held}
use chaosplane.Daemon.Outstanding.{claims_of, Books, settle-Booked}
use chaosplane.Daemon.Records.{
  dns_claims-scoped, http_claims-abort, http_claims-delay, positive-written, no_partition, IsPaired,
  node_claims-blocked, node_claims-stressed,
}

module _ {H : Type 0} {os : Runner H} {held : H → Claim → ℕ} (a : Accountable os held) where
  stress_ng_start-held :
      (stressor : String) (params : Dict String) (seconds : ℤ) (cgroup : String) (h : H) (c : Claim)
      → held (stress_ng_start os stressor params seconds cgroup h).0 c ≡ held h c
  unfolding stress_ng_start
  stress_ng_start-held stressor params seconds cgroup h c = ground (
    arith,
    a.starts "stress-ng" (stress_args stressor params seconds) h c,
    a.starts "sh"
        ("-c" ∷ cgroup_script cgroup "stress-ng" (stress_args stressor params seconds) ∷ []) h c,
  )

  dns_intercept-held :
      (action : String) (t : PodTarget) (params : Dict String) (h : H)
      → (dns_intercept os action t params h).1 ≡ none
      → (c : Claim)
      → held (dns_intercept os action t params h).0 c
        ≡ held h c
          + times c (
              rules (
                dns_rules t.host_veth t.scoped
                  (domains_of (split_text b',' (text_at "domains" params)))))
  unfolding dns_intercept
  dns_intercept-held action t params h e c = elim (Bool-cases (text_at "domains" params == "")) [
    | inl b ↦ ground (arith, e, b)
    | inr b ↦ elim (Bool-cases (action == "error")) [
      | inr f ↦ ground (arith, e, b, f)
      | inl f ↦ ground (
        arith,
        b,
        f,
        append_rules-held a
            (dns_rules t.host_veth t.scoped
              (domains_of (split_text b',' (text_at "domains" params))))
            h (ground (arith, e, b, f)) c,
      )
    ]
  ]

  module _ (stamp : Stamp) (s : Server H) where
    exec_stress_on-Booked :
        (req : StressChaosRequest) (t : PodTarget)
        → Books os held stamp s (exec_stress_on os stamp s req t)
    unfolding exec_stress_on claims_of
    exec_stress_on-Booked req t =
        if-both (Books os held stamp s) (t.scoped && t.cgroup_v2_path == "")
          (λ _ done. ground (arith, done))
          λ _. settle-Booked os held stamp s _ _ _ _ _ _ λ e c. omega (
            arith,
            stress_ng_start-held req.stressor_type req.parameters
                (stress_seconds (text_at "duration" req.parameters)) t.cgroup_v2_path s.host c,
          )

    exec_dns_on-Booked :
        (req : DnsChaosRequest) (t : PodTarget)
        → IsScoped t
        → Books os held stamp s (exec_dns_on os stamp s req t)
    unfolding exec_dns_on
    exec_dns_on-Booked req t scoped = settle-Booked os held stamp s _ _ _ _ _ _ λ e c.
        dns_intercept-held req.action t (insert "iface" t.host_veth req.parameters) s.host e c
        ∙ ap (λ l. held s.host c + times c l) (sym (dns_claims-scoped t req.parameters scoped))

    exec_http_on-Booked :
        (req : HttpChaosRequest) (t : PodTarget)
        → IsScoped t
        → itoa_ℤ req.port ≢ ""
        → Books os held stamp s (exec_http_on os stamp s req t)
    unfolding exec_http_on http_abort http_delay
    exec_http_on-Booked req t scoped n =
        if-both (Books os held stamp s) (req.action == "abort")
          (λ b. settle-Booked os held stamp s _ _ _ _ _ _ λ e c.
            a.append_ok (http_abort_rule_body t.host_veth (itoa_ℤ req.port) t.scoped) s.host e c
            ∙ ap (λ l. held s.host c + times c l)
                (sym (
                  http_claims-abort req.action t (itoa_ℤ req.port) req.parameters
                    ((eq_iff req.action "abort").0 b) scoped n)))
          λ _.
            if-both (Books os held stamp s) (req.action == "delay")
              (λ b. settle-Booked os held stamp s _ _ _ _ _ _ λ e c.
                a.add_ok (if t.scoped then t.host_veth else "lo") _ s.host e c
                ∙ ap (λ l. held s.host c + times c l)
                    (sym (
                      http_claims-delay req.action t (itoa_ℤ req.port) req.parameters
                        ((eq_iff req.action "delay").0 b) scoped)))
              λ _ done. ground (arith, done)

    pub exec_stress_chaos-Booked :
        (req : StressChaosRequest) → Books os held stamp s (exec_stress_chaos os stamp s req)
    unfolding exec_stress_chaos
    exec_stress_chaos-Booked req =
        elim (Result-cases (resolve_pod_target s.resolver req.parameters)) [
          | inl (t, e) ↦ rw (exec_stress_chaos, e) (exec_stress_on-Booked req t)
          | inr (failure, e) ↦ rw (exec_stress_chaos, e) (λ done. ground (arith, done))
        ]

    pub exec_dns_chaos-Booked :
        (req : DnsChaosRequest)
        → IsNamed s.resolver
        → Books os held stamp s (exec_dns_chaos os stamp s req)
    unfolding exec_dns_chaos
    exec_dns_chaos-Booked req named =
        elim (Result-cases (resolve_pod_target s.resolver req.parameters)) [
          | inl (t, e) ↦
              rw (exec_dns_chaos, e)
                (exec_dns_on-Booked req t
                  (resolve_pod_target-IsScoped s.resolver named req.parameters t e))
          | inr (failure, e) ↦ rw (exec_dns_chaos, e) (λ done. ground (arith, done))
        ]

    pub exec_http_chaos-Booked :
        (req : HttpChaosRequest)
        → IsNamed s.resolver
        → Books os held stamp s (exec_http_chaos os stamp s req)
    unfolding exec_http_chaos
    exec_http_chaos-Booked req named =
        if-both (Books os held stamp s) (leb_ℤ req.port (pos 0)) (λ _ done. ground (arith, done))
          λ b. elim (Result-cases (resolve_pod_target s.resolver req.parameters)) [
            | inl (t, e) ↦ rw e (
                exec_http_on-Booked req t
                  (resolve_pod_target-IsScoped s.resolver named req.parameters t e)
                  (positive-written req.port b))
            | inr (failure, e) ↦ rw e (λ done. ground (arith, done))
          ]

    pub exec_node_chaos-Booked :
        (req : NodeChaosRequest)
        → IsPaired req
        → Books os held stamp s (exec_node_chaos os stamp s req)
    unfolding exec_node_chaos iptables_block
    exec_node_chaos-Booked req paired =
        if-both (Books os held stamp s) (req.action == "cpu-stress")
          (λ b. settle-Booked os held stamp s _ _ _ _ _ _ λ e c. omega (
            arith,
            stress_ng_start-held "cpu" req.parameters (pos 60) "" s.host c,
            ap (times c) (
                node_claims-stressed req.parameters
                  (paired.1 (no_partition ((eq_iff req.action "cpu-stress").0 b)))),
          ))
          λ _.
            if-both (Books os held stamp s) (req.action == "partition")
              (λ b. settle-Booked os held stamp s _ _ _ _ _ _ λ e c.
                append_rules-held a
                  (block_rules (or_default (text_at "iface" req.parameters) "eth0") "both") s.host e
                  c
                ∙ ap (λ l. held s.host c + times c l)
                    (sym (
                      node_claims-blocked req.parameters
                        (paired.0 ((eq_iff req.action "partition").0 b)))))
              λ _ done. ground (arith, done)
