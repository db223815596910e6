-- ===== src/Daemon/Answers.antt =====
-- What the answer of `ExecNetworkChaos` (internal/daemon/server.go) tells: the ID of the execution, or
-- that nothing was done.
use chaosplane.Prelude.{
  ℕ, ◌≡◌, ◌≢◌, inl, inr, refl, ◌∙◌, String, true, false, Option, none, some, arith, ◌==◌, string_eq,
  eq_iff, ◌&&◌, ℤ, Dict, text_at, if-both,
}
use chaosplane.Api.Meta.{Error, Result-cases}
use chaosplane.Daemon.Commands.{netem_args}
use chaosplane.Daemon.Host.{Runner, tc_add_netem}
use chaosplane.Daemon.Server.{Server, Response, Stamp, NetworkChaosRequest, resolve_target}
use chaosplane.Daemon.Handlers.{
  drop_percent, settle, exec_partition, exec_netem, exec_attached, exec_ebpf, exec_network_on,
  exec_network_chaos,
}
use chaosplane.Daemon.Claims.{Claim, Accountable}
use chaosplane.Daemon.Booking.{load_tc_drop-held}

module _ {H : Type 0} {os : Runner H} {held : H → Claim → ℕ} (a : Accountable os held)
    (stamp : Stamp) where
  -- A success carries the ID of the execution, and a refusal means that the store is as before.
  pub record Tells (s : Server H) (r : Server H × Response) : Type 0 where
    pub id : r.1.success ≡ true → r.1.execution_id ≡ stamp.id
    pub refused : r.1.success ≡ false → (r.0.store ≡ s.store) × (r.0.resolver ≡ s.resolver)

  -- A refusal means that the host holds what it held.
  abbrev pub Spares : Server H → Server H × Response → Type 0
  Spares s r = r.1.success ≡ false → (c : Claim) → held r.0.host c ≡ held s.host c

  settle-Tells :
      (s : Server H) (r : H × Option Error) (refusal : Error → String) (experiment kind : String)
      (params : Dict String) (message : String)
      → Tells s (settle os stamp s r refusal experiment kind params message)
  unfolding settle
  settle-Tells s (h, some e) refusal experiment kind params message = record {
    id = λ done. ground (arith, done);
    refused = λ done. (refl, refl);
  }
  settle-Tells s (h, none) refusal experiment kind params message = record {
    id = λ done. refl;
    refused = λ done. ground (arith, done);
  }

  settle-Spares :
      (s : Server H) (r : H × Option Error) (refusal : Error → String) (experiment kind : String)
      (params : Dict String) (message : String)
      → (r.1 ≢ none → (c : Claim) → held r.0 c ≡ held s.host c)
      → Spares s (settle os stamp s r refusal experiment kind params message)
  unfolding settle
  settle-Spares s (h, some e) refusal experiment kind params message kept done =
      kept λ n. ground (arith, n)
  settle-Spares s (h, none) refusal experiment kind params message kept done = ground (arith, done)

  exec_attached-Tells :
      (s : Server H) (req : NetworkChaosRequest) (iface : String) (failure : Option Error)
      → Tells s (exec_attached os stamp s req iface failure)
  unfolding exec_attached
  exec_attached-Tells s req iface none = record {
    id = λ done. refl;
    refused = λ done. ground (arith, done);
  }
  exec_attached-Tells s req iface (some e) = settle-Tells s _ _ _ _ _ _

  exec_attached-Spares :
      (s : Server H) (req : NetworkChaosRequest) (iface : String) (failure : Option Error)
      → Spares s (exec_attached os stamp s req iface failure)
  unfolding exec_attached tc_add_netem
  exec_attached-Spares s req iface none done = ground (arith, done)
  exec_attached-Spares s req iface (some e) done =
      settle-Spares s _ _ _ _ _ _
        (λ n c. a.add_err iface (netem_args "loss" req.parameters) s.host n c) done

  exec_network_on-Tells :
      (s : Server H) (req : NetworkChaosRequest) (iface : String) (i : ℤ)
      → Tells s (exec_network_on os stamp s req iface i)
  unfolding exec_network_on exec_partition exec_netem exec_ebpf
  exec_network_on-Tells s req iface i =
      if-both (Tells s) (req.action == "partition") (λ _. settle-Tells s _ _ _ _ _ _)
        λ _.
          if-both (Tells s) (text_at "mode" req.parameters == "ebpf" && req.action == "loss")
            (λ _.
              let told = exec_attached-Tells _ req iface _ in
              record { id = told.id; refused = told.refused })
            (λ _. settle-Tells s _ _ _ _ _ _)

  exec_network_on-Spares :
      (s : Server H) (req : NetworkChaosRequest) (iface : String) (i : ℤ)
      → req.action ≢ "partition"
      → Spares s (exec_network_on os stamp s req iface i)
  unfolding exec_network_on exec_netem exec_ebpf tc_add_netem
  exec_network_on-Spares s req iface i n =
      if-both (Spares s) (req.action == "partition")
        (λ b. absurd (n ((eq_iff req.action "partition").0 b)))
        λ _.
          if-both (Spares s) (text_at "mode" req.parameters == "ebpf" && req.action == "loss")
            (λ _ done c.
              let percent = drop_percent (text_at "percent" req.parameters) in
              exec_attached-Spares _ req iface _ done c
              ∙ load_tc_drop-held a stamp.id i percent s.programs s.host c)
            (λ _.
              settle-Spares s _ _ _ _ _ _
                λ m c. a.add_err iface (netem_args req.action req.parameters) s.host m c)

  -- What ExecNetworkChaos answers is what it has done.
  pub exec_network_chaos-Tells :
      (s : Server H) (req : NetworkChaosRequest) → Tells s (exec_network_chaos os stamp s req)
  unfolding exec_network_chaos
  exec_network_chaos-Tells s req = elim (Result-cases (resolve_target s.resolver req)) [
    | inl ((iface, i), e) ↦ rw (exec_network_chaos, e) (exec_network_on-Tells s req iface i)
    | inr (failure, e) ↦
        rw (exec_network_chaos, e)
          (record { id = λ done. ground (arith, done); refused = λ done. (refl, refl) })
  ]

  pub exec_network_chaos-Spares :
      (s : Server H) (req : NetworkChaosRequest)
      → req.action ≢ "partition"
      → Spares s (exec_network_chaos os stamp s req)
  unfolding exec_network_chaos
  exec_network_chaos-Spares s req n = elim (Result-cases (resolve_target s.resolver req)) [
    | inl ((iface, i), e) ↦ rw (exec_network_chaos, e) (exec_network_on-Spares s req iface i n)
    | inr (failure, e) ↦ rw (exec_network_chaos, e) (λ done c. refl)
  ]
