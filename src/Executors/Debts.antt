-- ===== src/Executors/Debts.antt =====
-- What the records of a network executor (internal/executor/network) say of the fleet while it executes.
use chaosplane.Prelude.{
  ℕ, ◌≡◌, refl, ap, ◌∙◌, ◌≢◌, ◌⊎◌, inl, inr, String, none, List, [], ◌∷◌, ◌++◌, arith, string_eq,
  Dict, lookup-insert_self, All, Bool-cases, Option-cases,
}
use chaosplane.Api.Meta.{Result, err, Result-cases}
use chaosplane.Api.Experiment.{ChaosExperiment}
use chaosplane.Daemon.Host.{Runner}
use chaosplane.Daemon.Server.{Stamp, Response}
use chaosplane.Daemon.Handlers.{exec_network_chaos}
use chaosplane.Daemon.Claims.{Claim, Dependable}
use chaosplane.Daemon.Answers.{exec_network_chaos-Tells}
use chaosplane.Executors.Pods.{
  Pod, Lookups, resolve_target_pods, resolve_daemon_endpoint, parse_parameters,
}
use chaosplane.Executors.Network.{
  Daemons, ExecutionRecord, Base, records_of, store_execution, network_request, recorded,
  exec_on_pod, exec_on_pods, exec_network,
}
use chaosplane.Executors.Kinds.{NetworkKind, sent, action_of, execute}
use chaosplane.Executors.Fleet.{
  Fleet, Links, Reachable, exec-reached, exec-unreached, fleet_daemons, IsFresh, Owes,
}
use chaosplane.Executors.Calls.{accepted-Owes, refused-Owes, after_exec-IsFresh}

records_of-store :
    (uid endpoint id : String) (m : Dict (List ExecutionRecord))
    → records_of uid (store_execution uid endpoint id m)
      ≡ records_of uid m ++ record { endpoint = endpoint; execution_id = id } ∷ []
unfolding records_of store_execution
records_of-store uid endpoint id m = ground (
  arith,
  lookup-insert_self uid
      (records_of uid m ++ record { endpoint = endpoint; execution_id = id } ∷ []) m,
)

All-snoc :
    (P : ExecutionRecord → Type 0) (rs : List ExecutionRecord) (r : ExecutionRecord)
    → All P rs
    → P r
    → All P (rs ++ r ∷ [])
All-snoc P [] r all last = (last, tt)
All-snoc P (x ∷ rs) r (first, all) last = (first, All-snoc P rs r all last)

module _ {H : Type 0} {os : Runner H} {held : H → Claim → ℕ} (a : Dependable os held)
    (stamps : ℕ → Stamp) (links : Links) (former : Fleet H) where
  abbrev pub rpc : Daemons (Fleet H)
  rpc = fleet_daemons os stamps links

  -- The executor's records of an experiment tell what the fleet is ahead by, at endpoints that are
  -- reached.
  pub record Indebted (uid : String) (b : Base (Fleet H)) : Type 0 where
    pub owes : Owes held former b.daemons (records_of uid b.execution_ids)
    pub fresh : IsFresh stamps b.daemons
    pub reachable : All (λ rec. Reachable links rec.endpoint) (records_of uid b.execution_ids)

  module _ (uid action prefix : String) (params : Dict String) where
    exec_on_pod-called :
        (p : Pod) (b : Base (Fleet H)) (answer : Fleet H × Result Response)
        → links.dial (resolve_daemon_endpoint p.node_name) ≡ none
        → rpc.exec_network_chaos
            (resolve_daemon_endpoint p.node_name)
            (network_request rpc uid action prefix params p)
            b.daemons
          ≡ answer
        → exec_on_pod rpc uid action prefix params p b
          ≡ recorded rpc uid action prefix params p b answer
    unfolding exec_on_pod
    exec_on_pod-called p b answer d e =
        let dialled : exec_on_pod rpc uid action prefix params p b
            ≡ recorded rpc uid action prefix params p b (
                rpc.exec_network_chaos (resolve_daemon_endpoint p.node_name)
                  (network_request rpc uid action prefix params p) b.daemons) =
          rw (exec_on_pod, d) refl in
        dialled ∙ ap (recorded rpc uid action prefix params p b) e

    exec_on_pod-Indebted :
        (p : Pod) (b : Base (Fleet H))
        → Indebted uid b
        → (action ≢ "partition") ⊎ ((exec_on_pod rpc uid action prefix params p b).1 ≡ none)
        → Indebted uid (exec_on_pod rpc uid action prefix params p b).0
    unfolding exec_on_pod network_request recorded
    exec_on_pod-Indebted p b debt fit =
        let e = resolve_daemon_endpoint p.node_name in
        let req = network_request rpc uid action prefix params p in
        elim (Option-cases (links.dial e)) [
          | inr (failure, d) ↦ rw (exec_on_pod, d) debt
          | inl d ↦ elim (Option-cases (links.call e)) [
            | inr (failure, l) ↦
                rw
                  (
                    exec_on_pod-called p b (b.daemons, err failure) d
                        (exec-unreached os stamps links e req b.daemons failure l),
                    recorded,
                  )
                  debt
            | inl l ↦
                let called =
                  exec_on_pod-called p b _ d (exec-reached os stamps links e req b.daemons l) in
                elim (Bool-cases
                  (exec_network_chaos os (stamps b.daemons.issued) (b.daemons.server e)
                    req).1.success) [
                      | inl done ↦
                          let resp =
                            (exec_network_chaos os (stamps b.daemons.issued) (b.daemons.server e)
                              req).1 in
                          let told =
                            exec_network_chaos-Tells a.laws (stamps b.daemons.issued)
                              (b.daemons.server e) req in
                          let same = records_of-store uid e resp.execution_id b.execution_ids in
                          rw (called, recorded, done)
                            (record {
                              owes = rw records_of-store (
                                  accepted-Owes a stamps former b.daemons
                                    (records_of uid b.execution_ids) e resp.execution_id req
                                    debt.owes debt.fresh (told.id done) done);
                              fresh =
                                  after_exec-IsFresh a stamps former b.daemons
                                    (records_of uid b.execution_ids) e req debt.owes debt.fresh;
                              reachable = rw records_of-store (
                                  All-snoc (λ rec. Reachable links rec.endpoint) _ _ debt.reachable
                                    (d, l));
                            })
                      | inr refused ↦ elim fit [
                        | inr ok_then ↦ ground (arith, d, l, refused, ok_then)
                        | inl n ↦
                            rw (called, recorded, refused)
                              (record {
                                owes =
                                    refused-Owes a stamps former b.daemons
                                      (records_of uid b.execution_ids) e req debt.owes n refused;
                                fresh =
                                    after_exec-IsFresh a stamps former b.daemons
                                      (records_of uid b.execution_ids) e req debt.owes debt.fresh;
                                reachable = debt.reachable;
                              })
                      ]
                    ]
          ]
        ]

    exec_on_pods-Indebted :
        (ps : List Pod) (b : Base (Fleet H))
        → Indebted uid b
        → (action ≢ "partition") ⊎ ((exec_on_pods rpc uid action prefix params ps b).1 ≡ none)
        → Indebted uid (exec_on_pods rpc uid action prefix params ps b).0
    unfolding exec_on_pods
    exec_on_pods-Indebted [] b debt fit = debt
    exec_on_pods-Indebted (p ∷ ps) b debt fit =
        elim (Option-cases (exec_on_pod rpc uid action prefix params p b).1) [
          | inl o ↦
              rw (exec_on_pods, o)
                (exec_on_pods-Indebted ps (exec_on_pod rpc uid action prefix params p b).0
                  (exec_on_pod-Indebted p b debt (inr o))
                  (elim fit [ inl n ↦ inl n | inr x ↦ inr (ground (arith, o, x)) ]))
          | inr (e, o) ↦
              rw (exec_on_pods, o)
                (exec_on_pod-Indebted p b debt
                  (elim fit [ inl n ↦ inl n | inr x ↦ ground (arith, o, x) ]))
        ]

  pub execute-Indebted :
      (api : Lookups) (kind : NetworkKind) (exp : ChaosExperiment) (b : Base (Fleet H))
      → Indebted exp.meta.uid b
      → (action_of kind ≢ "partition") ⊎ ((execute api rpc kind exp b).1 ≡ none)
      → Indebted exp.meta.uid (execute api rpc kind exp b).0
  unfolding execute exec_network
  execute-Indebted api kind exp b debt fit = elim (Result-cases (parse_parameters api exp)) [
    | inr (e, o) ↦ rw (execute, o) debt
    | inl (params, o) ↦ elim (Result-cases (resolve_target_pods api exp.spec.target)) [
      | inr (e, r) ↦ rw (execute, o, exec_network, r) debt
      | inl (pods, r) ↦
          rw (execute, o, exec_network, r)
            (exec_on_pods-Indebted exp.meta.uid (action_of kind) _ (sent kind params) pods b debt
              (elim fit [ inl n ↦ inl n | inr x ↦ inr (rw (execute, o, exec_network, r) at x) ]))
    ]
  ]
