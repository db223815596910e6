-- ===== src/Executors/Stopping.antt =====
-- What the Rollback of the recording executors (internal/executor/pod, stress, node) does when a daemon
-- fails, and what becomes of the request of io_stress.go.
use chaosplane.Prelude.{
  ◌≡◌, ◌≢◌, ◌⊎◌, inl, inr, refl, sym, ◌∙◌, ap, String, false, none, some, List, [], ◌∷◌, ◌++◌,
  arith, ◌==◌, string_eq, eq_iff, Dict, lookup, text_at, Option-cases, ℤ,
}
use chaosplane.Api.Meta.{Error, Result, ok, Result-cases}
use chaosplane.Daemon.Host.{Runner}
use chaosplane.Daemon.Server.{Server, Stamp, Response, call_pod_resolver, resolve_pod_target}
use chaosplane.Daemon.Handlers.{exec_stress_chaos}
use chaosplane.Daemon.Netns.{CriClient, NetlinkOps, resolve}
use chaosplane.Api.Experiment.{ChaosExperiment}
use chaosplane.Executors.Pods.{
  Pod, Lookups, resolve_target_pods, parse_parameters, resolve_daemon_endpoint,
}
use chaosplane.Executors.Fleet.{put}
use chaosplane.Executors.Steps.{put-both}
use chaosplane.Executors.Recording.{
  DaemonClient, NodeExecution, Recording, Site, cancel_execution, cancel_in_turn, noted, exec_site,
  exec_sites,
}
use chaosplane.Executors.Stress.{
  copied, pod_name_only, stress_request, pod_io_stress, pod_stress, execute_on_pods,
}

module _ {W : Type 0} (prefix uid : String) (client : DaemonClient W) where
  -- The executions after the first that could not be cancelled are left alone.
  pub record StoppedAt (execs : List NodeExecution) (w w' : W) (e : Error) : Type 0 where
    pub done : List NodeExecution
    pub failed : NodeExecution
    pub left : List NodeExecution
    pub split : execs ≡ done ++ failed ∷ left
    pub before : (cancel_in_turn prefix uid client done w).1 ≡ none
    pub last :
        cancel_execution prefix uid client failed (cancel_in_turn prefix uid client done w).0
        ≡ (w', some e)

  -- Whatever the daemons do: when the loop that cancels the recorded executions answers an error, the
  -- records split at the one that failed. Those before it were cancelled without an error, in order; it
  -- was tried on what they left, and gave that error and the final state; so no daemon was called for
  -- any record behind it.
  pub cancel_in_turn-StoppedAt :
      (execs : List NodeExecution) (w : W) (e : Error)
      → (cancel_in_turn prefix uid client execs w).1 ≡ some e
      → StoppedAt execs w (cancel_in_turn prefix uid client execs w).0 e
  unfolding cancel_in_turn
  cancel_in_turn-StoppedAt [] w e h = ground (arith, h)
  cancel_in_turn-StoppedAt (ne ∷ nes) w e h =
      elim (Option-cases (cancel_execution prefix uid client ne w).1) [
        | inr (f, o) ↦
            rw (cancel_in_turn, o)
              (record {
                done = [];
                failed = ne;
                left = nes;
                split = refl;
                before = refl;
                last =
                    ap (λ x. ((cancel_execution prefix uid client ne w).0, x))
                      (ground (arith, o, h));
              })
        | inl o ↦
            let rest =
              cancel_in_turn-StoppedAt nes (cancel_execution prefix uid client ne w).0 e
                (ground (arith, o, h)) in
            rw (cancel_in_turn, o)
              (record {
                done = ne ∷ rest.done;
                failed = rest.failed;
                left = rest.left;
                split = ap (λ nes. ne ∷ nes) rest.split;
                before = rw (cancel_in_turn, o) rest.before;
                last = rw (cancel_in_turn, o) rest.last;
              })
      ]

-- The first site is refused: the loop ends, with an error and no new record.
exec_sites-refused :
    {W : Type 0} (prefix uid : String) (client : DaemonClient W) (site : Site W)
    (sites : List (Site W)) (b : Recording W) (w : W) (resp : Response)
    → site.call (resolve_daemon_endpoint site.node) b.daemons ≡ (w, ok resp)
    → resp.success ≡ false
    → let after = exec_sites prefix uid client (site ∷ sites) b in
      (after.1 ≢ none)
      × (after.0.execution_ids ≡ b.execution_ids)
      × ((after.0.daemons ≡ b.daemons) ⊎ (after.0.daemons ≡ w))
unfolding exec_sites exec_site noted
exec_sites-refused prefix uid client site sites b w resp called refused =
    elim (Option-cases (client.dial (resolve_daemon_endpoint site.node))) [
      | inr (e, d) ↦ (ground (arith, d), ground (arith, d), inl (ground (arith, d)))
      | inl d ↦ (
        ground (arith, d, called, refused),
        ground (arith, d, called, refused),
        inr (ground (arith, d, called, refused)),
      )
    ]

-- Daemons that serve ExecStressChaos at each endpoint. Their other calls, and which can be dialled, are
-- as in `rest`.
abbrev pub stress_daemons :
    {H : Type 0}
    → Runner H
    → Stamp
    → DaemonClient (String → Server H)
    → DaemonClient (String → Server H)
stress_daemons os stamp rest = record rest {
  exec_stress_chaos =
      λ e req w. let (s, resp) = exec_stress_chaos os stamp (w e) req in (put e s w, ok resp);
}

module _ {H : Type 0} (os : Runner H) (stamp : Stamp) where
  name_only-refused :
      (s : Server H) (cri : CriClient) (nl : NetlinkOps) (cgroup_of : ℤ → Result String)
      (uid : String) (params : Dict String) (p : Pod)
      → s.resolver ≡ some (resolve cri nl cgroup_of)
      → p.name ≢ ""
      → let req =
          stress_request uid "io"
            (copied params ("workers" ∷ "size" ∷ "duration" ∷ []) ++ pod_name_only p) in
        ((exec_stress_chaos os stamp s req).1.success ≡ false)
        × ((exec_stress_chaos os stamp s req).0 ≡ s)
  unfolding exec_stress_chaos resolve_pod_target call_pod_resolver resolve text_at lookup
  name_only-refused s cri nl cgroup_of uid params p known named =
      let sent = copied params ("workers" ∷ "size" ∷ "duration" ∷ []) ++ pod_name_only p in
      let shut : (p.name == "") ≡ false = ground (arith, named, eq_iff p.name "") in
      elim (Result-cases (resolve_pod_target s.resolver sent)) [
        | inr (message, e) ↦ rw (exec_stress_chaos, e) (refl, refl)
        | inl (t, e) ↦
            let answered : resolve_pod_target (some (resolve cri nl cgroup_of)) sent ≡ ok t =
              ap (λ r. resolve_pod_target r sent) (sym known) ∙ e in
            ground (arith, rw (resolve_pod_target, shut) at answered)
      ]

  -- The executor of pod-io-stress never stresses a pod: where its target is found, and the first pod of
  -- it has a name, Execute answers an error, records nothing and leaves the daemon of every node as it
  -- was. The daemons have the resolver of internal/daemon/netns, over any container runtime and host;
  -- some may not be dialled.
  pub pod_io_stress-refused :
      (cri : String → CriClient) (nl : String → NetlinkOps) (cgroup_of : String → ℤ → Result String)
      (rest : DaemonClient (String → Server H)) (api : Lookups) (exp : ChaosExperiment)
      (b : Recording (String → Server H)) (p : Pod) (ps : List Pod)
      → ((e : String) → (b.daemons e).resolver ≡ some (resolve (cri e) (nl e) (cgroup_of e)))
      → resolve_target_pods api exp.spec.target ≡ ok (p ∷ ps)
      → p.name ≢ ""
      → let after = pod_io_stress (stress_daemons os stamp rest) api exp b in
        (after.1 ≢ none)
        × (after.0.execution_ids ≡ b.execution_ids)
        × ((e : String) → after.0.daemons e ≡ b.daemons e)
  unfolding pod_io_stress pod_stress execute_on_pods
  pod_io_stress-refused cri nl cgroup_of rest api exp b p ps known found named =
      elim (Result-cases (parse_parameters api exp)) [
        | inr (message, o) ↦
            rw (pod_io_stress, pod_stress, execute_on_pods, found, o)
              (λ n. ground (arith, n), refl, λ e. refl)
        | inl (params, o) ↦
            let e = resolve_daemon_endpoint p.node_name in
            let req =
              stress_request exp.meta.uid "io"
                (copied params ("workers" ∷ "size" ∷ "duration" ∷ []) ++ pod_name_only p) in
            let (turned_down, kept) =
              name_only-refused (b.daemons e) (cri e) (nl e) (cgroup_of e) exp.meta.uid params p
                (known e) named in
            let (error, records, daemons) =
              exec_sites-refused "pod-io-stress" exp.meta.uid (stress_daemons os stamp rest) _ _ b _
                _ refl turned_down in
            rw (pod_io_stress, pod_stress, execute_on_pods, found, o)
              (
                error,
                records,
                λ x. elim daemons [
                  | inl same ↦ ap (λ f. f x) same
                  | inr same ↦
                      ap (λ f. f x) same
                      ∙ put-both (λ y s (u : Unit {0}). s ≡ b.daemons y) e _ tt b.daemons (λ y. tt)
                          kept (λ y n. refl) x
                ],
              )
      ]
