-- ===== src/Daemon/NodeLeak.antt =====
-- `ExecNodeChaos` of internal/daemon/server.go blocks eth0 where the request names no interface, and
-- `CancelChaos` reads the interface from the request alone.
use chaosplane.Prelude.{
  ℕ, ◌+◌, ◌≡◌, refl, ◌∙◌, ap, String, true, Option, none, some, arith, string_eq, Dict,
  lookup-insert_self, text_at,
}
use chaosplane.Api.Meta.{Error}
use chaosplane.Daemon.Store.{ExecutionInfo, get, add}
use chaosplane.Daemon.Commands.{or_default, block_rules}
use chaosplane.Daemon.Host.{Runner, iptables_block}
use chaosplane.Daemon.Server.{Server, Stamp, NodeChaosRequest, record_execution}
use chaosplane.Daemon.Handlers.{settle, exec_node_chaos}
use chaosplane.Daemon.Cancel.{cancel_chaos}
use chaosplane.Daemon.Claims.{Claim, times, rules, Accountable, append_rules-held}
use chaosplane.Daemon.Undoing.{undo-unnamed}

module _ {H : Type 0} {os : Runner H} {held : H → Claim → ℕ} (a : Accountable os held)
    (stamp : Stamp) where
  -- What a command has put on the host stays there when the call succeeds and is cancelled, where the
  -- request names no interface.
  settle-cancelled :
      (s : Server H) (r : H × Option Error) (refusal : Error → String) (experiment : String)
      (params : Dict String) (message : String)
      → text_at "iface" params ≡ ""
      → (settle os stamp s r refusal experiment "node" params message).1.success ≡ true
      → (r.1 ≡ none)
        × ((c : Claim)
            → held
                (cancel_chaos os stamp.id
                  (settle os stamp s r refusal experiment "node" params message).0).0.host
                c
              ≡ held r.0 c)
  unfolding settle record_execution cancel_chaos get add
  settle-cancelled s (h, some e) refusal experiment params message shut done = ground (arith, done)
  settle-cancelled s (h, none) refusal experiment params message shut done =
      let info : ExecutionInfo = record {
        id = stamp.id;
        experiment_id = experiment;
        kind = "node";
        status = "running";
        start_time = stamp.now;
        parameters = params;
      } in
      let booked = record_execution stamp experiment "node" params (record s { host = h }) in
      (
        refl,
        λ c.
            rw (cancel_chaos, lookup-insert_self stamp.id info s.store.executions)
              (undo-unnamed a info stamp.id booked refl shut c),
      )

  -- A node partition whose request names no interface blocks eth0, and CancelChaos of it deletes no
  -- rule: after a call that succeeds and its cancellation the host holds the two DROP rules of eth0
  -- besides what it held before.
  pub exec_node_chaos-leak :
      (s : Server H) (req : NodeChaosRequest)
      → req.action ≡ "partition"
      → text_at "iface" req.parameters ≡ ""
      → (exec_node_chaos os stamp s req).1.success ≡ true
      → (c : Claim)
      → held (cancel_chaos os stamp.id (exec_node_chaos os stamp s req).0).0.host c
        ≡ held s.host c + times c (rules (block_rules "eth0" "both"))
  unfolding exec_node_chaos iptables_block
  exec_node_chaos-leak s req action iface done c =
      let device = or_default (text_at "iface" req.parameters) "eth0" in
      let after =
        settle-cancelled s (iptables_block os device "both" s.host) _ _ _ _ iface
          (rw action at done) in
      rw (exec_node_chaos, action)
        (after.1 c
          ∙ append_rules-held a (block_rules device "both") s.host after.0 c
          ∙ ap (λ i. held s.host c + times c (rules (block_rules (or_default i "eth0") "both")))
              iface)
