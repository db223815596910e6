-- ===== src/Daemon/Leftover.antt =====
-- `CancelChaos` of internal/daemon/server.go where the commands that take a fault back fail.
use chaosplane.Prelude.{
  ℕ, ◌≡◌, ◌≢◌, refl, ◌∙◌, ap, String, true, false, none, some, List, [], ◌∷◌, arith, lookup, remove,
  lookup-insert_self, remove-insert,
}
use chaosplane.Daemon.Store.{get, drop, add}
use chaosplane.Daemon.Host.{Runner}
use chaosplane.Daemon.Server.{Server, Stamp}
use chaosplane.Daemon.Cancel.{cancel_chaos, undo}
use chaosplane.Daemon.Targets.{IsNamed}
use chaosplane.Daemon.Claims.{Claim, Accountable, failing-Undoes}
use chaosplane.Daemon.Undoing.{undo-held, undo-kept}
use chaosplane.Daemon.History.{Call, exec, IsUndoable, exec-Booked}

-- No command that takes a rule or a root qdisc back succeeds.
pub record Stubborn {H : Type 0} (os : Runner H) : Type 0 where
  pub rules_stay : (body : List String) (h : H) → (os.run "iptables" ("-D" ∷ body) h).1 ≢ none
  pub qdiscs_stay :
      (iface : String) (h : H)
      → (os.run "tc" ("qdisc" ∷ "del" ∷ "dev" ∷ iface ∷ "root" ∷ []) h).1 ≢ none

-- On a host where each `iptables -D` and each `tc qdisc del` of a root qdisc fails, and a command that
-- fails changes no rule and no qdisc: an Exec call that succeeds under a new execution ID, followed by
-- CancelChaos of that ID, which answers success, leaves every rule and root qdisc of the fault on the
-- host, but the store as it was before the call; CancelChaos of that ID then answers a failure. The call is as in the round trip: the resolver names the interfaces of
-- pods, and a node fault names an interface if and only if it is a partition.
pub exec-cancel_chaos-leaves :
    {H : Type 0} {os : Runner H} {held : H → Claim → ℕ}
    → Accountable os held
    → Stubborn os
    → (stamp : Stamp) (s : Server H) (call : Call) → IsNamed s.resolver
    → IsUndoable call
    → get stamp.id s.store ≡ none
    → (exec os stamp s call).1.success ≡ true
    → let done_s = (exec os stamp s call).0 in
      let after = cancel_chaos os stamp.id done_s in
      (after.1.success ≡ true)
      × ((c : Claim) → held after.0.host c ≡ held done_s.host c)
      × (after.0.store.executions ≡ s.store.executions)
      × ((cancel_chaos os stamp.id after.0).1.success ≡ false)
unfolding cancel_chaos get drop add
exec-cancel_chaos-leaves {os} a stubborn stamp s call named fit fresh done =
    let done_s = (exec os stamp s call).0 in
    let u = failing-Undoes a stubborn.rules_stay stubborn.qdiscs_stay in
    let (info, stored, more, same) = exec-Booked a stamp s call named fit done in
    let found : get stamp.id done_s.store ≡ some info =
      ap (get stamp.id) stored ∙ lookup-insert_self stamp.id info s.store.executions in
    let restored : remove stamp.id (undo os info stamp.id done_s).store.executions
        ≡ s.store.executions =
      ap (λ m. remove stamp.id m.executions) ((undo-kept os info stamp.id done_s).0 ∙ stored)
      ∙ remove-insert stamp.id info s.store.executions fresh in
    let gone = ap (lookup stamp.id) restored ∙ fresh in
    rw (cancel_chaos, found)
      (refl, λ c. omega (arith, undo-held u info stamp.id done_s c), restored, ground (arith, gone))
