-- ===== src/Executors/Restoring.antt =====
-- A network executor (internal/executor/network) that has been run and rolled back leaves the daemons of
-- all nodes as they were.
use chaosplane.Prelude.{
  ℕ, ◌+◌, ◌≡◌, ◌≢◌, ◌⊎◌, refl, sym, ◌∙◌, ap, subst, String, none, List, [], ◌∷◌, ◌++◌, arith,
  string_eq, Dict, All,
}
use mathlib.Core.List.{append-nil}
use chaosplane.Api.Experiment.{ChaosExperiment}
use chaosplane.Daemon.Store.{ExecutionInfo}
use chaosplane.Daemon.Host.{Runner}
use chaosplane.Daemon.Server.{Stamp}
use chaosplane.Daemon.Claims.{Claim, Dependable}
use chaosplane.Daemon.Targets.{IsNamed}
use chaosplane.Daemon.Outstanding.{outstanding}
use chaosplane.Executors.Pods.{Lookups}
use chaosplane.Executors.Network.{
  Daemons, ExecutionRecord, Base, records_of, with_error, cancel_error, cancel_one, cancel_all,
  rollback_error, rollback_executions,
}
use chaosplane.Executors.Kinds.{NetworkKind, action_of, execute, rollback}
use chaosplane.Executors.Fleet.{
  Fleet, Links, Reachable, cancel-reached, fleet_daemons, IsFresh, keys, Owes,
}
use chaosplane.Executors.Calls.{cancelled-Owes}
use chaosplane.Executors.Debts.{Indebted, execute-Indebted}

keys-nil : (m : Dict ExecutionInfo) → keys m ≡ [] → m ≡ []
keys-nil [] e = refl
keys-nil ((id, info) ∷ m) e = ground (arith, e)

module _ {H : Type 0} {os : Runner H} {held : H → Claim → ℕ} (a : Dependable os held)
    (stamps : ℕ → Stamp) (links : Links) (former : Fleet H) where
  abbrev rpc : Daemons (Fleet H)
  rpc = fleet_daemons os stamps links

  cancel_one-Owes :
      (rec : ExecutionRecord) (recs : List ExecutionRecord) (w : Fleet H)
      → Owes held former w (rec ∷ recs)
      → Reachable links rec.endpoint
      → ((cancel_one rpc rec w).1 ≡ none) × Owes held former (cancel_one rpc rec w).0 recs
  unfolding cancel_one cancel_error
  cancel_one-Owes rec recs w owes (d, l) =
      let (done, less) = cancelled-Owes a stamps former w rec recs owes in
      rw
        (
          cancel_one,
          d,
          cancel-reached os stamps links rec.endpoint rec.execution_id w l,
          cancel_error,
          done,
        )
        (refl, less)

  cancel_all-Owes :
      (recs : List ExecutionRecord) (w : Fleet H)
      → Owes held former w recs
      → All (λ rec. Reachable links rec.endpoint) recs
      → ((cancel_all rpc recs w).1 ≡ []) × Owes held former (cancel_all rpc recs w).0 []
  unfolding cancel_all
  cancel_all-Owes [] w owes reachable = (refl, owes)
  cancel_all-Owes (rec ∷ recs) w owes (d, reachable) =
      let (quiet, less) = cancel_one-Owes rec recs w owes d in
      let (quiet_rest, paid) = cancel_all-Owes recs (cancel_one rpc rec w).0 less reachable in
      (
        ap (λ f. with_error f (cancel_all rpc recs (cancel_one rpc rec w).0).1) quiet ∙ quiet_rest,
        paid,
      )

  -- Nothing recorded, nothing added.
  settled :
      (w : Fleet H) (e : String)
      → Owes held former w []
      → ((w.server e).store.executions ≡ (former.server e).store.executions)
        × ((c : Claim) → held (w.server e).host c ≡ held (former.server e).host c)
  unfolding outstanding
  settled w e owes =
      let ahead = owes.ahead e in
      let none_added = keys-nil (owes.added e) (sym (owes.listed e)) in
      (
        ahead.stored ∙ ap (λ m. (former.server e).store.executions ++ m) none_added ∙ append-nil _,
        λ c.
            ahead.holds c
            ∙ ap (λ m. held (former.server e).host c + outstanding c m) none_added
            ∙ omega arith,
      )

  rollback-settles :
      (exp : ChaosExperiment) (b : Base (Fleet H))
      → Indebted a stamps links former exp.meta.uid b
      → ((rollback rpc exp b).1 ≡ none) × Owes held former (rollback rpc exp b).0.daemons []
  unfolding rollback rollback_executions
  rollback-settles exp b debt =
      let (quiet, paid) =
        cancel_all-Owes (records_of exp.meta.uid b.execution_ids) b.daemons debt.owes
          debt.reachable in
      (ap rollback_error quiet, paid)

module _ {H : Type 0} {os : Runner H} {held : H → Claim → ℕ} (a : Dependable os held)
    (stamps : ℕ → Stamp) (links : Links) where
  -- The network executors and the daemons of all nodes together. An executor with no record of the
  -- experiment executes it, against daemons whose IDs are fresh. Some nodes may not be reached: their
  -- client factory fails, or the call fails before the daemon serves it; every other call is answered.
  -- Then the executor rolls back, and reaches the same nodes. Where the action is no partition, or
  -- Execute has answered no error, Rollback answers no error, and on every node the store of executions
  -- and the number of each iptables rule and root qdisc are what they were before Execute. This holds
  -- also when Execute stopped at a pod whose daemon was not reached or refused. Each daemon's resolver
  -- names the interfaces of pods. On each host a command that fails changes no rule and no qdisc, and
  -- one that takes back a rule or a root qdisc that is there does not fail.
  pub execute-rollback :
      (api : Lookups) (kind : NetworkKind) (exp : ChaosExperiment) (b : Base (Fleet H))
      → records_of exp.meta.uid b.execution_ids ≡ []
      → IsFresh stamps b.daemons
      → ((e : String) → IsNamed (b.daemons.server e).resolver)
      → (action_of kind ≢ "partition")
        ⊎ ((execute api (fleet_daemons os stamps links) kind exp b).1 ≡ none)
      → let rpc = fleet_daemons os stamps links in
        let after = rollback rpc exp (execute api rpc kind exp b).0 in
        (after.1 ≡ none)
        × ((e : String)
            → ((after.0.daemons.server e).store.executions ≡ (b.daemons.server e).store.executions)
              × ((c : Claim)
                  → held (after.0.daemons.server e).host c ≡ held (b.daemons.server e).host c))
  unfolding outstanding
  execute-rollback api kind exp b unrecorded fresh is_named fit =
      let rpc = fleet_daemons os stamps links in
      let start : Indebted a stamps links b.daemons exp.meta.uid b = record {
        owes = subst (Owes held b.daemons b.daemons) (sym unrecorded) (record {
          added = λ e. [];
          ahead = λ e. record {
            stored = sym (append-nil _);
            holds = λ c. omega arith;
            apart = tt;
            is_named = is_named e;
          };
          listed = λ e. refl;
        });
        fresh = fresh;
        reachable = subst (All (λ rec. Reachable links rec.endpoint)) (sym unrecorded) tt;
      } in
      let debt = execute-Indebted a stamps links b.daemons api kind exp b start fit in
      let (quiet, paid) =
        rollback-settles a stamps links b.daemons exp (execute api rpc kind exp b).0 debt in
      (
        quiet,
        λ e.
            settled a stamps links b.daemons
              (rollback rpc exp (execute api rpc kind exp b).0).0.daemons e paid,
      )
