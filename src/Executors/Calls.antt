-- ===== src/Executors/Calls.antt =====
-- One call of ExecNetworkChaos or CancelChaos within a fleet of daemons.
use chaosplane.Prelude.{
  ℕ, suc, ◌≤◌, ◌≡◌, ◌≢◌, inl, inr, sym, ◌∙◌, ap, subst, String, Bool, true, false, none, some, List,
  [], ◌∷◌, ◌++◌, arith, ◌==◌, string_eq, eq_iff, if◌then◌else◌, Dict, lookup, lookup-insert,
  Bool-cases,
}
use text.Mathlib.TextPositions.{eq_refl}
use chaosplane.Daemon.Store.{ExecutionInfo, add}
use chaosplane.Daemon.Host.{Runner}
use chaosplane.Daemon.Server.{Stamp, NetworkChaosRequest}
use chaosplane.Daemon.Handlers.{exec_network_chaos}
use chaosplane.Daemon.Cancel.{cancel_chaos}
use chaosplane.Daemon.Claims.{Claim, Dependable}
use chaosplane.Daemon.Targets.{IsNamed}
use chaosplane.Daemon.Booking.{exec_network_chaos-Booked}
use chaosplane.Daemon.Answers.{exec_network_chaos-Tells, exec_network_chaos-Spares}
use chaosplane.Executors.Network.{ExecutionRecord}
use chaosplane.Executors.Fleet.{Fleet, put, IsFresh, ids_at, keys, Ahead, Owes}
use chaosplane.Executors.Steps.{
  put-both, Booked-Ahead, cancelled-Ahead, ids_at-snoc, keys-append, keys-cons, ids_at-here,
  ids_at-elsewhere,
}

module _ {H : Type 0} {os : Runner H} {held : H → Claim → ℕ} (a : Dependable os held)
    (stamps : ℕ → Stamp) (former : Fleet H) where
  abbrev pub after_exec : Fleet H → String → NetworkChaosRequest → Fleet H
  after_exec w e req = record {
    server = put e (exec_network_chaos os (stamps w.issued) (w.server e) req).0 w.server;
    issued = suc w.issued;
  }

  -- The request was accepted, and its execution recorded behind the others.
  pub accepted-Owes :
      (w : Fleet H) (recs : List ExecutionRecord) (e id : String) (req : NetworkChaosRequest)
      → Owes held former w recs
      → IsFresh stamps w
      → id ≡ (stamps w.issued).id
      → (exec_network_chaos os (stamps w.issued) (w.server e) req).1.success ≡ true
      → Owes held former
          (after_exec w e req)
          (recs ++ record { endpoint = e; execution_id = id } ∷ [])
  accepted-Owes w recs e id req owes fresh same done =
      let stamp = stamps w.issued in
      let booked =
        exec_network_chaos-Booked a.laws stamp (w.server e) req (owes.ahead e).is_named done in
      let more = owes.added e ++ (stamp.id, booked.0) ∷ [] in
      record {
        added = put e more owes.added;
        ahead =
            put-both (λ x. Ahead held (former.server x)) e _ more w.server owes.added
              (Booked-Ahead a stamp.id (former.server e) (w.server e) _ (owes.added e)
                (owes.ahead e) (fresh.unused e w.issued (omega arith)) booked)
              (λ x n. owes.ahead x);
        listed =
            put-both
              (λ x s m. ids_at x (recs ++ record { endpoint = e; execution_id = id } ∷ []) ≡ keys m)
              e (exec_network_chaos os stamp (w.server e) req).0 more w.server owes.added
              (rw (ids_at-snoc, keys-append, eq_refl, same, owes.listed e))
              (λ x n. rw (ids_at-snoc, n) (owes.listed x));
      }

  -- The request was refused without a trace.
  pub refused-Owes :
      (w : Fleet H) (recs : List ExecutionRecord) (e : String) (req : NetworkChaosRequest)
      → Owes held former w recs
      → req.action ≢ "partition"
      → (exec_network_chaos os (stamps w.issued) (w.server e) req).1.success ≡ false
      → Owes held former (after_exec w e req) recs
  refused-Owes w recs e req owes n refused =
      let stamp = stamps w.issued in
      let told = (exec_network_chaos-Tells a.laws stamp (w.server e) req).refused refused in
      let spared = exec_network_chaos-Spares a.laws stamp (w.server e) req n refused in
      let here = owes.ahead e in
      record {
        added = owes.added;
        ahead = λ x.
            put-both
              (λ y s (ad : Dict ExecutionInfo). Ahead held (former.server y) s (owes.added y)) e _
              [] w.server owes.added
              (record {
                stored = ap (λ t. t.executions) told.0 ∙ here.stored;
                holds = λ c. omega (arith, spared c, here.holds c);
                apart = here.apart;
                is_named = subst IsNamed (sym told.1) here.is_named;
              })
              (λ y n. owes.ahead y) x;
        listed = owes.listed;
      }

  pub cancelled-Owes :
      (w : Fleet H) (rec : ExecutionRecord) (recs : List ExecutionRecord)
      → Owes held former w (rec ∷ recs)
      → let r = cancel_chaos os rec.execution_id (w.server rec.endpoint) in
        (r.1.success ≡ true)
        × Owes held former (record w { server = put rec.endpoint r.0 w.server }) recs
  cancelled-Owes w rec recs owes =
      let e = rec.endpoint in
      let (info, rest, split, tail) =
        keys-cons (owes.added e) rec.execution_id (ids_at e recs)
          (sym (owes.listed e) ∙ ids_at-here rec recs) in
      let step =
        cancelled-Ahead a rec.execution_id info (former.server e) (w.server e) rest
          (subst (Ahead held (former.server e) (w.server e)) split (owes.ahead e)) in
      (
        step.0,
        record {
          added = put e rest owes.added;
          ahead =
              put-both (λ x. Ahead held (former.server x)) e _ rest w.server owes.added step.1
                (λ x n. owes.ahead x);
          listed =
              put-both (λ x s m. ids_at x recs ≡ keys m) e
                (cancel_chaos os rec.execution_id (w.server e)).0 rest w.server owes.added
                (sym tail) (λ x n. sym (ids_at-elsewhere x rec recs n) ∙ owes.listed x);
        },
      )

  new_ids_differ :
      (w : Fleet H)
      → IsFresh stamps w
      → (n : ℕ) → suc w.issued ≤ n
      → ((stamps w.issued).id == (stamps n).id) ≡ false
  new_ids_differ w fresh n later = elim (Bool-cases ((stamps w.issued).id == (stamps n).id)) [
    | inr b ↦ b
    | inl b ↦
        let same = fresh.different w.issued n ((eq_iff (stamps w.issued).id (stamps n).id).0 b) in
        ground (arith, same, later)
  ]

  unused_here :
      (w : Fleet H) (e : String) (req : NetworkChaosRequest)
      → IsNamed (w.server e).resolver
      → IsFresh stamps w
      → (n : ℕ) → suc w.issued ≤ n
      → lookup
          (stamps n).id
          (exec_network_chaos os (stamps w.issued) (w.server e) req).0.store.executions
        ≡ none
  unfolding add
  unused_here w e req is_named fresh n later =
      let stamp = stamps w.issued in
      let unused = fresh.unused e n (omega (arith, later)) in
      elim (Bool-cases (exec_network_chaos os stamp (w.server e) req).1.success) [
        | inl done ↦
            let booked = exec_network_chaos-Booked a.laws stamp (w.server e) req is_named done in
            ap (λ t. lookup (stamps n).id t.executions) booked.1
            ∙ lookup-insert stamp.id (stamps n).id booked.0 (w.server e).store.executions
            ∙ ap
                (λ (b : Bool).
                  if b then some booked.0 else lookup (stamps n).id (w.server e).store.executions)
                (new_ids_differ w fresh n later)
            ∙ unused
        | inr refused ↦
            ap (λ t. lookup (stamps n).id t.executions)
              ((exec_network_chaos-Tells a.laws stamp (w.server e) req).refused refused).0
            ∙ unused
      ]

  -- The stamps that are left are fresh after a call, whatever it answered.
  pub after_exec-IsFresh :
      (w : Fleet H) (recs : List ExecutionRecord) (e : String) (req : NetworkChaosRequest)
      → Owes held former w recs
      → IsFresh stamps w
      → IsFresh stamps (after_exec w e req)
  after_exec-IsFresh w recs e req owes fresh = record {
    different = fresh.different;
    unused = λ x n later.
        put-both (λ y s (u : Dict ExecutionInfo). lookup (stamps n).id s.store.executions ≡ none) e
          (exec_network_chaos os (stamps w.issued) (w.server e) req).0 [] w.server (λ y. [])
          (unused_here w e req (owes.ahead e).is_named fresh n later)
          (λ y m. fresh.unused y n (omega arith)) x;
  }
