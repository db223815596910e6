-- ===== src/Executors/Forgetting.antt =====
-- A network executor (internal/executor/network/common.go) rolls an experiment back once only.
use chaosplane.Prelude.{
  ◌≡◌, refl, ap, inl, inr, String, Option, none, some, List, [], ◌∷◌, arith, ◌==◌, string_eq,
  eq_iff, Dict, lookup, remove, Bool-cases,
}
use chaosplane.Api.Experiment.{ChaosExperiment}
use chaosplane.Executors.Network.{
  Daemons, ExecutionRecord, Base, records_of, cancel_all, rollback_error, rollback_executions,
}
use chaosplane.Executors.Kinds.{rollback}

-- Each key has one entry, as in a map.
abbrev pub IsMap {ℓ} : {V : Type ℓ} → Dict V → Type ℓ
IsMap [] = Unit
IsMap ((key, value) ∷ m) = (lookup key m ≡ none) × IsMap m

lookup-remove {ℓ} :
    {V : Type ℓ} (key : String) (m : Dict V) → IsMap m → lookup key (remove key m) ≡ none
unfolding lookup remove
lookup-remove key [] h = refl
lookup-remove key ((k, value) ∷ m) (single, h) = elim (Bool-cases (key == k)) [
  | inl b ↦ ground (arith, b, single, eq_iff key k)
  | inr b ↦ ground (arith, b, lookup-remove key m h)
]

records_or_none : Option (List ExecutionRecord) → List ExecutionRecord
records_or_none o = elim o [ none ↦ [] | some records ↦ records ]

-- Whatever the daemons do, a second Rollback of an experiment calls none of them and answers no error,
-- also when the first one has answered one and has left executions in place.
pub rollback-forgets :
    {W : Type 0} (rpc : Daemons W) (exp : ChaosExperiment) (b : Base W)
    → IsMap b.execution_ids
    → let first = rollback rpc exp b in
      ((rollback rpc exp first.0).1 ≡ none)
      × ((rollback rpc exp first.0).0.daemons ≡ first.0.daemons)
unfolding rollback rollback_executions records_of records_or_none
rollback-forgets rpc exp b h =
    let first = rollback rpc exp b in
    let forgotten : records_of exp.meta.uid first.0.execution_ids ≡ [] =
      ap records_or_none (lookup-remove exp.meta.uid b.execution_ids h) in
    (
      ap (λ recs. rollback_error (cancel_all rpc recs first.0.daemons).1) forgotten,
      ap (λ recs. (cancel_all rpc recs first.0.daemons).0) forgotten,
    )
