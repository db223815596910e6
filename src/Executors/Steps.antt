-- ===== src/Executors/Steps.antt =====
-- What one call of a daemon does to the debt of a fleet: an ExecNetworkChaos adds to it, a CancelChaos
-- takes the first record away.
use chaosplane.Prelude.{
  ℕ, ◌+◌, ◌≡◌, inl, inr, refl, sym, ◌∙◌, ap, subst, String, true, false, none, some, List, [], ◌∷◌,
  ◌++◌, arith, ◌==◌, string_eq, eq_iff, if◌then◌else◌, Dict, lookup, remove, insert-append,
  lookup-append, lookup-append_none, remove-append, Bool-cases,
}
use mathlib.Core.List.{append_assoc}
use text.Mathlib.TextPositions.{eq_refl}
use chaosplane.Daemon.Store.{ExecutionInfo, add, get, drop}
use chaosplane.Daemon.Host.{Runner}
use chaosplane.Daemon.Server.{Server}
use chaosplane.Daemon.Cancel.{cancel_chaos}
use chaosplane.Daemon.Claims.{Claim, Dependable, Dependable-Undoes}
use chaosplane.Daemon.Targets.{IsNamed}
use chaosplane.Daemon.Outstanding.{outstanding, Booked}
use chaosplane.Daemon.Undoing.{undo-held, undo-kept}
use chaosplane.Executors.Network.{ExecutionRecord}
use chaosplane.Executors.Fleet.{put, ids_at, keys, Apart, Ahead}

outstanding-append :
    (c : Claim) (m n : Dict ExecutionInfo)
    → outstanding c (m ++ n) ≡ outstanding c m + outstanding c n
unfolding outstanding
outstanding-append c [] n = omega arith
outstanding-append c ((id, info) ∷ m) n = omega (arith, outstanding-append c m n)

pub keys-append : (m n : Dict ExecutionInfo) → keys (m ++ n) ≡ keys m ++ keys n
keys-append [] n = refl
keys-append ((id, info) ∷ m) n = ap (λ ids. id ∷ ids) (keys-append m n)

Apart-append :
    (m : Dict ExecutionInfo) (ids ids' : List String)
    → Apart m ids
    → Apart m ids'
    → Apart m (ids ++ ids')
Apart-append m [] ids' h h' = h'
Apart-append m (id ∷ ids) ids' (e, h) h' = (e, Apart-append m ids ids' h h')

pub keys-cons :
    (m : Dict ExecutionInfo) (id : String) (ids : List String)
    → keys m ≡ id ∷ ids
    → (info : ExecutionInfo) × (rest : Dict ExecutionInfo) × (m ≡ (id, info) ∷ rest)
      × (keys rest ≡ ids)
keys-cons [] id ids e = ground (arith, e)
keys-cons ((k, info) ∷ m) id ids e =
    (info, m, ap (λ key. (key, info) ∷ m) (ground (arith, e)), ground (arith, e))

pub ids_at-snoc :
    (e : String) (recs : List ExecutionRecord) (rec : ExecutionRecord)
    → ids_at e (recs ++ rec ∷ [])
      ≡ (if e == rec.endpoint then ids_at e recs ++ rec.execution_id ∷ [] else ids_at e recs)
ids_at-snoc e [] rec = refl
ids_at-snoc e (r ∷ recs) rec = ground (arith, ids_at-snoc e recs rec)

lookup_first :
    (id : String) (info : ExecutionInfo) (m : Dict ExecutionInfo)
    → lookup id ((id, info) ∷ m) ≡ some info
unfolding lookup
lookup_first id info m = rw eq_refl

pub ids_at-here :
    (rec : ExecutionRecord) (recs : List ExecutionRecord)
    → ids_at rec.endpoint (rec ∷ recs) ≡ rec.execution_id ∷ ids_at rec.endpoint recs
ids_at-here rec recs = rw eq_refl

pub ids_at-elsewhere :
    (x : String) (rec : ExecutionRecord) (recs : List ExecutionRecord)
    → (x == rec.endpoint) ≡ false
    → ids_at x (rec ∷ recs) ≡ ids_at x recs
ids_at-elsewhere x rec recs n = rw n

-- What holds at one endpoint after a change there, and before at the others, holds at all after.
pub put-both {ℓ ℓ' ℓ''} :
    {A : Type ℓ} {B : Type ℓ'} (P : String → A → B → Type ℓ'') (e : String) (a : A) (b : B)
    (f : String → A) (g : String → B)
    → P e a b
    → ((x : String) → (x == e) ≡ false → P x (f x) (g x))
    → (x : String) → P x (put e a f x) (put e b g x)
put-both P e a b f g here elsewhere x = elim (Bool-cases (x == e)) [
  | inl t ↦ rw t (subst (λ y. P y a b) (sym ((eq_iff x e).0 t)) here)
  | inr t ↦ rw t (elsewhere x t)
]

module _ {H : Type 0} {os : Runner H} {held : H → Claim → ℕ} (a : Dependable os held) where
  -- An execution that was booked under a new ID.
  pub Booked-Ahead :
      (id : String) (former s s' : Server H) (added : Dict ExecutionInfo)
      → Ahead held former s added
      → lookup id s.store.executions ≡ none
      → (b : Booked os held id s s') → Ahead held former s' (added ++ (id, b.0) ∷ [])
  unfolding add outstanding
  Booked-Ahead id former s s' added ahead fresh (info, stored, more, same) = record {
    stored =
        ap (λ t. t.executions) stored
        ∙ insert-append id info s.store.executions fresh
        ∙ ap (λ m. m ++ (id, info) ∷ []) ahead.stored
        ∙ append_assoc former.store.executions added ((id, info) ∷ []);
    holds = λ c. omega (arith, more c, ahead.holds c, outstanding-append c added ((id, info) ∷ []));
    apart = rw keys-append (
        Apart-append former.store.executions (keys added) (id ∷ []) ahead.apart (
          lookup-append_none id former.store.executions added
              (subst (λ m. lookup id m ≡ none) ahead.stored fresh),
          tt,
        ));
    is_named = subst IsNamed (sym same) ahead.is_named;
  }

  -- The first of the executions is cancelled.
  pub cancelled-Ahead :
      (id : String) (info : ExecutionInfo) (former s : Server H) (rest : Dict ExecutionInfo)
      → Ahead held former s ((id, info) ∷ rest)
      → ((cancel_chaos os id s).1.success ≡ true) × Ahead held former (cancel_chaos os id s).0 rest
  unfolding cancel_chaos get drop outstanding
  cancelled-Ahead id info former s rest ahead =
      let m = former.store.executions in
      let found : lookup id s.store.executions ≡ some info =
        ap (lookup id) ahead.stored
        ∙ lookup-append id m ((id, info) ∷ rest) ahead.apart.0
        ∙ lookup_first id info rest in
      let kept = undo-kept os info id s in
      rw (cancel_chaos, found)
        (
          refl,
          record {
            stored =
                ap (λ t. remove id t.executions) kept.0
                ∙ ap (remove id) ahead.stored
                ∙ remove-append id info m rest ahead.apart.0;
            holds = λ c. omega (arith, undo-held (Dependable-Undoes a) info id s c, ahead.holds c);
            apart = ahead.apart.1;
            is_named = subst IsNamed (sym kept.1) ahead.is_named;
          },
        )
