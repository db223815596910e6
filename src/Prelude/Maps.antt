-- ===== src/Prelude/Maps.antt =====
-- Go's `map[string]V` as a list of its entries, in which the first entry of a key counts. A nil map
-- and an empty one read alike. `m[key] = value` overwrites the entry in place, or adds one at the end.
use chaosplane.Prelude.Equality.{◌==◌, string_eq}
use chaosplane.Prelude.Tests.{if◌then◌else◌, Bool-cases}
use Prim.Native.String.{String}
use mathlib.Core.Path.{◌≡◌, refl}
use mathlib.Core.Logic.{inl, inr}
use mathlib.Core.Option.{Option, none, some}
use mathlib.Core.List.{List, [], ◌∷◌, ◌++◌}
use native.Mathlib.Omega.{arith}
use text.Mathlib.TextEquality.{eq_iff}
use text.Mathlib.TextPositions.{eq_refl}

abbrev pub Dict {ℓ} : Type ℓ → Type ℓ
Dict V = List (String × V)

unfoldable pub insert {ℓ} : {V : Type ℓ} → String → V → Dict V → Dict V
insert key value [] = (key, value) ∷ []
insert key value ((k, old) ∷ entries) =
    if key == k then (k, value) ∷ entries else (k, old) ∷ insert key value entries

unfoldable pub lookup {ℓ} : {V : Type ℓ} → String → Dict V → Option V
lookup key [] = none
lookup key ((k, value) ∷ entries) = if key == k then some value else lookup key entries

-- Go's `delete`. The keys of a map that `insert` built are distinct.
unfoldable pub remove {ℓ} : {V : Type ℓ} → String → Dict V → Dict V
remove key [] = []
remove key ((k, value) ∷ entries) = if key == k then entries else (k, value) ∷ remove key entries

-- `m[key]` of a map of texts: the empty text for a key that is not there.
unfoldable pub text_at : String → Dict String → String
unfolding lookup
text_at key m = elim (lookup key m) [ none ↦ "" | some value ↦ value ]

-- A read after a write.
pub lookup-insert {ℓ} :
    {V : Type ℓ} (written read : String) (value : V) (m : Dict V)
    → lookup read (insert written value m) ≡ (if written == read then some value else lookup read m)
unfolding lookup insert
lookup-insert written read value [] = ground (arith, eq_iff written read, eq_iff read written)
lookup-insert written read value ((k, old) ∷ entries) =
    let rest = lookup-insert written read value entries in
    ground (arith, rest, eq_iff read k, eq_iff written k, eq_iff read written, eq_iff written read)

pub lookup-insert_self {ℓ} :
    {V : Type ℓ} (key : String) (value : V) (m : Dict V)
    → lookup key (insert key value m) ≡ some value
lookup-insert_self key value m = rw lookup-insert (rw eq_refl)

pub text_at-insert :
    (written read value : String) (m : Dict String)
    → text_at read (insert written value m) ≡ (if written == read then value else text_at read m)
unfolding text_at
text_at-insert written read value m = ground (arith, lookup-insert written read value m)

-- Deleting a new entry undoes the write.
pub remove-insert {ℓ} :
    {V : Type ℓ} (key : String) (value : V) (m : Dict V)
    → lookup key m ≡ none
    → remove key (insert key value m) ≡ m
unfolding lookup insert remove
remove-insert key value [] e = rw eq_refl
remove-insert key value ((k, old) ∷ entries) e = elim (Bool-cases (key == k)) [
  | inl b ↦ ground (arith, e, b)
  | inr b ↦ ground (arith, e, b, remove-insert key value entries (ground (arith, e, b)))
]

-- A new entry stands at the end, and is the first of its key there.
module _ {ℓ} {V : Type ℓ} where
  pub insert-append :
      (key : String) (value : V) (m : Dict V)
      → lookup key m ≡ none
      → insert key value m ≡ m ++ (key, value) ∷ []
  unfolding lookup insert
  insert-append key value [] e = refl
  insert-append key value ((k, old) ∷ entries) e = elim (Bool-cases (key == k)) [
    | inl b ↦ ground (arith, e, b)
    | inr b ↦ ground (arith, e, b, insert-append key value entries (ground (arith, e, b)))
  ]

  pub lookup-append :
      (key : String) (m n : Dict V) → lookup key m ≡ none → lookup key (m ++ n) ≡ lookup key n
  unfolding lookup
  lookup-append key [] n e = refl
  lookup-append key ((k, old) ∷ entries) n e = ground (arith, e, lookup-append key entries n)

  pub lookup-append_none :
      (key : String) (m n : Dict V) → lookup key (m ++ n) ≡ none → lookup key m ≡ none
  unfolding lookup
  lookup-append_none key [] n e = refl
  lookup-append_none key ((k, old) ∷ entries) n e =
      ground (arith, e, lookup-append_none key entries n)

  pub remove-append :
      (key : String) (value : V) (m n : Dict V)
      → lookup key m ≡ none
      → remove key (m ++ (key, value) ∷ n) ≡ m ++ n
  unfolding lookup remove
  remove-append key value [] n e = rw eq_refl
  remove-append key value ((k, old) ∷ entries) n e = elim (Bool-cases (key == k)) [
    | inl b ↦ ground (arith, e, b)
    | inr b ↦ ground (arith, e, b, remove-append key value entries n (ground (arith, e, b)))
  ]
