-- ===== src/Api/Results.antt =====
-- Go's `if err != nil { return … }` as the bind of results, and what a chain that succeeds has done.
use chaosplane.Prelude.{
  String, if◌then◌else◌, ◌≡◌, ◌↔◌, refl, Bool, true, false, List, ◌∷◌, [], concat, arith,
}
use chaosplane.Api.Meta.{Error, Result, ok, err}

-- fmt.Errorf("…: %w", err)
abbrev pub wrap {ℓ} : {A : Type ℓ} → List String → Result A → Result A
wrap context (ok a) = ok a
wrap context (err e) = err (concat (concat context ∷ ": " ∷ e ∷ []))

infixl 5 ◌>>=◌
abbrev pub ◌>>=◌ {ℓ ℓ'} : {A : Type ℓ} {B : Type ℓ'} → Result A → (A → Result B) → Result B
err failure >>= next = err failure
ok value >>= next = next value

-- An early return with an error, unless the test holds.
abbrev pub require : Bool → Error → Result (Unit {0})
require holds e = if holds then ok tt else err e

infixl 5 ◌>>◌
abbrev pub ◌>>◌ {ℓ} : {A : Type ℓ} → Result (Unit {0}) → Result A → Result A
first >> next = first >>= (λ done. next)

pub >>=-ok_iff {ℓ κ} :
    {A : Type ℓ} {B : Type κ} (m : Result A) (f : A → Result B) {b : B}
    → ((m >>= f) ≡ ok b) ↔ ((a : A) × (m ≡ ok a) × (f a ≡ ok b))
>>=-ok_iff (ok a) f = (λ h. (a, refl, h), λ (a', e, h). ground (arith, e, h))
>>=-ok_iff (err e) f = (λ h. ground (arith, h), λ (a', e', h). ground (arith, e'))

pub wrap-ok {ℓ} :
    {A : Type ℓ} (context : List String) (m : Result A) {a : A} → wrap context m ≡ ok a → m ≡ ok a
wrap-ok context (ok x) h = h
wrap-ok context (err e) h = ground (arith, h)

pub require-ok : (b : Bool) (e : Error) {u : Unit {0}} → require b e ≡ ok u → b ≡ true
require-ok true e h = refl
require-ok false e h = ground (arith, h)
