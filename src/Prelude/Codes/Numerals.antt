-- ===== src/Prelude/Codes/Numerals.antt =====
-- Decimal numerals as code points: what `strconv.Atoi` reads back, and that they hold no separator.
use Prim.Native.Nat.{ℕ, zero, suc, ◌+◌, ◌/◌, ◌%◌, ◌^◌, ◌<◌}
use mathlib.Core.Path.{◌≡◌, refl}
use mathlib.Core.Bool.{false}
use mathlib.Core.Option.{none, some}
use mathlib.Core.List.{[], ◌∷◌, ◌++◌, append_assoc}
use mathlib.Core.Logic.{◌≢◌, ◌⊎◌, inl, inr}
use native.Mathlib.Omega.{arith}
use chaosplane.Prelude.Tests.{if◌then◌else◌, ltb}
use chaosplane.Prelude.Equality.{◌==◌, nat_eq}
use chaosplane.Prelude.Lists.{All}
use chaosplane.Prelude.Int.{pos}
use chaosplane.Prelude.Codes.{Codes, atoi, cut, split, decimal, decimal_from, is_digit, positive}

-- The digits of `n`, the most significant first; `n` and one are fuel enough.
digits : ℕ → ℕ → Codes
digits zero n = []
digits (suc fuel) n =
    let more = digits fuel (n / 10) ++ (48 + n % 10) ∷ [] in
    if ltb n 10 then (48 + n) ∷ [] else more

unfoldable pub numeral : ℕ → Codes
unfolding digits
numeral n = digits (suc n) n

-- No character of the text is `c`.
abbrev pub Lacks : ℕ → Codes → Type 0
Lacks c s = All (λ d. (d == c) ≡ false) s

shorter : (n fuel : ℕ) → n < suc fuel → (n < 10) ⊎ (n / 10 < fuel)
shorter n fuel h = omega arith

decimal_from-digits :
    (fuel n : ℕ) (t : Codes) → n < fuel → decimal_from 0 (digits fuel n ++ t) ≡ decimal_from n t
unfolding digits decimal_from is_digit
decimal_from-digits zero n t h = absurd (omega arith)
decimal_from-digits (suc fuel) n t h = elim (shorter n fuel h) [
  | inl l ↦ ground arith
  | inr l ↦ ground (
    arith,
    decimal_from-digits fuel (n / 10) ((48 + n % 10) ∷ t) l,
    append_assoc (digits fuel (n / 10)) ((48 + n % 10) ∷ []) t,
  )
]

pub All-append : (P : ℕ → Type 0) (s t : Codes) → All P s → All P t → All P (s ++ t)
All-append P [] t h k = k
All-append P (c ∷ s) t h k = (h.0, All-append P s t h.1 k)

-- A character that is no digit is in no numeral.
digits-Lacks : (c fuel n : ℕ) → (c < 48) ⊎ (57 < c) → Lacks c (digits fuel n)
unfolding digits
digits-Lacks c zero n h = tt
digits-Lacks c (suc fuel) n h = ground (
  arith,
  All-append _ (digits fuel (n / 10)) ((48 + n % 10) ∷ []) (digits-Lacks c fuel (n / 10) h)
      (ground arith, tt),
)

pub numeral-Lacks : (c n : ℕ) → (c < 48) ⊎ (57 < c) → Lacks c (numeral n)
unfolding numeral
numeral-Lacks c n h = digits-Lacks c (suc n) n h

decimal-append : (s : Codes) (c : ℕ) → decimal (s ++ c ∷ []) ≡ decimal_from 0 (s ++ c ∷ [])
unfolding decimal
decimal-append [] c = refl
decimal-append (d ∷ s) c = refl

decimal-numeral : (n : ℕ) → decimal (numeral n) ≡ some n
unfolding numeral digits decimal_from decimal is_digit
decimal-numeral n = elim (shorter n n (omega arith)) [
  | inl l ↦ ground arith
  | inr l ↦ ground (
    arith,
    decimal-append (digits n (n / 10)) (48 + n % 10),
    decimal_from-digits n (n / 10) ((48 + n % 10) ∷ []) l,
  )
]

atoi-decimal :
    (s : Codes) (n : ℕ)
    → Lacks b'-' s
    → Lacks b'+' s
    → decimal s ≡ some n
    → n < 2 ^ 63
    → atoi s ≡ some (pos n)
unfolding atoi decimal positive
atoi-decimal [] n m p h l = ground arith
atoi-decimal (c ∷ s) n m p h l = ground (arith, m.0, p.0, h)

-- strconv.Atoi reads the numeral of a number below 2⁶³ as that number.
pub atoi-numeral : (n : ℕ) → n < 2 ^ 63 → atoi (numeral n) ≡ some (pos n)
atoi-numeral n h =
    atoi-decimal (numeral n) n (numeral-Lacks b'-' n (inl (omega arith)))
      (numeral-Lacks b'+' n (inl (omega arith))) (decimal-numeral n) h

decimal_from-stops :
    (fuel n c : ℕ) (t : Codes)
    → n < fuel
    → is_digit c ≡ false
    → decimal_from 0 (digits fuel n ++ c ∷ t) ≡ none
unfolding decimal_from
decimal_from-stops fuel n c t h d = ground (arith, decimal_from-digits fuel n (c ∷ t) h, d)

atoi-stops :
    (s t : Codes) (c : ℕ)
    → s ≢ []
    → Lacks b'-' s
    → Lacks b'+' s
    → decimal_from 0 (s ++ c ∷ t) ≡ none
    → atoi (s ++ c ∷ t) ≡ none
unfolding atoi decimal
atoi-stops [] t c n m p h = ground arith
atoi-stops (d ∷ s) t c n m p h = ground (arith, m.0, p.0, h)

pub append-nonempty : (s t : Codes) (c : ℕ) → s ++ c ∷ t ≢ []
append-nonempty [] t c = ground arith
append-nonempty (d ∷ s) t c = ground arith

pub numeral-nonempty : (n : ℕ) → numeral n ≢ []
unfolding numeral digits
numeral-nonempty n = ground (arith, append-nonempty (digits n (n / 10)) [] (48 + n % 10))

-- It answers an error where a numeral is followed by anything but a digit.
pub atoi-stops_behind :
    (n c : ℕ) (t : Codes) → (c < 48) ⊎ (57 < c) → atoi (numeral n ++ c ∷ t) ≡ none
unfolding numeral is_digit
atoi-stops_behind n c t h =
    atoi-stops (numeral n) t c (numeral-nonempty n) (numeral-Lacks b'-' n (inl (omega arith)))
      (numeral-Lacks b'+' n (inl (omega arith)))
      (decimal_from-stops (suc n) n c t (omega arith) (ground arith))

-- The first separator of a text, and a text without one.
pub cut-append : (c : ℕ) (s t : Codes) → Lacks c s → cut c (s ++ c ∷ t) ≡ some (s, t)
unfolding cut
cut-append c [] t h = ground arith
cut-append c (d ∷ s) t h = ground (arith, h.0, cut-append c s t h.1)

pub cut-Lacks : (c : ℕ) (s : Codes) → Lacks c s → cut c s ≡ none
unfolding cut
cut-Lacks c [] h = refl
cut-Lacks c (d ∷ s) h = ground (arith, h.0, cut-Lacks c s h.1)

-- strings.Join on texts without the separator, one at least, is undone by strings.Split.
pub split-append : (c : ℕ) (s t : Codes) → Lacks c s → split c (s ++ c ∷ t) ≡ s ∷ split c t
unfolding split
split-append c [] t h = ground arith
split-append c (d ∷ s) t h = ground (arith, h.0, split-append c s t h.1)

pub split-Lacks : (c : ℕ) (s : Codes) → Lacks c s → split c s ≡ s ∷ []
unfolding split
split-Lacks c [] h = refl
split-Lacks c (d ∷ s) h = ground (arith, h.0, split-Lacks c s h.1)
