-- ===== src/Prelude/Codes.antt =====
-- Texts that the program takes apart, as lists of code points, and what it uses of `strings` and
-- `strconv` on them.
use Prim.Native.Char.{code}
use Prim.Native.String.{String}
use Prim.Native.Nat.{ℕ, zero, suc, ◌+◌, ◌-◌, ◌*◌, ◌^◌}
use mathlib.Core.Bool.{Bool, true, false, not, ◌&&◌, ◌||◌}
use mathlib.Core.Option.{Option, none, some}
use mathlib.Core.List.{List, [], ◌∷◌}
use chaosplane.Prelude.Tests.{if◌then◌else◌, ltb, leb, is_some}
use chaosplane.Prelude.Lists.{is_empty}
use chaosplane.Prelude.Equality.{◌==◌, nat_eq}
use chaosplane.Prelude.Int.{ℤ, pos, negsuc, saturate64}
pub mod Numerals

abbrev pub Codes : Type 0
Codes = List ℕ

abbrev pub codes : String → Codes
codes String.[] = []
codes (String.◌∷◌ c s) = code c ∷ codes s

-- What stands before and behind the first `sep`: strings.SplitN(s, sep, 2) where strings.Contains(s,
-- sep), and `none` where not.
unfoldable pub cut : ℕ → Codes → Option (Codes × Codes)
cut sep [] = none
cut sep (c ∷ s) =
    let rest = cut sep s in
    if c == sep then some ([], s) else elim rest [ none ↦ none | some (a, b) ↦ some (c ∷ a, b) ]

-- A character in front of the first part.
abbrev pub prepend : ℕ → List Codes → List Codes
prepend c [] = (c ∷ []) ∷ []
prepend c (part ∷ parts) = (c ∷ part) ∷ parts

-- strings.Split(s, sep)
unfoldable pub split : ℕ → Codes → List Codes
split sep [] = [] ∷ []
split sep (c ∷ s) = let rest = split sep s in if c == sep then [] ∷ rest else prepend c rest

-- unicode.IsSpace
unfoldable pub is_space : ℕ → Bool
is_space c =
    (leb 9 c && leb c 13)
    || c == 32
    || c == 0x85
    || c == 0xa0
    || c == 0x1680
    || (leb 0x2000 c && leb c 0x200a)
    || c == 0x2028
    || c == 0x2029
    || c == 0x202f
    || c == 0x205f
    || c == 0x3000

-- The words of a text; `word` is the one being read, backwards.
unfoldable pub words_from : Codes → Codes → List Codes
unfolding is_space
words_from word [] = if is_empty word then [] else mathlib.Core.List.reverse word ∷ []
words_from word (c ∷ s) =
    let done = words_from [] s in
    let more = words_from (c ∷ word) s in
    if is_space c
    then (if is_empty word then done else mathlib.Core.List.reverse word ∷ done)
    else more

-- strings.Fields
unfoldable pub fields : Codes → List Codes
unfolding words_from
fields s = words_from [] s

unfoldable pub is_digit : ℕ → Bool
is_digit c = leb 48 c && leb c 57

-- The value of a text of digits, read behind `n`.
unfoldable pub decimal_from : ℕ → Codes → Option ℕ
unfolding is_digit
decimal_from n [] = some n
decimal_from n (c ∷ s) =
    let rest = decimal_from (n * 10 + (c - 48)) s in if is_digit c then rest else none

-- A text of digits, one at least.
unfoldable pub decimal : Codes → Option ℕ
unfolding decimal_from
decimal [] = none
decimal (c ∷ s) = decimal_from 0 (c ∷ s)

unfoldable pub positive : ℕ → Option ℤ
positive n = if ltb n (2 ^ 63) then some (pos n) else none

unfoldable pub negative : ℕ → Option ℤ
negative zero = some (pos 0)
negative (suc n) = if ltb n (2 ^ 63) then some (negsuc n) else none

-- strconv.Atoi; `none` is its error.
unfoldable pub atoi : Codes → Option ℤ
unfolding decimal positive negative
atoi [] = none
atoi (c ∷ s) =
    if c == b'-'
    then elim (decimal s) [ none ↦ none | some n ↦ negative n ]
    else if c == b'+'
    then elim (decimal s) [ none ↦ none | some n ↦ positive n ]
    else elim (decimal (c ∷ s)) [ none ↦ none | some n ↦ positive n ]

-- The number that strconv.Atoi answers beside its error, or without one: the nearest int where the
-- text is a number, and 0 where it is none.
unfoldable pub atoi_nearest : Codes → ℤ
unfolding decimal
atoi_nearest [] = pos 0
atoi_nearest (c ∷ s) =
    if c == b'-'
    then elim (decimal s) [
      | none ↦ pos 0
      | some zero ↦ pos 0
      | some (suc n) ↦ saturate64 (negsuc n)
    ]
    else if c == b'+'
    then elim (decimal s) [ none ↦ pos 0 | some n ↦ saturate64 (pos n) ]
    else elim (decimal (c ∷ s)) [ none ↦ pos 0 | some n ↦ saturate64 (pos n) ]

unfoldable pub to_lower : ℕ → ℕ
to_lower c = if leb b'A' c && leb c b'Z' then c + 32 else c

-- strings.EqualFold, on ASCII letters.
unfoldable pub equal_fold : Codes → Codes → Bool
unfolding to_lower
equal_fold [] [] = true
equal_fold (a ∷ s) (b ∷ t) = to_lower a == to_lower b && equal_fold s t
equal_fold _ _ = false
