-- ===== src/Prelude/Text.antt =====
-- The verbs of fmt that the program's messages use, over the native texts: `%s` joins, `%d` writes a
-- number in decimal, `%q` quotes a text, and `%s` of a duration is `Duration.String`.
use Prim.Native.Nat.{ℕ, zero, suc, ◌+◌, ◌/◌, ◌%◌, ◌^◌}
use Prim.Native.Char.{code}
use Prim.Native.String.{String, ◌++◌, slice}
use mathlib.Core.List.{List, [], ◌∷◌}
use chaosplane.Prelude.Equality.{◌==◌, string_eq, nat_eq}
use chaosplane.Prelude.Tests.{if◌then◌else◌, ltb}
use chaosplane.Prelude.Int.{ℤ, pos, negsuc}

-- Sprintf with its verbs filled in: the pieces, one after the other.
unfoldable pub concat : List String → String
concat [] = ""
concat (s ∷ ss) = s ++ concat ss

-- The decimal digit of a number below 10.
unfoldable pub digit : ℕ → String
digit d = slice "0123456789" d (d + 1)

-- The digits of `n`; `n + 1` rounds are more than enough.
unfoldable pub digits_of : ℕ → ℕ → String
digits_of zero n = ""
digits_of (suc fuel) n =
    let more = digits_of fuel (n / 10) ++ digit (n % 10) in if ltb n 10 then digit n else more

-- `%d`, strconv.Itoa
unfoldable pub itoa : ℕ → String
unfolding digit digits_of
itoa n = digits_of (suc n) n

unfoldable pub itoa_ℤ : ℤ → String
unfolding itoa
itoa_ℤ (pos n) = itoa n
itoa_ℤ (negsuc n) = "-" ++ itoa (suc n)

-- The escapes of `%q` for the quotation mark, the backslash and the usual control characters. Any
-- other character stands as it is, which is what `%q` does with printable ones.
escape : String → String
escape String.[] = ""
escape (String.◌∷◌ c s) =
    if code c == 34
    then "\\\"" ++ escape s
    else if code c == 92
    then "\\\\" ++ escape s
    else if code c == 10
    then "\\n" ++ escape s
    else if code c == 13
    then "\\r" ++ escape s
    else if code c == 9
    then "\\t" ++ escape s
    else String.◌∷◌ c (escape s)

-- `%q`
unfoldable pub quote : String → String
unfolding escape
quote s = "\"" ++ (escape s ++ "\"")

-- The digits of `v` over `prec` decimal places, without trailing zeros, behind a point if any is
-- left.
fraction : ℕ → ℕ → String → String
fraction zero v right = if right == "" then "" else "." ++ right
fraction (suc prec) v right =
    fraction prec (v / 10) (
      if right == "" then (if v % 10 == 0 then "" else digit (v % 10)) else digit (v % 10) ++ right)

abbrev second : ℕ
second = 10 ^ 9

clock_face : ℕ → String → String
clock_face s frac =
    let tail = itoa (s % 60) ++ (frac ++ "s") in
    let m = s / 60 in
    let minutes = itoa (m % 60) ++ ("m" ++ tail) in
    if m == 0 then tail else if m / 60 == 0 then minutes else itoa (m / 60) ++ ("h" ++ minutes)

nanos : ℕ → String
unfolding fraction clock_face digit itoa
nanos u =
    if u == 0
    then "0s"
    else if ltb u 1000
    then itoa u ++ "ns"
    else if ltb u (10 ^ 6)
    then itoa (u / 1000) ++ (fraction 3 (u % 1000) "" ++ "µs")
    else if ltb u second
    then itoa (u / 10 ^ 6) ++ (fraction 6 (u % 10 ^ 6) "" ++ "ms")
    else clock_face (u / second) (fraction 9 (u % second) "")

-- `Duration.String`
unfoldable pub duration_string : ℤ → String
unfolding nanos
duration_string (pos n) = nanos n
duration_string (negsuc n) = "-" ++ nanos (suc n)
