-- ===== src/Prelude/Trim.antt =====
-- What the program uses of `strings` on texts that it hands on: Split at a comma, TrimSpace,
-- HasSuffix and TrimSuffix of a character, TrimPrefix, and Join.
use Prim.Native.Char.{Char, code}
use Prim.Native.Nat.{ℕ}
use Prim.Native.String.{String}
use mathlib.Core.Bool.{Bool, false}
use mathlib.Core.List.{List, [], ◌∷◌}
use chaosplane.Prelude.Tests.{if◌then◌else◌}
use chaosplane.Prelude.Equality.{◌==◌, nat_eq, string_eq}
use chaosplane.Prelude.Codes.{is_space}
use chaosplane.Prelude.Text.{concat}

abbrev pub prepend_char : Char → List String → List String
prepend_char c [] = (String.◌∷◌ c "") ∷ []
prepend_char c (part ∷ parts) = (String.◌∷◌ c part) ∷ parts

-- strings.Split(s, sep) for a separator of one character.
unfoldable pub split_text : ℕ → String → List String
split_text sep String.[] = "" ∷ []
split_text sep (String.◌∷◌ c s) =
    let rest = split_text sep s in if code c == sep then "" ∷ rest else prepend_char c rest

trim_front : String → String
unfolding is_space
trim_front String.[] = ""
trim_front (String.◌∷◌ c s) =
    let rest = trim_front s in if is_space (code c) then rest else String.◌∷◌ c s

trim_back : String → String
unfolding is_space
trim_back String.[] = ""
trim_back (String.◌∷◌ c s) =
    let rest = trim_back s in
    if rest == "" then (if is_space (code c) then "" else String.◌∷◌ c "") else String.◌∷◌ c rest

-- strings.TrimSpace
unfoldable pub trim_text : String → String
unfolding trim_front trim_back
trim_text s = trim_back (trim_front s)

-- strings.HasSuffix of one character.
unfoldable pub ends_with : ℕ → String → Bool
ends_with d String.[] = false
ends_with d (String.◌∷◌ c s) = let rest = ends_with d s in if s == "" then code c == d else rest

-- strings.TrimSuffix of one character.
unfoldable pub trim_end : ℕ → String → String
trim_end d String.[] = ""
trim_end d (String.◌∷◌ c s) =
    let rest = String.◌∷◌ c (trim_end d s) in
    if s == "" then (if code c == d then "" else String.◌∷◌ c "") else rest

-- strings.TrimPrefix of one character.
unfoldable pub trim_start : ℕ → String → String
trim_start d String.[] = ""
trim_start d (String.◌∷◌ c s) = if code c == d then s else String.◌∷◌ c s

-- strings.Join(parts, " ")
unfoldable pub join_words : List String → String
join_words [] = ""
join_words (s ∷ []) = s
join_words (s ∷ t ∷ ss) = concat (s ∷ " " ∷ join_words (t ∷ ss) ∷ [])
