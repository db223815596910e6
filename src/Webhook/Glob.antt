-- ===== src/Webhook/Glob.antt =====
-- `matchGlob` of blastradius_webhook.go, and `filepath.Match` on Unix, which it calls.
use chaosplane.Prelude.{
  ℕ, zero, suc, String, Bool, true, false, Option, none, some, List, [], ◌∷◌, ◌&&◌, ◌||◌, ◌==◌,
  nat_eq, string_eq, if◌then◌else◌, leb, is_empty, any, length, not,
}
use chaosplane.Prelude.Codes.{Codes, codes}

-- A piece of a pattern; a class is a list of ranges, negated or not.
pub data Piece : Type 0 where
  literal : ℕ → Piece
  any_char : Piece
  star : Piece
  class : Bool → List (ℕ × ℕ) → Piece

-- A possibly escaped character of a class; `none` is ErrBadPattern, here and below.
get_esc : Codes → Option (ℕ × Codes)
get_esc [] = none
get_esc (c ∷ []) = none
get_esc (c ∷ d ∷ s) =
    if c == b'-' || c == b']'
    then none
    else if c == b'\\'
    then (if is_empty s then none else some (d, s))
    else some (c, d ∷ s)

-- A range `lo` or `lo-hi`.
get_range : Codes → Option ((ℕ × ℕ) × Codes)
unfolding get_esc
get_range s = elim (get_esc s) [
  | none ↦ none
  | some (lo, []) ↦ none
  | some (lo, c ∷ t) ↦
      if c == b'-'
      then elim (get_esc t) [ none ↦ none | some (hi, u) ↦ some ((lo, hi), u) ]
      else some ((lo, lo), c ∷ t)
]

-- The ranges up to the closing bracket, of which one at least; the text is the fuel.
get_ranges : ℕ → Bool → Codes → Option (List (ℕ × ℕ) × Codes)
unfolding get_range
get_ranges zero first s = none
get_ranges (suc fuel) first [] = none
get_ranges (suc fuel) first (c ∷ s) =
    let more : Option (List (ℕ × ℕ) × Codes) = elim (get_range (c ∷ s)) [
      | none ↦ none
      | some (r, t) ↦ elim (get_ranges fuel false t) [
        | none ↦ none
        | some (rs, u) ↦ some (r ∷ rs, u)
      ]
    ] in
    if c == b']' then (if first then none else some ([], s)) else more

-- The class behind an opening bracket.
get_class : ℕ → Codes → Option (Piece × Codes)
unfolding get_ranges
get_class fuel [] = none
get_class fuel (c ∷ s) =
    if c == b'^'
    then elim (get_ranges fuel true s) [ none ↦ none | some (rs, t) ↦ some (class true rs, t) ]
    else elim (get_ranges fuel true (c ∷ s)) [
      | none ↦ none
      | some (rs, t) ↦ some (class false rs, t)
    ]

-- The first piece of a pattern and what is behind it.
get_piece : ℕ → ℕ → Codes → Option (Piece × Codes)
unfolding get_class
get_piece fuel c s =
    if c == b'*'
    then some (star, s)
    else if c == b'?'
    then some (any_char, s)
    else if c == b'['
    then get_class fuel s
    else if c == b'\\'
    then elim s [ [] ↦ none | d ∷ t ↦ some (literal d, t) ]
    else some (literal c, s)

-- A pattern has no more pieces than characters, so its length and one is fuel enough.
unfoldable pub pieces : ℕ → Codes → Option (List Piece)
unfolding get_piece
pieces zero s = none
pieces (suc fuel) [] = some []
pieces (suc fuel) (c ∷ s) = elim (get_piece fuel c s) [
  | none ↦ none
  | some (p, t) ↦ elim (pieces fuel t) [ none ↦ none | some ps ↦ some (p ∷ ps) ]
]

in_range : ℕ → ℕ × ℕ → Bool
in_range c (lo, hi) = leb lo c && leb c hi

-- A star and a question mark do not match the separator.
unfoldable pub match_pieces : List Piece → Codes → Bool
unfolding in_range
match_pieces [] s = is_empty s
match_pieces (star ∷ ps) [] = match_pieces ps []
match_pieces (star ∷ ps) (c ∷ s) =
    let here = match_pieces ps (c ∷ s) in
    let there = match_pieces (star ∷ ps) s in
    if here then true else if c == b'/' then false else there
match_pieces (literal a ∷ ps) [] = false
match_pieces (literal a ∷ ps) (c ∷ s) = a == c && match_pieces ps s
match_pieces (any_char ∷ ps) [] = false
match_pieces (any_char ∷ ps) (c ∷ s) = if c == b'/' then false else match_pieces ps s
match_pieces (class negated rs ∷ ps) [] = false
match_pieces (class negated rs ∷ ps) (c ∷ s) =
    (if any (in_range c) rs then not negated else negated) && match_pieces ps s

unfoldable pub filepath_match : Codes → Codes → Option Bool
unfolding pieces match_pieces
filepath_match pattern name = elim (pieces (suc (length pattern)) pattern) [
  | none ↦ none
  | some ps ↦ some (match_pieces ps name)
]

unfoldable pub match_glob : String → String → Bool
unfolding filepath_match
match_glob pattern value =
    if pattern == value then true else elim (filepath_match (codes pattern) (codes value)) [
      | none ↦ false
      | some matched ↦ matched
    ]
