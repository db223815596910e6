-- ===== src/Controller/Workflow/Conditions.antt =====
-- workflow_controller.go: `evaluateCondition`, and the retry count that reconcileRunning reads out of a
-- message with fmt.Sscanf.
use chaosplane.Prelude.{
  ℕ, String, Bool, true, false, not, Option, none, some, [], ◌∷◌, ◌==◌, nat_eq, string_eq,
  if◌then◌else◌, ◌&&◌, ℤ, pos,
}
use chaosplane.Prelude.Codes.{Codes, codes, is_space, is_digit, positive, negative, decimal}

abbrev pub same : Codes → Codes → Bool
same [] [] = true
same (a ∷ s) (b ∷ t) = a == b && same s t
same _ _ = false

-- strings.TrimLeft of white space
unfoldable pub trim_left : Codes → Codes
unfolding is_space
trim_left [] = []
trim_left (c ∷ s) = let rest = trim_left s in if is_space c then rest else c ∷ s

-- strings.TrimSpace
unfoldable pub trim_space : Codes → Codes
unfolding trim_left
trim_space s = mathlib.Core.List.reverse (trim_left (mathlib.Core.List.reverse (trim_left s)))

-- strings.SplitN(s, sep, 2) for a separator of two characters: its parts, if there are two.
unfoldable pub cut_pair : ℕ → ℕ → Codes → Option (Codes × Codes)
cut_pair a b [] = none
cut_pair a b (c ∷ []) = none
cut_pair a b (c ∷ d ∷ s) =
    let rest = cut_pair a b (d ∷ s) in
    if c == a && d == b
    then some ([], s)
    else elim rest [ none ↦ none | some (u, v) ↦ some (c ∷ u, v) ]

-- The expression, trimmed.
unfoldable pub evaluate_trimmed : Codes → Bool
unfolding cut_pair trim_space
evaluate_trimmed s =
    if same s (codes "true")
    then true
    else if same s (codes "false")
    then false
    else elim (cut_pair b'=' b'=' s) [
      | some (l, r) ↦ same (trim_space l) (trim_space r)
      | none ↦ elim (cut_pair b'!' b'=' s) [
        | some (l, r) ↦ not (same (trim_space l) (trim_space r))
        | none ↦ false
      ]
    ]

unfoldable pub evaluate_condition : String → Bool
unfolding evaluate_trimmed trim_space
evaluate_condition expression = evaluate_trimmed (trim_space (codes expression))

-- What is behind a prefix.
abbrev pub strip : Codes → Codes → Option Codes
strip [] s = some s
strip (a ∷ p) [] = none
strip (a ∷ p) (c ∷ s) = let rest = strip p s in if a == c then rest else none

-- The digits at the front.
unfoldable pub leading : Codes → Codes
unfolding is_digit
leading [] = []
leading (c ∷ s) = let rest = leading s in if is_digit c then c ∷ rest else []

-- `%d`; `none` is an error.
unfoldable pub scan_int : Codes → Option ℤ
unfolding leading decimal positive negative
scan_int [] = none
scan_int (c ∷ s) =
    if c == b'-'
    then elim (decimal (leading s)) [ none ↦ none | some n ↦ negative n ]
    else if c == b'+'
    then elim (decimal (leading s)) [ none ↦ none | some n ↦ positive n ]
    else elim (decimal (leading (c ∷ s))) [ none ↦ none | some n ↦ positive n ]

-- `fmt.Sscanf(message, "retry %d", &retryCount)` on a count of 0: the space of the format wants white
-- space in the text.
unfoldable pub scan_retry : Codes → ℤ
unfolding scan_int trim_left is_space
scan_retry message = elim (strip (codes "retry") message) [
  | none ↦ pos 0
  | some [] ↦ pos 0
  | some (c ∷ s) ↦
      if is_space c then elim (scan_int (trim_left s)) [ none ↦ pos 0 | some n ↦ n ] else pos 0
]
