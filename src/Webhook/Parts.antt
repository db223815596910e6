-- ===== src/Webhook/Parts.antt =====
-- The parts of a cron field, and which of them `matchCronPart` reads.
use chaosplane.Prelude.{
  ℕ, zero, suc, ◌-◌, ◌%◌, ◌^◌, ◌≤◌, ◌<◌, ◌≡◌, ◌↔◌, refl, ◌⊎◌, inl, true, false, some, none, [], ◌∷◌,
  ◌++◌, arith, ℤ, pos, nat_eq, ltb_ℤ, leb_ℤ, if◌then◌else◌,
}
use chaosplane.Prelude.Int.{sub64, ◌-ℤ◌, wrap64}
use chaosplane.Prelude.Codes.{Codes, atoi, cut, decimal, decimal_from, is_digit}
use chaosplane.Prelude.Codes.Numerals.{
  numeral, Lacks, numeral-Lacks, atoi-stops_behind, atoi-numeral, All-append, cut-append, cut-Lacks,
}
use chaosplane.Webhook.Cron.{
  is_star, divides, match_step, match_range, match_value, match_cron_part,
}

-- What may stand between the commas of a field in crontab(5), of names apart.
pub data Part : Type 0 where
  each : Part
  value : ℕ → Part
  range : ℕ → ℕ → Part
  each_step : ℕ → Part
  from_step : ℕ → ℕ → Part
  range_step : ℕ → ℕ → ℕ → Part

abbrev pub show_part : Part → Codes
show_part each = b'*' ∷ []
show_part (value n) = numeral n
show_part (range lo hi) = numeral lo ++ b'-' ∷ numeral hi
show_part (each_step k) = b'*' ∷ b'/' ∷ numeral k
show_part (from_step n k) = numeral n ++ b'/' ∷ numeral k
show_part (range_step lo hi k) = (numeral lo ++ b'-' ∷ numeral hi) ++ b'/' ∷ numeral k

-- The numbers of a part fit an int.
abbrev pub IsSmall : Part → Type 0
IsSmall each = Unit
IsSmall (value n) = n < 2 ^ 63
IsSmall (range lo hi) = (lo < 2 ^ 63) × (hi < 2 ^ 63)
IsSmall (each_step k) = k < 2 ^ 63
IsSmall (from_step n k) = (n < 2 ^ 63) × (k < 2 ^ 63)
IsSmall (range_step lo hi k) = (lo < 2 ^ 63) × (hi < 2 ^ 63) × (k < 2 ^ 63)

-- The values that a part of a list stands for, in a field that starts at `min`, as the code reads it.
abbrev pub Holds : ℕ → ℕ → Part → Type 0
Holds min v each = ⊥
Holds min v (value n) = v ≡ n
Holds min v (range lo hi) = (lo ≤ v) × (v ≤ hi)
Holds min v (each_step k) = (0 < k) × (min ≤ v) × ((v - min) % k ≡ 0)
Holds min v (from_step n k) = (0 < k) × (n ≤ v) × ((v - n) % k ≡ 0)
Holds min v (range_step lo hi k) = ⊥

step_iff :
    (base k v : ℕ)
    → v < 2 ^ 63
    → ((if leb_ℤ (pos k) (pos 0)
          then false
          else if ltb_ℤ (pos v) (pos base)
          then false
          else divides (pos k) (sub64 (pos v) (pos base)))
        ≡ true)
      ↔ ((0 < k) × (base ≤ v) × ((v - base) % k ≡ 0))
unfolding divides sub64 ◌-ℤ◌ wrap64
step_iff base zero v l = ground arith
step_iff base (suc k) v l = ground arith

is_star-Lacks : (s : Codes) → Lacks b'*' s → is_star s ≡ false
is_star-Lacks [] h = refl
is_star-Lacks (c ∷ []) h = h.0
is_star-Lacks (c ∷ d ∷ s) h = refl

-- A character below the digits that is no dash is not in a printed range.
pub range-Lacks :
    (c lo hi : ℕ) → (c < 45) ⊎ ((45 < c) × (c < 48)) → Lacks c (numeral lo ++ b'-' ∷ numeral hi)
range-Lacks c lo hi h =
    All-append _ (numeral lo) (b'-' ∷ numeral hi) (numeral-Lacks c lo (inl (omega arith)))
      (ground arith, numeral-Lacks c hi (inl (omega arith)))

pub is_star-numeral : (n : ℕ) → is_star (numeral n) ≡ false
is_star-numeral n = is_star-Lacks (numeral n) (numeral-Lacks b'*' n (inl (omega arith)))

pub is_star-range : (lo hi : ℕ) → is_star (numeral lo ++ b'-' ∷ numeral hi) ≡ false
is_star-range lo hi =
    is_star-Lacks (numeral lo ++ b'-' ∷ numeral hi) (range-Lacks b'*' lo hi (omega arith))

cut_slash-range : (lo hi : ℕ) → cut b'/' (numeral lo ++ b'-' ∷ numeral hi) ≡ none
cut_slash-range lo hi =
    cut-Lacks b'/' (numeral lo ++ b'-' ∷ numeral hi) (range-Lacks b'/' lo hi (omega arith))

cut_slash-star : cut b'/' (b'*' ∷ []) ≡ none
unfolding cut
cut_slash-star = refl

cut_dash-star : cut b'-' (b'*' ∷ []) ≡ none
unfolding cut
cut_dash-star = refl

cut_slash-each_step : (k : ℕ) → cut b'/' (b'*' ∷ b'/' ∷ numeral k) ≡ some (b'*' ∷ [], numeral k)
cut_slash-each_step k = cut-append b'/' (b'*' ∷ []) (numeral k) (refl, tt)

atoi-star : atoi (b'*' ∷ []) ≡ none
unfolding atoi decimal decimal_from is_digit
atoi-star = refl

module _ (v min : ℕ) (max : ℤ) (small : v < 2 ^ 63) where
  match_step-star_iff :
      (k : ℕ)
      → k < 2 ^ 63
      → (match_step (b'*' ∷ []) (numeral k) (pos v) (pos min) ≡ true) ↔ Holds min v (each_step k)
  unfolding match_step
  match_step-star_iff k h = ground (arith, atoi-numeral k h, step_iff min k v small)

  match_step-numeral_iff :
      (n k : ℕ)
      → n < 2 ^ 63
      → k < 2 ^ 63
      → (match_step (numeral n) (numeral k) (pos v) (pos min) ≡ true) ↔ Holds min v (from_step n k)
  unfolding match_step
  match_step-numeral_iff n k h i =
      ground (arith, atoi-numeral k i, atoi-numeral n h, is_star-numeral n, step_iff n k v small)

  match_step-none :
      (base step : Codes)
      → is_star base ≡ false
      → atoi base ≡ none
      → match_step base step (pos v) (pos min) ≡ false
  unfolding match_step
  match_step-none base step h i = ground (arith, h, i)

  -- The webhook reads a part of a list, printed, as the values that it stands for: with two gaps
  -- against cron, a lone star beside other parts and a range with a step match nothing.
  pub match_cron_part-show_part_iff :
      (p : Part)
      → IsSmall p
      → (match_cron_part (show_part p) (pos v) (pos min) max ≡ true) ↔ Holds min v p
  unfolding match_cron_part match_value match_range
  match_cron_part-show_part_iff each h = ground (arith, cut_slash-star, cut_dash-star, atoi-star)
  match_cron_part-show_part_iff (value n) h = ground (
    arith,
    cut-Lacks b'/' (numeral n) (numeral-Lacks b'/' n (inl (omega arith))),
    cut-Lacks b'-' (numeral n) (numeral-Lacks b'-' n (inl (omega arith))),
    atoi-numeral n h,
  )
  match_cron_part-show_part_iff (range lo hi) h = ground (
    arith,
    cut_slash-range lo hi,
    cut-append b'-' (numeral lo) (numeral hi) (numeral-Lacks b'-' lo (inl (omega arith))),
    atoi-numeral lo h.0,
    atoi-numeral hi h.1,
  )
  match_cron_part-show_part_iff (each_step k) h =
      ground (arith, cut_slash-each_step k, match_step-star_iff k h)
  match_cron_part-show_part_iff (from_step n k) h = ground (
    arith,
    cut-append b'/' (numeral n) (numeral k) (numeral-Lacks b'/' n (inl (omega arith))),
    match_step-numeral_iff n k h.0 h.1,
  )
  match_cron_part-show_part_iff (range_step lo hi k) h = ground (
    arith,
    cut-append b'/' (numeral lo ++ b'-' ∷ numeral hi) (numeral k)
        (range-Lacks b'/' lo hi (omega arith)),
    match_step-none (numeral lo ++ b'-' ∷ numeral hi) (numeral k) (is_star-range lo hi)
        (atoi-stops_behind lo b'-' (numeral hi) (inl (omega arith))),
  )
