-- ===== src/Webhook/Fields.antt =====
-- Whole fields of a schedule, and schedules: `fieldMatches` and `cronMatches` against the language
-- of Webhook/Parts.antt.
use chaosplane.Prelude.{
  ℕ, ◌^◌, ◌<◌, ◌≡◌, ◌≢◌, ap, ◌∙◌, ◌↔◌, refl, ◌⊎◌, inl, true, false, List, [], ◌∷◌, ◌++◌, map,
  String, arith, ℤ, pos, Any, All, nat_eq, any,
}
use chaosplane.Prelude.Codes.{Codes, codes, fields, atoi, cut, split}
use chaosplane.Prelude.Codes.Numerals.{
  numeral, Lacks, append-nonempty, numeral-nonempty, numeral-Lacks, All-append, split-append,
  split-Lacks,
}
use chaosplane.Webhook.Parts.{
  Part, each, value, range, each_step, from_step, range_step, show_part, IsSmall, Holds,
  range-Lacks, is_star-numeral, is_star-range, match_cron_part-show_part_iff,
}
use chaosplane.Webhook.Cron.{
  Civil, fields_match, cron_matches, is_star, match_range, match_value, match_cron_part,
  field_matches,
}

abbrev pub show_parts : List Part → Codes
show_parts [] = []
show_parts (p ∷ []) = show_part p
show_parts (p ∷ q ∷ ps) = show_part p ++ b',' ∷ show_parts (q ∷ ps)

-- The values that a whole field stands for, as the code reads it.
abbrev pub Selects : ℕ → ℕ → List Part → Type 0
Selects min v ps = (ps ≡ each ∷ []) ⊎ Any (Holds min v) ps

show_part-Lacks_comma : (p : Part) → Lacks b',' (show_part p)
show_part-Lacks_comma each = ground arith
show_part-Lacks_comma (value n) = numeral-Lacks b',' n (inl (omega arith))
show_part-Lacks_comma (range lo hi) = range-Lacks b',' lo hi (omega arith)
show_part-Lacks_comma (each_step k) = (refl, (refl, numeral-Lacks b',' k (inl (omega arith))))
show_part-Lacks_comma (from_step n k) =
    All-append _ (numeral n) (b'/' ∷ numeral k) (numeral-Lacks b',' n (inl (omega arith)))
      (refl, numeral-Lacks b',' k (inl (omega arith)))
show_part-Lacks_comma (range_step lo hi k) =
    All-append _ (numeral lo ++ b'-' ∷ numeral hi) (b'/' ∷ numeral k)
      (range-Lacks b',' lo hi (omega arith)) (refl, numeral-Lacks b',' k (inl (omega arith)))

split-show_parts :
    (p : Part) (ps : List Part) → split b',' (show_parts (p ∷ ps)) ≡ map show_part (p ∷ ps)
split-show_parts p [] = split-Lacks b',' (show_part p) (show_part-Lacks_comma p)
split-show_parts p (q ∷ ps) =
    split-append b',' (show_part p) (show_parts (q ∷ ps)) (show_part-Lacks_comma p)
    ∙ ap (λ s. show_part p ∷ s) (split-show_parts q ps)

is_star-append : (s t : Codes) (c : ℕ) → s ≢ [] → is_star (s ++ c ∷ t) ≡ false
is_star-append [] t c h = absurd (h refl)
is_star-append (d ∷ []) t c h = refl
is_star-append (d ∷ e ∷ s) t c h = refl

show_part-nonempty : (p : Part) → show_part p ≢ []
show_part-nonempty each = ground arith
show_part-nonempty (value n) = numeral-nonempty n
show_part-nonempty (range lo hi) = append-nonempty (numeral lo) (numeral hi) b'-'
show_part-nonempty (each_step k) = ground arith
show_part-nonempty (from_step n k) = append-nonempty (numeral n) (numeral k) b'/'
show_part-nonempty (range_step lo hi k) =
    append-nonempty (numeral lo ++ b'-' ∷ numeral hi) (numeral k) b'/'

is_star-show_parts_iff : (ps : List Part) → (is_star (show_parts ps) ≡ true) ↔ (ps ≡ each ∷ [])
is_star-show_parts_iff [] = ground arith
is_star-show_parts_iff (each ∷ []) = ground arith
is_star-show_parts_iff (value n ∷ []) = ground (arith, is_star-numeral n)
is_star-show_parts_iff (range lo hi ∷ []) = ground (arith, is_star-range lo hi)
is_star-show_parts_iff (each_step k ∷ []) = ground arith
is_star-show_parts_iff (from_step n k ∷ []) =
    ground (arith, is_star-append (numeral n) (numeral k) b'/' (numeral-nonempty n))
is_star-show_parts_iff (range_step lo hi k ∷ []) = ground (
  arith,
  is_star-append (numeral lo ++ b'-' ∷ numeral hi) (numeral k) b'/'
      (append-nonempty (numeral lo) (numeral hi) b'-'),
)
is_star-show_parts_iff (p ∷ q ∷ ps) =
    ground (arith, is_star-append (show_part p) (show_parts (q ∷ ps)) b',' (show_part-nonempty p))

module _ (v min : ℕ) (max : ℤ) (small : v < 2 ^ 63) where
  any-show_part_iff :
      (ps : List Part)
      → All IsSmall ps
      → (any (λ part. match_cron_part part (pos v) (pos min) max) (map show_part ps) ≡ true)
        ↔ Any (Holds min v) ps
  any-show_part_iff [] h = ground arith
  any-show_part_iff (p ∷ ps) h =
      ground (arith, match_cron_part-show_part_iff v min max small p h.0, any-show_part_iff ps h.1)

  -- A field of a schedule, printed from the parts of a list, matches a value exactly when it is a lone
  -- star or one of its parts stands for the value.
  pub field_matches-show_parts_iff :
      (ps : List Part)
      → All IsSmall ps
      → (field_matches (show_parts ps) (pos v) (pos min) max ≡ true) ↔ Selects min v ps
  unfolding field_matches split match_cron_part match_value match_range cut atoi
  field_matches-show_parts_iff [] h = ground arith
  field_matches-show_parts_iff (p ∷ ps) h =
      ground (
        arith,
        is_star-show_parts_iff (p ∷ ps),
        split-show_parts p ps,
        any-show_part_iff (p ∷ ps) h,
      )

-- The fields of a time, in their ranges.
abbrev pub IsCivil : Civil → Type 0
IsCivil t = (t.minute < 60) × (t.hour < 24) × (t.day < 32) × (t.month < 13) × (t.weekday < 7)

-- A schedule whose five words are printed fields matches a time exactly when each field selects the
-- time's minute, hour, day, month or weekday: a day of the month and a weekday must both fit, a lone
-- star beside other parts and a range with a step select nothing.
pub cron_matches_iff :
    (schedule : String) (mi h d mo w : List Part) (t : Civil)
    → fields (codes schedule)
      ≡ show_parts mi ∷ show_parts h ∷ show_parts d ∷ show_parts mo ∷ show_parts w ∷ []
    → All (All IsSmall) (mi ∷ h ∷ d ∷ mo ∷ w ∷ [])
    → IsCivil t
    → (cron_matches schedule t ≡ true) ↔ (
        Selects 0 t.minute mi
        × Selects 0 t.hour h
        × Selects 1 t.day d
        × Selects 1 t.month mo
        × Selects 0 t.weekday w)
unfolding cron_matches fields_match
cron_matches_iff schedule mi h d mo w t e (smi, (sh, (sd, (smo, (sw, _))))) c =
    let a = field_matches-show_parts_iff t.minute 0 (pos 59) (omega arith) mi smi in
    let b = field_matches-show_parts_iff t.hour 0 (pos 23) (omega arith) h sh in
    let f = field_matches-show_parts_iff t.day 1 (pos 31) (omega arith) d sd in
    let g = field_matches-show_parts_iff t.month 1 (pos 12) (omega arith) mo smo in
    let k = field_matches-show_parts_iff t.weekday 0 (pos 6) (omega arith) w sw in ground (arith, e)
