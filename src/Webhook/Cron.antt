-- ===== src/Webhook/Cron.antt =====
-- blastradius_webhook.go: `cronMatches`, `fieldMatches` and `matchCronPart`. The minimum and maximum of
-- a field are passed on as the code does; it uses the minimum alone, as the start of `*/step`.
use chaosplane.Prelude.{
  ℕ, suc, ◌%◌, String, Bool, true, false, none, some, List, [], ◌∷◌, ◌&&◌, ◌==◌, nat_eq,
  if◌then◌else◌, any, ℤ, pos, negsuc, ltb_ℤ, leb_ℤ,
}
use chaosplane.Prelude.Int.{sub64}
use chaosplane.Prelude.Codes.{Codes, codes, cut, split, fields, atoi}

-- The fields of a time that a schedule is held against.
pub record Civil : Type 0 where
  pub minute : ℕ
  pub hour : ℕ
  pub day : ℕ
  pub month : ℕ
  pub weekday : ℕ

-- `text == "*"`
abbrev pub is_star : Codes → Bool
is_star (c ∷ []) = c == b'*'
is_star _ = false

-- `value%step == 0` for a positive step, in Go's arithmetic, which truncates.
unfoldable pub divides : ℤ → ℤ → Bool
divides (pos (suc step)) (pos n) = n % suc step == 0
divides (pos (suc step)) (negsuc n) = suc n % suc step == 0
divides _ _ = false

-- `base/step`
unfoldable pub match_step : Codes → Codes → ℤ → ℤ → Bool
unfolding divides
match_step base step_text value min = elim (atoi step_text) [
  | none ↦ false
  | some step ↦
      if leb_ℤ step (pos 0) then false else elim (if is_star base then some min else atoi base) [
        | none ↦ false
        | some start ↦ if ltb_ℤ value start then false else divides step (sub64 value start)
      ]
]

-- `lo-hi`
unfoldable pub match_range : Codes → Codes → ℤ → Bool
match_range lo_text hi_text value = elim (atoi lo_text) [
  | none ↦ false
  | some lo ↦ elim (atoi hi_text) [ none ↦ false | some hi ↦ leb_ℤ lo value && leb_ℤ value hi ]
]

-- `value == n`
unfoldable pub match_value : Codes → ℤ → Bool
match_value text value = elim (atoi text) [ none ↦ false | some n ↦ leb_ℤ n value && leb_ℤ value n ]

unfoldable pub match_cron_part : Codes → ℤ → ℤ → ℤ → Bool
unfolding match_step match_range match_value
match_cron_part part value min max = elim (cut b'/' part) [
  | some (base, step) ↦ match_step base step value min
  | none ↦ elim (cut b'-' part) [
    | some (lo, hi) ↦ match_range lo hi value
    | none ↦ match_value part value
  ]
]

unfoldable pub field_matches : Codes → ℤ → ℤ → ℤ → Bool
unfolding match_cron_part
field_matches field value min max =
    if is_star field
    then true
    else any (λ part. match_cron_part part value min max) (split b',' field)

-- The five fields, if there are five.
unfoldable pub fields_match : List Codes → Civil → Bool
unfolding field_matches
fields_match (minute ∷ hour ∷ day ∷ month ∷ weekday ∷ []) t =
    field_matches minute (pos t.minute) (pos 0) (pos 59)
    && field_matches hour (pos t.hour) (pos 0) (pos 23)
    && field_matches day (pos t.day) (pos 1) (pos 31)
    && field_matches month (pos t.month) (pos 1) (pos 12)
    && field_matches weekday (pos t.weekday) (pos 0) (pos 6)
fields_match _ t = false

unfoldable pub cron_matches : String → Civil → Bool
unfolding fields_match
cron_matches schedule t = fields_match (fields (codes schedule)) t
