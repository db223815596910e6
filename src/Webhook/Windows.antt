-- ===== src/Webhook/Windows.antt =====
-- blastradius_webhook.go: `checkTimeWindows` and `isInTimeWindow`. What `time` knows of zones, and its
-- arithmetic on floats, are arguments.
use chaosplane.Prelude.{
  ℕ, zero, suc, ◌+◌, ◌*◌, ◌%◌, ◌^◌, ◌-◌, String, Bool, true, false, Option, none, some, List, [],
  ◌∷◌, if◌then◌else◌, any, is_empty, ℤ, pos, negsuc, concat, quote,
}
use chaosplane.Prelude.Int.{◌-ℤ◌}
use chaosplane.Api.Meta.{Time, Duration}
use chaosplane.Api.Policy.{TimeWindow, TimeWindowsSpec}
use chaosplane.Webhook.Cron.{Civil, cron_matches}

-- time.LoadLocation followed by the civil time of an instant there (`none` is an error),
-- time.ParseDuration, and `int(d.Minutes())`, which goes through a float64.
pub record TimeLib : Type 0 where
  pub civil : String → Option (Time → Civil)
  pub parse_duration : String → Option Duration
  pub whole_minutes : Duration → ℤ

abbrev pub minute : ℕ
minute = 60 * 10 ^ 9

-- `t.Truncate(time.Minute)`: the last full minute. Go counts from the year 1, which lies a whole
-- number of minutes before the epoch.
unfoldable pub truncate_minute : Time → Time
truncate_minute (pos n) = pos (n - n % minute)
truncate_minute (negsuc n) = negsuc (n + (minute - 1 - n % minute))

-- The minute that is tried in round `i`.
unfoldable pub candidate : Time → ℕ → Time
unfolding truncate_minute ◌-ℤ◌
candidate now i = truncate_minute (now -ℤ pos (i * minute))

-- The loop: `rounds` candidates from round `i` on.
unfoldable pub some_minute : (Time → Bool) → Time → ℕ → ℕ → Bool
some_minute test now i zero = false
some_minute test now i (suc rounds) =
    let rest = some_minute test now (suc i) rounds in if test (candidate now i) then true else rest

-- `maxMinutes`, one at least.
unfoldable pub max_minutes : ℤ → ℕ
max_minutes (pos zero) = 1
max_minutes (pos (suc n)) = suc n
max_minutes (negsuc n) = 1

unfoldable pub is_in_time_window : TimeLib → TimeWindow → Time → Bool
unfolding some_minute candidate max_minutes
is_in_time_window lib tw now = elim (lib.civil tw.timezone) [
  | none ↦ false
  | some civil ↦ elim (lib.parse_duration tw.duration) [
    | none ↦ false
    | some dur ↦
        some_minute (λ t. cron_matches tw.schedule (civil t)) now 0
          (suc (max_minutes (lib.whole_minutes dur)))
  ]
]

-- The first blocked window that is open.
unfoldable pub blocking : TimeLib → List TimeWindow → Time → Option TimeWindow
blocking lib [] now = none
blocking lib (b ∷ rest) now = if is_in_time_window lib b now then some b else blocking lib rest now

-- A reason to deny; `none` is the empty text.
unfoldable pub check_time_windows : TimeLib → Option TimeWindowsSpec → Time → Option String
unfolding blocking
check_time_windows lib none now = none
check_time_windows lib (some tw) now = elim (blocking lib tw.blocked now) [
  | some b ↦ some (concat ("blocked by time window " ∷ quote b.name ∷ []))
  | none ↦
      if is_empty tw.allowed
      then none
      else if any (λ a. is_in_time_window lib a now) tw.allowed
      then none
      else some "outside allowed time window"
]
