-- ===== src/Webhook/Openings.antt =====
-- When a time window is open.
use chaosplane.Prelude.{
  ℕ, zero, suc, ◌+◌, ◌-◌, ◌*◌, ◌/◌, ◌≤◌, ◌<◌, ◌≡◌, ◌↔◌, Bool, true, false, some, none, List, [],
  ◌∷◌, arith, pos, Any, All, ◌⊎◌, ap, sym, ◌∙◌, subst, Bool-cases, Option-cases, ◌≢◌, inl, inr,
}
use chaosplane.Prelude.Int.{◌-ℤ◌}
use chaosplane.Api.Meta.{Time, Duration}
use chaosplane.Api.Policy.{TimeWindow, TimeWindowsSpec}
use chaosplane.Webhook.Cron.{Civil, cron_matches}
use chaosplane.Webhook.Refusals.{check_time_windows_iff}
use chaosplane.Webhook.Windows.{
  TimeLib, minute, truncate_minute, candidate, some_minute, max_minutes, is_in_time_window,
  check_time_windows,
}

le-cases : {i k : ℕ} → i ≤ k → (i ≡ k) ⊎ (i < k)
le-cases h = omega arith

some_minute-true_iff :
    (test : Time → Bool) (now : Time) (i rounds : ℕ)
    → (some_minute test now i rounds ≡ true)
      ↔ ((k : ℕ) × (i ≤ k) × (k < i + rounds) × (test (candidate now k) ≡ true))
unfolding some_minute
some_minute-true_iff test now i zero = (λ h. ground arith, λ (k, l, u, t). absurd (omega arith))
some_minute-true_iff test now i (suc rounds) =
    let (to, from) = some_minute-true_iff test now (suc i) rounds in
    elim (Bool-cases (test (candidate now i))) [
      | inl t ↦ (λ h. (i, omega arith, omega arith, t), λ h. ground arith)
      | inr f ↦ (
        λ h. let (k, l, u, t) = to (ground arith) in (k, omega arith, omega arith, t),
        λ (k, l, u, t). elim (le-cases l) [
          | inl e ↦ absurd (ground (arith, f, t, e))
          | inr g ↦ ground (arith, from (k, g, omega arith, t))
        ],
      )
    ]

-- Round `i` tries the start of the minute that lies `i` minutes back.
candidate-eq : (n i : ℕ) → i * minute ≤ n → candidate (pos n) i ≡ pos ((n / minute - i) * minute)
unfolding candidate truncate_minute ◌-ℤ◌
candidate-eq n i h = ground arith

-- For an instant that lies a window's length after the epoch, and a zone and a duration that `time`
-- reads: a window is open exactly when its schedule names a minute that began at most that many
-- minutes before the current one. A window of `m` minutes is so open for `m` and one more.
pub is_in_time_window_iff :
    (lib : TimeLib) (tw : TimeWindow) (n : ℕ) (civil : Time → Civil) (d : Duration)
    → lib.civil tw.timezone ≡ some civil
    → lib.parse_duration tw.duration ≡ some d
    → max_minutes (lib.whole_minutes d) * minute ≤ n
    → (is_in_time_window lib tw (pos n) ≡ true) ↔ (
        (start : ℕ) × (start * minute ≤ n)
        × (n < (start + max_minutes (lib.whole_minutes d) + 1) * minute)
        × (cron_matches tw.schedule (civil (pos (start * minute))) ≡ true))
unfolding is_in_time_window
is_in_time_window_iff lib tw n civil d hc hd h =
    let m = max_minutes (lib.whole_minutes d) in
    let test : Time → Bool = λ t. cron_matches tw.schedule (civil t) in
    let (to, from) = some_minute-true_iff test (pos n) 0 (suc m) in
    (
      λ o.
          let (k, l, u, t) = to (ground (arith, hc, hd, o)) in
          (
            n / minute - k,
            omega arith,
            omega arith,
            subst (λ c. test c ≡ true) (candidate-eq n k (omega arith)) t,
          ),
      λ (s, l, u, t).
          let k = n / minute - s in
          ground (
            arith,
            hc,
            hd,
            from (
              k,
              omega arith,
              omega arith,
              subst (λ c. test c ≡ true)
                  (sym (candidate-eq n k (omega arith) ∙ ap (λ x. pos (x * minute)) (omega arith)))
                  t,
            ),
          ),
    )

-- A blocked window whose zone or duration cannot be read.
abbrev pub IsUnreadable : TimeLib → TimeWindow → Type 0
IsUnreadable lib tw = (lib.civil tw.timezone ≡ none) ⊎ (lib.parse_duration tw.duration ≡ none)

is_in_time_window-IsUnreadable :
    (lib : TimeLib) (tw : TimeWindow) (now : Time)
    → IsUnreadable lib tw
    → is_in_time_window lib tw now ≡ false
unfolding is_in_time_window
is_in_time_window-IsUnreadable lib tw now (inl h) = ground (arith, h)
is_in_time_window-IsUnreadable lib tw now (inr h) = elim (Option-cases (lib.civil tw.timezone)) [
  | inl n ↦ ground (arith, n)
  | inr (c, e) ↦ ground (arith, h, e)
]

none-open :
    (lib : TimeLib) (ws : List TimeWindow) (now : Time)
    → All (IsUnreadable lib) ws
    → ¬ Any (λ w. is_in_time_window lib w now ≡ true) ws
none-open lib [] now h a = ground arith
none-open lib (w ∷ ws) now h a =
    ground (arith, is_in_time_window-IsUnreadable lib w now h.0, none-open lib ws now h.1)

-- A window whose zone or duration cannot be read is never open. If all windows of a policy are
-- such, it refuses at any time when it lists an allowed window, and at no time when it lists none,
-- whatever it blocks.
pub check_time_windows-IsUnreadable :
    (lib : TimeLib) (tw : TimeWindowsSpec) (now : Time)
    → All (IsUnreadable lib) tw.blocked
    → All (IsUnreadable lib) tw.allowed
    → (check_time_windows lib (some tw) now ≢ none) ↔ (tw.allowed ≢ [])
check_time_windows-IsUnreadable lib tw now b a =
    let (to, from) = check_time_windows_iff lib (some tw) now in
    (
      λ r. elim (to r) [
        | inl o ↦ absurd (none-open lib tw.blocked now b o)
        | inr closed ↦ closed.0
      ],
      λ n. from (inr (n, none-open lib tw.allowed now a)),
    )
