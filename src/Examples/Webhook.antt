-- ===== src/Examples/Webhook.antt =====
-- Policies on an experiment in the namespace `shop`: tests of the webhook, and its theorems at inputs.
use chaosplane.Prelude.{
  ℕ, ◌+◌, ◌*◌, ◌/◌, ◌%◌, ◌≤◌, ◌<◌, ◌≡◌, ◌≢◌, ◌↔◌, refl, inl, inr, String, true, false, none, some,
  List, [], ◌∷◌, arith, pos, negsuc, Any, ◌==◌, string_eq, if◌then◌else◌, concat, quote,
}
use chaosplane.Prelude.Codes.{fields, split, cut, atoi}
use chaosplane.Prelude.Codes.Numerals.{numeral}
use chaosplane.Api.Meta.{Time, ok}
use chaosplane.Api.Policy.{
  BlastRadiusPolicy, TimeWindow, TimeWindowsSpec, EnforcementMode, enforce, audit, unknown,
}
use chaosplane.Webhook.Glob.{match_glob}
use chaosplane.Webhook.Cron.{Civil, cron_matches}
use chaosplane.Webhook.Windows.{TimeLib, minute, max_minutes, is_in_time_window, check_time_windows}
use chaosplane.Webhook.Policy.{Outside, evaluate_policy_at}
use chaosplane.Webhook.Handle.{handle, allowed, denied}
use chaosplane.Webhook.Refusals.{Forbids, IsEvaluated, evaluate_policy_at_iff}
use chaosplane.Webhook.Verdicts.{
  Condemns, Warned, IsDenied, handle-IsDenied_iff, handle-warns, handle-first,
}
use chaosplane.Webhook.Openings.{is_in_time_window_iff, check_time_windows-IsUnreadable}
use chaosplane.Webhook.Parts.{
  Part, each, value, range, range_step, show_part, Holds, match_cron_part-show_part_iff,
}
use chaosplane.Webhook.Fields.{Selects, cron_matches_iff}
use chaosplane.Examples.Samples.{kill_cart, kill_meta, seconds}

glob_star : match_glob "prod-*" "prod-eu" ≡ true
unfolding match_glob
glob_star = refl

glob_class : match_glob "[a-c]?[^x]" "bzy" ≡ true
unfolding match_glob
glob_class = refl

glob_slash : match_glob "*" "a/b" ≡ false
unfolding match_glob
glob_slash = refl

glob_bad : match_glob "[a" "a" ≡ false
unfolding match_glob
glob_bad = refl

-- The civil time in UTC of the first days after the epoch, a Thursday.
abbrev utc : Time → Civil
utc (pos n) =
    let m = n / minute in
    let d = m / 1440 in
    record { minute = m % 60; hour = m / 60 % 24; day = d + 1; month = 1; weekday = (d + 4) % 7 }
utc (negsuc n) = record { minute = 0; hour = 0; day = 31; month = 12; weekday = 3 }

-- UTC is the only zone, and an hour the only duration.
abbrev hours : TimeLib
hours = record {
  civil = λ zone. if zone == "UTC" then some utc else none;
  parse_duration = λ d. if d == "1h" then some (seconds 3600) else none;
  whole_minutes = λ d. elim d [ pos n ↦ pos (n / minute) | negsuc n ↦ pos 0 ];
}

abbrev outside : Outside
outside = record { selects = λ s labels. some true; time = hours }

abbrev nine : TimeWindow
nine = record { name = "nine"; schedule = "0 9 * * 1-5"; duration = "1h"; timezone = "UTC" }

abbrev nowhere : TimeWindow
nowhere = record nine { timezone = "Mars" }

abbrev at : ℕ → Time
at m = pos (m * minute)

open_at_start : is_in_time_window hours nine (at 540) ≡ true
unfolding is_in_time_window cron_matches fields split cut atoi
open_at_start = refl

-- The window of an hour is open in the minute an hour after its start.
open_after : is_in_time_window hours nine (at 600) ≡ true
unfolding is_in_time_window cron_matches fields split cut atoi
open_after = refl

closed_before : is_in_time_window hours nine (at 539) ≡ false
unfolding is_in_time_window cron_matches fields split cut atoi
closed_before = refl

closed_after : is_in_time_window hours nine (at 601) ≡ false
unfolding is_in_time_window cron_matches fields split cut atoi
closed_after = refl

-- Protects namespaces by a pattern.
abbrev guard : String → String → EnforcementMode → BlastRadiusPolicy
guard name pattern mode = record {
  meta = record kill_meta { name = name };
  spec = record {
    scope = record { namespaces = []; label_selector = none };
    target_limits = record { max_targets = none; max_percentage = none };
    protected_resources = record { namespaces = pattern ∷ []; labels = []; names = [] };
    action_limits = none;
    time_windows = none;
    enforcement = mode;
  };
}

abbrev noon : BlastRadiusPolicy → Time
noon policy = at 720

abbrev shop_guard : EnforcementMode → BlastRadiusPolicy
shop_guard mode = guard "shops" "sh?p" mode

glob_shop : match_glob "sh?p" "shop" ≡ true
unfolding match_glob
glob_shop = refl

handle-IsDenied_iff_example :
    IsDenied (handle outside (ok kill_cart) (some (ok (shop_guard enforce ∷ []))) noon)
    ↔ Any (Condemns outside kill_cart noon) (shop_guard enforce ∷ [])
handle-IsDenied_iff_example = handle-IsDenied_iff outside kill_cart noon (shop_guard enforce ∷ [])

shop_guard-Condemns : Condemns outside kill_cart noon (shop_guard enforce)
shop_guard-Condemns = ((inl refl, inl refl), refl, inr (inl (inl glob_shop)))

shop_guard_audits : ¬ Any (Condemns outside kill_cart noon) (shop_guard audit ∷ [])
shop_guard_audits = ground arith

handle-warns_example :
    (warnings : List String) × Warned outside kill_cart noon (shop_guard audit ∷ []) warnings
    × (handle outside (ok kill_cart) (some (ok (shop_guard audit ∷ []))) noon
        ≡ allowed "all policies passed" warnings)
handle-warns_example =
    handle-warns outside kill_cart noon (shop_guard audit ∷ []) shop_guard_audits
      (λ e. ground arith)

handle-first_example :
    (reason : String) × (evaluate_policy_at outside (shop_guard enforce) kill_cart (at 720)
      ≡ some reason)
    × (handle outside (ok kill_cart) (some (ok (shop_guard audit ∷ shop_guard enforce ∷ []))) noon
        ≡ denied (concat ("denied by policy " ∷ quote "shops" ∷ ": " ∷ reason ∷ [])))
handle-first_example =
    handle-first outside kill_cart noon (shop_guard audit ∷ []) (shop_guard enforce) []
      shop_guard_audits shop_guard-Condemns

evaluate_policy_at_iff_example :
    (evaluate_policy_at outside (shop_guard (unknown "Warn")) kill_cart (at 720) ≢ none) ↔ (
      IsEvaluated (unknown "Warn")
      × Forbids outside (shop_guard (unknown "Warn")) kill_cart (at 720))
evaluate_policy_at_iff_example =
    evaluate_policy_at_iff outside (shop_guard (unknown "Warn")) kill_cart (at 720)

is_in_time_window_iff_example : (is_in_time_window hours nine (pos (600 * minute)) ≡ true) ↔ (
    (start : ℕ) × (start * minute ≤ 600 * minute)
    × (600 * minute < (start + 60 + 1) * minute)
    × (cron_matches "0 9 * * 1-5" (utc (pos (start * minute))) ≡ true))
unfolding max_minutes
is_in_time_window_iff_example =
    is_in_time_window_iff hours nine (600 * minute) utc (seconds 3600) refl refl (omega arith)

abbrev unread : TimeWindowsSpec
unread = record { allowed = []; blocked = nowhere ∷ [] }

check_time_windows-IsUnreadable_example :
    (check_time_windows hours (some unread) (at 540) ≢ none) ↔ (unread.allowed ≢ [])
check_time_windows-IsUnreadable_example =
    check_time_windows-IsUnreadable hours unread (at 540) (inl refl, tt) tt

abbrev lunch : Part
lunch = range_step 11 14 2

match_cron_part-show_part_iff_example :
    (chaosplane.Webhook.Cron.match_cron_part (show_part lunch) (pos 13) (pos 0) (pos 23) ≡ true)
    ↔ Holds 0 13 lunch
match_cron_part-show_part_iff_example =
    match_cron_part-show_part_iff 13 0 (pos 23) (omega arith) lunch
      (omega arith, omega arith, omega arith)

cron_matches_iff_example : (cron_matches "0 9 * * 1-5,6" (utc (at 540)) ≡ true) ↔ (
    Selects 0 0 (value 0 ∷ [])
    × Selects 0 9 (value 9 ∷ [])
    × Selects 1 1 (each ∷ [])
    × Selects 1 1 (each ∷ [])
    × Selects 0 4 (range 1 5 ∷ value 6 ∷ []))
unfolding fields numeral
cron_matches_iff_example =
    cron_matches_iff "0 9 * * 1-5,6" (value 0 ∷ []) (value 9 ∷ []) (each ∷ []) (each ∷ [])
      (range 1 5 ∷ value 6 ∷ []) (utc (at 540)) refl
      (
        (omega arith, tt),
        (
          (omega arith, tt),
          ((tt, tt), ((tt, tt), (((omega arith, omega arith), (omega arith, tt)), tt))),
        ),
      )
      (omega arith, omega arith, omega arith, omega arith, omega arith)
