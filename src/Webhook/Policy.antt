-- ===== src/Webhook/Policy.antt =====
-- blastradius_webhook.go: `policyMatchesExperiment`, the checks of one policy, and `evaluatePolicyAt`. A
-- check answers the text of its reason, `none` standing for the empty text.
use chaosplane.Prelude.{
  ℕ, ◌%◌, ◌-◌, ◌^◌, String, Bool, true, false, not, Option, none, some, List, [], ◌∷◌, ◌&&◌, ◌||◌,
  ◌==◌, string_eq, if◌then◌else◌, is_empty, any, length, ltb, ltb_ℤ, ℤ, pos, negsuc, Dict, lookup,
  concat, quote,
}
use chaosplane.Prelude.Text.{itoa, itoa_ℤ, duration_string}
use chaosplane.Prelude.Codes.{codes, equal_fold}
use chaosplane.Api.Meta.{Time, Duration, LabelSelector}
use chaosplane.Api.Experiment.{ChaosExperiment, TargetSpec}
use chaosplane.Api.Policy.{BlastRadiusPolicy, ProtectedResource, enforce, audit, EnforcementMode}
use chaosplane.Webhook.Glob.{match_glob}
use chaosplane.Webhook.Windows.{TimeLib, check_time_windows}

-- What the webhook takes from outside: metav1.LabelSelectorAsSelector with the `Matches` of its
-- selector (`none` is an error), and the time library.
pub record Outside : Type 0 where
  pub selects : LabelSelector → Dict String → Option Bool
  pub time : TimeLib

-- `for _, ns := range patterns { if matchGlob(ns, namespace) … }`
unfoldable pub matches_some : List String → String → Bool
matches_some patterns value = any (λ ns. match_glob ns value) patterns

unfoldable pub selector_matches : Outside → Option LabelSelector → Dict String → Bool
selector_matches out none labels = true
selector_matches out (some s) labels = elim (out.selects s labels) [ none ↦ false | some b ↦ b ]

unfoldable pub policy_matches_experiment : Outside → BlastRadiusPolicy → ChaosExperiment → Bool
unfolding matches_some selector_matches
policy_matches_experiment out policy exp =
    (is_empty policy.spec.scope.namespaces
      || matches_some policy.spec.scope.namespaces exp.spec.target.namespace)
    && selector_matches out policy.spec.scope.label_selector exp.meta.labels

-- The two tests that skip a protected resource.
unfoldable pub concerns : ProtectedResource → TargetSpec → Bool
concerns pr target =
    (pr.kind == "" || equal_fold (codes pr.kind) (codes target.kind))
    && (pr.namespace == "" || pr.namespace == target.namespace)

unfoldable pub protected_name : List ProtectedResource → TargetSpec → Option ProtectedResource
unfolding concerns
protected_name [] target = none
protected_name (pr ∷ rest) target =
    if concerns pr target && any (λ n. pr.name == n) target.names
    then some pr
    else protected_name rest target

-- The first protected label that the target's selector asks for. Go's order over a map is not
-- determined: the order of the list stands for it.
unfoldable pub protected_label : Dict String → Dict String → Option (String × String)
protected_label [] wanted = none
protected_label ((k, v) ∷ rest) wanted = elim (lookup k wanted) [
  | none ↦ protected_label rest wanted
  | some w ↦ if w == v then some (k, v) else protected_label rest wanted
]

unfoldable pub target_labels : TargetSpec → Dict String
target_labels target = elim target.label_selector [ none ↦ [] | some s ↦ s.match_labels ]

unfoldable pub check_protected_resources : BlastRadiusPolicy → ChaosExperiment → Option String
unfolding protected_name protected_label target_labels
check_protected_resources policy exp =
    elim (protected_name policy.spec.protected_resources.names exp.spec.target) [
      | some pr ↦ some (concat ("targets protected resource " ∷ pr.kind ∷ "/" ∷ pr.name ∷ []))
      | none ↦
          elim (protected_label policy.spec.protected_resources.labels
            (target_labels exp.spec.target)) [
              | some (k, v) ↦
                  some (concat ("targets resources with protected label " ∷ k ∷ "=" ∷ v ∷ []))
              | none ↦ none
            ]
    ]

unfoldable pub check_protected_namespaces : BlastRadiusPolicy → ChaosExperiment → Option String
unfolding matches_some
check_protected_namespaces policy exp =
    if matches_some policy.spec.protected_resources.namespaces exp.spec.target.namespace
    then some (concat ("namespace " ∷ quote exp.spec.target.namespace ∷ " is protected" ∷ []))
    else none

unfoldable pub get_experiment_duration : ChaosExperiment → Duration
get_experiment_duration exp = elim exp.spec.action.duration [
  | some d ↦ d
  | none ↦ exp.spec.duration
]

-- `%v` of a list of texts
joined : List String → String
joined [] = ""
joined (s ∷ []) = s
joined (s ∷ t ∷ ss) = concat (s ∷ " " ∷ joined (t ∷ ss) ∷ [])

unfoldable pub list_string : List String → String
unfolding joined
list_string ss = concat ("[" ∷ joined ss ∷ "]" ∷ [])

unfoldable pub check_max_duration : Option Duration → Duration → Option String
check_max_duration none d = none
check_max_duration (some longest) d =
    if ltb_ℤ longest d
    then some (
        concat (
          "duration " ∷ duration_string d ∷ " exceeds max allowed " ∷ duration_string longest ∷ []))
    else none

unfoldable pub check_action_limits : BlastRadiusPolicy → ChaosExperiment → Option String
unfolding check_max_duration get_experiment_duration
check_action_limits policy exp = elim policy.spec.action_limits [
  | none ↦ none
  | some limits ↦
      if is_empty limits.allowed_actions
        || any (λ a. a == exp.spec.action.kind) limits.allowed_actions
      then check_max_duration limits.max_duration (get_experiment_duration exp)
      else some (
          concat (
            "action "
            ∷ quote exp.spec.action.kind
            ∷ " is not in allowed actions "
            ∷ list_string limits.allowed_actions
            ∷ []))
]

-- `int32(n)` of a length
unfoldable pub to_int32 : ℕ → ℤ
to_int32 n = let m = n % 2 ^ 32 in if ltb m (2 ^ 31) then pos m else negsuc (2 ^ 32 - 1 - m)

unfoldable pub check_max_targets : Option ℤ → List String → Option String
unfolding to_int32
check_max_targets none names = none
check_max_targets (some most) names =
    if not (is_empty names) && ltb_ℤ most (to_int32 (length names))
    then some
        (concat ("target count " ∷ itoa (length names) ∷ " exceeds maxTargets " ∷ itoa_ℤ most ∷ []))
    else none

unfoldable pub check_parallelism : Option ℤ → Option ℤ → Option String
check_parallelism (some most) (some parallelism) =
    if ltb_ℤ most parallelism
    then some (
        concat ("parallelism " ∷ itoa_ℤ parallelism ∷ " exceeds maxPercentage " ∷ itoa_ℤ most ∷ []))
    else none
check_parallelism _ _ = none

-- `if reason := check; reason != "" { … }`, and the next check.
infixr 20 ◌or_else◌
abbrev pub ◌or_else◌ : Option String → Option String → Option String
some reason or_else next = some reason
none or_else next = next

unfoldable pub check_target_limits : BlastRadiusPolicy → ChaosExperiment → Option String
unfolding check_max_targets check_parallelism
check_target_limits policy exp =
    check_max_targets policy.spec.target_limits.max_targets exp.spec.target.names
    or_else check_parallelism policy.spec.target_limits.max_percentage
        exp.spec.execution.parallelism

unfoldable pub is_evaluated : EnforcementMode → Bool
is_evaluated enforce = true
is_evaluated audit = true
is_evaluated _ = false

-- `none` is `evalResult{allowed: true}`, `some reason` the refusal.
unfoldable pub evaluate_policy_at :
    Outside → BlastRadiusPolicy → ChaosExperiment → Time → Option String
unfolding check_protected_resources check_protected_namespaces check_action_limits
    check_target_limits is_evaluated
evaluate_policy_at out policy exp now =
    if is_evaluated policy.spec.enforcement
    then check_protected_resources policy exp
      or_else check_protected_namespaces policy exp
      or_else check_action_limits policy exp
      or_else check_time_windows out.time policy.spec.time_windows now
      or_else check_target_limits policy exp
    else none
