-- ===== src/Webhook/Refusals.antt =====
-- What a blast radius policy forbids, said of the policy and the experiment alone, and that
-- `evaluatePolicyAt` refuses exactly that.
use chaosplane.Prelude.{
  ◌≡◌, ◌≢◌, ◌↔◌, ◌⊎◌, String, Bool, true, Option, none, some, List, [], ◌∷◌, arith, ◌==◌, string_eq,
  eq_iff, any, Any, length, if◌then◌else◌, lookup, ◌<ℤ◌, Dict, is_empty,
}
use chaosplane.Prelude.Codes.{codes, equal_fold}
use chaosplane.Api.Meta.{Time}
use chaosplane.Api.Experiment.{ChaosExperiment, TargetSpec}
use chaosplane.Api.Policy.{
  BlastRadiusPolicy, ProtectedResource, ActionLimitsSpec, TimeWindowsSpec, enforce, audit,
  EnforcementMode,
}
use chaosplane.Webhook.Glob.{match_glob}
use chaosplane.Webhook.Windows.{TimeLib, is_in_time_window, blocking, check_time_windows}
use chaosplane.Webhook.Policy.{
  Outside, matches_some, concerns, protected_name, protected_label, target_labels,
  check_protected_resources, check_protected_namespaces, check_max_duration, check_action_limits,
  get_experiment_duration, to_int32, check_max_targets, check_parallelism, check_target_limits,
  is_evaluated, evaluate_policy_at, ◌or_else◌,
}

-- A field that is set, to something of which `P` holds.
abbrev pub Given : {A : Type 0} → Option A → (A → Type 0) → Type 0
Given none P = ⊥
Given (some a) P = P a

abbrev pub MatchesSome : List String → String → Type 0
MatchesSome patterns value = Any (λ p. match_glob p value ≡ true) patterns

abbrev pub Concerns : ProtectedResource → TargetSpec → Type 0
Concerns pr target =
    ((pr.kind ≡ "") ⊎ (equal_fold (codes pr.kind) (codes target.kind) ≡ true))
    × ((pr.namespace ≡ "") ⊎ (pr.namespace ≡ target.namespace))

-- A target is named that is protected, or selected by a protected label.
abbrev pub HitsResource : BlastRadiusPolicy → ChaosExperiment → Type 0
HitsResource policy exp =
    Any (λ pr. Concerns pr exp.spec.target × Any (λ n. pr.name ≡ n) exp.spec.target.names)
      policy.spec.protected_resources.names
    ⊎ Any (λ l. lookup l.0 (target_labels exp.spec.target) ≡ some l.1)
        policy.spec.protected_resources.labels

abbrev pub ForbidsAction : ActionLimitsSpec → ChaosExperiment → Type 0
ForbidsAction limits exp =
    ((limits.allowed_actions ≢ []) × ¬ Any (λ a. a ≡ exp.spec.action.kind) limits.allowed_actions)
    ⊎ Given limits.max_duration (λ longest. longest <ℤ get_experiment_duration exp)

abbrev pub ForbidsTime : TimeLib → Time → TimeWindowsSpec → Type 0
ForbidsTime lib now tw =
    Any (λ b. is_in_time_window lib b now ≡ true) tw.blocked
    ⊎ ((tw.allowed ≢ []) × ¬ Any (λ a. is_in_time_window lib a now ≡ true) tw.allowed)

abbrev pub ExceedsTargets : BlastRadiusPolicy → ChaosExperiment → Type 0
ExceedsTargets policy exp =
    Given policy.spec.target_limits.max_targets
      (λ most. (exp.spec.target.names ≢ []) × (most <ℤ to_int32 (length exp.spec.target.names)))
    ⊎ Given policy.spec.target_limits.max_percentage
        (λ most. Given exp.spec.execution.parallelism (λ parallelism. most <ℤ parallelism))

-- All that a policy forbids.
abbrev pub Forbids : Outside → BlastRadiusPolicy → ChaosExperiment → Time → Type 0
Forbids out policy exp now =
    HitsResource policy exp
    ⊎ MatchesSome policy.spec.protected_resources.namespaces exp.spec.target.namespace
    ⊎ Given policy.spec.action_limits (λ limits. ForbidsAction limits exp)
    ⊎ Given policy.spec.time_windows (ForbidsTime out.time now)
    ⊎ ExceedsTargets policy exp

abbrev pub IsEvaluated : EnforcementMode → Type 0
IsEvaluated mode = (mode ≡ enforce) ⊎ (mode ≡ audit)

pub any-true_iff :
    {A : Type 0} (p : A → Bool) (xs : List A) → (any p xs ≡ true) ↔ Any (λ x. p x ≡ true) xs
any-true_iff p [] = ground arith
any-true_iff p (x ∷ xs) = ground (arith, any-true_iff p xs)

any-equal_iff :
    (y : String) (xs : List String) → (any (λ x. y == x) xs ≡ true) ↔ Any (λ x. y ≡ x) xs
any-equal_iff y [] = ground arith
any-equal_iff y (x ∷ xs) = ground (arith, any-equal_iff y xs, eq_iff y x)

concerns_iff : (pr : ProtectedResource) (t : TargetSpec) → (concerns pr t ≡ true) ↔ Concerns pr t
unfolding concerns
concerns_iff pr t =
    ground (arith, eq_iff pr.kind "", eq_iff pr.namespace "", eq_iff pr.namespace t.namespace)

names_iff :
    (prs : List ProtectedResource) (t : TargetSpec)
    → (protected_name prs t ≢ none) ↔ Any (λ pr. Concerns pr t × Any (λ n. pr.name ≡ n) t.names) prs
unfolding protected_name
names_iff [] t = ground arith
names_iff (pr ∷ rest) t =
    ground (arith, concerns_iff pr t, any-equal_iff pr.name t.names, names_iff rest t)

label_iff :
    (o : Option String) (v : String) {A : Type 0} (rest : Option A) (a : A) {R : Type 0}
    → (rest ≢ none) ↔ R
    → ((elim o [ none ↦ rest | some w ↦ if w == v then some a else rest ]) ≢ none)
      ↔ ((o ≡ some v) ⊎ R)
label_iff none v rest a h = ground arith
label_iff (some w) v rest a h = ground (arith, eq_iff w v)

labels_iff :
    (labels wanted : Dict String)
    → (protected_label labels wanted ≢ none) ↔ Any (λ l. lookup l.0 wanted ≡ some l.1) labels
unfolding protected_label
labels_iff [] wanted = ground arith
labels_iff ((k, v) ∷ rest) wanted =
    label_iff (lookup k wanted) v (protected_label rest wanted) (k, v) (labels_iff rest wanted)

pub check_protected_resources_iff :
    (policy : BlastRadiusPolicy) (exp : ChaosExperiment)
    → (check_protected_resources policy exp ≢ none) ↔ HitsResource policy exp
unfolding check_protected_resources
check_protected_resources_iff policy exp = ground (
  arith,
  names_iff policy.spec.protected_resources.names exp.spec.target,
  labels_iff policy.spec.protected_resources.labels (target_labels exp.spec.target),
)

pub check_protected_namespaces_iff :
    (policy : BlastRadiusPolicy) (exp : ChaosExperiment)
    → (check_protected_namespaces policy exp ≢ none)
      ↔ MatchesSome policy.spec.protected_resources.namespaces exp.spec.target.namespace
unfolding check_protected_namespaces matches_some
check_protected_namespaces_iff policy exp = ground (
  arith,
  any-true_iff (λ ns. match_glob ns exp.spec.target.namespace)
      policy.spec.protected_resources.namespaces,
)

any-name_iff : (y : String) (xs : List String) → (any (λ a. a == y) xs ≡ true) ↔ Any (λ a. a ≡ y) xs
any-name_iff y [] = ground arith
any-name_iff y (x ∷ xs) = ground (arith, any-name_iff y xs, eq_iff x y)

pub is_empty_iff : {A : Type 0} (xs : List A) → (is_empty xs ≡ true) ↔ (xs ≡ [])
is_empty_iff [] = ground arith
is_empty_iff (x ∷ xs) = ground arith

given_iff :
    {A : Type 0} (o : Option A) (f : A → Option String) {P : A → Type 0}
    → ((a : A) → (f a ≢ none) ↔ P a)
    → ((elim o [ none ↦ none | some a ↦ f a ]) ≢ none) ↔ Given o P
given_iff none f h = ground arith
given_iff (some a) f h = h a

pub check_action_limits_iff :
    (policy : BlastRadiusPolicy) (exp : ChaosExperiment)
    → (check_action_limits policy exp ≢ none)
      ↔ Given policy.spec.action_limits (λ limits. ForbidsAction limits exp)
unfolding check_action_limits check_max_duration
check_action_limits_iff policy exp = given_iff policy.spec.action_limits _ (λ limits. ground (
  arith,
  is_empty_iff limits.allowed_actions,
  any-name_iff exp.spec.action.kind limits.allowed_actions,
))

blocking_iff :
    (lib : TimeLib) (ws : List _) (now : Time)
    → (blocking lib ws now ≢ none) ↔ Any (λ b. is_in_time_window lib b now ≡ true) ws
unfolding blocking
blocking_iff lib [] now = ground arith
blocking_iff lib (w ∷ ws) now = ground (arith, blocking_iff lib ws now)

pub check_time_windows_iff :
    (lib : TimeLib) (tw : Option TimeWindowsSpec) (now : Time)
    → (check_time_windows lib tw now ≢ none) ↔ Given tw (ForbidsTime lib now)
unfolding check_time_windows
check_time_windows_iff lib none now = ground arith
check_time_windows_iff lib (some tw) now = ground (
  arith,
  blocking_iff lib tw.blocked now,
  is_empty_iff tw.allowed,
  any-true_iff (λ a. is_in_time_window lib a now) tw.allowed,
)

pub check_target_limits_iff :
    (policy : BlastRadiusPolicy) (exp : ChaosExperiment)
    → (check_target_limits policy exp ≢ none) ↔ ExceedsTargets policy exp
unfolding check_target_limits check_max_targets check_parallelism
check_target_limits_iff policy exp = ground (arith, is_empty_iff exp.spec.target.names)

or_else_iff : (a b : Option String) → (a or_else b ≢ none) ↔ ((a ≢ none) ⊎ (b ≢ none))
or_else_iff none b = ground arith
or_else_iff (some r) b = ground arith

-- A policy in a mode that the code knows refuses an experiment exactly when it forbids it: a
-- protected target, name, label or namespace, an action or a duration beyond its limits, a time
-- inside a blocked or outside every allowed window, more targets or parallelism than its maximum. A
-- policy in any other mode refuses nothing.
pub evaluate_policy_at_iff :
    (out : Outside) (policy : BlastRadiusPolicy) (exp : ChaosExperiment) (now : Time)
    → (evaluate_policy_at out policy exp now ≢ none)
      ↔ (IsEvaluated policy.spec.enforcement × Forbids out policy exp now)
unfolding evaluate_policy_at is_evaluated
evaluate_policy_at_iff out policy exp now =
    let resources = check_protected_resources_iff policy exp in
    let namespaces = check_protected_namespaces_iff policy exp in
    let actions = check_action_limits_iff policy exp in
    let times = check_time_windows_iff out.time policy.spec.time_windows now in
    let targets = check_target_limits_iff policy exp in ground arith
