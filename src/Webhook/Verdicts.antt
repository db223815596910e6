-- ===== src/Webhook/Verdicts.antt =====
-- What `Handle` answers, against what the listed policies forbid.
use chaosplane.Prelude.{
  ◌≡◌, ◌≢◌, ◌↔◌, ◌⊎◌, ap, sym, inl, inr, refl, String, true, false, Option, none, some, List, [],
  ◌∷◌, ◌++◌, arith, Any, concat, quote, Option-cases, Bool-cases,
}
use mathlib.Core.List.{append-nil, append_assoc}
use chaosplane.Api.Meta.{ok, LabelSelector}
use chaosplane.Api.Experiment.{ChaosExperiment}
use chaosplane.Api.Policy.{BlastRadiusPolicy, enforce, audit}
use chaosplane.Webhook.Glob.{match_glob}
use chaosplane.Webhook.Policy.{
  Outside, matches_some, selector_matches, policy_matches_experiment, evaluate_policy_at,
}
use chaosplane.Webhook.Handle.{
  Clock, Response, allowed, denied, refusal, judge, passes, warns, denies, judge_all, handle,
}
use chaosplane.Webhook.Refusals.{
  Given, MatchesSome, Forbids, evaluate_policy_at_iff, any-true_iff, is_empty_iff,
}

-- The scope of a policy holds the experiment: its namespace, if the scope names any, and its labels,
-- if the scope has a selector, which must be a valid one.
abbrev pub Covers : Outside → BlastRadiusPolicy → ChaosExperiment → Type 0
Covers out policy exp =
    ((policy.spec.scope.namespaces ≡ [])
      ⊎ MatchesSome policy.spec.scope.namespaces exp.spec.target.namespace)
    × ((policy.spec.scope.label_selector ≡ none)
        ⊎ Given policy.spec.scope.label_selector (λ s. out.selects s exp.meta.labels ≡ some true))

module _ (out : Outside) (exp : ChaosExperiment) (now : Clock) where
  abbrev pub Condemns : BlastRadiusPolicy → Type 0
  Condemns p = Covers out p exp × (p.spec.enforcement ≡ enforce) × Forbids out p exp (now p)

  abbrev pub Admonishes : BlastRadiusPolicy → Type 0
  Admonishes p = Covers out p exp × (p.spec.enforcement ≡ audit) × Forbids out p exp (now p)

  -- `warnings` has one text for each policy that admonishes, in their order, with the reason.
  abbrev pub Warned : List BlastRadiusPolicy → List String → Type 0
  Warned [] warnings = warnings ≡ []
  Warned (p ∷ ps) warnings =
      (¬ Admonishes p × Warned ps warnings)
      ⊎ (Admonishes p
          × (reason : String) × (evaluate_policy_at out p exp (now p) ≡ some reason)
          × (rest : List String) × (warnings
              ≡ concat ("policy " ∷ quote p.meta.name ∷ " would deny: " ∷ reason ∷ []) ∷ rest)
          × Warned ps rest)

abbrev pub IsDenied : Response → Type 0
IsDenied (denied reason) = Unit
IsDenied _ = ⊥

selector_iff :
    (out : Outside) (s : Option LabelSelector) (labels : _)
    → (selector_matches out s labels ≡ true)
      ↔ ((s ≡ none) ⊎ Given s (λ s. out.selects s labels ≡ some true))
unfolding selector_matches
selector_iff out none labels = ground arith
selector_iff out (some s) labels =
    elim (out.selects s labels)
      as (λ o.
        ((elim o [ none ↦ false | some b ↦ b ]) ≡ true) ↔ ((some s ≡ none) ⊎ (o ≡ some true))) [
          | none ↦ ground arith
          | some b ↦ ground arith
        ]

pub policy_matches_experiment_iff :
    (out : Outside) (policy : BlastRadiusPolicy) (exp : ChaosExperiment)
    → (policy_matches_experiment out policy exp ≡ true) ↔ Covers out policy exp
unfolding policy_matches_experiment matches_some
policy_matches_experiment_iff out policy exp =
    let spaces = policy.spec.scope.namespaces in
    let found = any-true_iff (λ ns. match_glob ns exp.spec.target.namespace) spaces in
    let selected = selector_iff out policy.spec.scope.label_selector exp.meta.labels in
    ground (arith, is_empty_iff spaces)

abbrev warning : BlastRadiusPolicy → String → String
warning p reason = concat ("policy " ∷ quote p.meta.name ∷ " would deny: " ∷ reason ∷ [])

abbrev denial : BlastRadiusPolicy → String → String
denial p reason = concat ("denied by policy " ∷ quote p.meta.name ∷ ": " ∷ reason ∷ [])

module _ (out : Outside) (exp : ChaosExperiment) (now : Clock) where
  -- What the loop's body makes of one policy.
  Judged : BlastRadiusPolicy → Type 0
  Judged p =
      (¬ Condemns out exp now p × ¬ Admonishes out exp now p × (judge out exp now p ≡ passes))
      ⊎ (¬ Condemns out exp now p
          × Admonishes out exp now p
          × (r : String) × (evaluate_policy_at out p exp (now p) ≡ some r)
          × (judge out exp now p ≡ warns (warning p r)))
      ⊎ (Condemns out exp now p
          × ¬ Admonishes out exp now p
          × (r : String) × (evaluate_policy_at out p exp (now p) ≡ some r)
          × (judge out exp now p ≡ denies (denial p r)))

  judge-Judged : (p : BlastRadiusPolicy) → Judged p
  unfolding Judged judge refusal
  judge-Judged p =
      let covers = policy_matches_experiment_iff out p exp in
      let refuses = evaluate_policy_at_iff out p exp (now p) in
      elim (Option-cases (evaluate_policy_at out p exp (now p))) [
        | inl n ↦ inl (ground arith, ground arith, ground arith)
        | inr (r, s) ↦ elim (Bool-cases (policy_matches_experiment out p exp)) [
          | inr f ↦ inl (ground arith, ground arith, ground arith)
          | inl t ↦ elim (refuses.0 (ground arith)).0 [
            | inl e ↦
                inr (
                  inr
                    ((ground arith, ground arith, ground arith), ground arith, r, s, ground arith))
            | inr a ↦
                inr (
                  inl
                    (ground arith, (ground arith, ground arith, ground arith), r, s, ground arith))
          ]
        ]
      ]

  judge_all-IsDenied_iff :
      (ps : List BlastRadiusPolicy) (warnings : List String)
      → IsDenied (judge_all out exp now ps warnings) ↔ Any (Condemns out exp now) ps
  unfolding judge_all Judged
  judge_all-IsDenied_iff [] warnings = ground arith
  judge_all-IsDenied_iff (p ∷ ps) warnings = elim (judge-Judged p) [
    | inl h ↦ ground (arith, h.2, judge_all-IsDenied_iff ps warnings)
    | inr (inl h) ↦ ground (arith, h.4, judge_all-IsDenied_iff ps (warnings ++ warning p h.2 ∷ []))
    | inr (inr h) ↦ ground (arith, h.4)
  ]

  -- A request that decodes is denied exactly when one of the listed policies, in enforcing mode,
  -- covers the experiment and forbids it; policies in audit mode or in an unknown one never deny.
  pub handle-IsDenied_iff :
      (policies : List BlastRadiusPolicy)
      → IsDenied (handle out (ok exp) (some (ok policies)) now)
        ↔ Any (Condemns out exp now) policies
  unfolding handle
  handle-IsDenied_iff [] = ground arith
  handle-IsDenied_iff (p ∷ ps) = judge_all-IsDenied_iff (p ∷ ps) []

  judge_all-warns :
      (ps : List BlastRadiusPolicy) (warnings : List String)
      → ¬ Any (Condemns out exp now) ps
      → (more : List String) × Warned out exp now ps more
        × (judge_all out exp now ps warnings ≡ allowed "all policies passed" (warnings ++ more))
  unfolding judge_all Judged
  judge_all-warns [] warnings n = ([], refl, ap (allowed _) (sym (append-nil warnings)))
  judge_all-warns (p ∷ ps) warnings n = elim (judge-Judged p) [
    | inl h ↦
        let (more, w, e) = judge_all-warns ps warnings (λ a. n (inr a)) in
        (more, inl (h.1, w), ground (arith, h.2, e))
    | inr (inl h) ↦
        let (more, w, e) = judge_all-warns ps (warnings ++ warning p h.2 ∷ []) (λ a. n (inr a)) in
        (
          warning p h.2 ∷ more,
          inr (h.1, h.2, h.3, more, refl, w),
          ground (arith, h.4, e, append_assoc warnings (warning p h.2 ∷ []) more),
        )
    | inr (inr h) ↦ absurd (n (inl h.0))
  ]

  -- When policies are listed, and none of them in enforcing mode covers the experiment and forbids it,
  -- a request is allowed with one warning for each policy in audit mode that covers the experiment and
  -- forbids it, in the order of the list, and no other.
  pub handle-warns :
      (policies : List BlastRadiusPolicy)
      → ¬ Any (Condemns out exp now) policies
      → policies ≢ []
      → (warnings : List String) × Warned out exp now policies warnings
        × (handle out (ok exp) (some (ok policies)) now ≡ allowed "all policies passed" warnings)
  unfolding handle
  handle-warns [] n nonempty = absurd (nonempty refl)
  handle-warns (p ∷ ps) n nonempty = judge_all-warns (p ∷ ps) [] n

  judge_all-first :
      (before : List BlastRadiusPolicy) (p : BlastRadiusPolicy) (after : List BlastRadiusPolicy)
      (warnings : List String)
      → ¬ Any (Condemns out exp now) before
      → Condemns out exp now p
      → (reason : String) × (evaluate_policy_at out p exp (now p) ≡ some reason)
        × (judge_all out exp now (before ++ p ∷ after) warnings ≡ denied (denial p reason))
  unfolding judge_all Judged
  judge_all-first [] p after warnings n c = elim (judge-Judged p) [
    | inl h ↦ absurd (h.0 c)
    | inr (inl h) ↦ absurd (h.0 c)
    | inr (inr h) ↦ (h.2, h.3, ground (arith, h.4))
  ]
  judge_all-first (b ∷ before) p after warnings n c = elim (judge-Judged b) [
    | inl h ↦
        let (r, s, e) = judge_all-first before p after warnings (λ a. n (inr a)) c in
        (r, s, ground (arith, h.2, e))
    | inr (inl h) ↦
        let rest =
          judge_all-first before p after (warnings ++ warning b h.2 ∷ []) (λ a. n (inr a)) c in
        (rest.0, rest.1, ground (arith, h.4, rest.2))
    | inr (inr h) ↦ absurd (n (inl h.0))
  ]

  -- A denial carries the reason of the first policy that condemns the experiment: what stands behind
  -- that policy is not looked at.
  pub handle-first :
      (before : List BlastRadiusPolicy) (p : BlastRadiusPolicy) (after : List BlastRadiusPolicy)
      → ¬ Any (Condemns out exp now) before
      → Condemns out exp now p
      → (reason : String) × (evaluate_policy_at out p exp (now p) ≡ some reason)
        × (handle out (ok exp) (some (ok (before ++ p ∷ after))) now ≡ denied (denial p reason))
  unfolding handle
  handle-first [] p after n c = judge_all-first [] p after [] n c
  handle-first (b ∷ before) p after n c = judge_all-first (b ∷ before) p after [] n c
