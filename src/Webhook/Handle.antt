-- ===== src/Webhook/Handle.antt =====
-- blastradius_webhook.go: `Handle`.
use chaosplane.Prelude.{
  ℕ, String, Option, none, some, List, [], ◌∷◌, ◌++◌, if◌then◌else◌, concat, quote,
}
use chaosplane.Api.Meta.{Time, Result, ok, err}
use chaosplane.Api.Experiment.{ChaosExperiment}
use chaosplane.Api.Policy.{BlastRadiusPolicy, audit, EnforcementMode}
use chaosplane.Webhook.Policy.{Outside, policy_matches_experiment, evaluate_policy_at}

-- admission.Response. The audit warnings are kept as the list that the code marshals.
pub data Response : Type 0 where
  errored : ℕ → String → Response
  allowed : String → List String → Response
  denied : String → Response

-- What `v.now()` answers when the loop has come to a policy; the code reads it once for each.
abbrev pub Clock : Type 0
Clock = BlastRadiusPolicy → Time

-- What one policy says to an experiment: nothing, a warning, or a denial.
pub data Verdict : Type 0 where
  passes : Verdict
  warns : String → Verdict
  denies : String → Verdict

unfoldable pub refusal : BlastRadiusPolicy → EnforcementMode → String → Verdict
refusal policy audit reason =
    warns (concat ("policy " ∷ quote policy.meta.name ∷ " would deny: " ∷ reason ∷ []))
refusal policy _ reason =
    denies (concat ("denied by policy " ∷ quote policy.meta.name ∷ ": " ∷ reason ∷ []))

-- The body of the loop.
unfoldable pub judge : Outside → ChaosExperiment → Clock → BlastRadiusPolicy → Verdict
unfolding refusal
judge out exp now policy =
    if policy_matches_experiment out policy exp
    then elim (evaluate_policy_at out policy exp (now policy)) [
      | none ↦ passes
      | some reason ↦ refusal policy policy.spec.enforcement reason
    ]
    else passes

-- The loop, with the warnings so far behind it.
unfoldable pub judge_all :
    Outside → ChaosExperiment → Clock → List BlastRadiusPolicy → List String → Response
judge_all out exp now [] warnings = allowed "all policies passed" warnings
judge_all out exp now (policy ∷ rest) warnings = elim (judge out exp now policy) [
  | passes ↦ judge_all out exp now rest warnings
  | warns w ↦ judge_all out exp now rest (warnings ++ w ∷ [])
  | denies reason ↦ denied reason
]

-- `decoded` is what json.Unmarshal makes of the request, `listed` what the client answers, `none` if
-- there is no client.
unfoldable pub handle :
    Outside → Result ChaosExperiment → Option (Result (List BlastRadiusPolicy)) → Clock → Response
unfolding judge_all
handle out (err e) listed now = errored 400 (concat ("failed to decode ChaosExperiment: " ∷ e ∷ []))
handle out (ok exp) none now = allowed "no policy client configured" []
handle out (ok exp) (some (err e)) now = errored 500 (concat ("failed to list policies: " ∷ e ∷ []))
handle out (ok exp) (some (ok [])) now = allowed "no blast radius policies configured" []
handle out (ok exp) (some (ok (p ∷ ps))) now = judge_all out exp now (p ∷ ps) []
