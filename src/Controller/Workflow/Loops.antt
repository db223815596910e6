-- ===== src/Controller/Workflow/Loops.antt =====
-- What the loops of reconcileRunning leave of a workflow's phase, and that they write no status.
use chaosplane.Prelude.{
  ◌≡◌, ◌⊎◌, inr, refl, arith, sym, subst, String, Bool, true, false, Option, none, some, List, [],
  ◌∷◌, ◌++◌, All, Dict, lookup, if◌then◌else◌, nat_eq,
}
use chaosplane.Api.Meta.{Duration}
use chaosplane.Api.Workflow.{
  WorkflowTemplate, TemplateType, TemplateStatus, ExperimentRef, running, paused,
}
use chaosplane.Controller.Pass.{Requeue, stop}
use chaosplane.Controller.Workflow.Graph.{find_template, is_in}
use chaosplane.Controller.Workflow.Status.{World, Act, emits, set_workflow_condition}
use chaosplane.Controller.Workflow.Templates.{
  Board, put, act, execute_template, execute_kind, execute_experiment, execute_delay,
  execute_condition, execute_parallel, suspend_at,
}
use chaosplane.Controller.Workflow.Progress.{
  check_template_progress, check_kind, check_experiment, experiment_progress, delay_progress,
  check_delay, check_parallel, check_suspend,
}
use chaosplane.Controller.Workflow.Running.{execute_all, check_all, shortest}

-- What the loops leave of a board: the phase, or `Paused`, and events alone.
abbrev pub IsEvent : Act → Type 0
IsEvent (emits kind reason) = Unit
IsEvent _ = ⊥

pub record Sound (b : Board) : Type 0 where
  pub phase : (b.wf.status.phase ≡ running) ⊎ (b.wf.status.phase ≡ paused)
  pub events : All IsEvent b.acts

All-snoc : (acts : List Act) (a : Act) → IsEvent a → All IsEvent acts → All IsEvent (acts ++ a ∷ [])
All-snoc [] a h k = (h, tt)
All-snoc (x ∷ acts) a h k = (k.0, All-snoc acts a h k.1)

emit-Sound : (kind reason : String) (b : Board) → Sound b → Sound (act (emits kind reason) b)
emit-Sound kind reason b s = record {
  phase = s.phase;
  events = All-snoc b.acts (emits kind reason) tt s.events;
}

put-Sound : (ts : TemplateStatus) (b : Board) → Sound b → Sound (put ts b)
put-Sound ts b s = record { phase = s.phase; events = s.events }

execute_kind-Sound :
    (world : World) (kind : TemplateType) (tmpl : WorkflowTemplate) (ts : TemplateStatus)
    (b : Board)
    → Sound b
    → Sound (execute_kind world kind tmpl ts b).0
unfolding execute_kind execute_experiment execute_delay execute_condition execute_parallel
    suspend_at set_workflow_condition
execute_kind-Sound world TemplateType.experiment tmpl ts b s =
    elim tmpl.experiment_ref as (λ o. Sound (execute_experiment world o ts b).0) [
      | none ↦ put-Sound _ b s
      | some ref ↦ emit-Sound "Normal" "TemplateStarted" _ (put-Sound _ b s)
    ]
execute_kind-Sound world TemplateType.delay tmpl ts b s =
    elim tmpl.delay as (λ o. Sound (execute_delay world o ts b).0) [
      | none ↦ put-Sound _ b s
      | some d ↦ emit-Sound "Normal" "TemplateStarted" _ (put-Sound _ b s)
    ]
execute_kind-Sound world TemplateType.condition tmpl ts b s =
    elim tmpl.condition as (λ o. Sound (execute_condition world o ts b).0) [
      | none ↦ put-Sound _ b s
      | some c ↦ emit-Sound "Normal" "ConditionEvaluated" _ (put-Sound _ b s)
    ]
execute_kind-Sound world TemplateType.parallel tmpl ts b s =
    elim tmpl.parallel as (λ o. Sound (execute_parallel world o ts b).0) [
      | none ↦ put-Sound _ b s
      | some p ↦ emit-Sound "Normal" "TemplateStarted" _ (put-Sound _ b s)
    ]
execute_kind-Sound world TemplateType.suspend tmpl ts b s = record {
  phase = inr refl;
  events = (emit-Sound "Normal" "TemplateStarted" b s).events;
}
execute_kind-Sound world (TemplateType.unknown kind) tmpl ts b s = put-Sound _ b s

execute_template-Sound :
    (world : World) (tmpl : WorkflowTemplate) (b : Board)
    → Sound b
    → Sound (execute_template world tmpl b).0
unfolding execute_template
execute_template-Sound world tmpl b s = execute_kind-Sound world tmpl.kind tmpl _ b s

-- A check writes one status at most.
record Kept (b next : Board) : Type 0 where
  same_wf : next.wf ≡ b.wf
  same_acts : next.acts ≡ b.acts

kept : (b : Board) → Kept b b
kept b = record { same_wf = refl; same_acts = refl }

check_experiment-Kept :
    (world : World) (o : Option ExperimentRef) (ts : TemplateStatus) (b : Board)
    → Kept b (check_experiment world o ts b).0
unfolding check_experiment experiment_progress
check_experiment-Kept world none ts b = kept b
check_experiment-Kept world (some ref) ts b = record {
  same_wf = ground arith;
  same_acts = ground arith;
}

check_kind-Kept :
    (world : World) (kind : TemplateType) (tmpl : WorkflowTemplate) (ts : TemplateStatus)
    (b : Board)
    → Kept b (check_kind world kind tmpl ts b).0
unfolding check_kind delay_progress check_delay check_parallel check_suspend
check_kind-Kept world TemplateType.experiment tmpl ts b =
    check_experiment-Kept world tmpl.experiment_ref ts b
check_kind-Kept world TemplateType.delay tmpl ts b = record {
  same_wf = ground arith;
  same_acts = ground arith;
}
check_kind-Kept world TemplateType.condition tmpl ts b = kept b
check_kind-Kept world TemplateType.parallel tmpl ts b = record {
  same_wf = ground arith;
  same_acts = ground arith;
}
check_kind-Kept world TemplateType.suspend tmpl ts b = record {
  same_wf = ground arith;
  same_acts = ground arith;
}
check_kind-Kept world (TemplateType.unknown kind) tmpl ts b = kept b

Kept-Sound : (b next : Board) → Kept b next → Sound b → Sound next
Kept-Sound b next k s = record {
  phase =
      subst (λ w. (w.status.phase ≡ running) ⊎ (w.status.phase ≡ paused)) (sym k.same_wf) s.phase;
  events = subst (All IsEvent) (sym k.same_acts) s.events;
}

check_template_progress-Sound :
    (world : World) (tmpl : WorkflowTemplate) (b : Board)
    → Sound b
    → Sound (check_template_progress world tmpl b).0
unfolding check_template_progress
check_template_progress-Sound world tmpl b s =
    elim (lookup tmpl.name b.statuses)
      as (λ o.
        Sound
          (elim o as (λ _. Board × Requeue) [
            | none ↦ (b, stop)
            | some ts ↦ check_kind world tmpl.kind tmpl ts b
          ]).0) [
            | none ↦ s
            | some ts ↦ Kept-Sound b _ (check_kind-Kept world tmpl.kind tmpl ts b) s
          ]

pub execute_all-Sound :
    (world : World) (busy : Dict Bool) (names : List String) (b : Board) (d : Duration)
    → Sound b
    → Sound (execute_all world busy names b d).0
unfolding execute_all
execute_all-Sound world busy [] b d s = s
execute_all-Sound world busy (name ∷ names) b d s =
    elim (is_in name busy)
      as (λ c.
        Sound
          (if c
            then execute_all world busy names b d
            else elim (find_template name b.wf.spec.templates) as (λ _. Board × Duration) [
              | none ↦ execute_all world busy names b d
              | some tmpl ↦
                  execute_all world busy names (execute_template world tmpl b).0
                    (shortest d (execute_template world tmpl b).1.requeue_after)
            ]).0) [
              | true ↦ execute_all-Sound world busy names b d s
              | false ↦
                  elim (find_template name b.wf.spec.templates)
                    as (λ o.
                      Sound
                        (elim o as (λ _. Board × Duration) [
                          | none ↦ execute_all world busy names b d
                          | some tmpl ↦
                              execute_all world busy names (execute_template world tmpl b).0
                                (shortest d (execute_template world tmpl b).1.requeue_after)
                        ]).0) [
                          | none ↦ execute_all-Sound world busy names b d s
                          | some tmpl ↦
                              execute_all-Sound world busy names _ _
                                (execute_template-Sound world tmpl b s)
                        ]
            ]

pub check_all-Sound :
    (world : World) (names : List String) (b : Board) (d : Duration)
    → Sound b
    → Sound (check_all world names b d).0
unfolding check_all
check_all-Sound world [] b d s = s
check_all-Sound world (name ∷ names) b d s =
    elim (find_template name b.wf.spec.templates)
      as (λ o.
        Sound
          (elim o as (λ _. Board × Duration) [
            | none ↦ check_all world names b d
            | some tmpl ↦
                check_all world names (check_template_progress world tmpl b).0
                  (shortest d (check_template_progress world tmpl b).1.requeue_after)
          ]).0) [
            | none ↦ check_all-Sound world names b d s
            | some tmpl ↦
                check_all-Sound world names _ _ (check_template_progress-Sound world tmpl b s)
          ]
