-- ===== src/Controller/Experiment/Trace.antt =====
-- What a sequence of effects leaves behind: the phase on the API server, whether chaos may still be in
-- place, and how often an action was executed.
use chaosplane.Prelude.{
  ℕ, suc, ◌+◌, ◌≡◌, refl, Bool, true, false, Option, none, some, List, [], ◌∷◌, ◌++◌, arith, String,
  ◌==◌, string_eq, if◌then◌else◌,
}
use chaosplane.Api.Meta.{Time}
use chaosplane.Api.Experiment.{ExperimentPhase, running, completing, failed}
use chaosplane.Controller.Pass.{Effect, executes, rolls_back, updates, patches, writes_status}
use chaosplane.Controller.Experiment.Status.{executed_annotation, is_annotated}

-- The phase after the status writes that succeed.
unfoldable pub phase_after : ExperimentPhase → List Effect → ExperimentPhase
phase_after p [] = p
phase_after p (writes_status e none ∷ es) = phase_after e.status.phase es
phase_after p (_ ∷ es) = phase_after p es

-- `true` if no action of the type `kind` was executed since the last rollback of that type that
-- succeeded; a rollback of another type counts for nothing. A failed `Execute` counts as executed,
-- since it may have been applied in part.
unfoldable pub clean_after : String → Bool → List Effect → Bool
clean_after kind b [] = b
clean_after kind b (executes a e ∷ es) = clean_after kind (if a == kind then false else b) es
clean_after kind b (rolls_back a none ∷ es) = clean_after kind (if a == kind then true else b) es
clean_after kind b (_ ∷ es) = clean_after kind b es

unfoldable pub executions : List Effect → ℕ
executions [] = 0
executions (executes a e ∷ es) = suc (executions es)
executions (_ ∷ es) = executions es

-- The phases in which no chaos may be in place: all but the two in which the action runs or is being
-- rolled back, and Failed, which a rollback that failed may have led to.
abbrev pub is_quiet : ExperimentPhase → Bool
is_quiet running = false
is_quiet completing = false
is_quiet failed = false
is_quiet _ = true

-- The start time after the status writes that succeed.
unfoldable pub start_after : Option Time → List Effect → Option Time
start_after t [] = t
start_after t (writes_status e none ∷ es) = start_after e.status.start_time es
start_after t (_ ∷ es) = start_after t es

-- Whether the action is marked as executed after the patches that succeed.
unfoldable pub executed_after : Bool → List Effect → Bool
executed_after b [] = b
executed_after b (patches e none ∷ es) = executed_after (is_annotated executed_annotation e) es
executed_after b (_ ∷ es) = executed_after b es

-- The writes that the API server refuses.
unfoldable pub failed_writes : List Effect → ℕ
failed_writes [] = 0
failed_writes (updates e (some _) ∷ es) = suc (failed_writes es)
failed_writes (patches e (some _) ∷ es) = suc (failed_writes es)
failed_writes (writes_status e (some _) ∷ es) = suc (failed_writes es)
failed_writes (_ ∷ es) = failed_writes es

pub clean_after-append :
    (kind : String) (b : Bool) (xs ys : List Effect)
    → clean_after kind b (xs ++ ys) ≡ clean_after kind (clean_after kind b xs) ys
unfolding clean_after
clean_after-append kind b [] ys = refl
clean_after-append kind b (executes a e ∷ xs) ys =
    clean_after-append kind (if a == kind then false else b) xs ys
clean_after-append kind b (rolls_back a none ∷ xs) ys =
    clean_after-append kind (if a == kind then true else b) xs ys
clean_after-append kind b (_ ∷ xs) ys = clean_after-append kind b xs ys

pub executions-append :
    (xs ys : List Effect) → executions (xs ++ ys) ≡ executions xs + executions ys
unfolding executions
executions-append [] ys = omega arith
executions-append (executes a e ∷ xs) ys = omega (arith, executions-append xs ys)
executions-append (_ ∷ xs) ys = executions-append xs ys

pub failed_writes-append :
    (xs ys : List Effect) → failed_writes (xs ++ ys) ≡ failed_writes xs + failed_writes ys
unfolding failed_writes
failed_writes-append [] ys = omega arith
failed_writes-append (updates e (some _) ∷ xs) ys = omega (arith, failed_writes-append xs ys)
failed_writes-append (patches e (some _) ∷ xs) ys = omega (arith, failed_writes-append xs ys)
failed_writes-append (writes_status e (some _) ∷ xs) ys = omega (arith, failed_writes-append xs ys)
failed_writes-append (_ ∷ xs) ys = failed_writes-append xs ys
