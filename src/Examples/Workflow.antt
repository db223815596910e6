-- ===== src/Examples/Workflow.antt =====
-- A workflow of three templates: tests of the workflow controller, and its theorems at inputs.
use chaosplane.Prelude.{
  ◌≡◌, ◌≢◌, ◌↔◌, refl, inl, String, true, false, none, some, List, [], ◌∷◌, pos, Any, All, Dict,
  lookup, insert, concat, quote,
}
use chaosplane.Api.Meta.{ok, err}
use chaosplane.Api.Experiment.{ChaosExperiment, running}
use chaosplane.Api.Workflow.{WorkflowTemplate, ChaosWorkflow, WorkflowPhase, delay, retry}
use chaosplane.Controller.Workflow.Graph.{
  DagNode, build_dag, sort_nodes, topological_sort, ready_templates,
}
use chaosplane.Controller.Workflow.Conditions.{evaluate_condition, scan_retry}
use chaosplane.Controller.Workflow.Status.{World, Fetched, not_found}
use chaosplane.Controller.Workflow.Reconcile.{reconcile_workflow}
use chaosplane.Controller.Workflow.Sorting.{sort_nodes-total}
use chaosplane.Controller.Workflow.Readiness.{IsReady, ready_templates_iff}
use chaosplane.Controller.Workflow.Building.{IsOk, build_dag-IsOk_iff}
use chaosplane.Controller.Workflow.Aborts.{MarksAbort, IsAbortWrite, reconcile_workflow-aborts}
use chaosplane.Controller.Workflow.Phases.{Respects, reconcile_workflow-Respects}
use chaosplane.Prelude.Codes.{codes}
use chaosplane.Examples.Samples.{kill_in, kill_meta, seconds}

abbrev step : String → List String → WorkflowTemplate
step name deps = record {
  name = name;
  kind = delay;
  experiment_ref = none;
  delay = some (record { duration = seconds 1 });
  condition = none;
  parallel = none;
  suspend = none;
  dependencies = deps;
}

abbrev chain : List WorkflowTemplate
chain = step "verify" ("kill" ∷ "load" ∷ []) ∷ step "kill" ("load" ∷ []) ∷ step "load" [] ∷ []

abbrev ring : List WorkflowTemplate
ring = step "kill" ("load" ∷ []) ∷ step "load" ("kill" ∷ []) ∷ []

sorted : topological_sort (λ l. l) chain ≡ ok ("load" ∷ "kill" ∷ "verify" ∷ [])
unfolding topological_sort lookup insert concat quote
sorted = refl

cyclic : topological_sort (λ l. l) ring ≡ err "cycle detected in workflow DAG"
unfolding topological_sort lookup insert concat quote
cyclic = refl

-- Two templates of one name are reported as a cycle.
doubled :
    topological_sort (λ l. l) (step "kill" [] ∷ step "kill" [] ∷ [])
    ≡ err "cycle detected in workflow DAG"
unfolding topological_sort lookup insert concat quote
doubled = refl

dangling :
    topological_sort (λ l. l) (step "kill" ("lod" ∷ []) ∷ [])
    ≡ err "template \"kill\" depends on unknown template \"lod\""
unfolding topological_sort lookup insert concat quote
dangling = refl

ready_next : ready_templates (λ l. l) chain (("load", true) ∷ []) ≡ "kill" ∷ []
unfolding ready_templates lookup insert
ready_next = refl

equal_sides : evaluate_condition " a == a " ≡ true
unfolding evaluate_condition
equal_sides = refl

unequal_sides : evaluate_condition "a!=a" ≡ false
unfolding evaluate_condition
unequal_sides = refl

retry_count : scan_retry (codes "retry 12") ≡ pos 12
unfolding scan_retry
retry_count = refl

retry_none : scan_retry (codes "creating experiment") ≡ pos 0
unfolding scan_retry
retry_none = refl

-- The graph of two templates in a row.
abbrev pair : List WorkflowTemplate
pair = step "kill" ("load" ∷ []) ∷ step "load" [] ∷ []

abbrev pair_nodes : Dict DagNode
pair_nodes =
    ("kill", record { template = step "kill" ("load" ∷ []); in_degree = pos 1; dependents = [] })
    ∷ ("load", record { template = step "load" []; in_degree = pos 0; dependents = "kill" ∷ [] })
    ∷ []

sort_nodes-total_example : sort_nodes (λ l. l) pair_nodes ≢ none
sort_nodes-total_example = sort_nodes-total (λ l. l) pair_nodes

ready_templates_iff_example :
    Any (λ n. n ≡ "kill") (ready_templates (λ l. l) pair (("load", true) ∷ []))
    ↔ IsReady pair (("load", true) ∷ []) "kill"
unfolding build_dag lookup insert
ready_templates_iff_example =
    ready_templates_iff (λ l. l) pair pair_nodes (("load", true) ∷ []) "kill" refl (λ h. h, λ h. h)

build_dag-IsOk_iff_example :
    IsOk (build_dag ring) ↔ All (λ t. All (λ d. Any (λ u. u.name ≡ d) ring) t.dependencies) ring
build_dag-IsOk_iff_example = build_dag-IsOk_iff ring

abbrev owned : ChaosExperiment
owned = record (kill_in running none) { meta = record kill_meta { owner_uids = "w1" ∷ [] } }

abbrev marked : ChaosWorkflow
marked = record {
  meta = record kill_meta { uid = "w1"; annotations = ("chaosplane.dev/abort", "true") ∷ [] };
  spec = record {
    templates = chain;
    parameters = [];
    error_handling = record { strategy = retry };
    execution = record { max_parallelism = none };
  };
  status = record {
    phase = WorkflowPhase.running;
    start_time = none;
    end_time = none;
    template_statuses = [];
    progress = "";
    conditions = [];
    observed_generation = 1;
  };
}

abbrev refusing : World
refusing = record {
  now = seconds 9;
  get = λ namespace name. not_found;
  list = λ namespace. ok (owned ∷ []);
  update = λ exp. some "conflict";
  status_error = none;
  range = λ loop l. l;
}

reconcile_workflow-aborts_example :
    MarksAbort refusing owned (reconcile_workflow refusing marked).acts
    × Any IsAbortWrite (reconcile_workflow refusing marked).acts
unfolding chaosplane.Controller.Workflow.Status.is_marked lookup
reconcile_workflow-aborts_example =
    reconcile_workflow-aborts refusing marked (owned ∷ []) owned refl refl refl (inl refl)
      (inl refl, inl refl)

reconcile_workflow-Respects_example :
    All (Respects WorkflowPhase.running) (reconcile_workflow refusing marked).acts
reconcile_workflow-Respects_example = reconcile_workflow-Respects refusing marked
