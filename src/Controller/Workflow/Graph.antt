-- ===== src/Controller/Workflow/Graph.antt =====
-- workflow_controller.go: `buildDAG`, `TopologicalSort`, `ReadyTemplates`, `findTemplate` and
-- `FormatProgress`. A map is an association list in the order of its insertions; the order in which Go
-- ranges over it is an argument, a function of the keys.
use chaosplane.Prelude.{
  ℕ, zero, suc, ◌+◌, String, Bool, true, false, Option, none, some, List, [], ◌∷◌, ◌++◌, ◌==◌,
  string_eq, nat_eq, if◌then◌else◌, length, ℤ, pos, negsuc, Dict, lookup, insert, concat, quote,
}
use chaosplane.Prelude.Text.{itoa}
use chaosplane.Api.Meta.{Result, ok, err}
use chaosplane.Api.Workflow.{WorkflowTemplate, TemplateStatus, completed, failed, WorkflowPhase}

-- dagNode; the in-degree is an int.
pub record DagNode : Type 0 where
  pub template : WorkflowTemplate
  pub in_degree : ℤ
  pub dependents : List String

abbrev pub Order : Type 0
Order = List String → List String

abbrev pub keys : {A : Type 0} → Dict A → List String
keys [] = []
keys ((k, a) ∷ m) = k ∷ keys m

-- `nodes[t.Name] = &dagNode{template: t}` for each template: of two with one name the last stays.
unfoldable pub new_nodes : List WorkflowTemplate → Dict DagNode → Dict DagNode
new_nodes [] nodes = nodes
new_nodes (t ∷ ts) nodes =
    new_nodes ts (insert t.name (record { template = t; in_degree = pos 0; dependents = [] }) nodes)

unfoldable pub increment : ℤ → ℤ
increment (pos n) = pos (suc n)
increment (negsuc zero) = pos 0
increment (negsuc (suc n)) = negsuc n

unfoldable pub decrement : ℤ → ℤ
decrement (pos (suc n)) = pos n
decrement (pos zero) = negsuc 0
decrement (negsuc n) = negsuc (suc n)

-- A change of the node under a name, if there is one.
abbrev pub change : (DagNode → DagNode) → String → Dict DagNode → Dict DagNode
change f name [] = []
change f name ((k, n) ∷ m) = if name == k then (k, f n) ∷ m else (k, n) ∷ change f name m

-- The edges from the dependencies of the template `name`.
unfoldable pub add_edges : String → List String → Dict DagNode → Result (Dict DagNode)
unfolding increment
add_edges name [] nodes = ok nodes
add_edges name (dep ∷ deps) nodes = elim (lookup dep nodes) [
  | none ↦
      err (concat ("template " ∷ quote name ∷ " depends on unknown template " ∷ quote dep ∷ []))
  | some parent ↦ add_edges name deps (
      change (λ n. record n { in_degree = increment n.in_degree }) name
        (change (λ n. record n { dependents = n.dependents ++ name ∷ [] }) dep nodes))
]

unfoldable pub add_all_edges : List WorkflowTemplate → Dict DagNode → Result (Dict DagNode)
unfolding add_edges
add_all_edges [] nodes = ok nodes
add_all_edges (t ∷ ts) nodes = elim (add_edges t.name t.dependencies nodes) [
  | err e ↦ err e
  | ok next ↦ add_all_edges ts next
]

unfoldable pub build_dag : List WorkflowTemplate → Result (Dict DagNode)
unfolding new_nodes add_all_edges
build_dag templates = add_all_edges templates (new_nodes templates [])

abbrev pub is_zero : ℤ → Bool
is_zero (pos n) = n == 0
is_zero (negsuc n) = false

-- `if nodes[dep].inDegree == 0 { queue = append(queue, dep) }`
abbrev pub enqueue : String → Option DagNode → List String → List String
enqueue dep none freed = freed
enqueue dep (some n) freed = if is_zero n.in_degree then dep ∷ freed else freed

-- The names, in the order of the range, whose nodes have no incoming edge.
unfoldable pub sources : Dict DagNode → List String → List String
sources nodes [] = []
sources nodes (name ∷ names) = elim (lookup name nodes) [
  | none ↦ sources nodes names
  | some n ↦ if is_zero n.in_degree then name ∷ sources nodes names else sources nodes names
]

-- The loop over the dependents of a name: the names that become free, and the nodes after it.
unfoldable pub release : List String → Dict DagNode → List String × Dict DagNode
unfolding decrement
release [] nodes = ([], nodes)
release (dep ∷ deps) nodes =
    let lowered = change (λ n. record n { in_degree = decrement n.in_degree }) dep nodes in
    let (freed, after) = release deps lowered in (enqueue dep (lookup dep lowered) freed, after)

abbrev pub dependents_of : String → Dict DagNode → List String
dependents_of name nodes = elim (lookup name nodes) [ none ↦ [] | some n ↦ n.dependents ]

-- The loop on the queue; `none` if the fuel runs out.
unfoldable pub drain : ℕ → List String → Dict DagNode → Option (List String)
unfolding release
drain fuel [] nodes = some []
drain zero (name ∷ queue) nodes = none
drain (suc fuel) (name ∷ queue) nodes =
    let (freed, after) = release (dependents_of name nodes) nodes in
    let rest = drain fuel (queue ++ freed) after in
    elim rest [ none ↦ none | some order ↦ some (name ∷ order) ]

-- A name enters the queue when its in-degree becomes zero, which happens once for each node.
unfoldable pub sort_nodes : Order → Dict DagNode → Option (List String)
unfolding drain sources
sort_nodes range nodes =
    let queue = sources nodes (range (keys nodes)) in
    drain (length queue + length nodes) queue nodes

-- `len(order) != len(templates)`
unfoldable pub check_order : List WorkflowTemplate → List String → Result (List String)
check_order templates order =
    if length order == length templates then ok order else err "cycle detected in workflow DAG"

unfoldable pub topological_sort : Order → List WorkflowTemplate → Result (List String)
unfolding build_dag sort_nodes check_order
topological_sort range templates = elim (build_dag templates) [
  | err e ↦ err e
  | ok nodes ↦ elim (sort_nodes range nodes) [
    | none ↦ err "out of fuel"
    | some order ↦ check_order templates order
  ]
]

-- `completed[name]`
abbrev pub is_in : String → Dict Bool → Bool
is_in name m = elim (lookup name m) [ none ↦ false | some b ↦ b ]

abbrev pub all_in : List String → Dict Bool → Bool
all_in [] m = true
all_in (d ∷ ds) m = if is_in d m then all_in ds m else false

unfoldable pub is_ready : Dict DagNode → Dict Bool → String → Bool
is_ready nodes finished name = elim (lookup name nodes) [
  | none ↦ false
  | some n ↦ if is_in name finished then false else all_in n.template.dependencies finished
]

unfoldable pub ready_of : Dict DagNode → Dict Bool → List String → List String
unfolding is_ready
ready_of nodes finished [] = []
ready_of nodes finished (name ∷ names) =
    let rest = ready_of nodes finished names in
    if is_ready nodes finished name then name ∷ rest else rest

unfoldable pub ready_templates : Order → List WorkflowTemplate → Dict Bool → List String
unfolding build_dag ready_of
ready_templates range templates finished = elim (build_dag templates) [
  | err e ↦ []
  | ok nodes ↦ ready_of nodes finished (range (keys nodes))
]

unfoldable pub find_template : String → List WorkflowTemplate → Option WorkflowTemplate
find_template name [] = none
find_template name (t ∷ ts) = if t.name == name then some t else find_template name ts

abbrev pub is_over : WorkflowPhase → Bool
is_over completed = true
is_over failed = true
is_over _ = false

unfoldable pub finished_count : List TemplateStatus → ℕ
finished_count [] = 0
finished_count (s ∷ ss) = (if is_over s.phase then 1 else 0) + finished_count ss

unfoldable pub format_progress : List TemplateStatus → ℕ → String
unfolding finished_count
format_progress statuses total = concat (itoa (finished_count statuses) ∷ "/" ∷ itoa total ∷ [])
