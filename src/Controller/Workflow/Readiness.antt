-- ===== src/Controller/Workflow/Readiness.antt =====
-- What `ReadyTemplates` finds.
use chaosplane.Prelude.{
  ◌≡◌, ◌≢◌, ◌↔◌, ◌⊎◌, inl, inr, refl, ap, sym, subst, ◌∙◌, String, Bool, true, false, Option, none,
  some, List, [], ◌∷◌, ◌++◌, arith, ◌==◌, string_eq, nat_eq, eq_iff, if◌then◌else◌, pos, Dict,
  lookup, insert, lookup-insert, Any, All, Bool-cases, Option-cases,
}
use chaosplane.Api.Meta.{Result, ok, err}
use chaosplane.Api.Workflow.{WorkflowTemplate}
use chaosplane.Controller.Workflow.Graph.{
  DagNode, Order, keys, new_nodes, change, increment, add_edges, add_all_edges, build_dag, is_in,
  all_in, is_ready, ready_of, ready_templates,
}

-- The last of the templates with a name, which is the one that the graph keeps.
abbrev pub last_named :
    String → List WorkflowTemplate → Option WorkflowTemplate → Option WorkflowTemplate
last_named name [] before = before
last_named name (t ∷ ts) before = last_named name ts (if t.name == name then some t else before)

abbrev pub template_of : Option DagNode → Option WorkflowTemplate
template_of none = none
template_of (some n) = some n.template

pub template_of-new_nodes :
    (name : String) (ts : List WorkflowTemplate) (m : Dict DagNode)
    → template_of (lookup name (new_nodes ts m)) ≡ last_named name ts (template_of (lookup name m))
unfolding new_nodes
template_of-new_nodes name [] m = refl
template_of-new_nodes name (t ∷ ts) m =
    let node : DagNode = record { template = t; in_degree = pos 0; dependents = [] } in
    template_of-new_nodes name ts (insert t.name node m)
    ∙ ap (last_named name ts) (ground (arith, lookup-insert t.name name node m))

pub template_of-change :
    (f : DagNode → DagNode) (key name : String) (m : Dict DagNode)
    → ((n : DagNode) → (f n).template ≡ n.template)
    → template_of (lookup name (change f key m)) ≡ template_of (lookup name m)
unfolding lookup
template_of-change f key name [] h = refl
template_of-change f key name ((k, n) ∷ m) h = elim (Bool-cases (key == k)) [
  | inl t ↦ ground (arith, t, h n)
  | inr o ↦ ground (arith, o, template_of-change f key name m h)
]

pub template_of-add_edges :
    (name t : String) (deps : List String) (nodes next : Dict DagNode)
    → add_edges t deps nodes ≡ ok next
    → template_of (lookup name next) ≡ template_of (lookup name nodes)
unfolding add_edges
template_of-add_edges name t [] nodes next h = ground (arith, h)
template_of-add_edges name t (d ∷ deps) nodes next h = elim (Option-cases (lookup d nodes)) [
  | inl n ↦ ground (arith, h, n)
  | inr (parent, p) ↦
      let linked = change (λ n. record n { dependents = n.dependents ++ t ∷ [] }) d nodes in
      let counted = change (λ n. record n { in_degree = increment n.in_degree }) t linked in
      template_of-add_edges name t deps counted next (ground (arith, h, p))
      ∙ template_of-change (λ n. record n { in_degree = increment n.in_degree }) t name linked
          (λ n. refl)
      ∙ template_of-change (λ n. record n { dependents = n.dependents ++ t ∷ [] }) d name nodes
          (λ n. refl)
]

pub Result-cases :
    {A : Type 0} (r : Result A) → ((a : A) × (r ≡ ok a)) ⊎ ((e : String) × (r ≡ err e))
Result-cases (ok a) = inl (a, refl)
Result-cases (err e) = inr (e, refl)

template_of-add_all_edges :
    (name : String) (ts : List WorkflowTemplate) (nodes next : Dict DagNode)
    → add_all_edges ts nodes ≡ ok next
    → template_of (lookup name next) ≡ template_of (lookup name nodes)
unfolding add_all_edges
template_of-add_all_edges name [] nodes next h = ground (arith, h)
template_of-add_all_edges name (t ∷ ts) nodes next h =
    elim (Result-cases (add_edges t.name t.dependencies nodes)) [
      | inl (middle, e) ↦
          template_of-add_all_edges name ts middle next (ground (arith, h, e))
          ∙ template_of-add_edges name t.name t.dependencies nodes middle e
      | inr (text, e) ↦ ground (arith, h, e)
    ]

-- A template is ready under a set of finished names.
abbrev pub IsReady : List WorkflowTemplate → Dict Bool → String → Type 0
IsReady ts finished name =
    (t : WorkflowTemplate) × (last_named name ts none ≡ some t)
    × (is_in name finished ≡ false)
    × All (λ d. is_in d finished ≡ true) t.dependencies

all_in_iff :
    (ds : List String) (m : Dict Bool) → (all_in ds m ≡ true) ↔ All (λ d. is_in d m ≡ true) ds
all_in_iff [] m = ground arith
all_in_iff (d ∷ ds) m = ground (arith, all_in_iff ds m)

is_ready_iff :
    (ts : List WorkflowTemplate) (nodes : Dict DagNode) (finished : Dict Bool) (name : String)
    → build_dag ts ≡ ok nodes
    → (is_ready nodes finished name ≡ true) ↔ IsReady ts finished name
unfolding build_dag is_ready lookup
is_ready_iff ts nodes finished name h =
    let kept : template_of (lookup name nodes) ≡ last_named name ts none =
      template_of-add_all_edges name ts (new_nodes ts []) nodes h
      ∙ template_of-new_nodes name ts [] in
    elim (Option-cases (lookup name nodes)) [
      | inl n ↦ ground (arith, n, kept)
      | inr (n, e) ↦ ground (arith, e, kept, all_in_iff n.template.dependencies finished)
    ]

ready_of_iff :
    (nodes : Dict DagNode) (finished : Dict Bool) (name : String) (names : List String)
    → Any (λ n. n ≡ name) (ready_of nodes finished names)
      ↔ (Any (λ n. n ≡ name) names × (is_ready nodes finished name ≡ true))
unfolding ready_of
ready_of_iff nodes finished name [] = ground arith
ready_of_iff nodes finished name (n ∷ names) = elim (Bool-cases (is_ready nodes finished n)) [
  | inl r ↦ ground (arith, r, ready_of_iff nodes finished name names)
  | inr r ↦ ground (arith, r, ready_of_iff nodes finished name names)
]

keys-lookup :
    (name : String) (m : Dict DagNode) → lookup name m ≢ none → Any (λ n. n ≡ name) (keys m)
unfolding lookup
keys-lookup name [] h = absurd (h refl)
keys-lookup name ((k, n) ∷ m) h = ground (arith, eq_iff name k, keys-lookup name m)

keys-is_ready :
    (nodes : Dict DagNode) (finished : Dict Bool) (name : String)
    → is_ready nodes finished name ≡ true
    → Any (λ n. n ≡ name) (keys nodes)
unfolding is_ready
keys-is_ready nodes finished name h = keys-lookup name nodes (λ n. ground (arith, h, n))

-- On a graph that is built, and a range that visits every name, `ReadyTemplates` lists exactly the
-- names of the templates that are not finished and whose dependencies all are.
pub ready_templates_iff :
    (range : Order) (ts : List WorkflowTemplate) (nodes : Dict DagNode) (finished : Dict Bool)
    (name : String)
    → build_dag ts ≡ ok nodes
    → (Any (λ n. n ≡ name) (range (keys nodes)) ↔ Any (λ n. n ≡ name) (keys nodes))
    → Any (λ n. n ≡ name) (ready_templates range ts finished) ↔ IsReady ts finished name
unfolding ready_templates
ready_templates_iff range ts nodes finished name h visits =
    let listed : ready_templates range ts finished ≡ ready_of nodes finished (range (keys nodes)) =
      ground (arith, h) in
    let found = ready_of_iff nodes finished name (range (keys nodes)) in
    let ready = is_ready_iff ts nodes finished name h in
    (
      λ a. ready.0 (found.0 (subst (λ l. Any (λ n. n ≡ name) l) listed a)).1,
      λ r.
          subst (λ l. Any (λ n. n ≡ name) l) (sym listed)
            (found.1 (visits.1 (keys-is_ready nodes finished name (ready.1 r)), ready.1 r)),
    )
