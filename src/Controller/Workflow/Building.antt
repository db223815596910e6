-- ===== src/Controller/Workflow/Building.antt =====
-- When `buildDAG` succeeds.
use chaosplane.Prelude.{
  ◌≡◌, ◌≢◌, ◌↔◌, ◌⊎◌, inl, inr, refl, ◌∙◌, String, Option, none, some, List, [], ◌∷◌, ◌++◌, arith,
  ◌==◌, string_eq, eq_iff, Dict, lookup, Any, All, Bool-cases, Option-cases,
}
use chaosplane.Api.Meta.{Result, ok, err}
use chaosplane.Api.Workflow.{WorkflowTemplate}
use chaosplane.Controller.Workflow.Graph.{
  DagNode, new_nodes, change, increment, add_edges, add_all_edges, build_dag,
}
use chaosplane.Controller.Workflow.Readiness.{
  last_named, template_of, template_of-change, template_of-add_edges, template_of-new_nodes,
  Result-cases,
}

abbrev pub IsOk : {A : Type 0} → Result A → Type 0
IsOk (ok a) = Unit
IsOk (err e) = ⊥

abbrev Known : Dict DagNode → String → Type 0
Known nodes d = template_of (lookup d nodes) ≢ none

All-iff :
    {A : Type 0} (P Q : A → Type 0) → ((a : A) → P a ↔ Q a) → (xs : List A) → All P xs ↔ All Q xs
All-iff P Q h [] = ground arith
All-iff P Q h (x ∷ xs) = ground (arith, h x, All-iff P Q h xs)

Known-iff :
    (nodes next : Dict DagNode)
    → ((d : String) → template_of (lookup d next) ≡ template_of (lookup d nodes))
    → (d : String) → Known next d ↔ Known nodes d
Known-iff nodes next h d = ground (arith, h d)

add_edges-IsOk_iff :
    (t : String) (deps : List String) (nodes : Dict DagNode)
    → IsOk (add_edges t deps nodes) ↔ All (Known nodes) deps
unfolding add_edges
add_edges-IsOk_iff t [] nodes = ground arith
add_edges-IsOk_iff t (d ∷ deps) nodes =
    let linked = change (λ n. record n { dependents = n.dependents ++ t ∷ [] }) d nodes in
    let counted = change (λ n. record n { in_degree = increment n.in_degree }) t linked in
    let same : (e : String) → template_of (lookup e counted) ≡ template_of (lookup e nodes) = λ e.
      template_of-change (λ n. record n { in_degree = increment n.in_degree }) t e linked
        (λ n. refl)
      ∙ template_of-change (λ n. record n { dependents = n.dependents ++ t ∷ [] }) d e nodes
          (λ n. refl) in
    let moved = All-iff (Known counted) (Known nodes) (Known-iff nodes counted same) deps in
    elim (Option-cases (lookup d nodes)) [
      | inl n ↦ ground (arith, n)
      | inr (p, e) ↦ ground (arith, e, add_edges-IsOk_iff t deps counted, moved)
    ]

add_all_edges-IsOk_iff :
    (ts : List WorkflowTemplate) (nodes : Dict DagNode)
    → IsOk (add_all_edges ts nodes) ↔ All (λ t. All (Known nodes) t.dependencies) ts
unfolding add_all_edges
add_all_edges-IsOk_iff [] nodes = ground arith
add_all_edges-IsOk_iff (t ∷ ts) nodes =
    let linked = add_edges-IsOk_iff t.name t.dependencies nodes in
    elim (Result-cases (add_edges t.name t.dependencies nodes)) [
      | inr (text, e) ↦ ground (arith, e, linked)
      | inl (next, e) ↦
          let known =
            Known-iff nodes next
              (λ d. template_of-add_edges d t.name t.dependencies nodes next e) in
          let moved =
            All-iff (λ u. All (Known next) u.dependencies) (λ u. All (Known nodes) u.dependencies)
              (λ u. All-iff (Known next) (Known nodes) known u.dependencies) ts in
          ground (arith, e, linked, add_all_edges-IsOk_iff ts next, moved)
    ]

last_named_iff :
    (name : String) (ts : List WorkflowTemplate) (before : Option WorkflowTemplate)
    → (last_named name ts before ≢ none) ↔ (Any (λ t. t.name ≡ name) ts ⊎ (before ≢ none))
last_named_iff name [] before = ground arith
last_named_iff name (t ∷ ts) before = elim (Bool-cases (t.name == name)) [
  | inl e ↦ ground (arith, e, eq_iff t.name name, last_named_iff name ts (some t))
  | inr e ↦ ground (arith, e, eq_iff t.name name, last_named_iff name ts before)
]

-- The graph is built exactly when each dependency of each template is the name of a template.
pub build_dag-IsOk_iff :
    (ts : List WorkflowTemplate)
    → IsOk (build_dag ts) ↔ All (λ t. All (λ d. Any (λ u. u.name ≡ d) ts) t.dependencies) ts
unfolding build_dag lookup
build_dag-IsOk_iff ts =
    let nodes = new_nodes ts [] in
    let named : (d : String) → Known nodes d ↔ Any (λ u. u.name ≡ d) ts =
      λ d. ground (arith, template_of-new_nodes d ts [], last_named_iff d ts none) in
    let (to, from) = add_all_edges-IsOk_iff ts nodes in
    let (there, back) =
      All-iff (λ t. All (Known nodes) t.dependencies)
        (λ t. All (λ d. Any (λ u. u.name ≡ d) ts) t.dependencies)
        (λ t. All-iff (Known nodes) (λ d. Any (λ u. u.name ≡ d) ts) named t.dependencies) ts in
    (λ h. there (to h), λ h. from (back h))
