-- ===== src/Controller/Workflow/Sorting.antt =====
-- The graph of a workflow: when `buildDAG` succeeds, that `TopologicalSort` ends, and what
-- `ReadyTemplates` finds.
use chaosplane.Prelude.{
  ℕ, zero, suc, ◌+◌, ◌≤◌, ◌≡◌, ◌≢◌, inl, inr, String, Bool, true, false, Option, none, some, List,
  [], ◌∷◌, ◌++◌, arith, ◌==◌, string_eq, nat_eq, if◌then◌else◌, length, length-append, ℤ, pos,
  negsuc, Dict, lookup, Bool-cases,
}
use chaosplane.Controller.Workflow.Graph.{
  DagNode, Order, keys, change, decrement, is_zero, enqueue, sources, release, dependents_of, drain,
  sort_nodes,
}

abbrev is_positive : ℤ → Bool
is_positive (pos n) = if n == 0 then false else true
is_positive (negsuc n) = false

-- The nodes that still have an incoming edge.
waiting : Dict DagNode → ℕ
waiting [] = 0
waiting ((k, n) ∷ m) = (if is_positive n.in_degree then 1 else 0) + waiting m

abbrev lower : String → Dict DagNode → Dict DagNode
lower dep nodes = change (λ n. record n { in_degree = decrement n.in_degree }) dep nodes

-- 1 if the name is free now.
abbrev is_free : Option DagNode → ℕ
is_free none = 0
is_free (some n) = if is_zero n.in_degree then 1 else 0

decrement-positive :
    (d : ℤ)
    → (if is_positive (decrement d) then 1 else 0) + (if is_zero (decrement d) then 1 else 0)
      ≤ (if is_positive d then 1 else 0)
unfolding decrement
decrement-positive (pos zero) = ground arith
decrement-positive (pos (suc n)) = ground arith
decrement-positive (negsuc n) = ground arith

waiting-lower :
    (dep : String) (nodes : Dict DagNode)
    → waiting (lower dep nodes) + is_free (lookup dep (lower dep nodes)) ≤ waiting nodes
unfolding waiting lookup
waiting-lower dep [] = ground arith
waiting-lower dep ((k, n) ∷ m) = elim (Bool-cases (dep == k)) [
  | inl t ↦ ground (arith, t, decrement-positive n.in_degree)
  | inr f ↦ ground (arith, f, waiting-lower dep m)
]

length-enqueue :
    (dep : String) (o : Option DagNode) (freed : List String)
    → length (enqueue dep o freed) ≡ is_free o + length freed
length-enqueue dep none freed = ground arith
length-enqueue dep (some n) freed = ground arith

waiting-release :
    (deps : List String) (nodes : Dict DagNode)
    → waiting (release deps nodes).1 + length (release deps nodes).0 ≤ waiting nodes
unfolding release
waiting-release [] nodes = ground arith
waiting-release (dep ∷ deps) nodes =
    let lowered = lower dep nodes in
    omega (
      arith,
      waiting-lower dep nodes,
      waiting-release deps lowered,
      length-enqueue dep (lookup dep lowered) (release deps lowered).0,
    )

waiting-le-length : (nodes : Dict DagNode) → waiting nodes ≤ length nodes
unfolding waiting
waiting-le-length [] = ground arith
waiting-le-length ((k, n) ∷ m) = ground (arith, waiting-le-length m)

drain-total :
    (fuel : ℕ) (queue : List String) (nodes : Dict DagNode)
    → length queue + waiting nodes ≤ fuel
    → drain fuel queue nodes ≢ none
unfolding drain
drain-total fuel [] nodes h = ground arith
drain-total zero (name ∷ queue) nodes h = absurd (omega arith)
drain-total (suc fuel) (name ∷ queue) nodes h =
    let (freed, after) = release (dependents_of name nodes) nodes in
    let less = waiting-release (dependents_of name nodes) nodes in
    ground
      (arith, drain-total fuel (queue ++ freed) after (omega (arith, length-append queue freed)))

-- The loop on the queue ends, with any order of the map and even on a graph with cycles: the rounds
-- that it is given are enough.
pub sort_nodes-total : (range : Order) (nodes : Dict DagNode) → sort_nodes range nodes ≢ none
unfolding sort_nodes
sort_nodes-total range nodes =
    drain-total _ (sources nodes (range (keys nodes))) nodes
      (omega (arith, waiting-le-length nodes))
