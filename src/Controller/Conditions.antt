-- ===== src/Controller/Conditions.antt =====
-- `setCondition` and `setWorkflowCondition` of the controllers, on the list of conditions.
use Prim.Native.Nat.{max}
use chaosplane.Prelude.{
  List, [], ◌∷◌, ◌==◌, string_eq, if◌then◌else◌, String, Option, none, some, ℕ, ◌+◌, ◌≤◌, ◌≡◌, refl,
  arith, eq_iff,
}
use chaosplane.Api.Meta.{Condition, ConditionStatus}

-- The first condition of the type is overwritten; if there is none, one is appended.
unfoldable pub upsert : Condition → List Condition → List Condition
upsert new [] = new ∷ []
upsert new (c ∷ cs) = if c.kind == new.kind then new ∷ cs else c ∷ upsert new cs

-- The first condition of a type.
unfoldable pub find_condition : String → List Condition → Option Condition
find_condition k [] = none
find_condition k (c ∷ cs) = if c.kind == k then some c else find_condition k cs

-- The conditions of a type.
unfoldable pub occurrences : String → List Condition → ℕ
occurrences k [] = 0
occurrences k (c ∷ cs) = (if c.kind == k then 1 else 0) + occurrences k cs

-- Setting a condition makes it the one that is found for its type, and leaves what is found for any
-- other type.
pub find_condition-upsert :
    (k : String) (c : Condition) (cs : List Condition)
    → find_condition k (upsert c cs) ≡ (if c.kind == k then some c else find_condition k cs)
unfolding find_condition upsert
find_condition-upsert k c [] = refl
find_condition-upsert k c (d ∷ cs) =
    ground
      (arith, eq_iff d.kind c.kind, eq_iff c.kind k, eq_iff d.kind k, find_condition-upsert k c cs)

occurrences-upsert :
    (k : String) (c : Condition) (cs : List Condition)
    → occurrences k (upsert c cs)
      ≡ (if c.kind == k then max 1 (occurrences k cs) else occurrences k cs)
unfolding occurrences upsert
occurrences-upsert k c [] = ground arith
occurrences-upsert k c (d ∷ cs) =
    ground
      (arith, eq_iff d.kind c.kind, eq_iff c.kind k, eq_iff d.kind k, occurrences-upsert k c cs)

-- Setting conditions never lists a type twice.
pub occurrences-upsert-le-one :
    (k : String) (c : Condition) (cs : List Condition)
    → occurrences k cs ≤ 1
    → occurrences k (upsert c cs) ≤ 1
occurrences-upsert-le-one k c cs h = ground (arith, occurrences-upsert k c cs)

-- The status of the first condition of a type.
unfoldable pub condition_status : String → List Condition → Option ConditionStatus
condition_status k cs = elim (find_condition k cs) [ none ↦ none | some c ↦ some c.status ]

pub condition_status-upsert :
    (k : String) (c : Condition) (cs : List Condition)
    → condition_status k (upsert c cs)
      ≡ (if c.kind == k then some c.status else condition_status k cs)
unfolding condition_status
condition_status-upsert k c cs = ground (arith, find_condition-upsert k c cs)
