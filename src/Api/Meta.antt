-- ===== src/Api/Meta.antt =====
-- What the resources take from metav1: the metadata and condition fields that the program reads or
-- writes. A time is in nanoseconds since the epoch, a duration in nanoseconds, and a Go error is
-- its text. `nil` is `none`, and a nil map or slice is the empty one.
use chaosplane.Prelude.{ℕ, ◌≡◌, ◌⊎◌, inl, inr, refl, String, Option, List, Dict, ℤ}

-- time.Time, metav1.Time
abbrev pub Time : Type 0
Time = ℤ

-- time.Duration, an int64
abbrev pub Duration : Type 0
Duration = ℤ

abbrev pub Error : Type 0
Error = String

pub data Result {ℓ} (A : Type ℓ) : Type ℓ where
  ok : A → Result A
  err : Error → Result A

pub data ConditionStatus : Type 0 where
  condition_true condition_false condition_unknown : ConditionStatus

pub record Condition : Type 0 where
  pub kind : String  -- Type
  pub status : ConditionStatus
  pub reason : String
  pub message : String
  pub last_transition_time : Time
  pub observed_generation : ℕ

pub record ObjectMeta : Type 0 where
  pub namespace : String
  pub name : String
  pub uid : String
  pub generation : ℕ
  pub deletion_timestamp : Option Time
  pub finalizers : List String
  pub annotations : Dict String
  pub labels : Dict String
  pub owner_uids : List String  -- the UID of each of the OwnerReferences

-- metav1.LabelSelector; an expression is kept as its text.
pub record LabelSelector : Type 0 where
  pub match_labels : Dict String
  pub match_expressions : List String

pub Result-cases {ℓ} :
    {A : Type ℓ} (r : Result A) → ((a : A) × (r ≡ ok a)) ⊎ ((e : Error) × (r ≡ err e))
Result-cases (ok a) = inl (a, refl)
Result-cases (err e) = inr (e, refl)
