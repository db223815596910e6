-- ===== src/Api/Policy.antt =====
-- api/v1alpha1/blastradius_types.go
use chaosplane.Prelude.{ℤ, String, Option, List, Dict}
use chaosplane.Api.Meta.{Duration, ObjectMeta, LabelSelector}

pub record TimeWindow : Type 0 where
  pub name : String
  pub schedule : String
  pub duration : String
  pub timezone : String

pub record TimeWindowsSpec : Type 0 where
  pub allowed : List TimeWindow
  pub blocked : List TimeWindow

pub record ScopeSpec : Type 0 where
  pub namespaces : List String
  pub label_selector : Option LabelSelector

pub record TargetLimitsSpec : Type 0 where
  pub max_targets : Option ℤ
  pub max_percentage : Option ℤ

pub record ProtectedResource : Type 0 where
  pub kind : String
  pub name : String
  pub namespace : String

pub record ProtectedResourcesSpec : Type 0 where
  pub namespaces : List String
  pub labels : Dict String
  pub names : List ProtectedResource

pub record ActionLimitsSpec : Type 0 where
  pub allowed_actions : List String
  pub max_duration : Option Duration

-- A string type that an enum validation narrows: `unknown` is any other text.
pub data EnforcementMode : Type 0 where
  enforce audit : EnforcementMode
  unknown : String → EnforcementMode

pub record BlastRadiusPolicySpec : Type 0 where
  pub scope : ScopeSpec
  pub target_limits : TargetLimitsSpec
  pub protected_resources : ProtectedResourcesSpec
  pub action_limits : Option ActionLimitsSpec
  pub time_windows : Option TimeWindowsSpec
  pub enforcement : EnforcementMode

pub record BlastRadiusPolicy : Type 0 where
  pub meta : ObjectMeta
  pub spec : BlastRadiusPolicySpec
