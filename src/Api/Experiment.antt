-- ===== src/Api/Experiment.antt =====
-- api/v1alpha1/chaosexperiment_types.go
use chaosplane.Prelude.{ℕ, String, Bool, Option, List, ℤ}
use chaosplane.Api.Meta.{Time, Duration, ObjectMeta, Condition, LabelSelector}

-- A string type of the API that an enum validation narrows: `unknown` is any other text.
pub data AbortAction : Type 0 where
  abort pause rollback : AbortAction
  unknown : String → AbortAction

pub data ProbeType : Type 0 where
  prometheus http k8s : ProbeType
  unknown : String → ProbeType

-- The threshold is a float64, kept as its bit pattern.
pub record ProbeCondition : Type 0 where
  pub operator : String
  pub threshold : ℕ

pub record PrometheusProbe : Type 0 where
  pub url : String
  pub query : String
  pub condition : ProbeCondition

pub record HttpProbe : Type 0 where
  pub url : String
  pub method : String
  pub expected_status : ℤ
  pub expected_body : String

pub record K8sProbeCondition : Type 0 where
  pub min_ready : ℤ

pub record K8sProbe : Type 0 where
  pub resource : String
  pub namespace : String
  pub label_selector : String
  pub field_selector : String
  pub condition : K8sProbeCondition

pub record ProbeSpec : Type 0 where
  pub name : String
  pub kind : ProbeType  -- Type
  pub prometheus : Option PrometheusProbe
  pub http : Option HttpProbe
  pub k8s : Option K8sProbe

pub record AbortConditionSpec : Type 0 where
  pub name : String
  pub kind : ProbeType  -- Type
  pub prometheus : Option PrometheusProbe
  pub http : Option HttpProbe
  pub k8s : Option K8sProbe
  pub action : AbortAction

pub record SteadyStateSpec : Type 0 where
  pub before : List ProbeSpec
  pub after : List ProbeSpec
  pub recovery_timeout : Duration

pub record TargetSpec : Type 0 where
  pub kind : String
  pub namespace : String
  pub label_selector : Option LabelSelector
  pub names : List String

-- The parameters are raw JSON, kept as their text.
pub record ActionSpec : Type 0 where
  pub kind : String  -- Type
  pub parameters : String
  pub duration : Option Duration

pub record RollbackSpec : Type 0 where
  pub enabled : Bool
  pub timeout : Option Duration

pub record ExecutionSpec : Type 0 where
  pub parallelism : Option ℤ

pub record ChaosExperimentSpec : Type 0 where
  pub target : TargetSpec
  pub action : ActionSpec
  pub duration : Duration
  pub rollback : Option RollbackSpec
  pub execution : ExecutionSpec
  pub steady_state : Option SteadyStateSpec
  pub abort_conditions : List AbortConditionSpec

pub data ExperimentPhase : Type 0 where
  empty : ExperimentPhase
  pending steady_state_checking running completing recovering : ExperimentPhase
  completed failed aborted : ExperimentPhase
  unknown : String → ExperimentPhase

pub record ChaosExperimentStatus : Type 0 where
  pub phase : ExperimentPhase
  pub start_time : Option Time
  pub end_time : Option Time
  pub recovery_start_time : Option Time
  pub conditions : List Condition
  pub observed_generation : ℕ
  pub affected_resources : List String
  pub message : String

pub record ChaosExperiment : Type 0 where
  pub meta : ObjectMeta
  pub spec : ChaosExperimentSpec
  pub status : ChaosExperimentStatus
