-- ===== src/Api/Workflow.antt =====
-- api/v1alpha1/chaosworkflow_types.go
use chaosplane.Prelude.{ℕ, ℤ, String, Option, List}
use chaosplane.Api.Meta.{Time, Duration, ObjectMeta, Condition}

-- A string type that an enum validation narrows, as the two others below: `unknown` is any other text.
pub data TemplateType : Type 0 where
  experiment delay condition parallel suspend : TemplateType
  unknown : String → TemplateType

pub record ExperimentRef : Type 0 where
  pub name : String
  pub namespace : String

pub record DelaySpec : Type 0 where
  pub duration : Duration

pub record ConditionSpec : Type 0 where
  pub expression : String
  pub if_true : String
  pub if_false : String

pub record ParallelSpec : Type 0 where
  pub templates : List String

pub record SuspendSpec : Type 0 where
  pub timeout : Option Duration

pub record WorkflowTemplate : Type 0 where
  pub name : String
  pub kind : TemplateType  -- Type
  pub experiment_ref : Option ExperimentRef
  pub delay : Option DelaySpec
  pub condition : Option ConditionSpec
  pub parallel : Option ParallelSpec
  pub suspend : Option SuspendSpec
  pub dependencies : List String

pub record WorkflowParameter : Type 0 where
  pub name : String
  pub default : String
  pub value : String

pub data ErrorHandlingStrategy : Type 0 where
  unset abort continue retry rollback : ErrorHandlingStrategy
  unknown : String → ErrorHandlingStrategy

pub record ErrorHandlingSpec : Type 0 where
  pub strategy : ErrorHandlingStrategy

pub record WorkflowExecutionSpec : Type 0 where
  pub max_parallelism : Option ℤ

pub record ChaosWorkflowSpec : Type 0 where
  pub templates : List WorkflowTemplate
  pub parameters : List WorkflowParameter
  pub error_handling : ErrorHandlingSpec
  pub execution : WorkflowExecutionSpec

pub data WorkflowPhase : Type 0 where
  empty pending running paused completed failed aborted : WorkflowPhase
  unknown : String → WorkflowPhase

pub record TemplateStatus : Type 0 where
  pub name : String
  pub phase : WorkflowPhase
  pub start_time : Option Time
  pub end_time : Option Time
  pub message : String

pub record ChaosWorkflowStatus : Type 0 where
  pub phase : WorkflowPhase
  pub start_time : Option Time
  pub end_time : Option Time
  pub template_statuses : List TemplateStatus
  pub progress : String
  pub conditions : List Condition
  pub observed_generation : ℕ

pub record ChaosWorkflow : Type 0 where
  pub meta : ObjectMeta
  pub spec : ChaosWorkflowSpec
  pub status : ChaosWorkflowStatus
