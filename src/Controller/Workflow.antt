-- ===== src/Controller/Workflow.antt =====
-- internal/controller/workflow_controller.go
pub mod Graph
pub mod Conditions
pub mod Status
pub mod Templates
pub mod Progress
pub mod Running
pub mod Reconcile
pub mod Sorting
pub mod Readiness
pub mod Building
pub mod Aborts
pub mod Loops
pub mod Phases
