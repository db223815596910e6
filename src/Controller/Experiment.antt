-- ===== src/Controller/Experiment.antt =====
-- internal/controller/experiment_controller.go.
pub mod Status
pub mod Starting
pub mod Running
pub mod Finishing
pub mod Reconcile
pub mod Trace
pub mod History
pub mod Rollback
pub mod Once
pub mod Phases
pub mod Progress
pub mod Waiting
pub mod Deletion
pub mod Reports
pub mod Aborting
