-- ===== src/Controller.antt =====
-- internal/controller: the reconcilers.
pub mod Pass
pub mod Conditions
pub mod Experiment
pub mod Workflow
