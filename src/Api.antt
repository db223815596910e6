-- ===== src/Api.antt =====
-- The resources of api/v1alpha1, one module for each file, and the metav1 fields they embed.
pub mod Meta
pub mod Results
pub mod Experiment
pub mod Policy
pub mod Workflow
