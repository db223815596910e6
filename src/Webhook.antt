-- ===== src/Webhook.antt =====
-- internal/webhook: the admission webhook that holds experiments against blast radius policies.
pub mod Glob
pub mod Cron
pub mod Windows
pub mod Policy
pub mod Handle
pub mod Refusals
pub mod Verdicts
pub mod Openings
pub mod Parts
pub mod Fields
