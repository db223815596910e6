-- ===== src/Executors.antt =====
-- internal/executor: the executors that carry a fault to the daemons of the targets' nodes.
pub mod Pods
pub mod Network
pub mod Kinds
pub mod Fleet
pub mod Steps
pub mod Calls
pub mod Debts
pub mod Restoring
pub mod Forgetting
pub mod Recording
pub mod Stress
pub mod Stopping
pub mod Family
