-- ===== src/Examples.antt =====
-- Concrete experiments and environments, tests on them, and each theorem at an input that meets its
-- hypotheses.
mod Values
mod Server
mod Samples
mod Runs
mod Passes
mod Parts
mod Webhook
mod Workflow
mod Daemon
mod Stubborn
mod Netns
mod Network
mod Recording
