-- ===== src/Daemon.antt =====
-- internal/daemon: the node daemon that applies faults by commands of the host.
pub mod Store
pub mod Commands
pub mod Host
pub mod Server
pub mod Handlers
pub mod Cancel
pub mod Claims
pub mod Targets
pub mod Outstanding
pub mod Booking
pub mod Records
pub mod PodBooking
pub mod Undoing
pub mod Leftover
pub mod History
pub mod NodeLeak
pub mod Netns
pub mod Pairing
pub mod Answers
