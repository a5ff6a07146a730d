-- ===== src/Daemon.antt =====
-- src/main.rs: the daemon. State holds what it owns and the host that it runs on; Shadow reads the
-- password file; Handlers, Prompts and Dispatch serve the requests; Events has the periodic tick,
-- the exit of a compositor, and the signals. The other children prove what they promise.
pub mod State
pub mod Shadow
pub mod Entries
pub mod Handlers
pub mod Prompts
pub mod Dispatch
pub mod Events
pub mod Guards
pub mod Answers
pub mod Kept
pub mod Records
pub mod Handled
pub mod Commands
pub mod Locked
pub mod Locking
pub mod Opening
pub mod Inputs
pub mod Calls
pub mod Answering
pub mod Start
pub mod Growth
pub mod Notices
pub mod Turns
pub mod Waiting
pub mod Histories
pub mod Crash
pub mod Tests
