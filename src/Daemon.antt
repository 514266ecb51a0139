-- ===== src/Daemon.antt =====
-- apps/daemon/src/main.rs: the daemon, which holds at most one Android emulator as a child process
-- and answers the requests of its clients.
pub mod State
pub mod Launch
pub mod Launching
pub mod Method
pub mod Replies
pub mod Requests
pub mod Held
pub mod Orphans
pub mod Safety
pub mod Gate
pub mod Connection
pub mod Ping
pub mod Server
pub mod Shutdown
pub mod Liveness
pub mod Machine
mod Tests
mod ServerTests
pub mod Answers
