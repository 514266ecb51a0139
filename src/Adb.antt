-- ===== src/Adb.antt =====
-- crates/adb/src/lib.rs: the messages of the ADB protocol and the handler of a client connection,
-- and the server.
pub mod Message
pub mod Connection
pub mod Server
mod Tests
