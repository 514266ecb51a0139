-- ===== src/Network.antt =====
-- crates/network/src/lib.rs: the TAP interface, the network device and the rules for the guest's
-- traffic. The calls of the operating system are parameters.
pub mod Device
pub mod IfReq
pub mod Nat
pub mod Tap
mod Tests
