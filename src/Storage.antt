-- ===== src/Storage.antt =====
-- crates/storage/src/lib.rs: a raw disk image over a host file, and the virtio block device of that
-- crate.
pub mod Image
pub mod Device
