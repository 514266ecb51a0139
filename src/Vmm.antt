-- ===== src/Vmm.antt =====
-- crates/vmm/src/lib.rs: the virtio block device of the virtual machine, the guest memory accesses of
-- its queue, the boot set-up, the making of a machine and its run loop.
pub mod GuestWord
pub mod Block
pub mod Boot
pub mod Create
pub mod Run
