-- ===== src/Devices.antt =====
-- crates/devices/src/lib.rs: the `VirtDevice` trait as an interface, the MMIO bus over any type of
-- devices, and the serial and RNG devices. The mutex round the device list is not modelled: each
-- method holds it from its first use of the list to its return.
pub mod Trait
pub mod Bus
pub mod Serial
pub mod Rng
mod Tests
