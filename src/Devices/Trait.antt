-- ===== src/Devices/Trait.antt =====
-- crates/devices/src/lib.rs: the trait `VirtDevice`. A method that takes `&mut self` returns the
-- new device.
use litedroid.Base.{ℕ, String}

pub record VirtDevice (D : Type 0) : Type 0 where
  pub name : D → String
  pub device_type : D → String
  pub mmio_read : D → (offset size : ℕ) → ℕ × D
  pub mmio_write : D → (offset size value : ℕ) → D
  pub reset : D → D
  pub device_tree_compatible : D → String

abbrev pub virtio_magic : ℕ
virtio_magic = 0x7472_6976

abbrev pub virtio_version_2 : ℕ
virtio_version_2 = 2
