-- ===== src/Storage/Device.antt =====
-- crates/storage/src/lib.rs: `VirtioBlkDevice`.
use litedroid.Base.{ℕ, ◌==◌, if◌then◌else◌, wrap32}
use litedroid.Devices.Trait.{VirtDevice, virtio_magic, virtio_version_2}
use litedroid.Storage.Image.{RawDiskImage, sectors}

pub record VirtioBlkDevice (F : Type 0) : Type 0 where
  pub disk : RawDiskImage F
  pub status : ℕ

module _ {F : Type 0} where
  unfoldable pub new : RawDiskImage F → VirtioBlkDevice F
  new disk = record { disk = disk; status = 0 }

  unfoldable pub mmio_read : VirtioBlkDevice F → ℕ → ℕ → ℕ × VirtioBlkDevice F
  unfolding sectors
  mmio_read d offset size =
      if offset == 0x00
      then (virtio_magic, d)
      else if offset == 0x04
      then (virtio_version_2, d)
      else if offset == 0x08
      then (2, d)
      else if offset == 0x0c
      then (0, d)
      else if offset == 0x24
      then (1, d)
      else if offset == 0x30
      then (d.status, d)
      else if offset == 0x100
      then (sectors d.disk, d)
      else (0, d)

  -- A queue notification, at 0x28, is logged and changes nothing.
  unfoldable pub mmio_write : VirtioBlkDevice F → ℕ → ℕ → ℕ → VirtioBlkDevice F
  mmio_write d offset size value =
      if offset == 0x28 then d else if offset == 0x30 then record d { status = wrap32 value } else d

  unfoldable pub reset : VirtioBlkDevice F → VirtioBlkDevice F
  reset d = record d { status = 0 }

  instance abbrev pub blk_device : VirtDevice (VirtioBlkDevice F)
  blk_device = record {
    name = λ d. "virtio-blk";
    device_type = λ d. "block";
    mmio_read = mmio_read;
    mmio_write = mmio_write;
    reset = reset;
    device_tree_compatible = λ d. "virtio,block";
  }
