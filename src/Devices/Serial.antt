-- ===== src/Devices/Serial.antt =====
-- crates/devices/src/lib.rs: `VirtioSerialDevice`. What the output callback was given is kept in
-- order, one list of bytes a call.
use litedroid.Base.{ℕ, List, [], ◌∷◌, ◌++◌, min, ◌==◌, if◌then◌else◌, wrap32, le_bytes, take}
use litedroid.Devices.Trait.{VirtDevice, virtio_magic, virtio_version_2}

pub record VirtioSerialDevice : Type 0 where
  pub status : ℕ
  pub interrupt_status : ℕ
  pub output : List (List ℕ)

unfoldable pub new : VirtioSerialDevice
new = record { status = 0; interrupt_status = 0; output = [] }

unfoldable pub mmio_read : VirtioSerialDevice → ℕ → ℕ → ℕ × VirtioSerialDevice
mmio_read d offset size =
    if offset == 0x00
    then (virtio_magic, d)
    else if offset == 0x04
    then (virtio_version_2, d)
    else if offset == 0x08
    then (3, d)
    else if offset == 0x0c
    then (0, d)
    else if offset == 0x34
    then (d.interrupt_status, d)
    else if offset == 0x40
    then (d.status, d)
    else (0, d)

unfoldable pub mmio_write : VirtioSerialDevice → ℕ → ℕ → ℕ → VirtioSerialDevice
mmio_write d offset size value =
    if offset == 0x40
    then record d { status = wrap32 value }
    else if offset == 0x100
    then record d { output = d.output ++ (take (min size 8) (le_bytes 8 value) ∷ []) }
    else d

unfoldable pub reset : VirtioSerialDevice → VirtioSerialDevice
reset d = record d { status = 0; interrupt_status = 0 }

instance abbrev pub serial_device : VirtDevice VirtioSerialDevice
serial_device = record {
  name = λ d. "virtio-serial";
  device_type = λ d. "serial";
  mmio_read = mmio_read;
  mmio_write = mmio_write;
  reset = reset;
  device_tree_compatible = λ d. "virtio,serial";
}
