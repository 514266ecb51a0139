-- ===== src/Devices/Bus.antt =====
-- crates/devices/src/lib.rs: `VirtioBus` routes an MMIO access to the device at
-- `VIRTIO_MMIO_START + index * VIRTIO_MMIO_SIZE`.
pub mod Routing
use litedroid.Base.{
  ℕ, ◌-◌, ◌/◌, ◌%◌, String, none, some, List, [], ◌∷◌, ◌++◌, map, length, get_elem?, set, ok, err,
  ltb, leb, if◌then◌else◌,
}
use litedroid.Core.Constants.{virtio_mmio_start, virtio_mmio_size, max_virtio_devices}
use litedroid.Core.Error.{Result, device_already_exists}
use litedroid.Devices.Trait.{VirtDevice}

pub record VirtioBus (D : Type 0) : Type 0 where
  pub devices : List D

module _ {D : Type 0} ⦃v : VirtDevice D⦄ where
  unfoldable pub add_device : VirtioBus D → D → Result (VirtioBus D)
  add_device bus device =
      if leb max_virtio_devices (length bus.devices)
      then err (device_already_exists "maximum device count reached")
      else ok (record { devices = bus.devices ++ (device ∷ []) })

  unfoldable pub read : VirtioBus D → (address size : ℕ) → ℕ × VirtioBus D
  read bus address size =
      if ltb address virtio_mmio_start
      then (0, bus)
      else let offset = address - virtio_mmio_start in
        let index = offset / virtio_mmio_size in
        let reg_offset = offset % virtio_mmio_size in
        elim (get_elem? bus.devices index) [
          | some device ↦
              let (value, device') = v.mmio_read device reg_offset size in
              (value, record { devices = set bus.devices index device' })
          | none ↦ (0, bus)
        ]

  unfoldable pub write : VirtioBus D → (address size value : ℕ) → VirtioBus D
  write bus address size value =
      if ltb address virtio_mmio_start
      then bus
      else let offset = address - virtio_mmio_start in
        let index = offset / virtio_mmio_size in
        let reg_offset = offset % virtio_mmio_size in
        elim (get_elem? bus.devices index) [
          | some device ↦ record {
            devices = set bus.devices index (v.mmio_write device reg_offset size value);
          }
          | none ↦ bus
        ]

  unfoldable pub reset_all : VirtioBus D → VirtioBus D
  reset_all bus = record { devices = map v.reset bus.devices }

unfoldable pub new : {D : Type 0} → VirtioBus D
new = record { devices = [] }

unfoldable pub device_count : {D : Type 0} → VirtioBus D → ℕ
device_count bus = length bus.devices
