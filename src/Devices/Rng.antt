-- ===== src/Devices/Rng.antt =====
-- crates/devices/src/lib.rs: `VirtioRngDevice`. `read_exact` on /dev/urandom is a parameter: a read
-- of `n` bytes returns them, or fails, and leaves the file in a new state.
use litedroid.Base.{
  ℕ, ◌*◌, bit_or, Option, none, some, List, foldl, ◌==◌, if◌then◌else◌, wrap32, wrap64,
}
use litedroid.Devices.Trait.{VirtDevice, virtio_magic, virtio_version_2}

pub record VirtioRngDevice (F : Type 0) : Type 0 where
  pub status : ℕ
  pub urandom : F

-- `(val << 8) | b` on `u64`.
unfoldable pub shift_in : ℕ → ℕ → ℕ
shift_in val b = bit_or (wrap64 (val * 256)) b

module _ {F : Type 0} (read_exact : F → ℕ → Option (List ℕ) × F) where
  unfoldable pub mmio_read : VirtioRngDevice F → ℕ → ℕ → ℕ × VirtioRngDevice F
  unfolding shift_in
  mmio_read d offset size =
      if offset == 0x00
      then (virtio_magic, d)
      else if offset == 0x04
      then (virtio_version_2, d)
      else if offset == 0x08
      then (4, d)
      else if offset == 0x0c
      then (0, d)
      else if offset == 0x40
      then (d.status, d)
      else if offset == 0x100
      then (let (answer, urandom') = read_exact d.urandom size in
          (
            elim answer [ some buf ↦ foldl shift_in 0 buf | none ↦ 0 ],
            record d { urandom = urandom' },
          ))
      else (0, d)

  unfoldable pub mmio_write : VirtioRngDevice F → ℕ → ℕ → ℕ → VirtioRngDevice F
  mmio_write d offset size value = if offset == 0x40 then record d { status = wrap32 value } else d

  unfoldable pub reset : VirtioRngDevice F → VirtioRngDevice F
  reset d = record d { status = 0 }

  abbrev pub rng_device : VirtDevice (VirtioRngDevice F)
  rng_device = record {
    name = λ d. "virtio-rng";
    device_type = λ d. "rng";
    mmio_read = mmio_read;
    mmio_write = mmio_write;
    reset = reset;
    device_tree_compatible = λ d. "virtio,rng";
  }
