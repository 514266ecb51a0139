-- ===== src/Devices/Bus/Routing.antt =====
-- Which device an MMIO access reaches, and that it reaches no other.
use litedroid.Base.{
  ℕ, ◌+◌, ◌-◌, ◌*◌, ◌/◌, ◌%◌, ◌≤◌, ◌<◌, ◌≡◌, ◌≢◌, sym, some, [], ◌∷◌, ◌++◌, length, get_elem?, set,
  ok, ltb, false, arith, get_elem?-lt, get_elem?-append_left, get_elem?-append_right, le→ltb,
  length-append, length-set, get_elem?-set_self, get_elem?-set_ne,
}
use native.Mathlib.Nat.{add-zero}
use litedroid.Core.Constants.{virtio_mmio_start, virtio_mmio_size, max_virtio_devices}
use litedroid.Devices.Trait.{VirtDevice}
use litedroid.Devices.Bus.{VirtioBus, add_device, read, write, device_count}

-- The address of register `r` of device `i`.
abbrev pub address_of : (i r : ℕ) → ℕ
address_of i r = virtio_mmio_start + i * virtio_mmio_size + r

index_of :
    (i r : ℕ) → r < virtio_mmio_size → (address_of i r - virtio_mmio_start) / virtio_mmio_size ≡ i
index_of i r h = omega arith

register_of :
    (i r : ℕ) → r < virtio_mmio_size → (address_of i r - virtio_mmio_start) % virtio_mmio_size ≡ r
register_of i r h = omega arith

not_below : (i r : ℕ) → ltb (address_of i r) virtio_mmio_start ≡ false
not_below i r = le→ltb _ _ (omega arith)

module _ {D : Type 0} ⦃v : VirtDevice D⦄ where
  read_at :
      (bus : VirtioBus D) (a i r n : ℕ) (d : D)
      → ltb a virtio_mmio_start ≡ false
      → (a - virtio_mmio_start) / virtio_mmio_size ≡ i
      → (a - virtio_mmio_start) % virtio_mmio_size ≡ r
      → get_elem? bus.devices i ≡ some d
      → let (value, d') = v.mmio_read d r n in
        read bus a n ≡ (value, record { devices = set bus.devices i d' })
  unfolding read
  read_at bus a i r n d above index register e = ground arith

  write_at :
      (bus : VirtioBus D) (a i r n value : ℕ) (d : D)
      → ltb a virtio_mmio_start ≡ false
      → (a - virtio_mmio_start) / virtio_mmio_size ≡ i
      → (a - virtio_mmio_start) % virtio_mmio_size ≡ r
      → get_elem? bus.devices i ≡ some d
      → write bus a n value ≡ record { devices = set bus.devices i (v.mmio_write d r n value) }
  unfolding write
  write_at bus a i r n value d above index register e = ground arith

  -- A read at the address of register `r` (below 0x200) of device `i` gives what that device
  -- answers at `r`, and leaves the device in its new state and the others as they were.
  pub read_routes :
      (bus : VirtioBus D) (i r n : ℕ) (d : D)
      → get_elem? bus.devices i ≡ some d
      → r < virtio_mmio_size
      → let (value, d') = v.mmio_read d r n in
        read bus (address_of i r) n ≡ (value, record { devices = set bus.devices i d' })
  read_routes bus i r n d e h =
      read_at bus (address_of i r) i r n d (not_below i r) (index_of i r h) (register_of i r h) e

  pub write_routes :
      (bus : VirtioBus D) (i r n value : ℕ) (d : D)
      → get_elem? bus.devices i ≡ some d
      → r < virtio_mmio_size
      → write bus (address_of i r) n value
        ≡ record { devices = set bus.devices i (v.mmio_write d r n value) }
  write_routes bus i r n value d e h =
      write_at bus (address_of i r) i r n value d (not_below i r) (index_of i r h)
        (register_of i r h) e

  -- A write at the address of register `r` (below 0x200) of device `i` is what that device sees,
  -- every other device stays as it was, and so does their number.
  pub write_reaches_only :
      (bus : VirtioBus D) (i r n value : ℕ) (d : D)
      → get_elem? bus.devices i ≡ some d
      → r < virtio_mmio_size
      → let bus' = write bus (address_of i r) n value in
        (get_elem? bus'.devices i ≡ some (v.mmio_write d r n value))
        × ((j : ℕ) → j ≢ i → get_elem? bus'.devices j ≡ get_elem? bus.devices j)
        × (device_count bus' ≡ device_count bus)
  unfolding device_count
  write_reaches_only bus i r n value d e h = rw (write_routes bus i r n value d e h) (
    get_elem?-set_self bus.devices i _ (get_elem?-lt bus.devices i e),
    (λ j ne. get_elem?-set_ne bus.devices _ (λ same. ne (sym same))),
    length-set bus.devices i _,
  )

  add_device-ok :
      (bus bus' : VirtioBus D) (d : D)
      → add_device bus d ≡ ok bus'
      → (length bus.devices < max_virtio_devices)
        × (record { devices = bus.devices ++ (d ∷ []) } ≡ bus')
  unfolding add_device
  add_device-ok bus bus' d e = ground arith

  -- A device that the bus takes stands at the first free index, the devices before it keep theirs,
  -- there is one more, and there are no more than sixteen.
  pub add_device-read :
      (bus bus' : VirtioBus D) (d : D)
      → add_device bus d ≡ ok bus'
      → (get_elem? bus'.devices (device_count bus) ≡ some d)
        × ((j : ℕ) → j < device_count bus → get_elem? bus'.devices j ≡ get_elem? bus.devices j)
        × (device_count bus' ≡ device_count bus + 1)
        × (device_count bus' ≤ max_virtio_devices)
  unfolding add_device device_count
  add_device-read bus bus' d e =
      let (room, taken) = add_device-ok bus bus' d e in
      rw (sym taken) (
        rw add-zero at (get_elem?-append_right bus.devices (d ∷ []) 0),
        get_elem?-append_left bus.devices (d ∷ []),
        length-append bus.devices (d ∷ []),
        rw (length-append bus.devices (d ∷ [])) (omega arith),
      )
