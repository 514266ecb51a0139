-- ===== src/Memory.antt =====
-- crates/memory/src/lib.rs: guest physical memory, a region that `mmap` returned. The bytes are a
-- function of the guest address; `mmap` is a parameter, its anonymous pages read as zero, and
-- `base` is the host address that it returned. Unmapping (`Drop`) is not modelled.
pub mod Copy
pub mod Access
mod Tests
use litedroid.Base.{
  ℕ, ◌+◌, ◌-◌, ◌^◌, ◌<◌, String, ◌<>◌, show, Option, none, some, List, length, Bool, ok, err, panic,
  ltb, ◌==◌, if◌then◌else◌,
}
use litedroid.Core.Error.{
  Result, memory_allocation_failed, memory_map_failed, guest_address_out_of_range,
}
use Copy.{bytes_at, copy_in}

pub record GuestMemory : Type 0 where
  pub base : ℕ
  pub size : ℕ
  pub bytes : ℕ → ℕ

-- `checked_add` on `u64`.
unfoldable pub checked_add : ℕ → ℕ → Option ℕ
checked_add a b = if ltb (a + b) (2 ^ 64) then some (a + b) else none

-- `NonNull::new(ptr).expect(…)` panics on a null pointer.
unfoldable pub new : (ℕ → Option ℕ) → ℕ → Result GuestMemory
new mmap size_bytes =
    if size_bytes == 0 then err (memory_allocation_failed 0 0) else elim (mmap size_bytes) [
      | none ↦ err (memory_map_failed ("mmap failed for " <> show size_bytes <> " bytes"))
      | some ptr ↦
          if ptr == 0 then panic else ok (record { base = ptr; size = size_bytes; bytes = λ i. 0 })
    ]

-- The check that `read_guest` and `write_guest` share: `n` bytes at `addr` lie in the region.
unfoldable pub check_range {ℓ} : {A : Type ℓ} → GuestMemory → ℕ → ℕ → A → Result A
unfolding checked_add
check_range m addr n a = elim (checked_add addr n) [
  | none ↦ err (guest_address_out_of_range addr)
  | some end ↦ if ltb m.size end then err (guest_address_out_of_range addr) else ok a
]

-- `read_guest` fills a buffer of `n` bytes.
unfoldable pub read_guest : GuestMemory → ℕ → ℕ → Result (List ℕ)
unfolding check_range
read_guest m addr n = check_range m addr n (bytes_at m.bytes addr n)

unfoldable pub write_guest : GuestMemory → ℕ → List ℕ → Result GuestMemory
unfolding check_range
write_guest m addr bs =
    check_range m addr (length bs) (record m { bytes = copy_in m.bytes addr bs })

unfoldable pub load_blob : GuestMemory → ℕ → List ℕ → Result GuestMemory
unfolding write_guest
load_blob m addr bs = write_guest m addr bs

unfoldable pub userspace_addr : GuestMemory → ℕ
userspace_addr m = m.base
