-- ===== src/Memory/Access.antt =====
-- What a read and a write of guest memory return, and what a write leaves alone.
use litedroid.Base.{
  ℕ, ◌+◌, ◌^◌, ◌≤◌, ◌<◌, ◌≡◌, ◌⊎◌, inl, inr, refl, ap, ◌∙◌, List, length, ok, err, IsByte, IsBytes,
  arith,
}
use litedroid.Core.Error.{guest_address_out_of_range}
use litedroid.Memory.{GuestMemory, check_range, read_guest, write_guest}
use litedroid.Memory.Copy.{
  bytes_at, copy_in, copy_in_outside, bytes_at_agree, bytes_at-copy_in, copy_in-IsByte,
}

-- A region that the host can map, and that holds bytes.
pub record IsRegion (m : GuestMemory) : Type 0 where
  pub mapped : m.size < 2 ^ 64
  pub holds : (i : ℕ) → IsByte (m.bytes i)

pub check_range_inside {ℓ} :
    {A : Type ℓ} (m : GuestMemory) (addr n : ℕ) (a : A)
    → m.size < 2 ^ 64
    → addr + n ≤ m.size
    → check_range m addr n a ≡ ok a
unfolding check_range
check_range_inside m addr n a s h = ground arith

pub check_range_outside {ℓ} :
    {A : Type ℓ} (m : GuestMemory) (addr n : ℕ) (a : A)
    → m.size < addr + n
    → check_range m addr n a ≡ err (guest_address_out_of_range addr)
unfolding check_range
check_range_outside m addr n a h = ground arith

pub check_range-eq-ok {ℓ} :
    {A : Type ℓ} (m : GuestMemory) (addr n : ℕ) (a b : A)
    → check_range m addr n a ≡ ok b
    → (addr + n ≤ m.size) × (a ≡ b)
unfolding check_range
check_range-eq-ok m addr n a b h = (ground arith, ground arith)

-- In a mapped region, a read is answered with the bytes of its range when the range lies in the
-- region, and with an error that names its address otherwise.
pub read_guest_bounds :
    (m : GuestMemory) (addr n : ℕ)
    → m.size < 2 ^ 64
    → (addr + n ≤ m.size → read_guest m addr n ≡ ok (bytes_at m.bytes addr n))
      × (m.size < addr + n → read_guest m addr n ≡ err (guest_address_out_of_range addr))
unfolding read_guest
read_guest_bounds m addr n s =
    (check_range_inside m addr n (bytes_at m.bytes addr n) s, check_range_outside m addr n _)

pub write_guest-eq-ok :
    (m m' : GuestMemory) (addr : ℕ) (bs : List ℕ)
    → write_guest m addr bs ≡ ok m'
    → (addr + length bs ≤ m.size) × (record m { bytes = copy_in m.bytes addr bs } ≡ m')
unfolding write_guest
write_guest-eq-ok m m' addr bs h = check_range-eq-ok m addr (length bs) _ m' h

pub read_guest-eq-ok :
    (m : GuestMemory) (addr n : ℕ) (bs : List ℕ)
    → read_guest m addr n ≡ ok bs
    → (addr + n ≤ m.size) × (bytes_at m.bytes addr n ≡ bs)
unfolding read_guest
read_guest-eq-ok m addr n bs h = check_range-eq-ok m addr n _ bs h

-- The region after a write in range.
abbrev pub written : GuestMemory → ℕ → List ℕ → GuestMemory
written m addr bs = record m { bytes = copy_in m.bytes addr bs }

pub write_guest_inside :
    (m : GuestMemory) (addr : ℕ) (bs : List ℕ)
    → m.size < 2 ^ 64
    → addr + length bs ≤ m.size
    → write_guest m addr bs ≡ ok (written m addr bs)
unfolding write_guest
write_guest_inside m addr bs s h = check_range_inside m addr (length bs) _ s h

pub write_guest_outside :
    (m : GuestMemory) (addr : ℕ) (bs : List ℕ)
    → m.size < addr + length bs
    → write_guest m addr bs ≡ err (guest_address_out_of_range addr)
unfolding write_guest
write_guest_outside m addr bs h = check_range_outside m addr (length bs) _ h

read_back :
    (m : GuestMemory) (addr : ℕ) (bs : List ℕ)
    → m.size < 2 ^ 64
    → addr + length bs ≤ m.size
    → read_guest (written m addr bs) addr (length bs) ≡ ok bs
read_back m addr bs s h =
    (read_guest_bounds (written m addr bs) addr (length bs) s).0 h
    ∙ ap ok (bytes_at-copy_in m.bytes addr bs)

bytes_apart :
    (m : GuestMemory) (addr : ℕ) (bs : List ℕ) (a n : ℕ)
    → (a + n ≤ addr) ⊎ (addr + length bs ≤ a)
    → bytes_at (copy_in m.bytes addr bs) a n ≡ bytes_at m.bytes a n
bytes_apart m addr bs a n d =
    bytes_at_agree _ m.bytes a n (λ i p q. copy_in_outside m.bytes addr bs i (side i p q d))
  where
    side :
        (i : ℕ)
        → a ≤ i
        → i < a + n
        → (a + n ≤ addr) ⊎ (addr + length bs ≤ a)
        → (i < addr) ⊎ (addr + length bs ≤ i)
    side i p q (inl d) = inl (omega arith)
    side i p q (inr d) = inr (omega arith)

read_apart :
    (m : GuestMemory) (addr : ℕ) (bs : List ℕ) (a n : ℕ)
    → (a + n ≤ addr) ⊎ (addr + length bs ≤ a)
    → read_guest (written m addr bs) a n ≡ read_guest m a n
unfolding read_guest check_range
read_apart m addr bs a n d = rw (bytes_apart m addr bs a n d)

-- In a mapped region, after a write that succeeds, a read of the same range returns what was
-- written, a read of a range apart from it returns what it returned before, and the region is where
-- and as large as it was.
pub read_guest-write_guest :
    (m m' : GuestMemory) (addr : ℕ) (bs : List ℕ)
    → m.size < 2 ^ 64
    → write_guest m addr bs ≡ ok m'
    → (read_guest m' addr (length bs) ≡ ok bs)
      × ((a n : ℕ) → (a + n ≤ addr) ⊎ (addr + length bs ≤ a) → read_guest m' a n ≡ read_guest m a n)
      × (m'.size ≡ m.size)
      × (m'.base ≡ m.base)
read_guest-write_guest m m' addr bs s h =
    let (fits, e) = write_guest-eq-ok m m' addr bs h in
    rw (← e) (read_back m addr bs s fits, read_apart m addr bs, refl, refl)

-- A write of bytes that succeeds leaves a mapped region of bytes one.
pub write_guest-IsRegion :
    (m m' : GuestMemory) (addr : ℕ) (bs : List ℕ)
    → IsRegion m
    → IsBytes bs
    → write_guest m addr bs ≡ ok m'
    → IsRegion m'
write_guest-IsRegion m m' addr bs r k h =
    let e = (write_guest-eq-ok m m' addr bs h).1 in
    rw (← e) (record { mapped = r.mapped; holds = copy_in-IsByte m.bytes addr bs r.holds k })
