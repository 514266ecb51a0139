-- ===== src/Memory/Tests.antt =====
-- A region of 4 KB.
use litedroid.Base.{ℕ, ◌+◌, ◌≤◌, ◌≡◌, ◌⊎◌, refl, [], ◌∷◌, ok, arith}
use litedroid.Memory.{GuestMemory, read_guest, write_guest, check_range, checked_add}
use litedroid.Memory.Copy.{copy_in}
use litedroid.Memory.Access.{read_guest-write_guest}

abbrev region : GuestMemory
region = record { base = 0x10000; size = 4096; bytes = λ i. 5 }

abbrev region_after : GuestMemory
region_after = record region { bytes = copy_in (λ i. 5) 100 (1 ∷ 2 ∷ []) }

writes : write_guest region 100 (1 ∷ 2 ∷ []) ≡ ok region_after
unfolding write_guest check_range checked_add
writes = refl

read_guest-write_guest_example :
    (read_guest region_after 100 2 ≡ ok (1 ∷ 2 ∷ []))
    × ((a n : ℕ) → (a + n ≤ 100) ⊎ (102 ≤ a) → read_guest region_after a n ≡ read_guest region a n)
    × (4096 ≡ region.size)
    × (0x10000 ≡ region.base)
read_guest-write_guest_example =
    read_guest-write_guest region region_after 100 (1 ∷ 2 ∷ []) (omega arith) writes
