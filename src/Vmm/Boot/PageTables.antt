-- ===== src/Vmm/Boot/PageTables.antt =====
-- The page tables of `setup_page_tables`, walked as the processor walks them.
use litedroid.Base.{
  ℕ, zero, suc, ◌+◌, ◌*◌, ◌/◌, ◌%◌, ◌^◌, ◌≤◌, ◌<◌, ◌≡◌, ◌⊎◌, inl, inr, refl, ap, ◌∙◌, ok, err,
  ◌>>=◌, ◌==◌, if◌then◌else◌, arith, min, le_bytes, length-le_bytes, from_le_bytes-le_bytes,
  Bool-cases, ==_iff, true,
}
use litedroid.Base.Bits.{bit_or_disjoint}
use litedroid.Core.Error.{Result, os_error}
use litedroid.Memory.{GuestMemory}
use litedroid.Memory.Access.{written, write_guest_inside, read_guest-write_guest}
use litedroid.Vmm.GuestWord.{guest_u64}
use litedroid.Vmm.Boot.{
  pml4_addr, pdpt_addr, pd_addr, large_page, write_u64, page_count, pd_entry, write_entries,
  setup_page_tables,
}

-- An entry that is present (bit 0) points at the table in its bits 12 to 51.
unfoldable pub next_table : (entry : ℕ) → Result ℕ
next_table entry =
    if entry % 2 == 1 then ok (entry / 2 ^ 12 % 2 ^ 40 * 2 ^ 12) else err (os_error "page fault")

-- An entry of the page directory that is present and large (bit 7) maps the 2 MB at its bits 21
-- to 51.
unfoldable pub large_frame : (entry : ℕ) → Result ℕ
large_frame entry =
    if entry % 2 == 1
    then (if entry / 2 ^ 7 % 2 == 1
        then ok (entry / 2 ^ 21 % 2 ^ 31 * 2 ^ 21)
        else err (os_error "no large page"))
    else err (os_error "page fault")

-- The physical address of a virtual one in long mode, with large pages: nine bits of the address
-- choose an entry at each level, from the table at `cr3` on.
unfoldable pub translate : GuestMemory → (cr3 va : ℕ) → Result ℕ
unfolding next_table large_frame
translate m cr3 va = do
  pml4_entry ← guest_u64 m (cr3 + va / 2 ^ 39 % 512 * 8)
  pdpt ← next_table pml4_entry
  pdpt_entry ← guest_u64 m (pdpt + va / 2 ^ 30 % 512 * 8)
  pd ← next_table pdpt_entry
  entry ← guest_u64 m (pd + va / 2 ^ 21 % 512 * 8)
  frame ← large_frame entry
  ok (frame + va % 2 ^ 21)

-- What one write of a word leaves in memory.
pub record Wrote (m m' : GuestMemory) (a v : ℕ) : Type 0 where
  pub here : guest_u64 m' a ≡ ok v
  pub elsewhere : (b : ℕ) → (b + 8 ≤ a) ⊎ (a + 8 ≤ b) → guest_u64 m' b ≡ guest_u64 m b
  pub sized : m'.size ≡ m.size

pub write_u64-Wrote :
    (m : GuestMemory) (a v : ℕ)
    → m.size < 2 ^ 64
    → a + 8 ≤ m.size
    → v < 2 ^ 64
    → (m' : GuestMemory) × (write_u64 m a v ≡ ok m') × Wrote m m' a v
unfolding write_u64 guest_u64
write_u64-Wrote m a v s h lt =
    let bs = le_bytes 8 v in
    let len = length-le_bytes 8 v in
    let m' = written m a bs in
    let wrote = write_guest_inside m a bs s (rw len h) in
    let (here, elsewhere, size, _) = read_guest-write_guest m m' a bs s wrote in
    (
      m',
      wrote,
      record {
        here = rw (rw len at here) (ap ok (from_le_bytes-le_bytes 8 v lt));
        elsewhere = λ b apart. rw (elsewhere b 8 (rw len apart)) refl;
        sized = size;
      },
    )

entry_value : (i : ℕ) → pd_entry i ≡ i * large_page + 0x83
unfolding pd_entry
entry_value i = bit_or_disjoint 21 i 0x83 (omega arith)

-- What the loop leaves in memory.
record Filled (m m' : GuestMemory) (n i : ℕ) : Type 0 where
  entries : (k : ℕ) → i ≤ k → k < i + n → guest_u64 m' (pd_addr + k * 8) ≡ ok (pd_entry k)
  others :
      (b : ℕ)
      → (b + 8 ≤ pd_addr + i * 8) ⊎ (pd_addr + (i + n) * 8 ≤ b)
      → guest_u64 m' b ≡ guest_u64 m b
  sized : m'.size ≡ m.size

write_entries-Filled :
    (n i : ℕ) (m : GuestMemory)
    → m.size < 2 ^ 64
    → pd_addr + (i + n) * 8 ≤ m.size
    → i + n ≤ 512
    → (m' : GuestMemory) × (write_entries n i m ≡ ok m') × Filled m m' n i
unfolding write_entries
write_entries-Filled zero i m s h few = (
  m,
  refl,
  record { entries = λ k p q. absurd (omega (arith, p, q)); others = λ b p. refl; sized = refl },
)
write_entries-Filled (suc n) i m s h few =
    let (m1, e1, w) =
      write_u64-Wrote m (pd_addr + i * 8) (pd_entry i) s (omega arith)
        (rw (entry_value i) (omega arith)) in
    let size1 = w.sized in
    let (m2, e2, f) =
      write_entries-Filled n (i + 1) m1 (rw size1 s) (rw size1 (omega arith)) (omega arith) in
    (
      m2,
      rw e1 e2,
      record {
        entries = λ k p q. elim (Bool-cases (k == i)) [
          | inl same ↦
              rw ((==_iff k i).0 same) (f.others (pd_addr + i * 8) (inl (omega arith)) ∙ w.here)
          | inr other ↦ f.entries k (ground arith) (omega arith)
        ];
        others = λ b p. f.others b (ground arith) ∙ w.elsewhere b (ground arith);
        sized = f.sized ∙ w.sized;
      },
    )

frame_of : (k : ℕ) → k < 512 → large_frame (k * large_page + 0x83) ≡ ok (k * large_page)
unfolding large_frame
frame_of k h =
    let present : ((k * large_page + 0x83) % 2 == 1) ≡ true = ground arith in
    let large : ((k * large_page + 0x83) / 2 ^ 7 % 2 == 1) ≡ true = ground arith in
    rw (present, large) (ap ok (omega arith))

-- A walk of tables whose entries are as the set-up writes them.
walk :
    (m : GuestMemory) (va : ℕ)
    → va < 2 ^ 30
    → guest_u64 m pml4_addr ≡ ok (pdpt_addr + 3)
    → guest_u64 m pdpt_addr ≡ ok (pd_addr + 3)
    → guest_u64 m (pd_addr + va / 2 ^ 21 * 8) ≡ ok (va / 2 ^ 21 * large_page + 0x83)
    → translate m pml4_addr va ≡ ok va
unfolding translate next_table
walk m va h e4 e3 e2 =
    let i4 : pml4_addr + va / 2 ^ 39 % 512 * 8 ≡ pml4_addr = omega arith in
    let i3 : pdpt_addr + va / 2 ^ 30 % 512 * 8 ≡ pdpt_addr = omega arith in
    let i2 : va / 2 ^ 21 % 512 ≡ va / 2 ^ 21 = omega arith in
    rw (i4, e4, i3, e3, i2, e2, frame_of (va / 2 ^ 21) (omega arith)) (ap ok (omega arith))

-- In a mapped region that reaches past the three tables, the set-up succeeds, and then the
-- processor's page walk takes every address below the memory covered (the pages of `ram_mb`, at
-- most 512 of 2 MB) to itself.
pub setup_page_tables-identity :
    (ram_mb : ℕ) (m : GuestMemory)
    → m.size < 2 ^ 64
    → 0x73_000 ≤ m.size
    → (m' : GuestMemory) × (setup_page_tables ram_mb m ≡ ok m')
      × ((va : ℕ)
          → va < min (page_count ram_mb) 512 * large_page
          → translate m' pml4_addr va ≡ ok va)
unfolding setup_page_tables
setup_page_tables-identity ram_mb m s h =
    let n = min (page_count ram_mb) 512 in
    let (m1, e1, w1) = write_u64-Wrote m pml4_addr (pdpt_addr + 3) s (omega arith) (omega arith) in
    let size1 = w1.sized in
    let (m2, e2, w2) =
      write_u64-Wrote m1 pdpt_addr (pd_addr + 3) (rw size1 s) (rw size1 (omega arith))
        (omega arith) in
    let size : m2.size ≡ m.size = w2.sized ∙ w1.sized in
    let (m3, e3, f) =
      write_entries-Filled n 0 m2 (rw size s) (rw size (omega arith)) (omega arith) in
    (
      m3,
      rw (e1, e2) e3,
      (λ va l.
          walk m3 va (omega (arith, l))
            (f.others pml4_addr (inl (omega arith))
              ∙ (w2.elsewhere pml4_addr (inl (omega arith)) ∙ w1.here))
            (f.others pdpt_addr (inl (omega arith)) ∙ w2.here)
            (f.entries (va / 2 ^ 21) (omega arith) (omega (arith, l))
              ∙ ap ok (entry_value (va / 2 ^ 21)))),
    )
