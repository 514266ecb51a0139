-- ===== src/Vmm/Boot/Segments.antt =====
-- The selectors that the system registers hold, against the descriptor table in guest memory.
use litedroid.Base.{ℕ, ◌+◌, ◌≤◌, ◌<◌, ◌^◌, ◌≡◌, ◌∙◌, inl, ok, arith}
use litedroid.Memory.{GuestMemory}
use litedroid.Vmm.GuestWord.{guest_u64}
use litedroid.Vmm.Boot.{
  gdt_addr, code_segment_64, data_segment_64, setup_gdt, KvmSregs, code_segment,
  make_flat_data_segment, setup_sregs,
}
use litedroid.Vmm.Boot.PageTables.{write_u64-Wrote}

-- The selector names the descriptor `d` in the table of `sregs`, within its limit.
pub record Selects (m : GuestMemory) (sregs : KvmSregs) (selector d : ℕ) : Type 0 where
  pub within : selector + 7 ≤ sregs.gdt_limit
  pub descriptor : guest_u64 m (sregs.gdt_base + selector) ≡ ok d

-- In a mapped region that holds the descriptor table, the set-up succeeds; then the code selector
-- names the 64-bit code segment, and the data and stack selectors the data segment, within the
-- table's limit.
pub setup_gdt-Selects :
    (m : GuestMemory) (sregs : KvmSregs)
    → m.size < 2 ^ 64
    → gdt_addr + 32 ≤ m.size
    → let r = setup_sregs sregs in
      (m' : GuestMemory) × (setup_gdt m ≡ ok m')
      × Selects m' r r.cs.selector code_segment_64
      × Selects m' r r.ds.selector data_segment_64
      × Selects m' r r.ss.selector data_segment_64
unfolding setup_gdt setup_sregs code_segment make_flat_data_segment
setup_gdt-Selects m sregs s h =
    let (m1, e1, w1) = write_u64-Wrote m gdt_addr 0 s (omega arith) (omega arith) in
    let s1 = w1.sized in
    let (m2, e2, w2) =
      write_u64-Wrote m1 (gdt_addr + 8) 0 (rw s1 s) (rw s1 (omega arith)) (omega arith) in
    let s2 : m2.size ≡ m.size = w2.sized ∙ s1 in
    let (m3, e3, w3) =
      write_u64-Wrote m2 (gdt_addr + 16) code_segment_64 (rw s2 s) (rw s2 (omega arith))
        (omega arith) in
    let s3 : m3.size ≡ m.size = w3.sized ∙ s2 in
    let (m4, e4, w4) =
      write_u64-Wrote m3 (gdt_addr + 24) data_segment_64 (rw s3 s) (rw s3 (omega arith))
        (omega arith) in
    let flat : Selects m4 (setup_sregs sregs) 0x18 data_segment_64 = record {
      within = omega arith;
      descriptor = w4.here;
    } in
    (
      m4,
      rw (e1, e2, e3) e4,
      record {
        within = omega arith;
        descriptor = w4.elsewhere (gdt_addr + 16) (inl (omega arith)) ∙ w3.here;
      },
      flat,
      flat,
    )
