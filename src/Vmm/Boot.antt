-- ===== src/Vmm/Boot.antt =====
-- crates/vmm/src/lib.rs: the boot set-up in guest memory and in the system registers. KVM's structs
-- are the fields that the code sets; the others are zero (`std::mem::zeroed`).
pub mod PageTables
pub mod Segments
pub mod Kernel
pub mod Entry
pub mod Start
pub mod Registers
mod Tests
mod StartTests
use litedroid.Base.{
  ℕ, zero, suc, ◌+◌, ◌-◌, ◌*◌, ◌/◌, List, ◌++◌, replicate, bit_or, min, wrap64, le_bytes, ok, ◌>>=◌,
}
use litedroid.Core.Error.{Result}
use litedroid.Memory.{GuestMemory, write_guest, load_blob}

abbrev pub pml4_addr : ℕ
pml4_addr = 0x70_000

abbrev pub pdpt_addr : ℕ
pdpt_addr = 0x71_000

abbrev pub pd_addr : ℕ
pd_addr = 0x72_000

abbrev pub gdt_addr : ℕ
gdt_addr = 0x80_000

abbrev pub kernel_code_segment : ℕ
kernel_code_segment = 0x10

abbrev pub kernel_data_segment : ℕ
kernel_data_segment = 0x18

abbrev pub boot_stack_pointer : ℕ
boot_stack_pointer = 0x800_000

abbrev pub large_page : ℕ
large_page = 2 * 1024 * 1024

unfoldable pub write_u64 : GuestMemory → (addr value : ℕ) → Result GuestMemory
write_u64 m addr value = write_guest m addr (le_bytes 8 value)

-- The number of 2 MB pages that hold `ram_mb` of memory.
unfoldable pub page_count : (ram_mb : ℕ) → ℕ
page_count ram_mb = wrap64 (wrap64 (ram_mb * 1024 * 1024) + large_page - 1) / large_page

unfoldable pub pd_entry : ℕ → ℕ
pd_entry i = bit_or (i * large_page) 0x83

-- The loop over the page directory, from entry `i` on, with `n` entries to go.
unfoldable pub write_entries : (n i : ℕ) → GuestMemory → Result GuestMemory
unfolding write_u64 pd_entry
write_entries zero i m = ok m
write_entries (suc n) i m = do
  m ← write_u64 m (pd_addr + i * 8) (pd_entry i)
  write_entries n (i + 1) m

unfoldable pub setup_page_tables : (ram_mb : ℕ) → GuestMemory → Result GuestMemory
unfolding page_count write_u64 write_entries
setup_page_tables ram_mb m = do
  m ← write_u64 m pml4_addr (bit_or pdpt_addr 0x03)
  m ← write_u64 m pdpt_addr (bit_or pd_addr 0x03)
  write_entries (min (page_count ram_mb) 512) 0 m

abbrev pub code_segment_64 : ℕ
code_segment_64 = 0x00af_9b00_0000_0000

abbrev pub data_segment_64 : ℕ
data_segment_64 = 0x00cf_9300_0000_ffff

unfoldable pub setup_gdt : GuestMemory → Result GuestMemory
unfolding write_u64
setup_gdt m = do
  m ← write_u64 m gdt_addr 0
  m ← write_u64 m (gdt_addr + 8) 0
  m ← write_u64 m (gdt_addr + 16) code_segment_64
  write_u64 m (gdt_addr + 24) data_segment_64

pub record KvmSegment : Type 0 where
  pub selector : ℕ
  pub base : ℕ
  pub limit : ℕ
  pub type_ : ℕ
  pub present : ℕ
  pub dpl : ℕ
  pub db : ℕ
  pub s : ℕ
  pub l : ℕ
  pub g : ℕ
  pub avl : ℕ

pub record KvmSregs : Type 0 where
  pub cs : KvmSegment
  pub ds : KvmSegment
  pub es : KvmSegment
  pub fs : KvmSegment
  pub gs : KvmSegment
  pub ss : KvmSegment
  pub gdt_base : ℕ
  pub gdt_limit : ℕ
  pub cr0 : ℕ
  pub cr3 : ℕ
  pub cr4 : ℕ
  pub efer : ℕ

-- The segment that `setup_sregs` builds for code, and `make_flat_data_segment`.
unfoldable pub code_segment : KvmSegment
code_segment = record {
  selector = kernel_code_segment;
  base = 0;
  limit = 0xfffff;
  type_ = 0xb;
  present = 1;
  dpl = 0;
  db = 0;
  s = 1;
  l = 1;
  g = 1;
  avl = 0;
}

unfoldable pub make_flat_data_segment : (selector : ℕ) → KvmSegment
make_flat_data_segment selector = record {
  selector = selector;
  base = 0;
  limit = 0xfffff;
  type_ = 0x3;
  present = 1;
  dpl = 0;
  db = 1;
  s = 1;
  l = 0;
  g = 1;
  avl = 0;
}

-- What `setup_sregs` makes of the registers that it got.
unfoldable pub setup_sregs : KvmSregs → KvmSregs
unfolding code_segment make_flat_data_segment
setup_sregs sregs =
    let flat = make_flat_data_segment kernel_data_segment in
    record sregs {
      cs = code_segment;
      ds = flat;
      es = flat;
      fs = flat;
      gs = flat;
      ss = flat;
      gdt_base = gdt_addr;
      gdt_limit = 4 * 8 - 1;
      cr0 = 0x8000_0011;
      cr3 = pml4_addr;
      cr4 = 0x20;
      efer = 0x500;
    }

abbrev pub code_segment_32 : ℕ
code_segment_32 = 0x00cf_9a00_0000_ffff

abbrev pub data_segment_32 : ℕ
data_segment_32 = 0x00cf_9200_0000_ffff

-- The buffer of 32 bytes is the null descriptor, an unused one, and the two segments.
unfoldable pub setup_gdt_32bit : GuestMemory → Result GuestMemory
setup_gdt_32bit m =
    load_blob m gdt_addr
      (replicate 16 0 ++ (le_bytes 8 code_segment_32 ++ le_bytes 8 data_segment_32))

unfoldable pub flat_segment_32 : (selector type_ : ℕ) → KvmSegment
flat_segment_32 selector type_ = record {
  selector = selector;
  base = 0;
  limit = 0xffff_ffff;
  type_ = type_;
  present = 1;
  dpl = 0;
  db = 1;
  s = 1;
  l = 0;
  g = 1;
  avl = 0;
}

unfoldable pub setup_sregs_32bit : KvmSregs → KvmSregs
unfolding flat_segment_32
setup_sregs_32bit sregs =
    let flat = flat_segment_32 0x18 0x2 in
    record sregs {
      cs = flat_segment_32 0x10 0xa;
      ds = flat;
      es = flat;
      fs = flat;
      gs = flat;
      ss = flat;
      gdt_base = gdt_addr;
      gdt_limit = 31;
      cr0 = 0x11;
      cr3 = 0;
      cr4 = 0;
      efer = 0;
    }
