-- ===== src/Vmm/Boot/Tests.antt =====
-- The boot set-up on a region of 16 MB, and a kernel of two sectors.
use litedroid.Base.{
  ℕ, ◌*◌, ◌<◌, ◌≡◌, refl, true, false, List, [], ◌++◌, length, take, drop, replicate, ok, min,
  arith, codes, le_bytes, from_le_bytes,
}
use litedroid.Core.Constants.{kernel_load_addr}
use litedroid.Memory.{GuestMemory, read_guest, write_guest, load_blob, check_range, checked_add}
use litedroid.Memory.Copy.{copy_in}
use litedroid.Vmm.GuestWord.{read_u32}
use litedroid.Vmm.Boot.{pml4_addr, large_page, page_count, setup_page_tables}
use litedroid.Vmm.Boot.PageTables.{translate, setup_page_tables-identity}
use litedroid.Vmm.Boot.Kernel.{
  Loaded, setup_size, load_bzimage, place_bzimage, retain_header, load_bzimage-loaded,
}

abbrev memory : GuestMemory
memory = record { base = 0x10000; size = 0x1_000_000; bytes = λ i. 0 }

setup_page_tables-identity_example :
    (m' : GuestMemory) × (setup_page_tables 2048 memory ≡ ok m')
    × ((va : ℕ) → va < min (page_count 2048) 512 * large_page → translate m' pml4_addr va ≡ ok va)
setup_page_tables-identity_example =
    setup_page_tables-identity 2048 memory (omega arith) (omega arith)

abbrev machine : Loaded
machine = record {
  memory = memory;
  kernel_is_bzimage = false;
  bzimage_header = [];
  initramfs_size = 0;
}

-- A kernel of `n` bytes past offset 0x250, with a payload offset of 0x200.
abbrev kernel : ℕ → List ℕ
kernel n =
    replicate 0x202 0
    ++ (codes "HdrS" ++ (replicate 0x42 0 ++ (le_bytes 4 0x200 ++ (le_bytes 4 0 ++ replicate n 1))))

abbrev loaded : Loaded
loaded = record {
  memory = record memory {
    bytes =
        copy_in (copy_in (λ i. 0) 0x10000 (take 0x200 (kernel 0x100))) kernel_load_addr
          (drop 0x200 (kernel 0x100));
  };
  kernel_is_bzimage = true;
  bzimage_header = take 0x9f (drop 0x1f1 (kernel 0x100));
  initramfs_size = 0;
}

kernel_loads : load_bzimage (kernel 0x100) machine ≡ ok loaded
unfolding load_bzimage place_bzimage retain_header setup_size load_blob write_guest check_range
    checked_add read_u32 le_bytes from_le_bytes
kernel_loads = refl

load_bzimage-loaded_example :
    (read_guest loaded.memory kernel_load_addr
        (length (drop (setup_size (kernel 0x100)) (kernel 0x100)))
      ≡ ok (drop (setup_size (kernel 0x100)) (kernel 0x100)))
    × (length loaded.bzimage_header ≡ 0x9f)
    × (loaded.kernel_is_bzimage ≡ true)
load_bzimage-loaded_example =
    load_bzimage-loaded (kernel 0x100) machine loaded (omega arith) kernel_loads
