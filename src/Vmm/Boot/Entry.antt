-- ===== src/Vmm/Boot/Entry.antt =====
-- crates/vmm/src/lib.rs: `setup_boot` and `setup_bzimage_boot`: the zero page, the command line and
-- the registers of vCPU 0 at the kernel's entry. After an error the caller drops the machine; what
-- the memory then holds is not kept. The command line is given by its bytes.
use litedroid.Base.{ℕ, List, set, get_or, bit_or, ok, err, panic, out_of_fuel, ◌>>=◌, wrap32}
use litedroid.Core.Constants.{initramfs_load_addr}
use litedroid.Core.Error.{Result}
use litedroid.Memory.{GuestMemory}
use litedroid.Vmm.GuestWord.{write_u16, write_u32}

abbrev pub boot_params_addr : ℕ
boot_params_addr = 0x90_000

abbrev pub cmdline_addr : ℕ
cmdline_addr = 0x20_000

abbrev pub boot_params_size : ℕ
boot_params_size = 0x1000

-- The guest's memory and the state of vCPU 0.
pub record Booting (C : Type 0) : Type 0 where
  pub memory : GuestMemory
  pub vcpu : C

-- The fields of the zero page that are written over the header.
unfoldable pub fill_boot_params : (cmdline_len initramfs_size : ℕ) → List ℕ → Result (List ℕ)
unfolding write_u16 write_u32
fill_boot_params cmdline_len initramfs_size p = write_u32 p 0x228 (wrap32 cmdline_addr) >>= λ p.
    write_u32 p 0x238 (wrap32 cmdline_len) >>= λ p.
    write_u32 p 0x218 (wrap32 initramfs_load_addr) >>= λ p.
    write_u32 p 0x21c (wrap32 initramfs_size) >>= λ p. write_u16 p 0x224 0x7fff >>= λ p.
    ok (set (set p 0x210 0xff) 0x211 (bit_or (get_or p 0x211 0) 0x80))

abbrev pub with_memory :
    {C : Type 0} → Booting C → Result GuestMemory → Result (Unit {0}) × Booting C
with_memory b (ok m) = (ok tt, record b { memory = m })
with_memory b (err e) = (err e, b)
with_memory b panic = (panic, b)
with_memory b out_of_fuel = (out_of_fuel, b)
