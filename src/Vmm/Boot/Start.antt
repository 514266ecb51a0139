-- ===== src/Vmm/Boot/Start.antt =====
-- crates/vmm/src/lib.rs: the registers of vCPU 0, and `setup_boot` as a whole.
use litedroid.Base.{ℕ, ◌+◌, Bool, not, List, [], ◌∷◌, ◌++◌, length, replicate, ltb, ◌==◌}
use litedroid.Action.{Action, fail_if, lift, when, ◌>>=◌, ◌>>◌}
use litedroid.Core.Constants.{kernel_load_addr, initramfs_load_addr}
use litedroid.Core.Error.{LiteDroidError, Result, kernel_load_failed}
use litedroid.Kvm.Vcpu.{VcpuFd, KvmRegs, get_regs, set_regs, get_sregs, set_sregs}
use litedroid.Memory.{GuestMemory, load_blob}
use litedroid.Vmm.GuestWord.{copy_slice}
use litedroid.Vmm.Boot.{
  KvmSregs, boot_stack_pointer, setup_page_tables, setup_gdt, setup_sregs, setup_gdt_32bit,
  setup_sregs_32bit,
}
use litedroid.Vmm.Boot.Entry.{
  boot_params_addr, cmdline_addr, boot_params_size, Booting, with_memory, fill_boot_params,
}

abbrev pub Setup : Type 0 → Type 0 → Type 0
Setup C A = Action (Booting C) LiteDroidError A

unfoldable pub on_memory : {C : Type 0} → (GuestMemory → Result GuestMemory) → Setup C (Unit {0})
on_memory f b = with_memory b (f b.memory)

unfoldable pub on_vcpu : {C A : Type 0} → Action C LiteDroidError A → Setup C A
on_vcpu m b = let (r, c) = m b.vcpu in (r, record b { vcpu = c })

-- The entry of the 64-bit kernel.
abbrev pub entry_regs : KvmRegs → KvmRegs
entry_regs regs = record regs {
  rip = kernel_load_addr;
  rsi = initramfs_load_addr;
  rsp = boot_stack_pointer;
}

-- The entry of the bzImage's decompressor, in protected mode.
abbrev pub entry_regs_32bit : KvmRegs → KvmRegs
entry_regs_32bit regs = record regs {
  rax = 0;
  rbx = 0;
  rcx = 0;
  rdx = 0;
  rsi = boot_params_addr;
  rdi = 0;
  rbp = 0;
  rip = kernel_load_addr;
  rsp = 0x10000;
  rflags = 0x2;
}

module _ {C : Type 0} (fd : VcpuFd C KvmSregs) where
  unfoldable pub change_sregs : (KvmSregs → KvmSregs) → Setup C (Unit {0})
  unfolding on_vcpu ◌>>=◌ get_sregs set_sregs
  change_sregs f = do sregs ← on_vcpu (get_sregs fd 0); on_vcpu (set_sregs fd 0 (f sregs))

  unfoldable pub change_regs : (KvmRegs → KvmRegs) → Setup C (Unit {0})
  unfolding on_vcpu ◌>>=◌ get_regs set_regs
  change_regs f = do regs ← on_vcpu (get_regs fd 0); on_vcpu (set_regs fd 0 (f regs))

  unfoldable pub setup_bzimage_boot :
      (cmdline header : List ℕ) (initramfs_size : ℕ) → Setup C (Unit {0})
  unfolding change_sregs change_regs on_memory ◌>>=◌
  setup_bzimage_boot cmdline header initramfs_size = do
    fail_if (not (length header == 0x9f))
        (kernel_load_failed "bzImage boot header was not retained")
    boot_params ← lift (copy_slice (replicate boot_params_size 0) 0x1f1 header)
    fail_if (ltb 0x800 (length cmdline + 1))
        (kernel_load_failed "kernel command line exceeds boot parameter space")
    on_memory (λ m. load_blob m cmdline_addr (cmdline ++ 0 ∷ []))
    boot_params ← lift (fill_boot_params (length cmdline) initramfs_size boot_params)
    on_memory (λ m. load_blob m boot_params_addr boot_params)
    on_memory setup_gdt_32bit
    change_sregs setup_sregs_32bit
    change_regs entry_regs_32bit

  unfoldable pub setup_long_mode : (ram_mb : ℕ) → Setup C (Unit {0})
  unfolding change_sregs change_regs on_memory ◌>>=◌
  setup_long_mode ram_mb = do
    on_memory (setup_page_tables ram_mb)
    on_memory setup_gdt
    change_sregs setup_sregs
    change_regs entry_regs

  unfoldable pub setup_boot :
      (ram_mb : ℕ) (cmdline : List ℕ) (is_bzimage : Bool) (header : List ℕ) (initramfs_size : ℕ)
      → Setup C (Unit {0})
  unfolding setup_bzimage_boot setup_long_mode when
  setup_boot ram_mb cmdline is_bzimage header initramfs_size =
      when is_bzimage (setup_bzimage_boot cmdline header initramfs_size) (setup_long_mode ram_mb)
