-- ===== src/Vmm/Boot/Registers.antt =====
-- The registers with which vCPU 0 enters the kernel.
use litedroid.Base.{◌/◌, ◌%◌, ◌^◌, ℕ, ◌≡◌, ok}
use litedroid.Action.{Action}
use litedroid.Core.Error.{Result}
use litedroid.Kvm.Vcpu.{VcpuFd, KvmRegs, get_regs, get_sregs}
use litedroid.Vmm.Boot.{KvmSregs}
use litedroid.Vmm.Boot.Entry.{Booting}

-- KVM keeps the registers that it is given.
pub record KeepsRegisters {C S : Type 0} (fd : VcpuFd C S) : Type 0 where
  pub set_regs_kept :
      (regs : KvmRegs) (c c' : C)
      → fd.set_regs regs c ≡ (ok tt, c')
      → (fd.get_regs c' ≡ ok regs) × (fd.get_sregs c' ≡ fd.get_sregs c)
  pub set_sregs_kept :
      (sregs : S) (c c' : C) → fd.set_sregs sregs c ≡ (ok tt, c') → fd.get_sregs c' ≡ ok sregs

-- A bit of a register.
abbrev bit : (n i : ℕ) → ℕ
bit n i = n / 2 ^ i % 2

-- By the processor's manual: CR0.PE without CR0.PG and EFER.LME, a flat 32-bit code segment.
pub record InProtectedMode (sregs : KvmSregs) (regs : KvmRegs) : Type 0 where
  protected : bit sregs.cr0 0 ≡ 1
  unpaged : bit sregs.cr0 31 ≡ 0
  legacy : bit sregs.efer 8 ≡ 0
  code : (sregs.cs.base ≡ 0) × (sregs.cs.limit ≡ 0xffff_ffff) × (sregs.cs.db ≡ 1) × (sregs.cs.l ≡ 0)
  segments : (sregs.ds.base ≡ 0) × (sregs.es.base ≡ 0) × (sregs.ss.base ≡ 0)
  table : (sregs.gdt_base ≡ 0x8_0000) × (sregs.gdt_limit ≡ 31)
  start : regs.rip ≡ 0x10_0000
  zero_page : regs.rsi ≡ 0x9_0000
  stack : regs.rsp ≡ 0x1_0000

-- CR0.PE and CR0.PG, CR4.PAE, EFER.LME and EFER.LMA, and a 64-bit code segment.
pub record InLongMode (sregs : KvmSregs) (regs : KvmRegs) : Type 0 where
  protected : bit sregs.cr0 0 ≡ 1
  paged : bit sregs.cr0 31 ≡ 1
  extended : bit sregs.cr4 5 ≡ 1
  long : (bit sregs.efer 8 ≡ 1) × (bit sregs.efer 10 ≡ 1)
  tables : sregs.cr3 ≡ 0x7_0000
  code : (sregs.cs.base ≡ 0) × (sregs.cs.db ≡ 0) × (sregs.cs.l ≡ 1)
  segments : (sregs.ds.base ≡ 0) × (sregs.es.base ≡ 0) × (sregs.ss.base ≡ 0)
  table : (sregs.gdt_base ≡ 0x8_0000) × (sregs.gdt_limit ≡ 31)
  start : regs.rip ≡ 0x10_0000
  initramfs : regs.rsi ≡ 0x800_0000
  stack : regs.rsp ≡ 0x80_0000

abbrev vcpu_after : {C A : Type 0} → Result A × Booting C → C
vcpu_after (r, b) = b.vcpu

module _ {C : Type 0} (fd : VcpuFd C KvmSregs) (kept : KeepsRegisters fd) where
  -- The vCPU holds what `f` and `g` make of the system registers and the others that it had.
  abbrev pub Enters : (KvmSregs → KvmSregs) → (KvmRegs → KvmRegs) → Booting C → Type 0
  Enters f g b =
      (sregs : KvmSregs) × (regs : KvmRegs) × (fd.get_sregs b.vcpu ≡ ok (f sregs))
      × (fd.get_regs b.vcpu ≡ ok (g regs))

  -- The vCPU holds registers of which `P` holds.
  abbrev pub Entry : (KvmSregs → KvmRegs → Type 0) → Booting C → Type 0
  Entry P b =
      (sregs : KvmSregs) × (regs : KvmRegs) × (fd.get_sregs b.vcpu ≡ ok sregs)
      × (fd.get_regs b.vcpu ≡ ok regs)
      × P sregs regs
