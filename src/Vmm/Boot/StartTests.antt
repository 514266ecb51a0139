-- ===== src/Vmm/Boot/StartTests.antt =====
-- The boot set-up of a bzImage on a region of 16 MB and a vCPU that is its registers.
use litedroid.Base.{true, replicate, ok, codes}
use litedroid.Kvm.Vcpu.{VcpuExit, VcpuFd, KvmRegs}
use litedroid.Vmm.Boot.{KvmSegment, KvmSregs}
use litedroid.Vmm.Boot.Entry.{Booting}
use litedroid.Vmm.Boot.Start.{setup_boot}
use litedroid.Vmm.Boot.Registers.{Entry}

pub record Registers : Type 0 where
  pub general : KvmRegs
  pub system : KvmSregs

abbrev fd : VcpuFd Registers KvmSregs
fd = record {
  run = λ c ram. (ok VcpuExit.hlt, c, ram);
  fill = λ bytes c. c;
  get_regs = λ c. ok c.general;
  set_regs = λ regs c. (ok tt, record c { general = regs });
  get_sregs = λ c. ok c.system;
  set_sregs = λ sregs c. (ok tt, record c { system = sregs });
}

abbrev no_segment : KvmSegment
no_segment = record {
  selector = 0;
  base = 0;
  limit = 0;
  type_ = 0;
  present = 0;
  dpl = 0;
  db = 0;
  s = 0;
  l = 0;
  g = 0;
  avl = 0;
}

abbrev reset : Booting Registers
reset = record {
  memory = record { base = 0x10000; size = 0x1_000_000; bytes = λ i. 0 };
  vcpu = record {
    general = record {
      rax = 1;
      rbx = 1;
      rcx = 1;
      rdx = 1;
      rsi = 1;
      rdi = 1;
      rsp = 1;
      rbp = 1;
      rip = 1;
      rflags = 1;
    };
    system = record {
      cs = no_segment;
      ds = no_segment;
      es = no_segment;
      fs = no_segment;
      gs = no_segment;
      ss = no_segment;
      gdt_base = 0;
      gdt_limit = 0;
      cr0 = 0;
      cr3 = 0;
      cr4 = 0;
      efer = 0;
    };
  };
}

abbrev booted : Booting Registers
booted = (setup_boot fd 2048 (codes "console") true (replicate 0x9f 1) 4 reset).1
