-- ===== src/Vmm/Run/Tests.antt =====
-- A guest that writes and reads the queue page's register, and halts.
use litedroid.Base.{
  ◌==◌, if◌then◌else◌, ℕ, zero, suc, ◌+◌, ◌≡◌, ◌≢◌, refl, subst, true, none, some, List, [], ◌∷◌,
  ok, err, panic, out_of_fuel, replicate, length, IsBytes, arith,
}
use litedroid.Core.Constants.{virtio_mmio_start}
use litedroid.Core.Error.{LiteDroidError}
use litedroid.Kvm.Vcpu.{VcpuExit, VcpuFd, run_with_mmio}
use litedroid.Storage.Image.{FileOps}
use litedroid.Vmm.Block.{write}
use litedroid.Vmm.Block.Region.{ReadsBytes}
use litedroid.Vmm.Run.{Machine, turn, run}
use litedroid.Vmm.Run.Sound.{IsSound, IsVcpu, Exits}
use litedroid.Vmm.Run.Reach.{here, turned, IsKept, run_stays_sound}

-- A disk of zeros.
abbrev ops : FileOps (Unit {0})
ops = record {
  path_error = λ p. none;
  open_create = λ p. some tt;
  open_rdwr = λ p. some tt;
  ftruncate = λ f n. some tt;
  fstat_size = λ f. some 1024;
  pread = λ f o n. some (replicate n 0);
  pwrite = λ f o bs. (some (length bs), tt);
  fsync = λ f. true;
  last_os_error = "";
}

zeros-IsBytes : (n : ℕ) → IsBytes (replicate n 0)
zeros-IsBytes zero = tt
zeros-IsBytes (suc n) = (omega arith, zeros-IsBytes n)

bytes_read : ReadsBytes ops
bytes_read fd offset len bs e = subst IsBytes (ground arith) (zeros-IsBytes len)

-- A vCPU that makes the exits of a list of short writes, and then halts.
abbrev next_exit : List ℕ → VcpuExit
next_exit [] = VcpuExit.hlt
next_exit (b ∷ rest) = VcpuExit.mmio_write (virtio_mmio_start + 0x40) (b ∷ [])

abbrev rest_of : List ℕ → List ℕ
rest_of [] = []
rest_of (b ∷ rest) = rest

-- Each run stores a 1 at address 0x2000.
abbrev store : (ℕ → ℕ) → ℕ → ℕ
store ram i = if i == 0x2000 then 1 else ram i

abbrev fd : VcpuFd (List ℕ) (Unit {0})
fd = record {
  run = λ script ram. (ok (next_exit script), rest_of script, store ram);
  fill = λ bytes script. script;
  get_regs = λ script. err "";
  set_regs = λ regs script. (ok tt, script);
  get_sregs = λ script. ok tt;
  set_sregs = λ sregs script. (ok tt, script);
}

narrow : (script : List ℕ) → Exits (ok (next_exit script))
narrow [] = tt
narrow (b ∷ rest) = omega arith

fd-IsVcpu : IsVcpu fd
fd-IsVcpu = record {
  exits = λ script ram. narrow script;
  writes_bytes = λ script ram h i. ground (arith, h i);
}

abbrev machine : Machine (Unit {0}) (List ℕ)
machine = record {
  running = true;
  guest = record {
    device = record {
      disk = record { fd = tt; size = 1024 };
      queue_num = 4;
      queue_pfn = 1;
      status = 0;
      last_avail = 0;
    };
    memory = record { base = 0; size = 0x10000; bytes = λ i. 0 };
  };
  vcpu = 5 ∷ [];
}

machine-IsSound : IsSound machine
machine-IsSound = record {
  device = record {
    num = omega arith;
    pfn = omega arith;
    status = omega arith;
    avail = omega arith;
  };
  memory = record { mapped = omega arith; holds = λ i. omega arith };
}

abbrev after_write : Machine (Unit {0}) (List ℕ)
after_write = (turn ops fd 0 machine).1

write_succeeds : (turn ops fd 0 machine).0 ≡ ok tt
unfolding turn write run_with_mmio
write_succeeds = refl

run_stays_sound_example :
    IsKept ops fd 0 machine after_write
    × ((turn ops fd 0 after_write).0 ≢ out_of_fuel)
    × ((e : LiteDroidError) → (turn ops fd 0 after_write).0 ≢ err e)
    × (after_write.guest.device.queue_num ≢ 0 → (turn ops fd 0 after_write).0 ≢ panic)
run_stays_sound_example =
    run_stays_sound ops fd 0 bytes_read fd-IsVcpu machine-IsSound (turned here refl write_succeeds)
