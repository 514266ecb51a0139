-- ===== src/Vmm/Run/Sound.antt =====
-- What the guest can make the loop do, turn by turn.
use litedroid.Base.{
  ℕ, ◌-◌, ◌≤◌, refl, List, length, Outcome, ok, err, panic, out_of_fuel, if_split, from_le_bytes,
  le→ltb, String, arith, IsByte,
}
use litedroid.Core.Constants.{virtio_mmio_start}
use litedroid.Core.Error.{Result}
use litedroid.Kvm.Vcpu.{
  VcpuExit, VcpuExitInfo, VcpuFd, run_with_mmio, on_exit, after_run, put, hlt, io_out, io_in,
  mmio_read, mmio_write, exception, shutdown, internal_error, unknown, fail_entry,
}
use litedroid.Memory.Access.{IsRegion}
use litedroid.Storage.Image.{FileOps}
use litedroid.Vmm.Block.{VirtioBlock}
use litedroid.Vmm.Block.Notify.{IsDevice, Accepted, write-Accepted, set-Accepted}
use litedroid.Vmm.Block.Region.{ReadsBytes, write-IsMapped}
use litedroid.Vmm.Run.{
  Machine, in_window, answer_read, handle_write, handle_exit, handle_result, turn, entered,
}

-- An access to memory-mapped I/O is of at most the eight bytes of `kvm_run.mmio.data`.
abbrev pub IsNarrow : VcpuExit → Type 0
IsNarrow (VcpuExit.mmio_read addr len) = len ≤ 8
IsNarrow (VcpuExit.mmio_write addr bytes) = length bytes ≤ 8
IsNarrow VcpuExit.hlt = Unit {0}
IsNarrow _ = Unit {0}

-- How KVM_RUN ends: with such an exit or with an error.
abbrev pub Exits : Outcome String VcpuExit → Type 0
Exits (ok exit) = IsNarrow exit
Exits (err e) = Unit {0}
Exits panic = ⊥
Exits out_of_fuel = ⊥

-- The guest writes bytes.
pub record IsVcpu {C S : Type 0} (fd : VcpuFd C S) : Type 0 where
  pub exits : (c : C) (ram : ℕ → ℕ) → Exits (fd.run c ram).0
  pub writes_bytes :
      (c : C) (ram : ℕ → ℕ) → ((i : ℕ) → IsByte (ram i)) → (i : ℕ) → IsByte ((fd.run c ram).2 i)

abbrev IsNarrowInfo : VcpuExitInfo → Type 0
IsNarrowInfo (mmio_write addr size bytes) = length bytes ≤ 8
IsNarrowInfo hlt = Unit {0}
IsNarrowInfo _ = Unit {0}

abbrev Informs : Result VcpuExitInfo → Type 0
Informs (ok info) = IsNarrowInfo info
Informs (err e) = Unit {0}
Informs panic = ⊥
Informs out_of_fuel = ⊥

-- The registers are in their ranges, and the memory is a mapped region of bytes.
pub record IsSound {F C : Type 0} (m : Machine F C) : Type 0 where
  pub device : IsDevice m.guest.device
  pub memory : IsRegion m.guest.memory

module _ {F C S : Type 0} (ops : FileOps F) (fd : VcpuFd C S) (index : ℕ) where
  put-Informs :
      (d : VirtioBlock F) (addr len : ℕ) (c : C)
      → len ≤ 8
      → Informs (put fd index (answer_read d addr len) addr len c).0
  unfolding put answer_read
  put-Informs d addr len c h = ground (arith, le→ltb 8 len h)

  on_exit-Informs :
      (d : VirtioBlock F) (exit : VcpuExit) (c : C)
      → IsNarrow exit
      → Informs (on_exit fd index (answer_read d) exit c).0
  unfolding on_exit
  on_exit-Informs d (VcpuExit.mmio_read addr len) c h = put-Informs d addr len c h
  on_exit-Informs d (VcpuExit.mmio_write addr bytes) c h = h
  on_exit-Informs d VcpuExit.hlt c h = tt
  on_exit-Informs d (VcpuExit.io_out port bytes) c h = tt
  on_exit-Informs d (VcpuExit.io_in port) c h = tt
  on_exit-Informs d VcpuExit.exception c h = tt
  on_exit-Informs d VcpuExit.shutdown c h = tt
  on_exit-Informs d VcpuExit.internal_error c h = tt
  on_exit-Informs d VcpuExit.unknown c h = tt
  on_exit-Informs d VcpuExit.other c h = tt
  on_exit-Informs d (VcpuExit.fail_entry reason cpu) c h = tt

  after_run-Informs :
      (d : VirtioBlock F) (r : Outcome String VcpuExit) (c : C)
      → Exits r
      → Informs (after_run fd index (answer_read d) r c).0
  unfolding after_run
  after_run-Informs d (ok exit) c h = on_exit-Informs d exit c h
  after_run-Informs d (err e) c h = tt
  after_run-Informs d panic c h = h
  after_run-Informs d out_of_fuel c h = h

  module _ (bytes_read : ReadsBytes ops) where
    -- What holds of an outcome of a turn from `m`.
    abbrev Turns : Machine F C → Result (Unit {0}) × Machine F C → Type 0
    Turns m out = Accepted ops m.guest (out.0, out.1.guest) × IsRegion out.1.guest.memory

    still : (m : Machine F C) → IsSound m → Turns m (ok tt, m)
    still m h = (set-Accepted ops m.guest m.guest h.device refl refl, h.memory)

    handle_write-Turns :
        (addr : ℕ) (bytes : List ℕ) (m : Machine F C)
        → length bytes ≤ 8
        → IsSound m
        → Turns m (handle_write ops fd index addr bytes m)
    unfolding handle_write
    handle_write-Turns addr bytes m short h =
        if_split (Turns m) (in_window addr)
          (λ _. rw (le→ltb 8 (length bytes) short) (
            write-Accepted ops m.guest (addr - virtio_mmio_start) (from_le_bytes bytes) h.memory
                h.device,
            write-IsMapped ops bytes_read m.guest (addr - virtio_mmio_start) (from_le_bytes bytes)
                h.memory,
          ))
          (λ _. still m h)

    handle_exit-Turns :
        (info : VcpuExitInfo) (m : Machine F C)
        → IsNarrowInfo info
        → IsSound m
        → Turns m (handle_exit ops fd index info m)
    unfolding handle_exit
    handle_exit-Turns (mmio_write addr size bytes) m short h =
        handle_write-Turns addr bytes m short h
    handle_exit-Turns hlt m short h = still m h
    handle_exit-Turns shutdown m short h = still m h
    handle_exit-Turns (io_out port bytes) m short h = still m h
    handle_exit-Turns (io_in port) m short h = still m h
    handle_exit-Turns (mmio_read addr size) m short h = still m h
    handle_exit-Turns exception m short h = still m h
    handle_exit-Turns (fail_entry reason) m short h = still m h
    handle_exit-Turns internal_error m short h = still m h
    handle_exit-Turns unknown m short h = still m h

    handle_result-Turns :
        (r : Result VcpuExitInfo) (m : Machine F C)
        → Informs r
        → IsSound m
        → Turns m (handle_result ops fd index r m)
    unfolding handle_result
    handle_result-Turns (ok info) m i h = handle_exit-Turns info m i h
    handle_result-Turns (err e) m i h = still m h
    handle_result-Turns panic m i h = absurd i
    handle_result-Turns out_of_fuel m i h = absurd i

    pub turn-Turns :
        IsVcpu fd
        → (m : Machine F C) → IsSound m
        → Turns (entered ops fd index m) (turn ops fd index m)
    unfolding turn run_with_mmio
    turn-Turns vcpu m h =
        handle_result-Turns _ (record (entered ops fd index m) { vcpu = _ })
          (after_run-Informs m.guest.device (fd.run m.vcpu m.guest.memory.bytes).0
            (fd.run m.vcpu m.guest.memory.bytes).1 (vcpu.exits m.vcpu m.guest.memory.bytes))
          (record {
            device = h.device;
            memory = record {
              mapped = h.memory.mapped;
              holds = vcpu.writes_bytes m.vcpu m.guest.memory.bytes h.memory.holds;
            };
          })
