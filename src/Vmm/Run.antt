-- ===== src/Vmm/Run.antt =====
-- crates/vmm/src/lib.rs: `run`, the loop that drives vCPU 0 and its exits, and `stop`. Log lines are
-- left out, and with them the registers and code bytes that are read only to be logged.
pub mod Sound
pub mod Reach
pub mod Returns
pub mod Rounds
mod Tests
use litedroid.Base.{
  Outcome, String, ℕ, zero, suc, ◌+◌, ◌-◌, ◌≡◌, Bool, true, false, ◌&&◌, Option, none, some, List,
  length, take, ok, err, panic, out_of_fuel, leb, ltb, if◌then◌else◌, le_bytes, from_le_bytes,
}
use litedroid.Core.Constants.{virtio_mmio_start, virtio_mmio_size}
use litedroid.Core.Error.{Result}
use litedroid.Kvm.Vcpu.{
  VcpuExit, VcpuExitInfo, VcpuFd, run_with_mmio, hlt, io_out, io_in, mmio_read, mmio_write,
  exception, shutdown, internal_error, unknown, fail_entry,
}
use litedroid.Storage.Image.{FileOps}
use litedroid.Vmm.Block.{VirtioBlock, Guest, read, write}

-- What the loop uses of `VirtualMachine`: the flag, the block device with the guest's memory, and
-- the state of vCPU 0.
pub record Machine (F C : Type 0) : Type 0 where
  pub running : Bool
  pub guest : Guest F
  pub vcpu : C

-- `(VIRTIO_MMIO_START..VIRTIO_MMIO_START + VIRTIO_MMIO_SIZE).contains(&addr)`.
unfoldable pub in_window : ℕ → Bool
in_window addr = leb virtio_mmio_start addr && ltb addr (virtio_mmio_start + virtio_mmio_size)

-- The closure that `run` gives to `run_with_mmio`; `bytes[..data.len()]` panics past 8 bytes.
unfoldable pub answer_read :
    {F : Type 0} → VirtioBlock F → (addr len : ℕ) → Result (Option (List ℕ))
unfolding in_window
answer_read d addr len =
    if in_window addr
    then (if ltb 8 len
        then panic
        else ok (some (take len (le_bytes 8 (read d (addr - virtio_mmio_start) len)))))
    else ok none

module _ {F C S : Type 0} (ops : FileOps F) (fd : VcpuFd C S) (index : ℕ) where
  abbrev pub halt : Machine F C → Machine F C
  halt m = record m { running = false }

  abbrev pub with_guest :
      Machine F C → Result (Unit {0}) × Guest F → Result (Unit {0}) × Machine F C
  with_guest m (r, g) = (r, record m { guest = g })

  -- `value[..data.len()]` panics past 8 bytes.
  unfoldable pub handle_write : ℕ → List ℕ → Machine F C → Result (Unit {0}) × Machine F C
  unfolding in_window
  handle_write addr bytes m =
      if in_window addr
      then (if ltb 8 (length bytes)
          then (panic, m)
          else with_guest m (write ops (addr - virtio_mmio_start) (from_le_bytes bytes) m.guest))
      else (ok tt, m)

  unfoldable pub handle_exit : VcpuExitInfo → Machine F C → Result (Unit {0}) × Machine F C
  unfolding handle_write
  handle_exit hlt m = (ok tt, halt m)
  handle_exit shutdown m = (ok tt, halt m)
  handle_exit (io_out port bytes) m = (ok tt, m)
  handle_exit (io_in port) m = (ok tt, m)
  handle_exit (mmio_read addr size) m = (ok tt, m)
  handle_exit (mmio_write addr size bytes) m = handle_write addr bytes m
  handle_exit exception m = (ok tt, halt m)
  handle_exit (fail_entry reason) m = (ok tt, halt m)
  handle_exit internal_error m = (ok tt, halt m)
  handle_exit unknown m = (ok tt, m)

  unfoldable pub handle_result : Result VcpuExitInfo → Machine F C → Result (Unit {0}) × Machine F C
  unfolding handle_exit
  handle_result (ok exit) m = handle_exit exit m
  handle_result (err e) m = (ok tt, halt m)
  handle_result panic m = (panic, m)
  handle_result out_of_fuel m = (out_of_fuel, m)

  -- The guest's memory holds what it has written.
  abbrev pub with_ram : (ℕ → ℕ) → Guest F → Guest F
  with_ram ram g = record g { memory = record g.memory { bytes = ram } }

  -- The body of the loop. The vCPU runs on the memory of the machine.
  unfoldable pub turn : Machine F C → Result (Unit {0}) × Machine F C
  unfolding handle_result answer_read
  turn m =
      let (r, vcpu, ram) =
        run_with_mmio fd index (answer_read m.guest.device) m.vcpu m.guest.memory.bytes in
      handle_result r (record m { vcpu = vcpu; guest = with_ram ram m.guest })

  -- The machine when KVM_RUN comes back, before the exit is handled.
  abbrev pub entered : Machine F C → Machine F C
  entered m =
      let (r, vcpu, ram) = fd.run m.vcpu m.guest.memory.bytes in
      record m { vcpu = vcpu; guest = with_ram ram m.guest }

  -- What the run of `m` ends with.
  abbrev pub ends_with : Machine F C → Outcome String VcpuExit
  ends_with m = (fd.run m.vcpu m.guest.memory.bytes).0

  -- What follows a turn.
  abbrev pub go_on :
      (Machine F C → Result (Unit {0}) × Machine F C)
      → Result (Unit {0}) × Machine F C
      → Result (Unit {0}) × Machine F C
  go_on next (ok u, m) = next m
  go_on next (err e, m) = (err e, m)
  go_on next (panic, m) = (panic, m)
  go_on next (out_of_fuel, m) = (out_of_fuel, m)

  -- `while self.running.load(…)`, with fuel for the turns: a guest may run for ever.
  unfoldable pub run_loop : (fuel : ℕ) → Machine F C → Result (Unit {0}) × Machine F C
  run_loop zero m = elim m.running [ true ↦ (out_of_fuel, m) | false ↦ (ok tt, m) ]
  run_loop (suc fuel) m = elim m.running [
    | true ↦ go_on (run_loop fuel) (turn m)
    | false ↦ (ok tt, m)
  ]

  unfoldable pub run : (fuel : ℕ) → Machine F C → Result (Unit {0}) × Machine F C
  unfolding run_loop
  run fuel m = run_loop fuel (record m { running = true })

  unfoldable pub stop : Machine F C → Machine F C
  stop m = halt m
