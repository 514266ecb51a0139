-- ===== src/Kvm/Vcpu.antt =====
-- crates/kvm/src/lib.rs: `Vcpu` and its exits. The file descriptor of the vCPU is the parameter
-- `VcpuFd` over the state `C` of the vCPU; an error is given by its text.
use litedroid.Base.{
  ℕ, String, ◌<>◌, Option, none, some, List, length, Outcome, ok, err, panic, out_of_fuel, wrap8,
}
use litedroid.Action.{Action, map_err}
use litedroid.Core.Error.{LiteDroidError, Result, vcpu_run_failed}

-- `kvm_ioctls::VcpuExit`. For a read of memory-mapped I/O it has the length of the buffer that the
-- caller may fill; `other` is every exit that the code does not name.
pub data VcpuExit : Type 0 where
  hlt : VcpuExit
  io_out : (port : ℕ) (bytes : List ℕ) → VcpuExit
  io_in : (port : ℕ) → VcpuExit
  mmio_read : (addr len : ℕ) → VcpuExit
  mmio_write : (addr : ℕ) (bytes : List ℕ) → VcpuExit
  exception shutdown internal_error unknown other : VcpuExit
  fail_entry : (reason cpu : ℕ) → VcpuExit

pub data VcpuExitInfo : Type 0 where
  hlt : VcpuExitInfo
  io_out : (port : ℕ) (bytes : List ℕ) → VcpuExitInfo
  io_in : (port : ℕ) → VcpuExitInfo
  mmio_read : (addr size : ℕ) → VcpuExitInfo
  mmio_write : (addr size : ℕ) (bytes : List ℕ) → VcpuExitInfo
  exception shutdown internal_error unknown : VcpuExitInfo
  fail_entry : (reason : ℕ) → VcpuExitInfo

pub record KvmRegs : Type 0 where
  pub rax : ℕ
  pub rbx : ℕ
  pub rcx : ℕ
  pub rdx : ℕ
  pub rsi : ℕ
  pub rdi : ℕ
  pub rsp : ℕ
  pub rbp : ℕ
  pub rip : ℕ
  pub rflags : ℕ

-- `run` enters the guest, which reads and writes its RAM: the bytes of the memory that the caller
-- has mapped, before and after. `fill` puts bytes into the buffer of the read that the vCPU waits for.
pub record VcpuFd (C S : Type 0) : Type 0 where
  pub run : C → (ℕ → ℕ) → Outcome String VcpuExit × C × (ℕ → ℕ)
  pub fill : List ℕ → C → C
  pub get_regs : C → Outcome String KvmRegs
  pub set_regs : KvmRegs → Action C String (Unit {0})
  pub get_sregs : C → Outcome String S
  pub set_sregs : S → Action C String (Unit {0})

module _ {C S : Type 0} (fd : VcpuFd C S) (index : ℕ) where
  abbrev failed : String → String → LiteDroidError
  failed call e = vcpu_run_failed index (call <> " failed: " <> e)

  unfoldable pub get_regs : Action C LiteDroidError KvmRegs
  unfolding map_err
  get_regs = map_err (failed "GET_REGS") (λ c. (fd.get_regs c, c))

  unfoldable pub set_regs : KvmRegs → Action C LiteDroidError (Unit {0})
  unfolding map_err
  set_regs regs = map_err (failed "SET_REGS") (fd.set_regs regs)

  unfoldable pub get_sregs : Action C LiteDroidError S
  unfolding map_err
  get_sregs = map_err (failed "GET_SREGS") (λ c. (fd.get_sregs c, c))

  unfoldable pub set_sregs : S → Action C LiteDroidError (Unit {0})
  unfolding map_err
  set_sregs sregs = map_err (failed "SET_SREGS") (fd.set_sregs sregs)

  -- The answer of the closure `mmio_read`: bytes for the buffer, or none to leave it as it is.
  unfoldable pub put : Result (Option (List ℕ)) → ℕ → ℕ → C → Result VcpuExitInfo × C
  put (ok none) addr len c = (ok (mmio_read addr (wrap8 len)), c)
  put (ok (some bytes)) addr len c = (ok (mmio_read addr (wrap8 len)), fd.fill bytes c)
  put (err e) addr len c = (err e, c)
  put panic addr len c = (panic, c)
  put out_of_fuel addr len c = (out_of_fuel, c)

  module _ (closure : (addr len : ℕ) → Result (Option (List ℕ))) where
    unfoldable pub on_exit : VcpuExit → C → Result VcpuExitInfo × C
    unfolding put
    on_exit VcpuExit.hlt c = (ok VcpuExitInfo.hlt, c)
    on_exit (VcpuExit.io_out port bytes) c = (ok (VcpuExitInfo.io_out port bytes), c)
    on_exit (VcpuExit.io_in port) c = (ok (VcpuExitInfo.io_in port), c)
    on_exit (VcpuExit.mmio_read addr len) c = put (closure addr len) addr len c
    on_exit (VcpuExit.mmio_write addr bytes) c =
        (ok (VcpuExitInfo.mmio_write addr (wrap8 (length bytes)) bytes), c)
    on_exit VcpuExit.exception c = (ok VcpuExitInfo.exception, c)
    on_exit VcpuExit.shutdown c = (ok VcpuExitInfo.shutdown, c)
    on_exit (VcpuExit.fail_entry reason cpu) c = (ok (VcpuExitInfo.fail_entry reason), c)
    on_exit VcpuExit.internal_error c = (ok VcpuExitInfo.internal_error, c)
    on_exit VcpuExit.unknown c = (ok VcpuExitInfo.unknown, c)
    on_exit VcpuExit.other c = (ok VcpuExitInfo.unknown, c)

    unfoldable pub after_run : Outcome String VcpuExit → C → Result VcpuExitInfo × C
    unfolding on_exit
    after_run (ok exit) c = on_exit exit c
    after_run (err e) c = (err (failed "KVM_RUN" e), c)
    after_run panic c = (panic, c)
    after_run out_of_fuel c = (out_of_fuel, c)

    -- With the RAM of the guest as the run left it.
    unfoldable pub run_with_mmio : C → (ℕ → ℕ) → Result VcpuExitInfo × C × (ℕ → ℕ)
    unfolding after_run
    run_with_mmio c ram =
        let (r, c, ram) = fd.run c ram in let (info, c) = after_run r c in (info, c, ram)

  -- `run`: the closure leaves the buffer alone.
  unfoldable pub run : C → (ℕ → ℕ) → Result VcpuExitInfo × C × (ℕ → ℕ)
  unfolding run_with_mmio
  run = run_with_mmio (λ addr len. ok none)
