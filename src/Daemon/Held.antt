-- ===== src/Daemon/Held.antt =====
-- Which emulators run: every one that does is the child that the daemon's state holds.
use litedroid.Base.{
  ℕ, String, ◌≡◌, ◌≢◌, refl, inl, inr, Bool, true, false, Option, none, some, List, [], ◌∷◌,
  Option-cases, arith,
}
use litedroid.Action.{Action}
use litedroid.Action.Rules.{Keeps, keeps_rules}
use litedroid.Host.{Host, Waited, alive, exited, unknown}
use litedroid.Host.Processes.{IsProcesses, IsWaitable, Shrinks, StartsNone}
use litedroid.Daemon.State.{
  Session, on_host, take_emulator, stop_emulator, observe, look, adb_state, emulator_state,
  adb_bytes, adb_output,
}

module _ {W : Type 0} (live : W → ℕ → Bool) where
  -- No emulator runs.
  abbrev pub IsIdle : Session W → Type 0
  IsIdle s = (d : ℕ) → live s.world d ≢ true

  -- Every emulator that runs is the one that the daemon holds.
  abbrev pub IsHeld : Session W → Type 0
  IsHeld s = (d : ℕ) → live s.world d ≡ true → s.state.emulator ≡ some d

  pub idle-IsHeld : (s : Session W) → IsIdle s → IsHeld s
  idle-IsHeld s h d l = absurd (h d l)

  module _ {A : Type 0} (m : Action W String A) (starts : StartsNone live m) where
    pub on_host-IsIdle : Keeps IsIdle (on_host m)
    unfolding on_host
    on_host-IsIdle = record { at = λ s h d l. h d ((starts s.world).at s.world (λ e k. k) d l) }

    pub on_host-IsHeld : Keeps IsHeld (on_host m)
    unfolding on_host
    on_host-IsHeld = record { at = λ s h d l. h d ((starts s.world).at s.world (λ e k. k) d l) }

  module _ (host : Host W) (processes : IsProcesses host live) (waits : IsWaitable host) where
    pub take_emulator-IsIdle : (s : Session W) → IsHeld s → IsIdle (take_emulator host s)
    unfolding take_emulator
    take_emulator-IsIdle s h d l = elim (Option-cases s.state.emulator) [
      | inl e ↦ ground (arith, h d)
      | inr (c, e) ↦ ground (
        arith,
        h d,
        (processes.wait_status_starts c (host.kill c s.world).1).at (host.kill c s.world).1
            (λ e k. k) d,
        processes.kill_starts c s.world d,
        processes.wait_ends c (host.kill c s.world).1
            (waits.wait_succeeds c (host.kill c s.world).1).0
            (waits.wait_succeeds c (host.kill c s.world).1).1,
      )
    ]

    pub stop_emulator-IsIdle : (s : Session W) → IsHeld s → IsIdle (stop_emulator host s)
    unfolding stop_emulator
    stop_emulator-IsIdle = take_emulator-IsIdle

    adb_state_starts : (adb : Option String) (w : W) → Shrinks live w (adb_state host adb w).1
    unfolding adb_state
    adb_state_starts none w d l = l
    adb_state_starts (some adb) w d l = ground (
      arith,
      (processes.output_starts adb ("-s" ∷ "emulator-5554" ∷ "get-state" ∷ []) w).at w (λ e k. k) d,
    )

    observe-IsHeld :
        (c : ℕ) (waited : Waited) (s : Session W)
        → ((b : Bool) → waited ≡ exited b → live s.world c ≡ false)
        → s.state.emulator ≡ some c
        → IsHeld s
        → IsHeld (observe host waited s)
    unfolding observe
    observe-IsHeld c alive s ended e h d l = h d (adb_state_starts s.state.adb s.world d l)
    observe-IsHeld c (exited b) s ended e h d l = ground (arith, h d l, ended b refl)
    observe-IsHeld c unknown s ended e h d l = h d l

    pub look-IsHeld : (s : Session W) → IsHeld s → IsHeld (look host s)
    unfolding look
    look-IsHeld s h = elim (Option-cases s.state.emulator) [
      | inl e ↦ rw (e, look) h
      | inr (c, e) ↦
          rw (e, look)
            (observe-IsHeld c (host.try_wait c s.world).0
              (record s { world = (host.try_wait c s.world).1 })
              (processes.try_wait_ended c s.world) e
              (λ d l. h d (processes.try_wait_starts c s.world d l)))
    ]

    pub emulator_state-IsHeld : Keeps IsHeld (emulator_state host)
    unfolding emulator_state
    emulator_state-IsHeld = record { at = look-IsHeld }

    run_adb-IsHeld :
        (adb : String) (args : List String) → Keeps IsHeld (on_host (host.output adb args))
    run_adb-IsHeld adb args =
        on_host-IsHeld (host.output adb args) (processes.output_starts adb args)

    pub adb_bytes-IsHeld : (args : List String) → Keeps IsHeld (adb_bytes host args)
    unfolding adb_bytes
    adb_bytes-IsHeld args = search (keeps_rules, emulator_state-IsHeld, run_adb-IsHeld) depth 12

    pub adb_output-IsHeld : (args : List String) → Keeps IsHeld (adb_output host args)
    unfolding adb_output
    adb_output-IsHeld args = search (keeps_rules, adb_bytes-IsHeld)
