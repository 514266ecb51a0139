-- ===== src/Daemon/State.antt =====
-- apps/daemon/src/main.rs: the state of the daemon, how it looks at and stops its emulator, and
-- how it runs ADB.
use litedroid.Base.{
  ℕ, String, ◌=t◌, ◌<>◌, Bool, false, not, Outcome, ok, err, panic, out_of_fuel, Option, none, some,
  List, [], ◌∷◌, if◌then◌else◌,
}
use litedroid.Action.{gets, lift, Action, ok_or, map, map_err, ◌>>=◌, ◌>>◌, fail_if}
use litedroid.Host.{Host, Output, Waited, alive, exited, unknown, Call}

pub record DaemonState : Type 0 where
  pub active_device : Option String
  pub power_state : String
  pub stop_handle : Option ℕ
  pub emulator : Option ℕ
  pub adb : Option String

-- The state under the lock, the static `RUNNING`, and the host.
pub record Session (W : Type 0) : Type 0 where
  pub state : DaemonState
  pub running : Bool
  pub world : W

abbrev pub init : DaemonState
init = record {
  active_device = none;
  power_state = "off";
  stop_handle = none;
  emulator = none;
  adb = none;
}

abbrev pub with_state : {W : Type 0} → DaemonState → Session W → Session W
with_state d s = record s { state = d }

-- A call of the host inside a method.
unfoldable pub on_host : {W A : Type 0} → Call W A → Action (Session W) String A
on_host m s = let (r, w) = m s.world in (r, record s { world = w })

module _ {W : Type 0} (host : Host W) where
  -- `if let Some(mut emulator) = st.emulator.take() { kill; wait }`: the outcomes are dropped.
  unfoldable pub take_emulator : Session W → Session W
  take_emulator s = elim s.state.emulator [
    | none ↦ s
    | some child ↦ record s {
      state = record s.state { emulator = none };
      world = (host.wait_status child (host.kill child s.world).1).1;
    }
  ]

  unfoldable pub stop_emulator : Session W → Session W
  unfolding take_emulator
  stop_emulator s =
      let s = take_emulator s in
      record s { state = record s.state { adb = none; active_device = none; power_state = "off" } }

  -- The answer of `adb get-state`, if ADB could be run.
  unfoldable pub adb_state : Option String → W → Option String × W
  adb_state none w = (none, w)
  adb_state (some adb) w =
      let (r, w) = host.output adb ("-s" ∷ "emulator-5554" ∷ "get-state" ∷ []) w in
      elim r [
        | ok output ↦ (some (host.trim (host.from_utf8_lossy output.stdout)), w)
        | err e ↦ (none, w)
        | panic ↦ (none, w)
        | out_of_fuel ↦ (none, w)
      ]

  abbrev pub is_device : Option String → Bool
  is_device none = false
  is_device (some answer) = answer =t "device"

  unfoldable pub observe : Waited → Session W → Session W
  unfolding adb_state
  observe alive s =
      let (answer, w) = adb_state s.state.adb s.world in
      record s {
        state = record s.state { power_state = if is_device answer then "running" else "booting" };
        world = w;
      }
  observe (exited success) s = record s {
    state = record s.state {
      emulator = none;
      adb = none;
      active_device = none;
      power_state = if success then "off" else "error";
    };
  }
  observe unknown s = record s { state = record s.state { power_state = "error" } }

  unfoldable pub look : Session W → Session W
  unfolding observe
  look s = elim s.state.emulator [
    | none ↦ s
    | some child ↦
        let (status, w) = host.try_wait child s.world in observe status (record s { world = w })
  ]

  unfoldable pub emulator_state : Action (Session W) String String
  unfolding look
  emulator_state s = let s = look s in (ok s.state.power_state, s)

  unfoldable pub adb_result : Output → Outcome String (List ℕ)
  adb_result output =
      if output.success
      then ok output.stdout
      else err ("ADB command failed: " <> host.trim (host.from_utf8_lossy output.stderr))

  unfoldable pub adb_bytes : List String → Action (Session W) String (List ℕ)
  unfolding emulator_state adb_result on_host ◌>>=◌ map_err
  adb_bytes args = do
    power ← emulator_state
    fail_if (not (power =t "running"))
        "Android is still booting; wait until device status is running"
    held ← gets (λ s. s.state.adb)
    adb ← ok_or held "ADB is unavailable because no device is running"
    output ←
        map_err (λ e. "Cannot run ADB: " <> e)
          (on_host (host.output adb ("-s" ∷ "emulator-5554" ∷ args)))
    lift (adb_result output)

  unfoldable pub adb_output : List String → Action (Session W) String String
  unfolding adb_bytes
  adb_output args = map (λ bytes. host.trim (host.from_utf8_lossy bytes)) (adb_bytes args)
