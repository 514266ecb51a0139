-- ===== src/Daemon/Tests.antt =====
-- The daemon on the small machine of `Daemon.Machine`.
use litedroid.Base.{
  ℕ, ◌=t◌, ◌≡◌, refl, ◌⊎◌, String, true, false, ok, err, List, [], ◌∷◌, some, none,
}
use litedroid.Ipc.{IpcRequest}
use litedroid.Daemon.State.{Session, look, adb_bytes}
use litedroid.Daemon.Method.{device_status}
use litedroid.Daemon.Replies.{start_device}
use litedroid.Daemon.Requests.{handle, serve_all}
use litedroid.Daemon.Held.{IsHeld}
use litedroid.Daemon.Safety.{serve_all-IsHeld}
use litedroid.Daemon.Answers.{status_json, failed_start_stale}
use litedroid.Daemon.Gate.{IsReady, adb_bytes-gated}
use litedroid.Daemon.Machine.{
  Machine, is_living, machine, bare_machine, machine-IsProcesses, machine-IsWaitable, Doc, doc,
  config, config-IsQuiet, fresh, ask, busy,
}

abbrev some_requests : List (IpcRequest Doc)
some_requests = ask "device.start" ∷ ask "device.start" ∷ ask "device.restart" ∷ ask "apk.list" ∷ []

serve_all-IsHeld_example : IsHeld is_living (serve_all machine doc config some_requests fresh)
serve_all-IsHeld_example =
    serve_all-IsHeld machine doc config is_living machine-IsProcesses machine-IsWaitable
      config-IsQuiet some_requests fresh (λ d l. cc)

abbrev dead : Session Machine
dead = record busy { world = record { next = 8; living = λ d. false } }

abbrev after_failure : Session Machine
after_failure = (start_device bare_machine doc config "a" dead).1

abbrev no_tools : String
no_tools =
    "Android Emulator tools are not installed under /data/android-sdk. Run scripts/linux/setup.sh first."

start_fails : start_device bare_machine doc config "a" dead ≡ (err no_tools, after_failure)
unfolding start_device
start_fails = refl

failed_start_stale_example :
    (after_failure.state.emulator ≡ none)
    × (handle bare_machine doc config device_status (ask "device.status") after_failure
        ≡ (ok (status_json bare_machine doc config "running" (some "pixel")), after_failure))
failed_start_stale_example =
    failed_start_stale bare_machine doc config "a" dead after_failure 7 true no_tools
      (ask "device.status") refl refl start_fails

adb_bytes-gated_example :
    ((c : ℕ) × (busy.state.emulator ≡ some c) × IsReady machine busy c)
    ⊎ ((busy.state.emulator ≡ none) × ((busy.state.power_state =t "running") ≡ true))
    ⊎ (adb_bytes machine ("shell" ∷ []) busy
        ≡ (err "Android is still booting; wait until device status is running", look machine busy))
adb_bytes-gated_example = adb_bytes-gated machine ("shell" ∷ []) busy
