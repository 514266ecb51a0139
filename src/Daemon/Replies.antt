-- ===== src/Daemon/Replies.antt =====
-- apps/daemon/src/main.rs: the longer arms of `dispatch`: starting and stopping the emulator, and
-- what is done through ADB.
use litedroid.Base.{
  ℕ, String, ◌<>◌, Bool, false, not, Outcome, ok, err, panic, out_of_fuel, Option, none, some, [],
  ◌∷◌, map,
}
use litedroid.Core.Error.{LiteDroidError}
use litedroid.Action.{gets, attempt, lift, Action, pure, fail, ok_or, map_err, ◌>>=◌, ◌>>◌, fail_if}
use litedroid.Host.{Host, JsonValue, Call, Waited, alive, exited, unknown}
use litedroid.Daemon.State.{
  Session, on_host, take_emulator, stop_emulator, emulator_state, adb_bytes, adb_output,
}
use litedroid.Daemon.Launch.{ConfigOps, launch_device}

abbrev pub or_default : Option String → String → String
or_default none d = d
or_default (some s) d = s

module _ {W V C : Type 0} (host : Host W) (json : JsonValue V) (config_ops : ConfigOps W C) where
  abbrev pub Reply : Type 0
  Reply = Action (Session W) String V

  -- `.get(key).and_then(|v| v.as_str())`.
  unfoldable pub get_str : V → String → Option String
  get_str params key = elim (json.get params key) [ none ↦ none | some v ↦ json.as_str v ]

  abbrev pub output_reply : String → Reply
  output_reply output = pure (json.object (("output", json.string output) ∷ []))

  abbrev pub device_json : Option String → V
  device_json none = json.null
  device_json (some name) = json.string name

  unfoldable pub shut_down : Session W → Session W
  unfolding take_emulator
  shut_down s =
      let s = take_emulator host s in
      record s {
        state = record s.state { active_device = none; power_state = "stopping" };
        running = false;
      }

  unfoldable pub store_stop : Option ℕ → W → W
  store_stop none w = w
  store_stop (some handle) w = host.store handle false w

  unfoldable pub stop_device : Session W → Session W
  unfolding take_emulator store_stop
  stop_device s =
      let s = take_emulator host s in
      record s {
        state = record s.state {
          adb = none;
          stop_handle = none;
          active_device = none;
          power_state = "off";
        };
        world = store_stop s.state.stop_handle s.world;
      }

  -- `device.start`, once `try_wait` has told how the emulator is.
  unfoldable pub start_after : Waited → String → Reply
  unfolding launch_device
  start_after (exited _) name s =
      launch_device host config_ops json name false
        (record s { state = record s.state { emulator = none } })
  start_after alive name s = fail "Android emulator is already running" s
  start_after unknown name s = fail "Android emulator is already running" s

  unfoldable pub start_device : String → Reply
  unfolding start_after
  start_device name s = elim s.state.emulator [
    | none ↦ launch_device host config_ops json name false s
    | some child ↦
        let (waited, w) = host.try_wait child s.world in
        start_after waited name (record s { world = w })
  ]

  unfoldable pub relaunch : Bool → Reply
  unfolding stop_emulator launch_device
  relaunch wipe_data s =
      launch_device host config_ops json (or_default s.state.active_device "default") wipe_data
        (stop_emulator host s)

  unfoldable pub report_status : Reply
  unfolding emulator_state ◌>>=◌
  report_status = do
    power ← emulator_state host
    device ← gets (λ s. s.state.active_device)
    pure (json.object (("power_state", json.string power) ∷ ("device", device_json device) ∷ []))

  unfoldable pub launch_app : V → Reply
  unfolding adb_output get_str ◌>>=◌ map_err
  launch_app params = do
    package_name ← ok_or (get_str params "package") "A package name is required"
    output ← adb_output host (
        "shell" ∷ "monkey" ∷ "-p" ∷ package_name ∷ "-c" ∷ "android.intent.category.LAUNCHER" ∷ "1"
        ∷ [])
    pure (json.object (("package", json.string package_name) ∷ ("output", json.string output) ∷ []))

  abbrev pub loaded_path : Outcome LiteDroidError C → Outcome String String
  loaded_path (ok config) =
      ok (host.join (host.join (config_ops.data_dir config) "screenshots") "device.png")
  loaded_path (err e) = ok "device.png"
  loaded_path panic = panic
  loaded_path out_of_fuel = out_of_fuel

  unfoldable pub screenshot_path : Option String → Call W String
  unfolding attempt ◌>>=◌
  screenshot_path (some path) = pure path
  screenshot_path none = do loaded ← attempt config_ops.load; lift (loaded_path loaded)

  unfoldable pub make_parent : Option String → Call W (Unit {0})
  unfolding map_err
  make_parent none = pure tt
  make_parent (some dir) =
      map_err (λ e. "Cannot create screenshot directory: " <> e) (host.create_dir_all dir)

  unfoldable pub take_screenshot : V → Reply
  unfolding screenshot_path make_parent adb_bytes get_str ◌>>=◌ map_err
  take_screenshot params = do
    path ← on_host (screenshot_path (get_str params "path"))
    on_host (make_parent (host.parent path))
    bytes ← adb_bytes host ("exec-out" ∷ "screencap" ∷ "-p" ∷ [])
    map_err (λ e. "Cannot save screenshot: " <> e) (on_host (host.write path bytes))
    pure (json.object (("path", json.string path) ∷ []))

  unfoldable pub install_apk : V → Reply
  unfolding adb_output get_str ◌>>=◌ map_err
  install_apk params = do
    path ← ok_or (get_str params "path") "An APK path is required"
    found ← gets (λ s. host.is_file s.world path)
    fail_if (not found) ("APK not found: " <> path)
    output ← adb_output host ("install" ∷ "-r" ∷ path ∷ [])
    output_reply output

  unfoldable pub uninstall_apk : V → Reply
  unfolding adb_output get_str ◌>>=◌ map_err
  uninstall_apk params = do
    package_name ← ok_or (get_str params "package") "A package name is required"
    output ← adb_output host ("uninstall" ∷ package_name ∷ [])
    output_reply output

  unfoldable pub list_apks : Reply
  unfolding adb_output ◌>>=◌
  list_apks = do
    output ← adb_output host ("shell" ∷ "pm" ∷ "list" ∷ "packages" ∷ "-3" ∷ [])
    pure (json.object (("packages", json.array (map json.string (host.lines output))) ∷ []))
