-- ===== src/Daemon/Safety.antt =====
-- What holds of the emulators after any requests.
use litedroid.Base.{
  ℕ, String, ◌≡◌, inl, inr, ◌⊎◌, Bool, true, false, Option, none, some, List, [], ◌∷◌,
}
use litedroid.Action.{◌>>=◌, modify}
use litedroid.Action.Rules.{Keeps, keeps_rules}
use litedroid.Host.{Host, JsonValue}
use litedroid.Host.Processes.{IsProcesses, IsWaitable, StartsNone}
use litedroid.Ipc.{IpcRequest}
use litedroid.Daemon.State.{emulator_state, adb_bytes, adb_output, Session, on_host, take_emulator}
use litedroid.Daemon.Launch.{ConfigOps}
use litedroid.Daemon.Method.{Method, ping, shutdown, stop, method_of}
use litedroid.Daemon.Replies.{
  start_device, relaunch, report_status, launch_app, take_screenshot, screenshot_path, make_parent,
  install_apk, uninstall_apk, list_apks, stop_device, shut_down, store_stop,
}
use litedroid.Daemon.Requests.{handle, dispatch, serve_all}
use litedroid.Daemon.Held.{
  IsIdle, IsHeld, idle-IsHeld, on_host-IsHeld, take_emulator-IsIdle, emulator_state-IsHeld,
  adb_bytes-IsHeld, adb_output-IsHeld,
}
use litedroid.Daemon.Orphans.{IsQuiet, start_device-IsHeld, relaunch-IsHeld}

module _ {W V C : Type 0} (host : Host W) (json : JsonValue V) (config_ops : ConfigOps W C)
    (live : W → ℕ → Bool) (processes : IsProcesses host live) (waits : IsWaitable host)
    (quiet : IsQuiet config_ops live) where
  store_stop-live :
      (handle : Option ℕ) (w : W) (d : ℕ)
      → live (store_stop host json config_ops handle w) d ≡ true
      → live w d ≡ true
  unfolding store_stop
  store_stop-live none w d l = l
  store_stop-live (some h) w d l = processes.store_starts h false w d l

  stop_device-IsIdle :
      (s : Session W) → IsHeld live s → IsIdle live (stop_device host json config_ops s)
  unfolding stop_device
  stop_device-IsIdle s h d l =
      take_emulator-IsIdle live host processes waits s h d
        (store_stop-live (take_emulator host s).state.stop_handle (take_emulator host s).world d l)

  shut_down-IsIdle :
      (s : Session W) → IsHeld live s → IsIdle live (shut_down host json config_ops s)
  unfolding shut_down
  shut_down-IsIdle = take_emulator-IsIdle live host processes waits

  loading_starts :
      (path : Option String) → StartsNone live (screenshot_path host json config_ops path)
  unfolding screenshot_path
  loading_starts (some path) w = search keeps_rules
  loading_starts none w = search (keeps_rules, quiet.load_starts)

  parent_starts : (dir : Option String) → StartsNone live (make_parent host json config_ops dir)
  unfolding make_parent
  parent_starts none w = search keeps_rules
  parent_starts (some dir) w = search (keeps_rules, processes.create_dir_all_starts)

  path_IsHeld :
      (path : Option String)
      → Keeps (IsHeld live) (on_host (screenshot_path host json config_ops path))
  path_IsHeld path = on_host-IsHeld live _ (loading_starts path)

  parent_IsHeld :
      (dir : Option String) → Keeps (IsHeld live) (on_host (make_parent host json config_ops dir))
  parent_IsHeld dir = on_host-IsHeld live _ (parent_starts dir)

  write_IsHeld :
      (path : String) (bytes : List ℕ) → Keeps (IsHeld live) (on_host (host.write path bytes))
  write_IsHeld path bytes = on_host-IsHeld live _ (processes.write_starts path bytes)

  stop-IsHeld : Keeps (IsHeld live) (modify {E = String} (stop_device host json config_ops))
  unfolding modify
  stop-IsHeld = record {
    at = λ s h. idle-IsHeld live (stop_device host json config_ops s) (stop_device-IsIdle s h);
  }

  shut_down-IsHeld : Keeps (IsHeld live) (modify {E = String} (shut_down host json config_ops))
  unfolding modify
  shut_down-IsHeld = record {
    at = λ s h. idle-IsHeld live (shut_down host json config_ops s) (shut_down-IsIdle s h);
  }

  status-IsHeld : Keeps (IsHeld live) (emulator_state host)
  status-IsHeld = emulator_state-IsHeld live host processes waits

  bytes-IsHeld : (args : List String) → Keeps (IsHeld live) (adb_bytes host args)
  bytes-IsHeld = adb_bytes-IsHeld live host processes waits

  output-IsHeld : (args : List String) → Keeps (IsHeld live) (adb_output host args)
  output-IsHeld = adb_output-IsHeld live host processes waits

  starting-IsHeld : (name : String) → Keeps (IsHeld live) (start_device host json config_ops name)
  starting-IsHeld = start_device-IsHeld host live processes waits config_ops quiet json

  relaunching-IsHeld : (wipes : Bool) → Keeps (IsHeld live) (relaunch host json config_ops wipes)
  relaunching-IsHeld = relaunch-IsHeld host live processes waits config_ops quiet json

  ruleset held_rules = (
    keeps_rules, status-IsHeld, bytes-IsHeld, output-IsHeld, path_IsHeld, parent_IsHeld,
    write_IsHeld, stop-IsHeld, shut_down-IsHeld, starting-IsHeld, relaunching-IsHeld,
  )

  handle-IsHeld :
      (m : Method) (req : IpcRequest V) → Keeps (IsHeld live) (handle host json config_ops m req)
  unfolding handle report_status launch_app take_screenshot install_apk uninstall_apk list_apks
  handle-IsHeld ping req = search held_rules
  handle-IsHeld _ req = search held_rules depth 12

  dispatch-IsHeld : (req : IpcRequest V) → Keeps (IsHeld live) (dispatch host json config_ops req)
  unfolding dispatch
  dispatch-IsHeld req = record { at = (handle-IsHeld (method_of req.method) req).at }

  -- If each emulator that runs is the one the daemon holds, that is so after any requests: none
  -- is started beside another, and none is left behind. The operating system does what it documents
  -- of processes, a wait for a child does not fail, and the configuration starts no emulator; other
  -- calls of the host may fail.
  pub serve_all-IsHeld :
      (reqs : List (IpcRequest V)) (s : Session W)
      → IsHeld live s
      → IsHeld live (serve_all host json config_ops reqs s)
  unfolding serve_all
  serve_all-IsHeld [] s h = h
  serve_all-IsHeld (req ∷ reqs) s h =
      serve_all-IsHeld reqs (dispatch host json config_ops req s).1 ((dispatch-IsHeld req).at s h)

  -- After any requests, a stop of the device or a shutdown of the daemon leaves no emulator
  -- running.
  pub stop_leaves_none :
      (reqs : List (IpcRequest V)) (req : IpcRequest V) (s : Session W)
      → (method_of req.method ≡ stop) ⊎ (method_of req.method ≡ shutdown)
      → IsHeld live s
      → IsIdle live (dispatch host json config_ops req (serve_all host json config_ops reqs s)).1
  unfolding dispatch handle ◌>>=◌
  stop_leaves_none reqs req s (inl e) h = rw e (stop_device-IsIdle _ (serve_all-IsHeld reqs s h))
  stop_leaves_none reqs req s (inr e) h = rw e (shut_down-IsIdle _ (serve_all-IsHeld reqs s h))
