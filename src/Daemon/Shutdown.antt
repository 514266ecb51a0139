-- ===== src/Daemon/Shutdown.antt =====
-- How the daemon stops.
use litedroid.Base.{
  ℕ, String, ◌≡◌, ◌∙◌, refl, inl, inr, Bool, false, List, none, Option-cases, arith,
}
use litedroid.Action.{modify}
use litedroid.Action.Rules.{Keeps, keeps_rules}
use litedroid.Host.{Host, JsonValue, Call, Waited, alive, exited, unknown, Command}
use litedroid.Ipc.{IpcRequest}
use litedroid.Daemon.State.{
  Session, on_host, look, observe, take_emulator, stop_emulator, emulator_state, adb_bytes,
  adb_output,
}
use litedroid.Daemon.Launch.{ConfigOps, launch_device, start_child, keep_child}
use litedroid.Daemon.Method.{Method, ping, shutdown, method_of}
use litedroid.Daemon.Replies.{
  start_device, start_after, relaunch, report_status, launch_app, take_screenshot, install_apk,
  uninstall_apk, list_apks, stop_device, shut_down,
}
use litedroid.Daemon.Requests.{handle, dispatch}

-- `RUNNING` has been cleared.
abbrev pub IsStopping : {W : Type 0} → Session W → Type 0
IsStopping s = s.running ≡ false

module _ {W V C : Type 0} (host : Host W) (json : JsonValue V) (config_ops : ConfigOps W C) where
  host_IsStopping : {A : Type 0} (m : Call W A) → Keeps IsStopping (on_host m)
  unfolding on_host
  host_IsStopping m = record { at = λ s h. h }

  take_emulator-running : (s : Session W) → (take_emulator host s).running ≡ s.running
  unfolding take_emulator
  take_emulator-running s = ground arith

  observe-running : (waited : Waited) (s : Session W) → (observe host waited s).running ≡ s.running
  unfolding observe
  observe-running alive s = refl
  observe-running (exited b) s = refl
  observe-running unknown s = refl

  look-running : (s : Session W) → (look host s).running ≡ s.running
  unfolding look
  look-running s = elim (Option-cases s.state.emulator) [
    | inl e ↦ rw (e, look) refl
    | inr (c, e) ↦
        rw (e, look)
          (observe-running (host.try_wait c s.world).0
            (record s { world = (host.try_wait c s.world).1 }))
  ]

  status_IsStopping : Keeps IsStopping (emulator_state host)
  unfolding emulator_state
  status_IsStopping = record { at = λ s h. look-running s ∙ h }

  stop_IsStopping : Keeps IsStopping (modify {E = String} (stop_device host json config_ops))
  unfolding modify stop_device
  stop_IsStopping = record { at = λ s h. take_emulator-running s ∙ h }

  shut_down-IsStopping : Keeps IsStopping (modify {E = String} (shut_down host json config_ops))
  unfolding modify shut_down
  shut_down-IsStopping = record { at = λ s h. refl }

  adb_IsStopping : (args : List String) → Keeps IsStopping (adb_bytes host args)
  unfolding adb_bytes
  adb_IsStopping args = search (keeps_rules, status_IsStopping, host_IsStopping) depth 12

  keep_child-IsStopping :
      (name adb : String) (reply : V) (child : ℕ)
      → Keeps IsStopping (keep_child host config_ops json name adb reply child)
  unfolding keep_child
  keep_child-IsStopping name adb reply child = record { at = λ s h. h }

  start_child-IsStopping :
      (name : String) (wipe : Bool) (prepared : Command × String × String × String)
      → Keeps IsStopping (start_child host config_ops json name wipe prepared)
  unfolding start_child
  start_child-IsStopping name wipe (command, adb, avd, log) =
      search (keeps_rules, host_IsStopping, keep_child-IsStopping) depth 8

  launch_IsStopping :
      (name : String) (wipe : Bool)
      → Keeps IsStopping (launch_device host config_ops json name wipe)
  unfolding launch_device
  launch_IsStopping name wipe =
      search (keeps_rules, host_IsStopping, start_child-IsStopping) depth 8

  after_IsStopping :
      (waited : Waited) (name : String) (s : Session W)
      → IsStopping s
      → IsStopping (start_after host json config_ops waited name s).1
  unfolding start_after
  after_IsStopping (exited b) name s h =
      (launch_IsStopping name false).at (record s { state = record s.state { emulator = none } }) h
  after_IsStopping alive name s h = h
  after_IsStopping unknown name s h = h

  starting_IsStopping : (name : String) → Keeps IsStopping (start_device host json config_ops name)
  unfolding start_device
  starting_IsStopping name = record {
    at = λ s h. elim (Option-cases s.state.emulator) [
      | inl e ↦ rw (e, start_device) ((launch_IsStopping name false).at s h)
      | inr (c, e) ↦
          rw (e, start_device)
            (after_IsStopping (host.try_wait c s.world).0 name
              (record s { world = (host.try_wait c s.world).1 }) h)
    ];
  }

  relaunching_IsStopping : (wipes : Bool) → Keeps IsStopping (relaunch host json config_ops wipes)
  unfolding relaunch stop_emulator
  relaunching_IsStopping wipes = record {
    at = λ s h. (launch_IsStopping _ wipes).at (stop_emulator host s) (take_emulator-running s ∙ h);
  }

  output_IsStopping : (args : List String) → Keeps IsStopping (adb_output host args)
  unfolding adb_output
  output_IsStopping args = search (keeps_rules, adb_IsStopping)

  ruleset stopping_rules = (
    keeps_rules, host_IsStopping, status_IsStopping, adb_IsStopping, output_IsStopping,
    stop_IsStopping, shut_down-IsStopping, starting_IsStopping, relaunching_IsStopping,
  )

  handle-IsStopping :
      (m : Method) (req : IpcRequest V) → Keeps IsStopping (handle host json config_ops m req)
  unfolding handle report_status launch_app take_screenshot install_apk uninstall_apk list_apks
  handle-IsStopping ping req = search stopping_rules
  handle-IsStopping _ req = search stopping_rules depth 12

  pub dispatch-IsStopping :
      (req : IpcRequest V) → Keeps IsStopping (dispatch host json config_ops req)
  unfolding dispatch
  dispatch-IsStopping req = record { at = (handle-IsStopping (method_of req.method) req).at }

  pub shutdown-IsStopping :
      (req : IpcRequest V) (s : Session W)
      → method_of req.method ≡ shutdown
      → IsStopping (dispatch host json config_ops req s).1
  unfolding dispatch handle shut_down
  shutdown-IsStopping req s e = rw e refl
