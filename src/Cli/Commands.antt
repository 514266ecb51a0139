-- ===== src/Cli/Commands.antt =====
-- apps/cli/src/main.rs: the commands. `ipc` stands for a connection to the daemon and one request
-- over it, with the response if both succeed.
use litedroid.Base.{
  ℕ, String, ◌<>◌, show, Bool, true, false, Outcome, ok, err, panic, out_of_fuel, Option, none,
  some, List, [], ◌∷◌,
}
use litedroid.Action.{Action, pure, lift, attempt, when, ◌>>=◌, ◌>>◌}
use litedroid.Core.Constants.{daemon_socket_path, default_data_dir, ipc_protocol_version}
use litedroid.Host.{Host, JsonValue, Command, inherited}
use litedroid.Ipc.{IpcResponse}
use litedroid.Diagnostics.{Probes}
use litedroid.Cli.{
  Cli, ApkAction, SnapshotAction, AdbAction, DaemonAction, Console, println, eprintln, on_system,
}
use litedroid.Cli.Doctor.{cmd_doctor}
use litedroid.Config.{Toml}
use litedroid.Cli.Devices.{Files, cmd_config, cmd_devices, cmd_device}
use litedroid.Cli.Logs.{cmd_logs}

-- One exchange with the daemon.
abbrev pub Ipc : Type 0 → Type 0 → Type 0
Ipc W V = (method : String) → (params : V) → W → Option (IpcResponse V) × W

abbrev pub or_unknown : Option String → String
or_unknown none = "unknown"
or_unknown (some e) = e

-- `unwrap_or_default` on a text.
abbrev pub or_default_text : Outcome String String → String
or_default_text (ok s) = s
or_default_text (err e) = ""
or_default_text panic = ""
or_default_text out_of_fuel = ""

abbrev pub daemon_command : Command
daemon_command = record {
  program = "litedroid-daemon";
  args = [];
  stdin = inherited;
  stdout = inherited;
  stderr = inherited;
}

module _ {W V : Type 0} (host : Host W) (json : JsonValue V) (ipc : Ipc W V) where
  unfoldable pub print_result : Option V → Action (Console W) String (Unit {0})
  unfolding println
  print_result none = println "OK"
  print_result (some r) = println (or_default_text (json.to_string_pretty r))

  unfoldable pub print_resp : IpcResponse V → Action (Console W) String ℕ
  unfolding print_result eprintln when ◌>>=◌
  print_resp resp =
      when resp.success (print_result resp.result >> pure 0)
        (eprintln ("Error: " <> or_unknown resp.error) >> pure 1)

  unfoldable pub on_answer : Option (IpcResponse V) → Action (Console W) String ℕ
  unfolding print_resp
  on_answer none = pure 1
  on_answer (some r) = print_resp r

  -- `match ipc(method, params) { Some(r) => print_resp(&r), None => 1 }`.
  unfoldable pub ask : (method : String) (params : V) → Action (Console W) String ℕ
  unfolding on_system on_answer ◌>>=◌
  ask method params = do
    answer ← on_system (λ w. let (a, w) = ipc method params w in (ok a, w))
    on_answer answer

  abbrev nothing : V
  nothing = json.object []

  -- `json!({"device": device})` with the boot mode put into it; `--fast` is looked at last.
  abbrev start_params : String → (cold fast : Bool) → List (String × V)
  start_params device cold true =
      ("device", json.string device) ∷ ("boot_mode", json.string "fast") ∷ []
  start_params device true false =
      ("device", json.string device) ∷ ("boot_mode", json.string "cold") ∷ []
  start_params device false false = ("device", json.string device) ∷ []

  unfoldable pub cmd_start : String → (cold fast : Bool) → Action (Console W) String ℕ
  unfolding ask
  cmd_start device cold fast = ask "device.start" (json.object (start_params device cold fast))

  abbrev pub cmd_stop : Action (Console W) String ℕ
  cmd_stop = ask "device.stop" nothing

  abbrev pub cmd_wipe : Action (Console W) String ℕ
  cmd_wipe = ask "device.wipe" nothing

  abbrev pub cmd_restart : Action (Console W) String ℕ
  cmd_restart = ask "device.restart" nothing

  abbrev pub cmd_pause : Action (Console W) String ℕ
  cmd_pause = ask "device.pause" nothing

  abbrev pub cmd_resume : Action (Console W) String ℕ
  cmd_resume = ask "device.resume" nothing

  abbrev pub cmd_status : Action (Console W) String ℕ
  cmd_status = ask "device.status" nothing

  abbrev pub cmd_stats : Action (Console W) String ℕ
  cmd_stats = ask "vm.stats" nothing

  unfoldable pub cmd_apk : ApkAction → Action (Console W) String ℕ
  unfolding ask
  cmd_apk (ApkAction.install path) =
      ask "apk.install" (json.object (("path", json.string path) ∷ []))
  cmd_apk (ApkAction.uninstall package_name) =
      ask "apk.uninstall" (json.object (("package", json.string package_name) ∷ []))
  cmd_apk ApkAction.list = ask "apk.list" nothing

  unfoldable pub cmd_launch : String → Action (Console W) String ℕ
  unfolding ask
  cmd_launch package_name =
      ask "device.launch" (json.object (("package", json.string package_name) ∷ []))

  abbrev pub cmd_shell : Action (Console W) String ℕ
  cmd_shell = ask "adb.shell" nothing

  abbrev pub cmd_logcat : Action (Console W) String ℕ
  cmd_logcat = ask "adb.logcat" nothing

  abbrev or_null : Option String → V
  or_null none = json.null
  or_null (some s) = json.string s

  unfoldable pub cmd_screenshot : Option String → Action (Console W) String ℕ
  unfolding ask
  cmd_screenshot path = ask "device.screenshot" (json.object (("path", or_null path) ∷ []))

  unfoldable pub cmd_snapshot : SnapshotAction → Action (Console W) String ℕ
  unfolding ask
  cmd_snapshot (SnapshotAction.create name) =
      ask "snapshot.create" (json.object (("name", json.string name) ∷ []))
  cmd_snapshot (SnapshotAction.restore name) =
      ask "snapshot.restore" (json.object (("name", json.string name) ∷ []))
  cmd_snapshot (SnapshotAction.delete name) =
      ask "snapshot.delete" (json.object (("name", json.string name) ∷ []))
  cmd_snapshot SnapshotAction.list = ask "snapshot.list" nothing

  unfoldable pub cmd_adb : AdbAction → Action (Console W) String ℕ
  unfolding ask
  cmd_adb AdbAction.shell = ask "adb.shell" nothing
  cmd_adb (AdbAction.install path) =
      ask "adb.install" (json.object (("path", json.string path) ∷ []))

  -- The arms of the match on `spawn`.
  unfoldable pub on_spawned : Outcome String ℕ → Action (Console W) String ℕ
  unfolding println eprintln ◌>>=◌
  on_spawned (ok child) = println ("Daemon started (PID: " <> show child <> ")") >> pure 0
  on_spawned (err e) = eprintln ("Failed to start daemon: " <> e) >> pure 1
  on_spawned panic = lift panic
  on_spawned out_of_fuel = lift out_of_fuel

  unfoldable pub cmd_daemon : DaemonAction → Action (Console W) String ℕ
  unfolding ask on_spawned on_system attempt ◌>>=◌
  cmd_daemon DaemonAction.start = attempt (on_system (host.spawn daemon_command)) >>= on_spawned
  cmd_daemon DaemonAction.stop = ask "daemon.shutdown" nothing
  cmd_daemon DaemonAction.status = ask "daemon.ping" nothing

module _ {W V : Type 0} (host : Host W) (json : JsonValue V) (toml : Toml) (files : Files W)
    (probes : Probes W) (ipc : Ipc W V) (version uuid : String) where
  -- `version` is what Cargo put in for the version of the package.
  unfoldable pub cmd_version : Action (Console W) String ℕ
  unfolding println ◌>>=◌
  cmd_version = do
    println ("litedroid " <> version)
    println ("IPC protocol version: " <> show ipc_protocol_version)
    println ("Socket: " <> daemon_socket_path)
    println ("Data dir: " <> default_data_dir)
    pure 0

  -- `main`, up to the exit with the code.
  unfoldable pub main : Cli → Action (Console W) String ℕ
  unfolding cmd_doctor cmd_version cmd_config cmd_devices cmd_device cmd_logs cmd_start cmd_apk
      cmd_launch cmd_screenshot cmd_snapshot cmd_adb cmd_daemon ask
  main Cli.doctor = cmd_doctor host probes
  main Cli.version = cmd_version
  main Cli.config = cmd_config host json toml files uuid
  main Cli.devices = cmd_devices host json toml files uuid
  main (Cli.device action) = cmd_device host json toml files uuid action
  main (Cli.start device cold fast) = cmd_start host json ipc device cold fast
  main Cli.stop = cmd_stop host json ipc
  main Cli.wipe = cmd_wipe host json ipc
  main Cli.restart = cmd_restart host json ipc
  main Cli.pause = cmd_pause host json ipc
  main Cli.resume = cmd_resume host json ipc
  main Cli.status = cmd_status host json ipc
  main Cli.stats = cmd_stats host json ipc
  main (Cli.apk action) = cmd_apk host json ipc action
  main (Cli.launch package_name) = cmd_launch host json ipc package_name
  main Cli.shell = cmd_shell host json ipc
  main Cli.logcat = cmd_logcat host json ipc
  main (Cli.screenshot path) = cmd_screenshot host json ipc path
  main (Cli.snapshot action) = cmd_snapshot host json ipc action
  main (Cli.adb action) = cmd_adb host json ipc action
  main (Cli.logs follow) = cmd_logs host json toml files uuid
  main (Cli.daemon action) = cmd_daemon host json ipc action
