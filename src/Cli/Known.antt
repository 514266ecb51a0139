-- ===== src/Cli/Known.antt =====
-- apps/cli/src/main.rs and apps/daemon/src/main.rs: which methods the commands ask the daemon for.
pub mod Local
use litedroid.Base.{ℕ, ◌≢◌, refl, String, Outcome, ok, err, panic, out_of_fuel, Option, none, some}
use litedroid.Action.{Action, ◌>>=◌}
use litedroid.Action.Rules.{Keeps, keeps_rules}
use litedroid.Host.{Host, JsonValue}
use litedroid.Config.{Toml}
use litedroid.Diagnostics.{Probes}
use litedroid.Ipc.{IpcResponse}
use litedroid.Daemon.Method.{method_of, other, find_method}
use litedroid.Cli.{
  Cli, ApkAction, SnapshotAction, AdbAction, DaemonAction, Console, println, eprintln, on_system,
}
use litedroid.Cli.Devices.{Files}
use litedroid.Cli.Commands.{
  Ipc, print_result, print_resp, on_answer, ask, cmd_start, cmd_apk, cmd_launch, cmd_screenshot,
  cmd_snapshot, cmd_adb, on_spawned, cmd_daemon, cmd_version, main, daemon_command,
}
use litedroid.Cli.Known.Local
use litedroid.Cli.Known.Local.{IsSilent}

module _ {W V : Type 0} (host : Host W) (json : JsonValue V) (toml : Toml) (files : Files W)
    (probes : Probes W) (uuid : String) (P : W → Type 0)
    (silent : IsSilent host probes files P) where
  abbrev On : Console W → Type 0
  On = Local.On host json toml files probes uuid P silent

  println-Keeps : (line : String) → Keeps On (println line)
  println-Keeps = Local.println-Keeps host json toml files probes uuid P silent

  eprintln-Keeps : (line : String) → Keeps On (eprintln line)
  eprintln-Keeps = Local.eprintln-Keeps host json toml files probes uuid P silent

  on_system-Keeps : {E A : Type 0} (m : Action W E A) → Keeps P m → Keeps On (on_system m)
  on_system-Keeps = Local.on_system-Keeps host json toml files probes uuid P silent

  module _ (ipc : Ipc W V) (version : String)
      (answers : (method : String) (params : V) (w : W)
        → method_of method ≢ other
        → P w
        → P (ipc method params w).1) where
    print_result-Keeps : (r : Option V) → Keeps On (print_result host json ipc r)
    unfolding print_result
    print_result-Keeps none = println-Keeps _
    print_result-Keeps (some v) = println-Keeps _

    print_resp-Keeps : (resp : IpcResponse V) → Keeps On (print_resp host json ipc resp)
    unfolding print_resp
    print_resp-Keeps resp = search (keeps_rules, print_result-Keeps, eprintln-Keeps) depth 9

    on_answer-Keeps : (answer : Option (IpcResponse V)) → Keeps On (on_answer host json ipc answer)
    unfolding on_answer
    on_answer-Keeps none = search keeps_rules
    on_answer-Keeps (some resp) = print_resp-Keeps resp

    ask-Keeps :
        (method : String) (params : V)
        → method_of method ≢ other
        → Keeps On (ask host json ipc method params)
    unfolding ask ◌>>=◌ on_system
    ask-Keeps method params known = record {
      at = λ c h.
          (on_answer-Keeps (ipc method params c.system).0).at
            (record c { system = (ipc method params c.system).1 })
            (record { holds = answers method params c.system known h.holds });
    }

    on_spawned-Keeps : (r : Outcome String ℕ) → Keeps On (on_spawned host json ipc r)
    unfolding on_spawned
    on_spawned-Keeps (ok child) = search (keeps_rules, println-Keeps)
    on_spawned-Keeps (err e) = search (keeps_rules, eprintln-Keeps)
    on_spawned-Keeps panic = search keeps_rules
    on_spawned-Keeps out_of_fuel = search keeps_rules

    start-Keeps : Keeps P (host.spawn daemon_command)
    start-Keeps = silent.daemon_keeps daemon_command refl

    commands_keep : (cli : Cli) → Keeps On (main host json toml files probes ipc version uuid cli)
    unfolding main cmd_version cmd_start cmd_apk cmd_launch cmd_screenshot cmd_snapshot cmd_adb
        cmd_daemon method_of find_method
    commands_keep Cli.doctor = Local.doctor-Keeps host json toml files probes uuid P silent
    commands_keep Cli.version = search (keeps_rules, println-Keeps) depth 12
    commands_keep Cli.config = Local.config-Keeps host json toml files probes uuid P silent
    commands_keep Cli.devices = Local.devices-Keeps host json toml files probes uuid P silent
    commands_keep (Cli.device action) =
        Local.device-Keeps host json toml files probes uuid P silent action
    commands_keep (Cli.start device cold fast) = ask-Keeps _ _ (λ e. cc)
    commands_keep Cli.stop = ask-Keeps _ _ (λ e. cc)
    commands_keep Cli.wipe = ask-Keeps _ _ (λ e. cc)
    commands_keep Cli.restart = ask-Keeps _ _ (λ e. cc)
    commands_keep Cli.pause = ask-Keeps _ _ (λ e. cc)
    commands_keep Cli.resume = ask-Keeps _ _ (λ e. cc)
    commands_keep Cli.status = ask-Keeps _ _ (λ e. cc)
    commands_keep Cli.stats = ask-Keeps _ _ (λ e. cc)
    commands_keep (Cli.apk (ApkAction.install path)) = ask-Keeps _ _ (λ e. cc)
    commands_keep (Cli.apk (ApkAction.uninstall name)) = ask-Keeps _ _ (λ e. cc)
    commands_keep (Cli.apk ApkAction.list) = ask-Keeps _ _ (λ e. cc)
    commands_keep (Cli.launch name) = ask-Keeps _ _ (λ e. cc)
    commands_keep Cli.shell = ask-Keeps _ _ (λ e. cc)
    commands_keep Cli.logcat = ask-Keeps _ _ (λ e. cc)
    commands_keep (Cli.screenshot path) = ask-Keeps _ _ (λ e. cc)
    commands_keep (Cli.snapshot (SnapshotAction.create name)) = ask-Keeps _ _ (λ e. cc)
    commands_keep (Cli.snapshot (SnapshotAction.restore name)) = ask-Keeps _ _ (λ e. cc)
    commands_keep (Cli.snapshot (SnapshotAction.delete name)) = ask-Keeps _ _ (λ e. cc)
    commands_keep (Cli.snapshot SnapshotAction.list) = ask-Keeps _ _ (λ e. cc)
    commands_keep (Cli.adb AdbAction.shell) = ask-Keeps _ _ (λ e. cc)
    commands_keep (Cli.adb (AdbAction.install path)) = ask-Keeps _ _ (λ e. cc)
    commands_keep (Cli.logs follow) = Local.logs-Keeps host json toml files probes uuid P silent
    commands_keep (Cli.daemon DaemonAction.start) =
        search (keeps_rules, on_system-Keeps, start-Keeps, on_spawned-Keeps) depth 9
    commands_keep (Cli.daemon DaemonAction.stop) = ask-Keeps _ _ (λ e. cc)
    commands_keep (Cli.daemon DaemonAction.status) = ask-Keeps _ _ (λ e. cc)

    -- Every command asks the daemon for methods that it knows only: what the calls of the host and
    -- the answers to known methods keep, every command keeps.
    pub main_known :
        (cli : Cli) (c : Console W)
        → P c.system
        → P (main host json toml files probes ipc version uuid cli c).1.system
    main_known cli c p = ((commands_keep cli).at c (record { holds = p })).holds
