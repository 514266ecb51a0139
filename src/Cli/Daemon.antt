-- ===== src/Cli/Daemon.antt =====
-- apps/cli/src/main.rs and apps/daemon/src/main.rs: the command line against the daemon. A request
-- reaches `dispatch`, and its response comes back.
use litedroid.Base.{
  ℕ, ◌≡◌, ◌⊎◌, inl, inr, refl, String, Bool, Outcome, ok, err, panic, out_of_fuel, Option, none,
  some, [],
}
use litedroid.Action.{◌>>=◌}
use litedroid.Core.Constants.{ipc_protocol_version}
use litedroid.Host.{Host, JsonValue}
use litedroid.Host.Processes.{IsProcesses, IsWaitable}
use litedroid.Config.{Toml}
use litedroid.Diagnostics.{Probes}
use litedroid.Ipc.{IpcResponse}
use litedroid.Daemon.State.{Session}
use litedroid.Daemon.Launch.{ConfigOps}
use litedroid.Daemon.Method.{method_of, find_method}
use litedroid.Daemon.Held.{IsIdle, IsHeld}
use litedroid.Daemon.Orphans.{IsQuiet}
use litedroid.Daemon.Requests.{dispatch, handle, serve_all}
use litedroid.Daemon.Safety.{stop_leaves_none}
use litedroid.Cli.{Cli, SnapshotAction, Console}
use litedroid.Cli.Devices.{Files}
use litedroid.Cli.Commands.{Ipc, ask, main, cmd_snapshot}

abbrev pub response :
    {S V : Type 0} → Outcome String (IpcResponse V) × S → Option (IpcResponse V) × S
response (ok resp, s) = (some resp, s)
response (err e, s) = (none, s)
response (panic, s) = (none, s)
response (out_of_fuel, s) = (none, s)

module _ {W V C : Type 0} (host : Host W) (json : JsonValue V) (config_ops : ConfigOps W C)
    (system : Host (Session W)) (toml : Toml) (files : Files (Session W))
    (probes : Probes (Session W)) (version uuid : String) where
  -- A request with the identifier `uuid`, answered by the daemon.
  unfoldable pub over_socket : Ipc (Session W) V
  unfolding dispatch
  over_socket method params s = response (
      dispatch host json config_ops
        (record {
          version = ipc_protocol_version;
          request_id = uuid;
          method = method;
          params = params;
        })
        s)

  abbrev run : Cli → Console (Session W) → Outcome String ℕ × Console (Session W)
  run = main system json toml files probes over_socket version uuid

  -- `litedroid stop`, to a daemon that holds each emulator that runs, ends with the exit code 0, and
  -- no emulator runs afterwards, if the operating system does what it documents of processes, a wait
  -- for a child does not fail, and the configuration starts no emulator.
  pub stop_command :
      (live : W → ℕ → Bool)
      → IsProcesses host live
      → IsWaitable host
      → IsQuiet config_ops live
      → (c : Console (Session W)) → IsHeld live c.system
      → ((run Cli.stop c).0 ≡ ok 0) × IsIdle live (run Cli.stop c).1.system
  unfolding main ask over_socket dispatch handle method_of find_method serve_all ◌>>=◌
  stop_command live processes waits quiet c held = (
    refl,
    stop_leaves_none host json config_ops live processes waits quiet []
        (record {
          version = ipc_protocol_version;
          request_id = uuid;
          method = "device.stop";
          params = json.object [];
        })
        c.system (inl refl) held,
  )

  refuses_snapshot :
      (action : SnapshotAction) (c : Console (Session W))
      → ((run (Cli.snapshot action) c).0 ≡ ok 1)
        × ((run (Cli.snapshot action) c).1.system ≡ c.system)
  unfolding main cmd_snapshot ask over_socket dispatch handle method_of find_method ◌>>=◌
  refuses_snapshot (SnapshotAction.create name) c = (refl, refl)
  refuses_snapshot (SnapshotAction.restore name) c = (refl, refl)
  refuses_snapshot (SnapshotAction.delete name) c = (refl, refl)
  refuses_snapshot SnapshotAction.list c = (refl, refl)

  -- Pausing, resuming and every command on snapshots end with the exit code 1, whatever the daemon's
  -- state, and leave that state alone.
  pub refused_command :
      (cli : Cli) (c : Console (Session W))
      → (cli ≡ Cli.pause) ⊎ ((cli ≡ Cli.resume) ⊎ ((a : SnapshotAction) × (cli ≡ Cli.snapshot a)))
      → ((run cli c).0 ≡ ok 1) × ((run cli c).1.system ≡ c.system)
  unfolding main ask over_socket dispatch handle method_of find_method ◌>>=◌
  refused_command cli c (inl e) = rw e (refl, refl)
  refused_command cli c (inr (inl e)) = rw e (refl, refl)
  refused_command cli c (inr (inr (a, e))) = rw e (refuses_snapshot a c)
