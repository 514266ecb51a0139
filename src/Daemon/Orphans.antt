-- ===== src/Daemon/Orphans.antt =====
-- No request leaves an emulator behind: what launching starts is what the daemon holds.
use litedroid.Base.{
  ℕ, String, ◌≡◌, refl, inl, inr, Bool, true, false, Outcome, ok, err, panic, out_of_fuel, none,
  some, Option-cases, ◌<>◌, arith,
}
use litedroid.Action.{resume, relabel}
use litedroid.Action.Rules.{Ensures, Keeps, keeps_rules, >>=-Ensures}
use litedroid.Core.Device.{DeviceConfig}
use litedroid.Core.Error.{LiteDroidError}
use litedroid.Host.{Host, JsonValue, Command, Waited, alive, exited, unknown}
use litedroid.Host.Processes.{IsProcesses, IsWaitable, StartsNone}
use litedroid.Daemon.State.{Session, on_host, stop_emulator}
use litedroid.Daemon.Launch.{
  ConfigOps, configure_avd, create_avd, create_command, require_tools, ensure_avd, android_emulator,
  choose_device, prepare, launch_device, keep_child, start_child,
}
use litedroid.Daemon.Replies.{start_after, start_device, relaunch}
use litedroid.Daemon.Held.{IsIdle, IsHeld, idle-IsHeld, on_host-IsIdle, stop_emulator-IsIdle}

-- The calls of the configuration start no emulator.
pub record IsQuiet {W C : Type 0} (config_ops : ConfigOps W C) (live : W → ℕ → Bool) : Type 0 where
  pub load_starts : StartsNone live config_ops.load
  pub device_starts : (c : C) (name : String) → StartsNone live (config_ops.device_config c name)
  pub default_starts : (c : C) → StartsNone live (config_ops.ensure_default_device c)
  pub images_starts :
      (c : C) (level : ℕ) → StartsNone live (config_ops.ensure_android_images c level)

module _ {W : Type 0} (host : Host W) (live : W → ℕ → Bool) (processes : IsProcesses host live)
    (waits : IsWaitable host) where
  create_starts : (p : String) → StartsNone live (host.create p)
  create_starts = processes.create_starts

  clone_starts : (h : ℕ) → StartsNone live (host.try_clone h)
  clone_starts = processes.clone_starts

  configure_avd_starts :
      (dir : String) (device : DeviceConfig) → StartsNone live (configure_avd host dir device)
  unfolding configure_avd
  configure_avd_starts dir device w =
      search (keeps_rules, processes.read_starts, processes.write_starts) depth 9

  avdmanager_starts :
      (manager name : String) (device : DeviceConfig)
      → StartsNone live (host.spawn (create_command manager name device))
  unfolding create_command
  avdmanager_starts manager name device = processes.spawn_tool _ refl

  create_avd_starts :
      (manager name : String) (device : DeviceConfig)
      → StartsNone live (create_avd host manager name device)
  unfolding create_avd
  create_avd_starts manager name device w =
      search
        (keeps_rules, avdmanager_starts, processes.write_all_starts, processes.wait_output_starts)
        depth 9

  android_emulator_starts :
      (dir : String) (device : DeviceConfig) (name : String)
      → StartsNone live (android_emulator host dir device name)
  unfolding android_emulator require_tools ensure_avd
  android_emulator_starts dir device name w =
      search (keeps_rules, configure_avd_starts, create_avd_starts) depth 9

  module _ {C : Type 0} (config_ops : ConfigOps W C) (quiet : IsQuiet config_ops live) where
    choose_device_starts :
        (c : C) (name : String) (found : Outcome LiteDroidError DeviceConfig)
        → StartsNone live (choose_device host config_ops c name found)
    unfolding choose_device
    choose_device_starts c name (ok device) w = search keeps_rules
    choose_device_starts c name (err e) w = search (keeps_rules, quiet.default_starts)
    choose_device_starts c name panic w = search keeps_rules
    choose_device_starts c name out_of_fuel w = search keeps_rules

    prepare_starts :
        (name : String) (wipe : Bool) → StartsNone live (prepare host config_ops name wipe)
    unfolding prepare
    prepare_starts name wipe w =
        search
          (
            keeps_rules, quiet.load_starts, quiet.device_starts, choose_device_starts,
            quiet.images_starts, android_emulator_starts, create_starts, clone_starts,
          )
          depth 20

    prepare-IsIdle :
        (name : String) (wipe : Bool)
        → Keeps (IsIdle live) (on_host (prepare host config_ops name wipe))
    prepare-IsIdle name wipe = on_host-IsIdle live _ (prepare_starts name wipe)

    module _ {V : Type 0} (json : JsonValue V) where
      started-IsHeld :
          (name adb : String) (reply : V) (r : Outcome String ℕ) (s : Session W)
          → ((d : ℕ) → live s.world d ≡ true → r ≡ ok d)
          → IsHeld live
              (resume
                (keep_child host config_ops json name adb reply)
                (relabel (λ e. "Cannot start Android emulator: " <> e) r)
                s).1
      unfolding keep_child
      started-IsHeld name adb reply (ok c) s h d l = cc (h d l)
      started-IsHeld name adb reply (err e) s h d l = cc (h d l)
      started-IsHeld name adb reply panic s h d l = cc (h d l)
      started-IsHeld name adb reply out_of_fuel s h d l = cc (h d l)

      start_child-IsHeld :
          (name : String) (wipe : Bool) (prepared : Command × String × String × String)
          → Ensures
              (IsIdle live)
              (IsHeld live)
              (start_child host config_ops json name wipe prepared)
      unfolding start_child
      start_child-IsHeld name wipe (command, adb, avd, log) = record {
        at = λ s h.
            started-IsHeld name adb _ (host.spawn command s.world).0
              (record s { world = (host.spawn command s.world).1 })
              (λ d l. ground (arith, h d, processes.spawn_one command s.world d l));
      }

      pub launch_device-IsHeld :
          (name : String) (wipe : Bool)
          → Ensures (IsIdle live) (IsHeld live) (launch_device host config_ops json name wipe)
      unfolding launch_device
      launch_device-IsHeld name wipe =
          >>=-Ensures (idle-IsHeld live) _ _ (prepare-IsIdle name wipe)
            (start_child-IsHeld name wipe)

      start_after-IsHeld :
          (c : ℕ) (waited : Waited) (name : String) (s : Session W)
          → ((b : Bool) → waited ≡ exited b → live s.world c ≡ false)
          → s.state.emulator ≡ some c
          → IsHeld live s
          → IsHeld live (start_after host json config_ops waited name s).1
      unfolding start_after
      start_after-IsHeld c (exited b) name s ended e h =
          (launch_device-IsHeld name false).at
            (record s { state = record s.state { emulator = none } })
            (λ d l. ground (arith, h d l, ended b refl))
      start_after-IsHeld c alive name s ended e h = h
      start_after-IsHeld c unknown name s ended e h = h

      pub start_device-IsHeld :
          (name : String) → Keeps (IsHeld live) (start_device host json config_ops name)
      unfolding start_device
      start_device-IsHeld name = record {
        at = λ s h. elim (Option-cases s.state.emulator) [
          | inl e ↦
              rw (e, start_device) ((launch_device-IsHeld name false).at s (λ d l. cc (h d l)))
          | inr (c, e) ↦
              rw (e, start_device)
                (start_after-IsHeld c (host.try_wait c s.world).0 name
                  (record s { world = (host.try_wait c s.world).1 })
                  (processes.try_wait_ended c s.world) e
                  (λ d l. h d (processes.try_wait_starts c s.world d l)))
        ];
      }

      pub relaunch-IsHeld : (wipe : Bool) → Keeps (IsHeld live) (relaunch host json config_ops wipe)
      unfolding relaunch
      relaunch-IsHeld wipe = record {
        at = λ s h.
            (launch_device-IsHeld _ wipe).at (stop_emulator host s)
              (stop_emulator-IsIdle live host processes waits s h);
      }
