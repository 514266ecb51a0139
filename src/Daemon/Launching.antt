-- ===== src/Daemon/Launching.antt =====
-- apps/daemon/src/main.rs: what `launch_device` starts and what it leaves in the daemon's state.
use litedroid.Base.{ℕ, String, ◌<>◌, ◌≡◌, refl, Bool, Outcome, ok, err, panic, out_of_fuel}
use litedroid.Action.{Action, pure, ◌>>=◌, attempt, map_err, resume, relabel}
use litedroid.Action.Rules.{>>=-eq-ok}
use litedroid.Core.Device.{DeviceConfig}
use litedroid.Core.Error.{LiteDroidError, to_string}
use litedroid.Host.{Host, JsonValue, Command}
use litedroid.Daemon.State.{Session}
use litedroid.Daemon.Launch.{
  ConfigOps, AndroidTools, avd_name, emulator_command, choose_device, android_emulator, prepare,
  launch_device, launched, booting, keep_child, start_child,
}

module _ {W V C : Type 0} (host : Host W) (json : JsonValue V) (config_ops : ConfigOps W C) where
  abbrev Prepared : Type 0
  Prepared = Command × String × String × String

  abbrev log_path : C → String
  log_path config = host.join (host.join (config_ops.data_dir config) "logs") "android-emulator.log"

  -- The command was made for the device that the configuration gives for `name`.
  record IsBuilt (name : String) (wipe : Bool) (p : Prepared) : Type 0 where
    config : C
    found : Outcome LiteDroidError DeviceConfig
    device : DeviceConfig
    tools : AndroidTools
    log : String
    log_copy : ℕ
    log_file : ℕ
    before : W
    loaded : W
    settled : W
    asked : config_ops.device_config config name before ≡ (found, loaded)
    chosen : choose_device host config_ops config name found loaded ≡ (ok device, settled)
    made : p ≡ (
      emulator_command host tools (avd_name name device.api_level) wipe log_copy log_file,
      tools.adb,
      avd_name name device.api_level,
      log,
    )

  -- A launch that answered `v`: the child is of such a command, and the daemon keeps it.
  pub record IsLaunch (name : String) (wipe : Bool) (s : Session W) (v : V) (t : Session W)
      : Type 0 where
    command : Command
    adb : String
    avd : String
    log : String
    w : W
    built : IsBuilt name wipe (command, adb, avd, log)
    pub child : ℕ
    spawned : host.spawn command w ≡ (ok child, t.world)
    answered : v ≡ launched host config_ops json name wipe avd log
    pub kept : t.state ≡ booting host config_ops name child adb s.state

  -- What a launch of `name` from `s` gives: a child, or nothing of the state has changed.
  abbrev pub Launches : String → Bool → Session W → Outcome String V × Session W → Type 0
  Launches name wipe s (ok v, t) = IsLaunch name wipe s v t
  Launches name wipe s (err e, t) = t.state ≡ s.state
  Launches name wipe s (panic, t) = t.state ≡ s.state
  Launches name wipe s (out_of_fuel, t) = t.state ≡ s.state

  attempt-eq-ok :
      {E A : Type 0} (m : Action W E A) (r : Outcome E A) (w w' : W)
      → attempt {F = String} m w ≡ (ok r, w')
      → m w ≡ (r, w')
  unfolding attempt
  attempt-eq-ok m r w w' e = cc

  pure-eq-ok : {A : Type 0} (a b : A) (w w' : W) → pure {E = String} a w ≡ (ok b, w') → b ≡ a
  unfolding pure
  pure-eq-ok a b w w' e = cc

  -- What the two parts of a chain that succeeded gave.
  after_step :
      {A B : Type 0} {P : Type 0} (m : Action W String A) (k : A → Action W String B) (b : B)
      (w w' : W)
      → (m >>= k) w ≡ (ok b, w')
      → ((a : A) (t : W) → m w ≡ (ok a, t) → k a t ≡ (ok b, w') → P)
      → P
  after_step m k b w w' e use_it =
      let (a, t, first, rest) = >>=-eq-ok m k w w' b e in use_it a t first rest

  prepare-eq-ok :
      (name : String) (wipe : Bool) (p : Prepared) (w w' : W)
      → prepare host config_ops name wipe w ≡ (ok p, w')
      → IsBuilt name wipe p
  unfolding prepare
  prepare-eq-ok name wipe p w w' e =
      after_step (map_err (λ x. "Cannot load configuration: " <> to_string x) config_ops.load) _ p w
        w' e
        λ config w1 _ e1.
          after_step (attempt (config_ops.device_config config name)) _ p w1 w' e1
            λ found w2 asked e2.
              after_step (choose_device host config_ops config name found) _ p w2 w' e2
                λ device w3 chosen e3.
                  after_step
                    (map_err (λ x. "Android images are unavailable: " <> to_string x)
                      (config_ops.ensure_android_images config device.api_level))
                    _ p w3 w' e3
                    λ _ w4 _ e4.
                      after_step
                        (android_emulator host (config_ops.data_dir config) device
                          (avd_name name device.api_level))
                        _ p w4 w' e4
                        λ tools w5 _ e5.
                          after_step
                            (map_err (λ x. "Cannot create emulator log: " <> x)
                              (host.create (log_path config)))
                            _ p w5 w' e5
                            λ log_file w6 _ e6.
                              after_step
                                (map_err (λ x. "Cannot prepare emulator log: " <> x)
                                  (host.try_clone log_file))
                                _ p w6 w' e6
                                λ log_copy w7 _ e7. record {
                                  config = config;
                                  found = found;
                                  device = device;
                                  tools = tools;
                                  log =
                                      host.join (host.join (config_ops.data_dir config) "logs")
                                        "android-emulator.log";
                                  log_copy = log_copy;
                                  log_file = log_file;
                                  before = w1;
                                  loaded = w2;
                                  settled = w3;
                                  asked =
                                      attempt-eq-ok (config_ops.device_config config name) found w1
                                        w2 asked;
                                  chosen = chosen;
                                  made = pure-eq-ok _ p w7 w' e7;
                                }

  spawned-Launches :
      (name : String) (wipe : Bool) (command : Command) (adb avd log : String) (w w' : W)
      (s : Session W) (r : Outcome String ℕ)
      → IsBuilt name wipe (command, adb, avd, log)
      → host.spawn command w ≡ (r, w')
      → Launches name wipe s (
          resume
            (keep_child host config_ops json name adb
              (launched host config_ops json name wipe avd log))
            (relabel (λ e. "Cannot start Android emulator: " <> e) r)
            (record s { world = w' }))
  unfolding keep_child
  spawned-Launches name wipe command adb avd log w w' s (ok child) built spawned = record {
    command = command;
    adb = adb;
    avd = avd;
    log = log;
    w = w;
    built = built;
    child = child;
    spawned = spawned;
    answered = refl;
    kept = refl;
  }
  spawned-Launches name wipe command adb avd log w w' s (err e) built spawned = refl
  spawned-Launches name wipe command adb avd log w w' s panic built spawned = refl
  spawned-Launches name wipe command adb avd log w w' s out_of_fuel built spawned = refl

  prepared-Launches :
      (name : String) (wipe : Bool) (r : Outcome String Prepared) (w : W) (s : Session W)
      → prepare host config_ops name wipe s.world ≡ (r, w)
      → Launches name wipe s
          (resume (start_child host config_ops json name wipe) r (record s { world = w }))
  unfolding start_child
  prepared-Launches name wipe (ok (command, adb, avd, log)) w s e =
      spawned-Launches name wipe command adb avd log w (host.spawn command w).1 s
        (host.spawn command w).0 (prepare-eq-ok name wipe _ s.world w e) refl
  prepared-Launches name wipe (err x) w s e = refl
  prepared-Launches name wipe panic w s e = refl
  prepared-Launches name wipe out_of_fuel w s e = refl

  pub launch_device-Launches :
      (name : String) (wipe : Bool) (s : Session W)
      → Launches name wipe s (launch_device host config_ops json name wipe s)
  unfolding launch_device
  launch_device-Launches name wipe s =
      prepared-Launches name wipe (prepare host config_ops name wipe s.world).0
        (prepare host config_ops name wipe s.world).1 s refl
