-- ===== src/Daemon/Launch.antt =====
-- apps/daemon/src/main.rs: launching an emulator for a device: the configuration, the SDK's tools,
-- the virtual device and its settings, and the child process.
use litedroid.Base.{
  ℕ, String, ◌=t◌, ◌<>◌, show, starts_with, codes, leb, Bool, false, not, ◌&&◌, ◌||◌, Outcome, ok,
  err, panic, out_of_fuel, Option, none, some, List, [], ◌∷◌, if◌then◌else◌,
}
use Prim.Native.Char.{Char, code}
use litedroid.Action.{
  gets, when, attempt, lift, fail, Action, pure, map_err, ◌>>=◌, ◌>>◌, fail_if, modify,
}
use litedroid.Core.Device.{DeviceConfig}
use litedroid.Core.Error.{LiteDroidError, to_string}
use litedroid.Host.{Host, JsonValue, Call, Command, null, piped, file}
use litedroid.Daemon.State.{DaemonState, Session, on_host}

-- The methods of `LiteDroidConfig` that the daemon calls.
pub record ConfigOps (W C : Type 0) : Type 0 where
  pub load : Action W LiteDroidError C
  pub data_dir : C → String
  pub device_config : C → String → Action W LiteDroidError DeviceConfig
  pub ensure_default_device : C → Action W LiteDroidError DeviceConfig
  pub ensure_android_images : C → ℕ → Action W LiteDroidError (Unit {0})

abbrev pub is_ascii_alphanumeric : ℕ → Bool
is_ascii_alphanumeric c =
    (leb b'0' c && leb c b'9') || (leb b'A' c && leb c b'Z') || (leb b'a' c && leb c b'z')

unfoldable pub safe_char : Char → String
safe_char c = if is_ascii_alphanumeric (code c) then String.◌∷◌ c String.[] else "_"

unfoldable pub safe_name : String → String
unfolding safe_char
safe_name String.[] = String.[]
safe_name (String.◌∷◌ c s) = safe_char c <> safe_name s

unfoldable pub avd_name : String → ℕ → String
unfolding safe_name
avd_name device_name api_level = "LiteDroid-" <> safe_name device_name <> "-API" <> show api_level

pub record AndroidTools : Type 0 where
  pub emulator : String
  pub adb : String

abbrev pub managed_keys : List String
managed_keys =
    "hw.cpu.ncore=" ∷ "hw.ramSize=" ∷ "hw.lcd.width=" ∷ "hw.lcd.height=" ∷ "hw.lcd.density=" ∷ []

unfoldable pub is_managed : String → List String → Bool
is_managed line [] = false
is_managed line (key ∷ keys) = starts_with line key || is_managed line keys

-- The lines that `configure_avd` keeps, each with its line feed.
unfoldable pub kept_lines : List String → String
unfolding is_managed
kept_lines [] = ""
kept_lines (line ∷ lines) =
    let rest = kept_lines lines in
    if is_managed line managed_keys then rest else line <> "\n" <> rest

unfoldable pub settings : DeviceConfig → String
settings device =
    "hw.cpu.ncore="
    <> show device.vcpu_count
    <> "\nhw.ramSize="
    <> show device.ram_mb
    <> "\nhw.lcd.width="
    <> show device.display.width
    <> "\nhw.lcd.height="
    <> show device.display.height
    <> "\nhw.lcd.density="
    <> show device.display.dpi
    <> "\n"

unfoldable pub create_command : String → String → DeviceConfig → Command
create_command avdmanager name device = record {
  program = avdmanager;
  args =
      "create"
      ∷ "avd"
      ∷ "--force"
      ∷ "--name"
      ∷ name
      ∷ "--package"
      ∷ ("system-images;android-" <> show device.api_level <> ";default;x86_64")
      ∷ "--device"
      ∷ "pixel_5"
      ∷ [];
  stdin = piped;
  stdout = null;
  stderr = piped;
}

module _ {W : Type 0} (host : Host W) where
  unfoldable pub configure_avd : String → DeviceConfig → Call W (Unit {0})
  unfolding kept_lines settings ◌>>=◌ map_err
  configure_avd avd_dir device =
      let config_path = host.join avd_dir "config.ini" in
      map_err (λ e. "Cannot read AVD configuration: " <> e) (host.read_to_string config_path)
      >>= λ existing.
          map_err (λ e. "Cannot update AVD configuration: " <> e)
            (host.write config_path
              (host.as_bytes (kept_lines (host.lines existing) <> settings device)))

  unfoldable pub create_avd : String → String → DeviceConfig → Call W (Unit {0})
  unfolding create_command ◌>>=◌ map_err
  create_avd avdmanager name device = do
    child ←
        map_err (λ e. "Cannot start avdmanager: " <> e)
          (host.spawn (create_command avdmanager name device))
    map_err (λ e. "Cannot configure Android AVD: " <> e) (host.write_all child (codes "no\n"))
    output ← map_err (λ e. "Cannot create Android AVD: " <> e) (host.wait_with_output child)
    fail_if (not output.success)
        ("Cannot create Android AVD: " <> host.trim (host.from_utf8_lossy output.stderr))

  abbrev pub first_of : Option String → Option String → String → String
  first_of (some a) b c = a
  first_of none (some b) c = b
  first_of none none c = c

  abbrev pub or_empty : Option String → String
  or_empty none = ""
  or_empty (some a) = a

  unfoldable pub tools_installed : String → String → String → W → Bool
  tools_installed emulator avdmanager adb w =
      host.is_file w emulator && host.is_file w avdmanager && host.is_file w adb

  unfoldable pub require_tools : String → String → AndroidTools → Call W (Unit {0})
  unfolding tools_installed ◌>>=◌
  require_tools sdk_root avdmanager tools = do
    installed ← gets (tools_installed tools.emulator avdmanager tools.adb)
    fail_if (not installed) (
        "Android Emulator tools are not installed under " <> sdk_root
        <> ". Run scripts/linux/setup.sh first.")

  unfoldable pub ensure_avd : String → String → String → DeviceConfig → Call W (Unit {0})
  unfolding create_avd when ◌>>=◌
  ensure_avd avd_dir avdmanager name device = do
    made ← gets (λ w. host.is_dir w avd_dir)
    when made (pure tt) (create_avd avdmanager name device)

  unfoldable pub android_emulator : String → DeviceConfig → String → Call W AndroidTools
  unfolding configure_avd require_tools ensure_avd ◌>>=◌
  android_emulator data_dir device name =
      let sdk_root =
        first_of (host.var_os "ANDROID_SDK_ROOT") (host.var_os "ANDROID_HOME")
          (host.join data_dir "android-sdk") in
      let tools : AndroidTools = record {
        emulator = host.join (host.join sdk_root "emulator") "emulator";
        adb = host.join (host.join sdk_root "platform-tools") "adb";
      } in
      let avdmanager =
        host.join (host.join (host.join (host.join sdk_root "cmdline-tools") "latest") "bin")
          "avdmanager" in
      let avd_dir =
        host.join (host.join (host.join (or_empty host.home_dir) ".android") "avd")
          (name <> ".avd") in
      do
        require_tools sdk_root avdmanager tools
        ensure_avd avd_dir avdmanager name device
        configure_avd avd_dir device
        pure tools

  abbrev pub emulator_args : String → Bool → List String
  emulator_args avd_name wipe_data =
      "-avd"
      ∷ avd_name
      ∷ "-port"
      ∷ "5554"
      ∷ "-gpu"
      ∷ "swiftshader_indirect"
      ∷ "-no-snapshot"
      ∷ "-no-metrics"
      ∷ (if wipe_data then "-wipe-data" ∷ [] else [])

  unfoldable pub emulator_command : AndroidTools → String → Bool → ℕ → ℕ → Command
  emulator_command tools avd_name wipe_data log_copy log_file = record {
    program = tools.emulator;
    args = emulator_args avd_name wipe_data;
    stdin = null;
    stdout = file log_copy;
    stderr = file log_file;
  }

  module _ {C : Type 0} (config_ops : ConfigOps W C) where
    -- The `match` on the device's configuration.
    unfoldable pub choose_device :
        C → String → Outcome LiteDroidError DeviceConfig → Call W DeviceConfig
    unfolding when map_err ◌>>=◌
    choose_device config device_name (ok device) = pure device
    choose_device config device_name (err e) =
        when (device_name =t "default")
          (map_err (λ e. "Cannot create default device: " <> to_string e)
            (config_ops.ensure_default_device config))
          (fail ("Cannot load device " <> device_name <> ": " <> to_string e))
    choose_device config device_name panic = lift panic
    choose_device config device_name out_of_fuel = lift out_of_fuel

    -- What `launch_device` does before it starts the child: the command, and ADB's path.
    unfoldable pub prepare : String → Bool → Call W (Command × String × String × String)
    unfolding choose_device android_emulator emulator_command attempt ◌>>=◌ map_err
    prepare device_name wipe_data = do
      config ← map_err (λ e. "Cannot load configuration: " <> to_string e) config_ops.load
      found ← attempt (config_ops.device_config config device_name)
      device ← choose_device config device_name found
      map_err (λ e. "Android images are unavailable: " <> to_string e)
          (config_ops.ensure_android_images config device.api_level)
      let name = avd_name device_name device.api_level
      tools ← android_emulator (config_ops.data_dir config) device name
      let emulator_log =
          host.join (host.join (config_ops.data_dir config) "logs") "android-emulator.log"
      log_file ← map_err (λ e. "Cannot create emulator log: " <> e) (host.create emulator_log)
      log_copy ← map_err (λ e. "Cannot prepare emulator log: " <> e) (host.try_clone log_file)
      pure (emulator_command tools name wipe_data log_copy log_file, tools.adb, name, emulator_log)

    abbrev pub booting : String → ℕ → String → DaemonState → DaemonState
    booting device_name child adb d = record d {
      active_device = some device_name;
      power_state = "booting";
      emulator = some child;
      adb = some adb;
    }

    module _ {V : Type 0} (json : JsonValue V) where
      unfoldable pub launched : String → Bool → String → String → V
      launched device_name wipe_data avd log = json.object (
          ("device", json.string device_name)
          ∷ ("status", json.string "booting")
          ∷ ("avd", json.string avd)
          ∷ ("log", json.string log)
          ∷ ("wipe_data", json.boolean wipe_data)
          ∷ [])

      -- The child is kept, and what was asked for is reported.
      unfoldable pub keep_child : String → String → V → ℕ → Action (Session W) String V
      unfolding ◌>>=◌
      keep_child device_name adb reply child = do
        modify (λ s. record s { state = booting device_name child adb s.state })
        pure reply

      unfoldable pub start_child :
          String → Bool → Command × String × String × String → Action (Session W) String V
      unfolding keep_child launched on_host ◌>>=◌ map_err
      start_child device_name wipe_data (command, adb, avd, log) = do
        child ← map_err (λ e. "Cannot start Android emulator: " <> e) (on_host (host.spawn command))
        keep_child device_name adb (launched device_name wipe_data avd log) child

      unfoldable pub launch_device : String → Bool → Action (Session W) String V
      unfolding prepare start_child on_host ◌>>=◌
      launch_device device_name wipe_data = do
        prepared ← on_host (prepare device_name wipe_data)
        start_child device_name wipe_data prepared
