-- ===== src/Cli/Devices.antt =====
-- apps/cli/src/main.rs: the commands that read the configuration: the devices, the logs, and the
-- configuration itself. `uuid` is what `Uuid::new_v4` gave.
use Prim.Native.Char.{code}
use litedroid.Base.{
  ℕ, String, ◌<>◌, show, ◌==◌, Bool, true, false, if◌then◌else◌, Outcome, ok, err, panic,
  out_of_fuel, Option, none, some, List, [], ◌∷◌,
}
use litedroid.Action.{Action, pure, lift, gets, attempt, when, ◌>>=◌, ◌>>◌}
use litedroid.Core.Device.{
  DeviceConfig, DeviceProfile, minimal, developer, compatibility, default_config,
}
use litedroid.Core.Types.{DisplayConfig}
use litedroid.Core.Error.{LiteDroidError, to_string}
use litedroid.Host.{Host, JsonValue, Call}
use litedroid.Config.{Toml, LiteDroidConfig, GlobalConfig, devices_dir, images_dir, load}
use litedroid.Cli.{DeviceAction, Console, println, eprintln, on_system}

-- The calls that `Host` does not have. An entry that cannot be read is not among the entries.
pub record Files (W : Type 0) : Type 0 where
  pub read_dir : W → String → List String
  pub remove_dir_all : String → Call W (Unit {0})
  pub parse_u32 : String → Option ℕ
  pub show_global : GlobalConfig → Outcome String String

unfoldable pub show_profile : DeviceProfile → String
show_profile minimal = "Minimal"
show_profile developer = "Developer"
show_profile compatibility = "Compatibility"

-- `split_once('x')`.
unfoldable pub split_once_x : String → Option (String × String)
split_once_x String.[] = none
split_once_x (String.◌∷◌ c text) =
    let later = split_once_x text in
    if code c == b'x'
    then some (String.[], text)
    else elim later [ none ↦ none | some parts ↦ some (String.◌∷◌ c parts.0, parts.1) ]

abbrev pub text_or : String → Outcome String String → String
text_or other (ok s) = s
text_or other (err e) = other
text_or other panic = other
text_or other out_of_fuel = other

abbrev pub or_keep : {A : Type 0} → Option A → A → A
or_keep none kept = kept
or_keep (some a) kept = a

-- The size of the display, if both of its numbers are read.
unfoldable pub resize : Option ℕ → Option ℕ → DisplayConfig → DisplayConfig
resize (some w) (some h) d = record d { width = w; height = h }
resize (some w) none d = d
resize none h d = d

module _ {W V : Type 0} (host : Host W) (json : JsonValue V) (toml : Toml) (files : Files W)
    (uuid : String) where
  -- `LiteDroidConfig::load`, whose error is printed and ends the command.
  unfoldable pub on_loaded :
      (LiteDroidConfig → Action (Console W) String ℕ)
      → Outcome LiteDroidError LiteDroidConfig
      → Action (Console W) String ℕ
  unfolding eprintln ◌>>=◌
  on_loaded next (ok config) = next config
  on_loaded next (err e) = eprintln (to_string e) >> pure 1
  on_loaded next panic = lift panic
  on_loaded next out_of_fuel = lift out_of_fuel

  unfoldable pub with_config :
      (LiteDroidConfig → Action (Console W) String ℕ) → Action (Console W) String ℕ
  unfolding on_loaded on_system attempt ◌>>=◌
  with_config next = attempt (on_system (load host toml)) >>= on_loaded next

  unfoldable pub cmd_config : Action (Console W) String ℕ
  unfolding with_config println ◌>>=◌
  cmd_config =
      with_config (λ config. println (text_or "" (files.show_global config.global)) >> pure 0)

  abbrev str_of : V → String → String
  str_of metadata key = elim (json.get metadata key) [
    | none ↦ "?"
    | some v ↦ elim (json.as_str v) [ none ↦ "?" | some s ↦ s ]
  ]

  abbrev number_of : V → String → ℕ
  number_of metadata key = elim (json.get metadata key) [
    | none ↦ 0
    | some v ↦ elim (json.as_u64 v) [ none ↦ 0 | some n ↦ n ]
  ]

  unfoldable pub print_device : V → Action (Console W) String (Unit {0})
  unfolding println ◌>>=◌
  print_device m = do
    println ("  " <> str_of m "name")
    println ("    Android: " <> str_of m "android_version")
    println (
        "    RAM: "
        <> show (number_of m "ram_mb")
        <> " MB, CPUs: "
        <> show (number_of m "vcpu_count"))
    println ""

  -- The metadata of a device, if its file is read and parsed; whether a device was printed.
  unfoldable pub on_metadata : Bool → Outcome String V → Action (Console W) String Bool
  unfolding print_device ◌>>=◌
  on_metadata found (ok m) = print_device m >> pure true
  on_metadata found (err e) = pure found
  on_metadata found panic = lift panic
  on_metadata found out_of_fuel = lift out_of_fuel

  unfoldable pub on_content : Bool → Outcome String String → Action (Console W) String Bool
  unfolding on_metadata
  on_content found (ok content) = on_metadata found (json.from_str content)
  on_content found (err e) = pure found
  on_content found panic = lift panic
  on_content found out_of_fuel = lift out_of_fuel

  unfoldable pub print_devices : List String → Bool → Action (Console W) String Bool
  unfolding on_content on_system attempt ◌>>=◌
  print_devices [] found = pure found
  print_devices (entry ∷ entries) found = do
    content ← attempt (on_system (host.read_to_string (host.join entry "metadata.json")))
    found ← on_content found content
    print_devices entries found

  abbrev no_devices : String
  no_devices = "No devices. Create one: litedroid device create <name>"

  unfoldable pub list_devices : String → Action (Console W) String ℕ
  unfolding print_devices println when ◌>>=◌
  list_devices dir = do
    entries ← gets (λ c. files.read_dir c.system dir)
    found ← print_devices entries false
    when found (pure tt) (println no_devices)
    pure 0

  unfoldable pub cmd_devices : Action (Console W) String ℕ
  unfolding with_config list_devices println when ◌>>=◌
  cmd_devices = with_config (λ config.
      gets (λ c. host.exists c.system (devices_dir host config)) >>= λ there.
      when there (list_devices (devices_dir host config)) (println no_devices >> pure 0))

  unfoldable pub parse_size : Option String → DisplayConfig → DisplayConfig
  unfolding split_once_x resize
  parse_size none d = d
  parse_size (some resolution) d = elim (split_once_x resolution) [
    | none ↦ d
    | some parts ↦ resize (files.parse_u32 parts.0) (files.parse_u32 parts.1) d
  ]

  unfoldable pub created :
      (name : String) (resolution : Option String) (dpi ram cpu : Option ℕ) → DeviceConfig
  unfolding parse_size
  created name resolution dpi ram cpu =
      let d = default_config uuid in
      record d {
        name = name;
        display = record (parse_size resolution d.display) {
          dpi = or_keep dpi (parse_size resolution d.display).dpi;
        };
        ram_mb = or_keep ram d.ram_mb;
        vcpu_count = or_keep cpu d.vcpu_count;
      }

  unfoldable pub cli_fields : LiteDroidConfig → DeviceConfig → List (String × V)
  unfolding show_profile images_dir
  cli_fields config d =
      ("name", json.string d.name)
      ∷ ("id", json.string d.id)
      ∷ ("android_version", json.string d.android_version)
      ∷ ("api_level", json.number d.api_level)
      ∷ ("kernel_path", json.string (host.join (images_dir host config) "kernel"))
      ∷ ("initramfs_path", json.string (host.join (images_dir host config) "ramdisk.img"))
      ∷ ("system_image_path", json.string (host.join (images_dir host config) "system.img"))
      ∷ ("profile", json.string (show_profile d.profile))
      ∷ ("ram_mb", json.number d.ram_mb)
      ∷ ("vcpu_count", json.number d.vcpu_count)
      ∷ ("width", json.number d.display.width)
      ∷ ("height", json.number d.display.height)
      ∷ ("dpi", json.number d.display.dpi)
      ∷ []

  -- `unwrap` on the text of the metadata.
  unfoldable pub unwrap : Outcome String String → Outcome String String
  unwrap (ok s) = ok s
  unwrap (err e) = panic
  unwrap panic = panic
  unwrap out_of_fuel = out_of_fuel

  -- A last call: a line and the code 0, or its error and the code 1.
  unfoldable pub finish : String → Outcome String (Unit {0}) → Action (Console W) String ℕ
  unfolding println eprintln ◌>>=◌
  finish line (ok u) = println line >> pure 0
  finish line (err e) = eprintln e >> pure 1
  finish line panic = lift panic
  finish line out_of_fuel = lift out_of_fuel

  unfoldable pub save_device : DeviceConfig → LiteDroidConfig → Action (Console W) String ℕ
  unfolding unwrap finish on_system attempt ◌>>=◌
  save_device d config =
      let dir = host.join (devices_dir host config) d.name in
      do
        made ← attempt {F = String} (on_system (host.create_dir_all dir))
        content ← lift (unwrap (json.to_string_pretty (json.object (cli_fields config d))))
        written ←
            attempt (on_system (host.write (host.join dir "metadata.json") (host.as_bytes content)))
        finish ("Device \"" <> d.name <> "\" created") written

  unfoldable pub remove_device : String → LiteDroidConfig → Action (Console W) String ℕ
  unfolding finish on_system attempt ◌>>=◌
  remove_device name config =
      attempt (on_system (files.remove_dir_all (host.join (devices_dir host config) name)))
      >>= finish ("Deleted \"" <> name <> "\"")

  unfoldable pub cmd_device : DeviceAction → Action (Console W) String ℕ
  unfolding with_config created save_device remove_device
  cmd_device (DeviceAction.create name resolution dpi ram cpu) =
      with_config (save_device (created name resolution dpi ram cpu))
  cmd_device (DeviceAction.delete name) = with_config (remove_device name)
