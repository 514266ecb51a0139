-- ===== src/Config/Quiet.antt =====
-- crates/config/src/lib.rs behind the interface that the daemon uses, `Daemon.Launch.ConfigOps`.
use litedroid.Base.{ℕ, String, refl, Bool, Option, none, some, List}
use litedroid.Action.{Action}
use litedroid.Action.Rules.{keeps_rules}
use litedroid.Host.{Host, JsonValue}
use litedroid.Host.Processes.{IsProcesses, StartsNone}
use litedroid.Config.{Toml, LiteDroidConfig, data_dir, io, ensure_layout, load_file, load}
use litedroid.Config.Device.{create_default, device_config, ensure_default_device}
use litedroid.Config.Images.{
  search_path, find_sdkmanager, copy_image, accept_licenses, install_package, copy_images,
  install_images, ensure_android_images, licenses_command, version_command,
}
use litedroid.Daemon.Launch.{ConfigOps}
use litedroid.Daemon.Orphans.{IsQuiet}

module _ {W V : Type 0} (host : Host W) (json : JsonValue V) (toml : Toml) (uuid : String) where
  abbrev pub config_ops : ConfigOps W LiteDroidConfig
  config_ops = record {
    load = load host toml;
    data_dir = data_dir host;
    device_config = device_config host json uuid;
    ensure_default_device = ensure_default_device host json uuid;
    ensure_android_images = ensure_android_images host;
  }

  module _ (live : W → ℕ → Bool) (processes : IsProcesses host live) where
    io_starts :
        {A : Type 0} (m : Action W String A) → StartsNone live m → StartsNone live (io host m)
    unfolding io
    io_starts m keep w = search (keeps_rules, keep)

    layout_starts : (c : LiteDroidConfig) → StartsNone live (ensure_layout host c)
    unfolding ensure_layout
    layout_starts c w = search (keeps_rules, io_starts, processes.create_dir_all_starts) depth 16

    load_file_starts : (path : String) → StartsNone live (load_file host toml path)
    unfolding load_file
    load_file_starts path w =
        search (keeps_rules, io_starts, layout_starts, processes.read_starts) depth 9

    load_starts : StartsNone live (load host toml)
    unfolding load
    load_starts w = search (keeps_rules, load_file_starts, layout_starts) depth 9

    device_starts :
        (c : LiteDroidConfig) (name : String)
        → StartsNone live (device_config host json uuid c name)
    unfolding device_config
    device_starts c name w = search (keeps_rules, processes.read_starts) depth 9

    create_default_starts :
        (c : LiteDroidConfig) → StartsNone live (create_default host json uuid c)
    unfolding create_default
    create_default_starts c w =
        search (keeps_rules, io_starts, processes.create_dir_all_starts, processes.write_starts)
          depth 9

    default_starts :
        (c : LiteDroidConfig) → StartsNone live (ensure_default_device host json uuid c)
    unfolding ensure_default_device
    default_starts c w = search (keeps_rules, device_starts, create_default_starts) depth 9

    version_starts : StartsNone live (host.status version_command)
    version_starts = processes.status_starts _ refl

    search_path_starts : (found : Option String) → StartsNone live (search_path host found)
    unfolding search_path
    search_path_starts (some path) w = search keeps_rules
    search_path_starts none w = search (keeps_rules, version_starts) depth 9

    sdkmanager_starts : (root : String) → StartsNone live (find_sdkmanager host root)
    unfolding find_sdkmanager
    sdkmanager_starts root w = search (keeps_rules, search_path_starts) depth 9

    licenses_child_starts :
        (manager root : String) → StartsNone live (host.spawn (licenses_command manager root))
    licenses_child_starts manager root = processes.spawn_tool _ refl

    licenses_starts : (manager root : String) → StartsNone live (accept_licenses host manager root)
    unfolding accept_licenses
    licenses_starts manager root w =
        search
          (
            keeps_rules, io_starts, licenses_child_starts, processes.write_all_starts,
            processes.wait_status_starts,
          )
          depth 9

    package_starts :
        (manager root name : String) → StartsNone live (install_package host manager root name)
    unfolding install_package
    package_starts manager root name w =
        search (keeps_rules, io_starts, processes.output_starts) depth 9

    copy_starts :
        (dir : String) (names : List String) (to : String)
        → StartsNone live (copy_image host dir names to)
    unfolding copy_image
    copy_starts dir names to w = search (keeps_rules, io_starts, processes.copy_starts) depth 9

    copies_starts : (dir images : String) → StartsNone live (copy_images host dir images)
    unfolding copy_images
    copies_starts dir images w = search (keeps_rules, copy_starts) depth 9

    install_starts :
        (c : LiteDroidConfig) (level : ℕ) (images : String)
        → StartsNone live (install_images host c level images)
    unfolding install_images
    install_starts c level images w =
        search (keeps_rules, sdkmanager_starts, licenses_starts, package_starts, copies_starts)
          depth 14

    images_starts :
        (c : LiteDroidConfig) (level : ℕ) → StartsNone live (ensure_android_images host c level)
    unfolding ensure_android_images
    images_starts c level w =
        search (keeps_rules, io_starts, processes.create_dir_all_starts, install_starts) depth 9

    -- No call of the configuration that the daemon makes starts an emulator, the tools that it runs
    -- included, if the operating system does what it documents.
    pub config_ops-IsQuiet : IsQuiet config_ops live
    config_ops-IsQuiet = record {
      load_starts = load_starts;
      device_starts = device_starts;
      default_starts = default_starts;
      images_starts = images_starts;
    }
