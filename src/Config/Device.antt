-- ===== src/Config/Device.antt =====
-- crates/config/src/lib.rs: device profiles, kept as JSON files below the devices directory.
use litedroid.Base.{ℕ, String, none, some, [], ◌∷◌, wrap32}
use litedroid.Action.{Action, pure, lift, gets, map_err, when, ◌>>=◌, ◌>>◌, relabel}
use litedroid.Core.Error.{LiteDroidError, config_error, device_not_found}
use litedroid.Core.Device.{DeviceConfig, default_config, validate}
use litedroid.Host.{Host, JsonValue}
use litedroid.Config.{LiteDroidConfig, images_dir, devices_dir, io}

module _ {V : Type 0} (json : JsonValue V) where
  -- `metadata.get(key).and_then(…)`, with the value that is kept otherwise.
  unfoldable pub str_or : V → String → String → String
  str_or metadata key kept = elim (json.get metadata key) [
    | none ↦ kept
    | some v ↦ elim (json.as_str v) [ none ↦ kept | some s ↦ s ]
  ]

  unfoldable pub u64_or : V → String → ℕ → ℕ
  u64_or metadata key kept = elim (json.get metadata key) [
    | none ↦ kept
    | some v ↦ elim (json.as_u64 v) [ none ↦ kept | some n ↦ n ]
  ]

  -- `value as u32`.
  unfoldable pub u32_or : V → String → ℕ → ℕ
  u32_or metadata key kept = elim (json.get metadata key) [
    | none ↦ kept
    | some v ↦ elim (json.as_u64 v) [ none ↦ kept | some n ↦ wrap32 n ]
  ]

  unfoldable pub from_metadata : String → V → DeviceConfig → DeviceConfig
  unfolding str_or u64_or u32_or
  from_metadata name metadata d = record d {
    name = str_or metadata "name" name;
    vcpu_count = u32_or metadata "vcpu_count" d.vcpu_count;
    ram_mb = u64_or metadata "ram_mb" d.ram_mb;
    android_version = str_or metadata "android_version" d.android_version;
    api_level = u32_or metadata "api_level" d.api_level;
    display = record d.display {
      width = u32_or metadata "width" d.display.width;
      height = u32_or metadata "height" d.display.height;
      dpi = u32_or metadata "dpi" d.display.dpi;
    };
  }

  unfoldable pub metadata_json : DeviceConfig → V
  metadata_json d = json.object (
      ("name", json.string d.name)
      ∷ ("id", json.string d.id)
      ∷ ("android_version", json.string d.android_version)
      ∷ ("api_level", json.number d.api_level)
      ∷ ("ram_mb", json.number d.ram_mb)
      ∷ ("vcpu_count", json.number d.vcpu_count)
      ∷ ("width", json.number d.display.width)
      ∷ ("height", json.number d.display.height)
      ∷ ("dpi", json.number d.display.dpi)
      ∷ [])

module _ {W : Type 0} (host : Host W) where
  -- `uuid` is what `Uuid::new_v4` gave.
  unfoldable pub default_device_config : (uuid : String) → LiteDroidConfig → DeviceConfig
  unfolding images_dir
  default_device_config uuid config =
      let images = images_dir host config in
      let d = default_config uuid in
      record d {
        storage = record d.storage {
          userdata_path = host.join images "userdata.img";
          cache_path = host.join images "cache.img";
        };
        kernel_path = host.join images "kernel";
        initramfs_path = host.join images "ramdisk.img";
        system_image_path = host.join images "system.img";
      }

  unfoldable pub metadata_path : LiteDroidConfig → String → String
  unfolding devices_dir
  metadata_path config name = host.join (host.join (devices_dir host config) name) "metadata.json"

module _ {W V : Type 0} (host : Host W) (json : JsonValue V) (uuid : String) where
  unfoldable pub device_config : LiteDroidConfig → String → Action W LiteDroidError DeviceConfig
  unfolding from_metadata default_device_config metadata_path map_err ◌>>=◌ validate
  device_config config name = do
    content ←
        map_err (λ e. device_not_found name) (host.read_to_string (metadata_path host config name))
    metadata ← lift (relabel config_error (json.from_str content))
    let device = from_metadata json name metadata (default_device_config host uuid config)
    lift (validate device)
    pure device

  unfoldable pub create_default : LiteDroidConfig → Action W LiteDroidError DeviceConfig
  unfolding default_device_config metadata_json metadata_path devices_dir io ◌>>=◌
  create_default config =
      let device = record (default_device_config host uuid config) { name = "default" } in
      do
        io host (host.create_dir_all (host.join (devices_dir host config) "default"))
        content ← lift (relabel config_error (json.to_string_pretty (metadata_json json device)))
        io host (host.write (metadata_path host config "default") (host.as_bytes content))
        pure device

  unfoldable pub ensure_default_device : LiteDroidConfig → Action W LiteDroidError DeviceConfig
  unfolding device_config create_default metadata_path when ◌>>=◌
  ensure_default_device config = do
    found ← gets (λ w. host.is_file w (metadata_path host config "default"))
    when found (device_config config "default") (create_default config)
