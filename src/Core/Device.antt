-- ===== src/Core/Device.antt =====
-- crates/core/src/device.rs: the device configuration, its validation, the runtime state and its
-- summary. A UUID and a path are texts; the random UUID of a default configuration is an argument.
use litedroid.Base.{
  ℕ, ◌≤◌, ◌<◌, ◌≡◌, ◌≢◌, ◌↔◌, refl, String, ◌<>◌, show, Option, none, List, [], ◌∷◌, Bool, true,
  false, ok, err, ltb, ◌==◌, if◌then◌else◌, arith,
}
use litedroid.Core.Constants.{
  default_vcpu_count, default_ram_mb, min_ram_mb, max_ram_mb, default_kernel_cmdline,
}
use litedroid.Core.Error.{config_error, Result}
use litedroid.Core.Types.{
  Architecture, PowerState, BootMode, AndroidAbi, DisplayConfig, NetworkConfig, AudioConfig,
  StorageConfig, default_display, default_network, default_audio, default_storage,
}

pub data DeviceProfile : Type 0 where
  minimal developer compatibility : DeviceProfile

pub record DeviceConfig : Type 0 where
  pub name : String
  pub id : String
  pub architecture : Architecture
  pub vcpu_count : ℕ
  pub ram_mb : ℕ
  pub display : DisplayConfig
  pub network : NetworkConfig
  pub audio : AudioConfig
  pub storage : StorageConfig
  pub kernel_path : String
  pub initramfs_path : String
  pub system_image_path : String
  pub dtb_path : Option String
  pub supported_abis : List AndroidAbi
  pub kernel_cmdline : String
  pub android_version : String
  pub api_level : ℕ
  pub profile : DeviceProfile

abbrev pub default_config : String → DeviceConfig
default_config uuid = record {
  name = "LiteDroid";
  id = uuid;
  architecture = Architecture.x86_64;
  vcpu_count = default_vcpu_count;
  ram_mb = default_ram_mb;
  display = default_display;
  network = default_network;
  audio = default_audio;
  storage = default_storage;
  kernel_path = "";
  initramfs_path = "";
  system_image_path = "";
  dtb_path = none;
  supported_abis = AndroidAbi.x86_64 ∷ [];
  kernel_cmdline = default_kernel_cmdline;
  android_version = "14";
  api_level = 34;
  profile = developer;
}

unfoldable pub is_empty {ℓ} : {A : Type ℓ} → List A → Bool
is_empty [] = true
is_empty (x ∷ xs) = false

unfoldable pub validate : DeviceConfig → Result (Unit {0})
unfolding is_empty
validate c =
    if ltb c.ram_mb min_ram_mb
    then err (
        config_error
          ("RAM " <> show c.ram_mb <> "MB is below the minimum of " <> show min_ram_mb <> "MB"))
    else if ltb max_ram_mb c.ram_mb
    then err (
        config_error
          ("RAM " <> show c.ram_mb <> "MB exceeds the maximum of " <> show max_ram_mb <> "MB"))
    else if c.vcpu_count == 0
    then err (config_error "vCPU count must be at least 1")
    else if is_empty c.supported_abis
    then err (config_error "At least one ABI must be specified")
    else ok tt

pub record DeviceState : Type 0 where
  pub id : String
  pub name : String
  pub power_state : PowerState
  pub boot_mode : BootMode
  pub pid : Option ℕ
  pub uptime_secs : ℕ
  pub config : DeviceConfig

pub record DeviceInfo : Type 0 where
  pub id : String
  pub name : String
  pub power_state : PowerState
  pub architecture : Architecture
  pub vcpu_count : ℕ
  pub ram_mb : ℕ
  pub android_version : String
  pub api_level : ℕ

unfoldable pub device_info : DeviceState → DeviceInfo
device_info s = record {
  id = s.id;
  name = s.name;
  power_state = s.power_state;
  architecture = s.config.architecture;
  vcpu_count = s.config.vcpu_count;
  ram_mb = s.config.ram_mb;
  android_version = s.config.android_version;
  api_level = s.config.api_level;
}

-- The configurations that a virtual machine may be built from.
pub record IsValid (c : DeviceConfig) : Type 0 where
  pub ram_low : 512 ≤ c.ram_mb
  pub ram_high : c.ram_mb ≤ 8192
  pub vcpus : 0 < c.vcpu_count
  pub abis : c.supported_abis ≢ []

-- `validate` accepts exactly the configurations with 512 to 8192 MB of RAM, a vCPU and an ABI.
pub validate-IsValid : (c : DeviceConfig) → (validate c ≡ ok tt) ↔ IsValid c
unfolding validate is_empty
validate-IsValid c = (λ h. accepted h, λ v. ground arith)
  where
    accepted : validate c ≡ ok tt → IsValid c
    accepted h = ground arith

-- The default configuration is accepted, whatever its identifier.
pub validate-default_config : (uuid : String) → validate (default_config uuid) ≡ ok tt
unfolding validate is_empty
validate-default_config uuid = refl
