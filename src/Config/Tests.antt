-- ===== src/Config/Tests.antt =====
-- crates/config/src/lib.rs on a concrete host.
use litedroid.Base.{◌≡◌, refl, false, ok, [], ◌∷◌}
use litedroid.Core.Device.{DeviceConfig, IsValid}
use litedroid.Host.{JsonValue}
use litedroid.Daemon.Machine.{Machine, Doc, machine, doc}
use litedroid.Config.{default_config}
use litedroid.Config.Device.{default_device_config, metadata_json, create_default, device_config}
use litedroid.Config.FullDisk.{holding, holding-IsJson, full_machine, full_machine-IsFiles}
use litedroid.Config.Profile.{device_config-IsValid, device_config-create_default}

abbrev idle : Machine
idle = record { next = 5; living = λ d. false }

-- Every file holds a profile with more memory than the default.
abbrev profile_doc : JsonValue Doc
profile_doc = record doc { from_str = λ s. ok (doc.object (("ram_mb", doc.number 4096) ∷ [])) }

abbrev profile : DeviceConfig
profile = record (default_device_config machine "u" default_config) {
  name = "default";
  ram_mb = 4096;
}

device_config-IsValid_example : IsValid profile
unfolding device_config
device_config-IsValid_example =
    device_config-IsValid machine profile_doc "u" default_config "default" idle idle profile refl

abbrev default_metadata : Doc
default_metadata =
    metadata_json doc
      (record (default_device_config machine "u" default_config) { name = "default" })

abbrev metadata_doc : JsonValue Doc
metadata_doc = holding default_metadata

device_config-create_default_example :
    device_config full_machine metadata_doc "v" default_config "default" idle ≡ (
      ok (record (default_device_config full_machine "v" default_config) { name = "default" }),
      idle,
    )
unfolding create_default
device_config-create_default_example =
    device_config-create_default full_machine metadata_doc (holding-IsJson default_metadata)
      full_machine-IsFiles default_config "u" "v" (λ s e. refl) idle idle
      (record (default_device_config full_machine "u" default_config) { name = "default" }) refl
