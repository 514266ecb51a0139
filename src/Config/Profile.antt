-- ===== src/Config/Profile.antt =====
-- crates/config/src/lib.rs: what a device profile says when it is read back.
use litedroid.Base.{
  ◌≡◌, refl, sym, ap, ◌∙◌, String, true, Outcome, ok, err, panic, out_of_fuel, arith,
}
use litedroid.Action.{Action, relabel, map_err, ◌>>=◌}
use litedroid.Action.Rules.{Ends, Ends-bind, Ends-test, Ends-pure, Ends-last}
use litedroid.Core.Error.{config_error, os_error}
use litedroid.Core.Device.{DeviceConfig, validate, is_empty, IsValid, validate-IsValid}
use litedroid.Host.{Host, JsonValue}
use litedroid.Config.{LiteDroidConfig, io}
use litedroid.Config.Device.{
  default_device_config, from_metadata, metadata_path, device_config, metadata_json, create_default,
}
use litedroid.Config.Fields.{IsJson, IsFiles, from_metadata-metadata_json}

module _ {W V : Type 0} (host : Host W) (json : JsonValue V) (uuid : String) where
  valid : (d : DeviceConfig) (u : Unit {0}) → validate d ≡ ok u → IsValid d
  valid d u e = (validate-IsValid d).0 e

  device_config-Ends :
      (config : LiteDroidConfig) (name : String)
      → Ends (λ d w. IsValid d) (device_config host json uuid config name)
  unfolding device_config
  device_config-Ends config name = search (Ends-bind, Ends-test, Ends-pure, valid) depth 12

  -- A device profile that is loaded is one that a virtual machine may be built from, whatever the
  -- file says.
  pub device_config-IsValid :
      (config : LiteDroidConfig) (name : String) (w w' : W) (d : DeviceConfig)
      → device_config host json uuid config name w ≡ (ok d, w')
      → IsValid d
  device_config-IsValid config name = (device_config-Ends config name).at

pub relabel-eq-ok :
    {E F A : Type 0} (f : E → F) (r : Outcome E A) (a : A) → relabel f r ≡ ok a → r ≡ ok a
relabel-eq-ok f (ok b) a e = cc
relabel-eq-ok f (err x) a e = cc
relabel-eq-ok f panic a e = cc
relabel-eq-ok f out_of_fuel a e = cc

io-eq-ok :
    {W A : Type 0} (host : Host W) (m : Action W String A) (w w' : W) (a : A)
    → io host m w ≡ (ok a, w')
    → m w ≡ (ok a, w')
unfolding io map_err
io-eq-ok host m w w' a e =
    let outcome : (m w).0 ≡ ok a = relabel-eq-ok os_error (m w).0 a (ap (λ p. p.0) e) in
    let after : (m w).1 ≡ w' = ap (λ p. p.1) e in cc

module _ {W V : Type 0} (host : Host W) (json : JsonValue V) (laws : IsJson json)
    (files : IsFiles host) (config : LiteDroidConfig) where
  -- The default device with an identifier.
  abbrev default_device : String → DeviceConfig
  default_device uuid = record (default_device_config host uuid config) { name = "default" }

  record IsStored (uuid : String) (d : DeviceConfig) (w : W) : Type 0 where
    device : d ≡ default_device uuid
    content : String
    printed : json.to_string_pretty (metadata_json json (default_device uuid)) ≡ ok content
    present : host.is_file w (metadata_path host config "default") ≡ true
    reads : host.read_to_string (metadata_path host config "default") w ≡ (ok content, w)

  stored :
      (uuid content : String)
      → relabel config_error (json.to_string_pretty (metadata_json json (default_device uuid)))
        ≡ ok content
      → (a : Unit {0}) (w w' : W)
      → io host (host.write (metadata_path host config "default") (host.as_bytes content)) w
        ≡ (ok a, w')
      → IsStored uuid (default_device uuid) w'
  stored uuid content e a w w' wrote =
      let path = metadata_path host config "default" in
      let done = io-eq-ok host _ w w' a wrote in
      let (present, reads) = files.written path content w w' done in
      record {
        device = refl;
        content = content;
        printed = relabel-eq-ok config_error _ content e;
        present = present;
        reads = reads;
      }

  create_default-Ends :
      (uuid : String) → Ends (IsStored uuid) (create_default host json uuid config)
  unfolding create_default
  create_default-Ends uuid = search (Ends-bind, Ends-test, Ends-last, stored) depth 12

  loaded :
      (uuid name content : String) (m : V) (device : DeviceConfig) (w : W)
      → host.read_to_string (metadata_path host config name) w ≡ (ok content, w)
      → json.from_str content ≡ ok m
      → from_metadata json name m (default_device_config host uuid config) ≡ device
      → validate device ≡ ok tt
      → device_config host json uuid config name w ≡ (ok device, w)
  unfolding device_config ◌>>=◌ map_err
  loaded uuid name content m device w reads parsed same valid =
      let base = default_device_config host uuid config in
      let accepted : validate (from_metadata json name m base) ≡ ok tt = ap validate same ∙ valid in
      rw (reads, parsed, accepted) (ap (λ d. (ok d, w)) same)

  read_back :
      (uuid other : String)
      → from_metadata json "default"
          (metadata_json json (default_device uuid))
          (default_device_config host other config)
        ≡ default_device other
  unfolding default_device_config
  read_back uuid other =
      from_metadata-metadata_json json laws "default" (default_device uuid)
        (default_device_config host other config)
        (record {
          vcpus = omega arith;
          ram = omega arith;
          level = omega arith;
          width = omega arith;
          height = omega arith;
          dpi = omega arith;
        })

  default_device-valid : (uuid : String) → validate (default_device uuid) ≡ ok tt
  unfolding default_device_config validate is_empty
  default_device-valid uuid = refl

  renamed :
      (uuid other : String) → record (default_device uuid) { id = other } ≡ default_device other
  unfolding default_device_config
  renamed uuid other = refl

  -- The default device that was created is the one that is loaded from its file afterwards, but for
  -- the identifier: the file has it, and it is not read; if files and serde_json give back what was
  -- written.
  pub device_config-create_default :
      (uuid other : String)
      → ((s : String)
          → json.to_string_pretty (metadata_json json (default_device uuid)) ≡ ok s
          → json.from_str s ≡ ok (metadata_json json (default_device uuid)))
      → (w w' : W) (d : DeviceConfig) → create_default host json uuid config w ≡ (ok d, w')
      → device_config host json other config "default" w' ≡ (ok (record d { id = other }), w')
  device_config-create_default uuid other parses w w' d e =
      let s = (create_default-Ends uuid).at w w' d e in
      let same : record d { id = other } ≡ default_device other =
        ap (λ (c : DeviceConfig). record c { id = other }) s.device ∙ renamed uuid other in
      loaded other "default" s.content _ _ w' s.reads (parses s.content s.printed)
        (read_back uuid other) (default_device-valid other)
      ∙ ap (λ c. (ok c, w')) (sym same)
