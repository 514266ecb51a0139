-- ===== src/Cli/Created.antt =====
-- apps/cli/src/main.rs and crates/config/src/lib.rs: a device that the command line creates, as the
-- daemon loads it.
use litedroid.Base.{
  ℕ, ◌≤◌, ◌<◌, ◌≡◌, ◌≢◌, refl, ap, ◌∙◌, subst, String, ◌<>◌, show, Outcome, ok, err, panic,
  out_of_fuel, [], arith,
}
use litedroid.Action.{pure, lift, attempt, map_err, ◌>>=◌, ◌>>◌}
use litedroid.Action.Rules.{Ends, Ends-bind, Ends-test}
use litedroid.Core.Constants.{min_ram_mb}
use litedroid.Core.Device.{DeviceConfig, validate, is_empty, validate-IsValid}
use litedroid.Core.Error.{LiteDroidError, config_error}
use litedroid.Host.{Host, JsonValue}
use litedroid.Config.{Toml, LiteDroidConfig}
use litedroid.Config.Device.{default_device_config, from_metadata, metadata_path, device_config}
use litedroid.Config.Fields.{IsJson, IsFiles, IsSized, overlaid, from_metadata-object}
use litedroid.Cli.{Console, println, eprintln, on_system}
use litedroid.Cli.Devices.{Files, cli_fields, unwrap, finish, save_device}

validate_small :
    (d : DeviceConfig) → d.ram_mb < 512 → (e : String) × (validate d ≡ err (config_error e))
unfolding validate is_empty
validate_small d h = (
  "RAM " <> show d.ram_mb <> "MB is below the minimum of " <> show min_ram_mb <> "MB",
  ground arith,
)

module _ {W V : Type 0} (host : Host W) (json : JsonValue V) (toml : Toml) (files : Files W)
    (uuid : String) where
  -- What the command leaves when its exit code is 0.
  record IsStored (config : LiteDroidConfig) (d : DeviceConfig) (c : Console W) : Type 0 where
    content : String
    printed :
        json.to_string_pretty (json.object (cli_fields host json toml files uuid config d))
        ≡ ok content
    reads : host.read_to_string (metadata_path host config d.name) c.system ≡ (ok content, c.system)

  unwrap-eq-ok :
      (r : Outcome String String) (s : String)
      → unwrap host json toml files uuid r ≡ ok s
      → r ≡ ok s
  unfolding unwrap
  unwrap-eq-ok (ok t) s e = e
  unwrap-eq-ok (err x) s e = cc
  unwrap-eq-ok panic s e = cc
  unwrap-eq-ok out_of_fuel s e = cc

  -- The exit code 0 is that of a call that succeeded, and printing leaves the host alone.
  finished :
      (line : String) (r : Outcome String (Unit {0})) (c c' : Console W) (code : ℕ)
      → finish host json toml files uuid line r c ≡ (ok code, c')
      → code ≡ 0
      → (r ≡ ok tt) × (c.system ≡ c'.system)
  unfolding finish println eprintln ◌>>=◌
  finished line (ok tt) c c' code e zero = (refl, ap (λ p. p.1.system) e)
  finished line (err x) c c' code e zero = let one : 1 ≡ code = cc in absurd (omega arith)
  finished line panic c c' code e zero = cc
  finished line out_of_fuel c c' code e zero = cc

  module _ (laws : IsJson json) (kept : IsFiles host) (config : LiteDroidConfig)
      (d : DeviceConfig) where
    abbrev Saved : ℕ → Console W → Type 0
    Saved code c = code ≡ 0 → IsStored config d c

    written :
        (content : String)
        → unwrap host json toml files uuid
            (json.to_string_pretty (json.object (cli_fields host json toml files uuid config d)))
          ≡ ok content
        → Ends Saved (
            attempt
              (on_system (host.write (metadata_path host config d.name) (host.as_bytes content)))
            >>= finish host json toml files uuid ("Device \"" <> d.name <> "\" created"))
    unfolding ◌>>=◌ on_system attempt finish metadata_path
    written content e = record {
      at = λ c c' code done zero.
          let path = metadata_path host config d.name in
          let call = host.write path (host.as_bytes content) c.system in
          let (good, same) =
            finished ("Device \"" <> d.name <> "\" created") call.0 (record c { system = call.1 })
              c' code done zero in
          let whole : call ≡ (ok tt, call.1) = cc in
          let (present, reads) = kept.written path content c.system call.1 whole in
          record {
            content = content;
            printed = unwrap-eq-ok _ content e;
            reads = subst (λ w. host.read_to_string path w ≡ (ok content, w)) same reads;
          };
    }

    save_device-Ends : Ends Saved (save_device host json toml files uuid d config)
    unfolding save_device metadata_path
    save_device-Ends = search (Ends-bind, Ends-test, written) depth 9

    abbrev base : String → DeviceConfig
    base other = default_device_config host other config

    -- How the check of a profile ends its loading.
    abbrev judged : DeviceConfig → W → Outcome LiteDroidError DeviceConfig × W
    judged device w = (lift (validate device) >> pure device) w

    some_abi : (other : String) → (base other).supported_abis ≢ []
    unfolding default_device_config
    some_abi other e = cc

    loads :
        (other content : String) (device : DeviceConfig) (m : V) (w : W)
        → host.read_to_string (metadata_path host config d.name) w ≡ (ok content, w)
        → json.from_str content ≡ ok m
        → from_metadata json d.name m (base other) ≡ device
        → device_config host json other config d.name w ≡ judged device w
    unfolding device_config ◌>>=◌ map_err
    loads other content device m w reads parsed same =
        rw (reads, parsed) (ap (λ x. judged x w) same)

    saved_judged :
        (other : String) (c c' : Console W)
        → IsSized d
        → ((s : String)
            → json.to_string_pretty (json.object (cli_fields host json toml files uuid config d))
              ≡ ok s
            → json.from_str s ≡ ok (json.object (cli_fields host json toml files uuid config d)))
        → save_device host json toml files uuid d config c ≡ (ok 0, c')
        → device_config host json other config d.name c'.system
          ≡ judged (overlaid d (base other)) c'.system
    unfolding cli_fields
    saved_judged other c c' size parses done =
        let s = save_device-Ends.at c c' 0 done refl in
        loads other s.content _ _ c'.system s.reads (parses s.content s.printed) (
          from_metadata-object json laws d.name _ d (base other) size (record {
            name = refl;
            vcpus = refl;
            ram = refl;
            android = refl;
            level = refl;
            width = refl;
            height = refl;
            dpi = refl;
          }))

    -- A device that the command line saves with the exit code 0, with a memory and vCPUs that
    -- `validate` accepts and numbers that fit their types, is loaded by the configuration with its
    -- name and every number that it was created with, if files and serde_json give back what was
    -- written.
    pub save_device-device_config :
        (other : String) (c c' : Console W)
        → IsSized d
        → ((s : String)
            → json.to_string_pretty (json.object (cli_fields host json toml files uuid config d))
              ≡ ok s
            → json.from_str s ≡ ok (json.object (cli_fields host json toml files uuid config d)))
        → save_device host json toml files uuid d config c ≡ (ok 0, c')
        → 512 ≤ d.ram_mb
        → d.ram_mb ≤ 8192
        → 0 < d.vcpu_count
        → device_config host json other config d.name c'.system
          ≡ (ok (overlaid d (base other)), c'.system)
    unfolding ◌>>=◌
    save_device-device_config other c c' size parses done low high vcpus =
        let valid : validate (overlaid d (base other)) ≡ ok tt =
          (validate-IsValid (overlaid d (base other))).1
            (record { ram_low = low; ram_high = high; vcpus = vcpus; abis = some_abi other }) in
        saved_judged other c c' size parses done ∙ rw valid refl

    -- When serde_json prints the profile and the file can be written, whatever `create_dir_all`
    -- answered, the command succeeds: it has no other check.
    save_device-zero :
        (content : String) (c : Console W)
        → json.to_string_pretty (json.object (cli_fields host json toml files uuid config d))
          ≡ ok content
        → ((w : W)
            → (host.write (metadata_path host config d.name) (host.as_bytes content) w).0 ≡ ok tt)
        → (c' : Console W) × (save_device host json toml files uuid d config c ≡ (ok 0, c'))
    unfolding save_device on_system attempt finish unwrap println pure lift metadata_path ◌>>=◌
    save_device-zero content c prints writes =
        let done = save_device host json toml files uuid d config c in
        let zero : done.0 ≡ ok 0 = rw (prints, writes) refl in
        (done.1, ap (λ (r : Outcome String ℕ). (r, done.1)) zero)

    -- The command line saves a device with less than 512 MB as well: when serde_json prints its
    -- profile, with numbers that fit their types, and the file can be written, the exit code is 0.
    -- The configuration then refuses to load it, if files and serde_json give back what was written.
    pub save_device-refused :
        (other content : String) (c : Console W)
        → IsSized d
        → json.to_string_pretty (json.object (cli_fields host json toml files uuid config d))
          ≡ ok content
        → ((w : W)
            → (host.write (metadata_path host config d.name) (host.as_bytes content) w).0 ≡ ok tt)
        → ((s : String)
            → json.to_string_pretty (json.object (cli_fields host json toml files uuid config d))
              ≡ ok s
            → json.from_str s ≡ ok (json.object (cli_fields host json toml files uuid config d)))
        → d.ram_mb < 512
        → (c' : Console W) × (e : String) × (save_device host json toml files uuid d config c
            ≡ (ok 0, c'))
          × (device_config host json other config d.name c'.system
              ≡ (err (config_error e), c'.system))
    unfolding ◌>>=◌
    save_device-refused other content c size prints writes parses low =
        let (c', done) = save_device-zero content c prints writes in
        let (e, refused) = validate_small (overlaid d (base other)) low in
        (c', e, done, saved_judged other c c' size parses done ∙ rw refused refl)
