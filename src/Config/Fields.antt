-- ===== src/Config/Fields.antt =====
-- crates/config/src/lib.rs: what is read of the fields of a device profile, by the laws of serde_json.
use litedroid.Base.{
  ℕ, ◌^◌, ◌≡◌, ◌<◌, refl, ◌∙◌, String, ◌=t◌, true, if◌then◌else◌, ok, Option, none, some, List, [],
  ◌∷◌, arith,
}
use native.Mathlib.Nat.{mod-eq_of_lt}
use litedroid.Core.Device.{DeviceConfig}
use litedroid.Host.{Host, JsonValue}
use litedroid.Config.Device.{str_or, u64_or, u32_or, from_metadata, metadata_json}

-- The value of a key: of the pairs with that key the last one.
abbrev pub last_of : {V : Type 0} → String → List (String × V) → Option V
last_of k [] = none
last_of k ((j, v) ∷ rest) = elim (last_of k rest) [
  | some u ↦ some u
  | none ↦ if k =t j then some v else none
]

-- serde_json: `get` finds what `json!` put under a key, and the accessors what a value was built of.
pub record IsJson {V : Type 0} (json : JsonValue V) : Type 0 where
  pub get_object : (l : List (String × V)) (k : String) → json.get (json.object l) k ≡ last_of k l
  pub as_str_string : (s : String) → json.as_str (json.string s) ≡ some s
  pub as_u64_number : (n : ℕ) → n < 2 ^ 64 → json.as_u64 (json.number n) ≡ some n

-- std::fs: a file that was written is there, and reads back.
pub record IsFiles {W : Type 0} (host : Host W) : Type 0 where
  pub written :
      (path s : String) (w w' : W)
      → host.write path (host.as_bytes s) w ≡ (ok tt, w')
      → (host.is_file w' path ≡ true) × (host.read_to_string path w' ≡ (ok s, w'))

-- The numbers fit the types that they are read as.
pub record IsSized (d : DeviceConfig) : Type 0 where
  pub vcpus : d.vcpu_count < 2 ^ 32
  pub ram : d.ram_mb < 2 ^ 64
  pub level : d.api_level < 2 ^ 32
  pub width : d.display.width < 2 ^ 32
  pub height : d.display.height < 2 ^ 32
  pub dpi : d.display.dpi < 2 ^ 32

-- What is read of a profile, put over another device.
abbrev pub overlaid : DeviceConfig → DeviceConfig → DeviceConfig
overlaid d base = record base {
  name = d.name;
  vcpu_count = d.vcpu_count;
  ram_mb = d.ram_mb;
  android_version = d.android_version;
  api_level = d.api_level;
  display = record base.display {
    width = d.display.width;
    height = d.display.height;
    dpi = d.display.dpi;
  };
}

-- The fields of a profile say what a device has.
pub record Says {V : Type 0} (json : JsonValue V) (l : List (String × V)) (d : DeviceConfig)
    : Type 0 where
  pub name : last_of "name" l ≡ some (json.string d.name)
  pub vcpus : last_of "vcpu_count" l ≡ some (json.number d.vcpu_count)
  pub ram : last_of "ram_mb" l ≡ some (json.number d.ram_mb)
  pub android : last_of "android_version" l ≡ some (json.string d.android_version)
  pub level : last_of "api_level" l ≡ some (json.number d.api_level)
  pub width : last_of "width" l ≡ some (json.number d.display.width)
  pub height : last_of "height" l ≡ some (json.number d.display.height)
  pub dpi : last_of "dpi" l ≡ some (json.number d.display.dpi)

module _ {V : Type 0} (json : JsonValue V) where
  module _ (laws : IsJson json) where
    str_or-string :
        (l : List (String × V)) (key s kept : String)
        → last_of key l ≡ some (json.string s)
        → str_or json (json.object l) key kept ≡ s
    unfolding str_or
    str_or-string l key s kept e = rw (laws.get_object l key ∙ e, laws.as_str_string s, str_or) refl

    u64_or-number :
        (l : List (String × V)) (key : String) (n kept : ℕ)
        → n < 2 ^ 64
        → last_of key l ≡ some (json.number n)
        → u64_or json (json.object l) key kept ≡ n
    unfolding u64_or
    u64_or-number l key n kept h e =
        rw (laws.get_object l key ∙ e, laws.as_u64_number n h, u64_or) refl

    u32_or-number :
        (l : List (String × V)) (key : String) (n kept : ℕ)
        → n < 2 ^ 32
        → last_of key l ≡ some (json.number n)
        → u32_or json (json.object l) key kept ≡ n
    unfolding u32_or
    u32_or-number l key n kept h e =
        rw (laws.get_object l key ∙ e, laws.as_u64_number n (omega arith), u32_or) (mod-eq_of_lt h)

    -- Metadata that says what a device has, read over another one: what it says comes from the
    -- first.
    pub from_metadata-object :
        (name : String) (l : List (String × V)) (d base : DeviceConfig)
        → IsSized d
        → Says json l d
        → from_metadata json name (json.object l) base ≡ overlaid d base
    unfolding from_metadata
    from_metadata-object name l d base size says =
        rw
          (
            str_or-string l "name" d.name name says.name,
            u32_or-number l "vcpu_count" d.vcpu_count base.vcpu_count size.vcpus says.vcpus,
            u64_or-number l "ram_mb" d.ram_mb base.ram_mb size.ram says.ram,
            str_or-string l "android_version" d.android_version base.android_version says.android,
            u32_or-number l "api_level" d.api_level base.api_level size.level says.level,
            u32_or-number l "width" d.display.width base.display.width size.width says.width,
            u32_or-number l "height" d.display.height base.display.height size.height says.height,
            u32_or-number l "dpi" d.display.dpi base.display.dpi size.dpi says.dpi,
          )
          refl

    pub from_metadata-metadata_json :
        (name : String) (d base : DeviceConfig)
        → IsSized d
        → from_metadata json name (metadata_json json d) base ≡ overlaid d base
    unfolding metadata_json
    from_metadata-metadata_json name d base size = from_metadata-object name _ d base size (record {
      name = refl;
      vcpus = refl;
      ram = refl;
      android = refl;
      level = refl;
      width = refl;
      height = refl;
      dpi = refl;
    })
