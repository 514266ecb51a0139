-- ===== src/Config/Images.antt =====
-- crates/config/src/lib.rs: the Android system images. They are installed by the SDK's `sdkmanager`
-- unless the images directory has usable ones.
use litedroid.Base.{
  ℕ, zero, suc, String, ◌<>◌, show, codes, ltb, Bool, true, false, not, ◌&&◌, ◌==◌, Outcome, ok,
  err, panic, out_of_fuel, Option, none, some, List, [], ◌∷◌, if◌then◌else◌,
}
use litedroid.Action.{Action, pure, ok_or, attempt, gets, fail_if, map_err, when, ◌>>=◌, ◌>>◌}
use litedroid.Core.Error.{LiteDroidError, config_error}
use litedroid.Host.{Host, Command, null, piped, inherited}
use litedroid.Config.{LiteDroidConfig, data_dir, images_dir, io}

-- `data.iter().any(|byte| *byte != 0)`.
unfoldable pub any_set : List ℕ → Bool
any_set [] = false
any_set (b ∷ bytes) = if b == 0 then any_set bytes else true

unfoldable pub same_bytes : List ℕ → List ℕ → Bool
same_bytes [] [] = true
same_bytes [] (b ∷ m) = false
same_bytes (a ∷ l) [] = false
same_bytes (a ∷ l) (b ∷ m) = a == b && same_bytes l m

-- `map(test).unwrap_or(false)`.
unfoldable pub holds : {A : Type 0} → (A → Bool) → Outcome String A → Bool
holds test (ok a) = test a
holds test (err e) = false
holds test panic = false
holds test out_of_fuel = false

abbrev pub sparse_magic : List ℕ
sparse_magic = 0x3a ∷ 0xff ∷ 0x26 ∷ 0xed ∷ []

abbrev pub ext_magic : List ℕ
ext_magic = 0x53 ∷ 0xef ∷ []

-- `or_else` on a value.
unfoldable pub or_else : {A : Type 0} → Option A → Option A → Option A
or_else (some a) other = some a
or_else none other = other

-- `b"y\n".repeat(n)`.
unfoldable pub accepts : ℕ → List ℕ
accepts zero = []
accepts (suc n) = b'y' ∷ 10 ∷ accepts n

unfoldable pub joined_or : List String → String
joined_or [] = ""
joined_or (name ∷ []) = name
joined_or (name ∷ other ∷ names) = name <> " or " <> joined_or (other ∷ names)

abbrev pub licenses_command : String → String → Command
licenses_command sdkmanager root = record {
  program = sdkmanager;
  args = "--sdk_root" ∷ root ∷ "--licenses" ∷ [];
  stdin = piped;
  stdout = null;
  stderr = piped;
}

abbrev pub version_command : Command
version_command = record {
  program = "sdkmanager";
  args = "--version" ∷ [];
  stdin = inherited;
  stdout = null;
  stderr = null;
}

module _ {W : Type 0} (host : Host W) where
  unfoldable pub is_non_empty : W → String → Bool
  unfolding holds
  is_non_empty w path = host.is_file w path && holds (ltb 0) (host.metadata_len w path)

  -- The closure on the opened system image: three formats are accepted.
  unfoldable pub known_system : W → String → Bool
  unfolding holds same_bytes
  known_system w system =
      holds
        (λ header.
          if same_bytes header sparse_magic
          then true
          else holds
              (λ gpt_magic.
                if same_bytes gpt_magic (codes "EFI PART")
                then true
                else holds (λ magic. same_bytes magic ext_magic) (host.read_at w system 0x438 2))
              (host.read_at w system 0x200 8))
        (host.read_at w system 0 4)

  unfoldable pub images_are_ready : String → W → Bool
  unfolding is_non_empty known_system any_set holds
  images_are_ready images_dir w =
      let kernel = host.join images_dir "kernel" in
      let ramdisk = host.join images_dir "ramdisk.img" in
      let system = host.join images_dir "system.img" in
      is_non_empty w kernel
      && holds any_set (host.read w kernel)
      && is_non_empty w ramdisk
      && is_non_empty w system
      && known_system w system

  unfoldable pub sdk_root : LiteDroidConfig → W → Option String
  unfolding or_else data_dir
  sdk_root config w =
      let default_root = host.join (data_dir host config) "android-sdk" in
      or_else (or_else (host.var_os "ANDROID_SDK_ROOT") (host.var_os "ANDROID_HOME"))
        (if host.exists w default_root then some default_root else none)

  -- `candidates.into_iter().find(|p| p.is_file())`.
  unfoldable pub first_file : List String → W → Option String
  first_file [] w = none
  first_file (path ∷ paths) w =
      let rest = first_file paths w in if host.is_file w path then some path else rest

  -- `status().ok().filter(…).map(…)`.
  unfoldable pub on_path : Outcome String Bool → Option String
  on_path (ok true) = some "sdkmanager"
  on_path (ok false) = none
  on_path (err e) = none
  on_path panic = none
  on_path out_of_fuel = none

  unfoldable pub search_path : Option String → Action W LiteDroidError (Option String)
  unfolding on_path attempt ◌>>=◌
  search_path (some path) = pure (some path)
  search_path none = do status ← attempt (host.status version_command); pure (on_path status)

  unfoldable pub find_sdkmanager : String → Action W LiteDroidError (Option String)
  unfolding first_file search_path ◌>>=◌
  find_sdkmanager root = do
    found ← gets (
        first_file (
          host.join root "cmdline-tools/latest/bin/sdkmanager"
          ∷ host.join root "cmdline-tools/bin/sdkmanager"
          ∷ host.join root "tools/bin/sdkmanager"
          ∷ []))
    search_path found

  -- `names.iter().map(…).find(…)`.
  unfoldable pub first_image : String → List String → W → Option String
  unfolding is_non_empty
  first_image package_dir [] w = none
  first_image package_dir (name ∷ names) w =
      let rest = first_image package_dir names w in
      if is_non_empty w (host.join package_dir name)
      then some (host.join package_dir name)
      else rest

  unfoldable pub copy_image : String → List String → String → Action W LiteDroidError (Unit {0})
  unfolding first_image joined_or io ◌>>=◌
  copy_image package_dir names destination = do
    found ← gets (first_image package_dir names)
    source ← ok_or found (
        config_error
          ("Android SDK package is missing " <> joined_or names <> " in " <> package_dir))
    io host (host.copy source destination)

  unfoldable pub accept_licenses : String → String → Action W LiteDroidError (Unit {0})
  unfolding accepts io map_err ◌>>=◌
  accept_licenses sdkmanager root = do
    licenses ←
        map_err (λ e. config_error ("starting sdkmanager: " <> e))
          (host.spawn (licenses_command sdkmanager root))
    io host (host.write_all licenses (accepts 64))
    success ← io host (host.wait_status licenses)
    fail_if (not success) (config_error "Android SDK licenses were not accepted")

  unfoldable pub install_package : String → String → String → Action W LiteDroidError (Unit {0})
  unfolding io ◌>>=◌
  install_package sdkmanager root package_name = do
    install ← io host (host.output sdkmanager ("--sdk_root" ∷ root ∷ package_name ∷ []))
    fail_if (not install.success) (
        config_error (
          "sdkmanager could not install "
          <> package_name
          <> ": "
          <> host.trim (host.from_utf8_lossy install.stderr)))

  unfoldable pub copy_images : String → String → Action W LiteDroidError (Unit {0})
  unfolding copy_image ◌>>=◌
  copy_images package_dir images = do
    copy_image package_dir ("kernel-ranchu" ∷ "kernel" ∷ []) (host.join images "kernel")
    copy_image package_dir ("ramdisk.img" ∷ []) (host.join images "ramdisk.img")
    copy_image package_dir ("system.img" ∷ []) (host.join images "system.img")

  unfoldable pub install_images : LiteDroidConfig → ℕ → String → Action W LiteDroidError (Unit {0})
  unfolding sdk_root find_sdkmanager accept_licenses install_package copy_images ◌>>=◌
  install_images config api_level images = do
    root_found ← gets (sdk_root config)
    root ← ok_or root_found (
        config_error
          "Android SDK not found. Set ANDROID_HOME/ANDROID_SDK_ROOT or install command-line tools.")
    manager_found ← find_sdkmanager root
    sdkmanager ← ok_or manager_found (
        config_error
          ("sdkmanager not found under " <> root <> ". Install Android SDK command-line tools."))
    accept_licenses sdkmanager root
    install_package sdkmanager root
        ("system-images;android-" <> show api_level <> ";default;x86_64")
    let at_level = host.join (host.join root "system-images") ("android-" <> show api_level)
    copy_images (host.join (host.join at_level "default") "x86_64") images

  unfoldable pub ensure_android_images : LiteDroidConfig → ℕ → Action W LiteDroidError (Unit {0})
  unfolding images_dir images_are_ready install_images io when ◌>>=◌
  ensure_android_images config api_level =
      let images = images_dir host config in
      do
        io host (host.create_dir_all images)
        ready ← gets (images_are_ready images)
        when ready (pure tt) (install_images config api_level images)
