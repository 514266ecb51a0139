-- ===== src/Config.antt =====
-- crates/config/src/lib.rs: the configuration of the daemon, its directories, and the file that it
-- is kept in. The host's calls and the TOML format are parameters.
pub mod Device
pub mod Fields
pub mod FullDisk
pub mod Images
pub mod Profile
pub mod Quiet
mod Tests
use Prim.Native.String
use Prim.Native.Char.{code}
use litedroid.Base.{
  ℕ, String, ◌<>◌, Bool, true, false, ◌&&◌, Outcome, ok, err, panic, out_of_fuel, Option, none,
  some, List, codes, ◌==◌, if◌then◌else◌, not,
}
use litedroid.Action.{Action, pure, lift, gets, map_err, when, ◌>>=◌, ◌>>◌, relabel}
use litedroid.Core.Constants.{daemon_socket_path, default_data_dir, default_config_dir}
use litedroid.Core.Error.{LiteDroidError, Result, os_error, config_error}
use litedroid.Host.{Host, Call}

pub record GlobalConfig : Type 0 where
  pub socket_path : String
  pub log_level : String
  pub data_dir : String
  pub config_dir : String

pub record LiteDroidConfig : Type 0 where
  pub global : GlobalConfig

abbrev pub default_config : LiteDroidConfig
default_config = record {
  global = record {
    socket_path = daemon_socket_path;
    log_level = "info";
    data_dir = default_data_dir;
    config_dir = default_config_dir;
  };
}

-- What the `toml` crate does with a configuration.
pub record Toml : Type 0 where
  pub from_str : String → Outcome String LiteDroidConfig
  pub to_string_pretty : LiteDroidConfig → Outcome String String

-- `path[2..]` of a path that starts with `~/`.
unfoldable pub below_home : String → Option String
below_home String.[] = none
below_home (String.◌∷◌ a String.[]) = none
below_home (String.◌∷◌ a (String.◌∷◌ b rest)) =
    if code a == b'~' && code b == b'/' then some rest else none

unfoldable pub expand_from : (home rest : Option String) (path : String) → String
expand_from (some home) (some rest) path = home <> "/" <> rest
expand_from (some home) none path = path
expand_from none rest path = path

module _ {W : Type 0} (host : Host W) where
  unfoldable pub expand_tilde : String → String
  unfolding below_home expand_from
  expand_tilde path = expand_from host.home_dir (below_home path) path

  unfoldable pub data_dir : LiteDroidConfig → String
  unfolding expand_tilde
  data_dir config = expand_tilde config.global.data_dir

  unfoldable pub devices_dir : LiteDroidConfig → String
  unfolding data_dir
  devices_dir config = host.join (data_dir config) "devices"

  unfoldable pub images_dir : LiteDroidConfig → String
  unfolding data_dir
  images_dir config = host.join (data_dir config) "images"

  unfoldable pub snapshots_dir : LiteDroidConfig → String
  unfolding data_dir
  snapshots_dir config = host.join (data_dir config) "snapshots"

  -- `?` on a call of the host.
  unfoldable pub io : {A : Type 0} → Call W A → Action W LiteDroidError A
  unfolding map_err
  io m = map_err os_error m

  unfoldable pub ensure_layout : LiteDroidConfig → Action W LiteDroidError (Unit {0})
  unfolding data_dir devices_dir images_dir snapshots_dir expand_tilde io ◌>>=◌
  ensure_layout config = do
    io (host.create_dir_all (expand_tilde config.global.config_dir))
    io (host.create_dir_all (data_dir config))
    io (host.create_dir_all (devices_dir config))
    io (host.create_dir_all (images_dir config))
    io (host.create_dir_all (snapshots_dir config))
    io (host.create_dir_all (host.join (data_dir config) "logs"))
    io (host.create_dir_all (host.join (data_dir config) "run"))

  module _ (toml : Toml) where
    unfoldable pub load_file : String → Action W LiteDroidError LiteDroidConfig
    unfolding ensure_layout io ◌>>=◌
    load_file path = do
      content ← io (host.read_to_string path)
      config ← lift (relabel config_error (toml.from_str content))
      ensure_layout config
      pure config

    unfoldable pub load : Action W LiteDroidError LiteDroidConfig
    unfolding load_file expand_tilde ensure_layout when ◌>>=◌
    load =
        let full_path = expand_tilde default_config_dir <> "/config.toml" in
        do
          found ← gets (λ w. host.exists w full_path)
          when found (load_file full_path) (ensure_layout default_config >> pure default_config)

    unfoldable pub save : LiteDroidConfig → Action W LiteDroidError (Unit {0})
    unfolding expand_tilde ensure_layout io ◌>>=◌
    save config = do
      ensure_layout config
      let dir = expand_tilde config.global.config_dir
      io (host.create_dir_all dir)
      content ← lift (relabel config_error (toml.to_string_pretty config))
      io (host.write (host.join dir "config.toml") (host.as_bytes content))
