-- ===== src/Cli.antt =====
-- apps/cli/src/main.rs: the command line. The parser of the arguments (clap) gives a `Cli`; what is
-- printed is kept in the console, line by line.
pub mod Doctor
pub mod Devices
pub mod Logs
pub mod Commands
pub mod Known
pub mod Created
pub mod Daemon
mod Tests
use litedroid.Base.{ℕ, String, Bool, Option, List, [], ◌∷◌, ◌++◌}
use litedroid.Action.{Action, modify}

pub data DeviceAction : Type 0 where
  create : (name : String) (resolution : Option String) (dpi ram cpu : Option ℕ) → DeviceAction
  delete : (name : String) → DeviceAction

pub data ApkAction : Type 0 where
  install : (path : String) → ApkAction
  uninstall : (package_name : String) → ApkAction
  list : ApkAction

pub data SnapshotAction : Type 0 where
  create restore delete : (name : String) → SnapshotAction
  list : SnapshotAction

pub data AdbAction : Type 0 where
  shell : AdbAction
  install : (path : String) → AdbAction

pub data DaemonAction : Type 0 where
  start stop status : DaemonAction

pub data Cli : Type 0 where
  doctor version config devices : Cli
  device : DeviceAction → Cli
  start : (device : String) (cold fast : Bool) → Cli
  stop wipe restart pause resume status stats : Cli
  apk : ApkAction → Cli
  launch : (package_name : String) → Cli
  shell logcat : Cli
  screenshot : (path : Option String) → Cli
  snapshot : SnapshotAction → Cli
  adb : AdbAction → Cli
  logs : (follow : Bool) → Cli
  daemon : DaemonAction → Cli

-- The host, and the lines printed so far.
pub record Console (W : Type 0) : Type 0 where
  pub system : W
  pub out : List String
  pub errors : List String

module _ {W : Type 0} where
  unfoldable pub println : String → Action (Console W) String (Unit {0})
  unfolding modify
  println line = modify (λ c. record c { out = c.out ++ (line ∷ []) })

  unfoldable pub eprintln : String → Action (Console W) String (Unit {0})
  unfolding modify
  eprintln line = modify (λ c. record c { errors = c.errors ++ (line ∷ []) })

  -- A call of the host, from the console.
  unfoldable pub on_system : {E A : Type 0} → Action W E A → Action (Console W) E A
  on_system m c = let (r, w) = m c.system in (r, record c { system = w })
