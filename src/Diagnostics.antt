-- ===== src/Diagnostics.antt =====
-- crates/diagnostics/src/lib.rs: the checks of the host. The calls of the operating system that
-- `Host` does not have are the parameter `Probes`.
pub mod Checks
pub mod Names
pub mod Thresholds
use Prim.Native.String
use Prim.Native.Char.{code}
use litedroid.Base.{
  ℕ, String, ◌<>◌, ◌==◌, Bool, true, false, if◌then◌else◌, Outcome, Option, none, some, List, [],
  ◌∷◌,
}
use litedroid.Action.{Action}

pub data DiagnosticStatus : Type 0 where
  ok warn error : DiagnosticStatus

unfoldable pub show_status : DiagnosticStatus → String
show_status ok = "✓"
show_status warn = "⚠"
show_status error = "✗"

pub record DiagnosticResult : Type 0 where
  pub name : String
  pub status : DiagnosticStatus
  pub message : String
  pub details : Option String

unfoldable pub show_details : Option String → String
show_details (some d) = " (" <> d <> ")"
show_details none = ""

unfoldable pub show_result : DiagnosticResult → String
unfolding show_status show_details
show_result r = show_status r.status <> " " <> r.name <> ": " <> r.message <> show_details r.details

-- What `libc::statvfs` fills in.
pub record Statvfs : Type 0 where
  pub f_bsize : ℕ
  pub f_blocks : ℕ
  pub f_bavail : ℕ

pub record Probes (W : Type 0) : Type 0 where
  -- The machine's name, if `uname` succeeds.
  pub uname : W → Option String
  -- `File::open`, and the ioctl KVM_GET_API_VERSION, which gives no number when it fails with -1.
  pub open_file : String → Action W String (Unit {0})
  pub kvm_api_version : W → Option ℕ
  pub statvfs : W → String → Option Statvfs
  pub netlink_socket : W → Bool

-- `str::strip_prefix`.
unfoldable pub strip_prefix : (prefix text : String) → Option String
strip_prefix String.[] text = some text
strip_prefix (String.◌∷◌ c p) String.[] = none
strip_prefix (String.◌∷◌ c p) (String.◌∷◌ d text) =
    let rest = strip_prefix p text in if code c == code d then rest else none
