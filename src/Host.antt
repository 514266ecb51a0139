-- ===== src/Host.antt =====
-- The calls of the host that the daemon and the configuration make: files, processes, environment
-- variables and text functions of the standard library. A path is a text, and `W` is whatever
-- state of the host the calls change. serde_json's values are a parameter too.
pub mod Blank
pub mod Processes
use litedroid.Base.{ℕ, String, Bool, Outcome, Option, List}
use litedroid.Action.{Action}

-- `std::process::Output`, with `status.success()`.
pub record Output : Type 0 where
  pub success : Bool
  pub stdout : List ℕ
  pub stderr : List ℕ

-- What `Child::try_wait` gives: `Ok(None)`, `Ok(Some(status))` with its `success()`, or an error.
pub data Waited : Type 0 where
  alive : Waited
  exited : (success : Bool) → Waited
  unknown : Waited

pub data Stdio : Type 0 where
  null piped inherited : Stdio
  file : (handle : ℕ) → Stdio

pub record Command : Type 0 where
  pub program : String
  pub args : List String
  pub stdin : Stdio
  pub stdout : Stdio
  pub stderr : Stdio

-- A call that ends in an error gives its text.
abbrev pub Call : Type 0 → Type 0 → Type 0
Call W A = Action W String A

pub record Host (W : Type 0) : Type 0 where
  pub process_id : ℕ
  pub var_os : String → Option String
  pub home_dir : Option String
  pub join : String → String → String
  pub parent : String → Option String
  pub from_utf8_lossy : List ℕ → String
  pub trim : String → String
  pub lines : String → List String
  pub split_whitespace : String → List String
  -- `str::contains`, and `str::parse::<u64>`.
  pub contains : (text part : String) → Bool
  pub parse_u64 : String → Option ℕ
  pub as_bytes : String → List ℕ
  pub is_file : W → String → Bool
  -- The bytes of a file, or why it cannot be read.
  pub read : W → String → Outcome String (List ℕ)
  -- `fs::metadata` and its `len`; and `File::open`, `seek` and `read_exact` of `len` bytes.
  pub metadata_len : W → String → Outcome String ℕ
  pub read_at : W → String → (offset len : ℕ) → Outcome String (List ℕ)
  pub is_dir : W → String → Bool
  pub exists : W → String → Bool
  pub create_dir_all : String → Call W (Unit {0})
  pub write : String → List ℕ → Call W (Unit {0})
  pub read_to_string : String → Call W String
  pub create : String → Call W ℕ
  pub try_clone : ℕ → Call W ℕ
  pub spawn : Command → Call W ℕ
  pub output : String → List String → Call W Output
  pub write_all : (child : ℕ) → List ℕ → Call W (Unit {0})
  pub wait_with_output : (child : ℕ) → Call W Output
  -- `Child::wait`, with the `success()` of the status.
  pub wait_status : (child : ℕ) → Call W Bool
  -- `Command::status`: it starts the program and waits for it.
  pub status : Command → Call W Bool
  pub copy : String → String → Call W (Unit {0})
  pub kill : (child : ℕ) → Call W (Unit {0})
  pub try_wait : (child : ℕ) → W → Waited × W
  pub store : (handle : ℕ) → Bool → W → W
  pub remove_file : String → W → W

-- `serde_json::Value`: what `json!` builds, and the two accessors. A float is given by its text.
pub record JsonValue (V : Type 0) : Type 0 where
  pub null : V
  pub boolean : Bool → V
  pub number : ℕ → V
  pub float : String → V
  pub string : String → V
  pub array : List V → V
  pub object : List (String × V) → V
  pub get : V → String → Option V
  pub as_str : V → Option String
  pub as_u64 : V → Option ℕ
  pub from_str : String → Outcome String V
  pub to_string_pretty : V → Outcome String String
