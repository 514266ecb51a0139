-- ===== src/Daemon/Machine.antt =====
-- A small machine to run the daemon on: it counts processes and knows which emulators live.
use litedroid.Base.{
  ℕ, ◌+◌, String, Bool, true, false, Outcome, ok, ◌≡◌, refl, List, [], ◌∷◌, Option, none, some,
  ◌=t◌, ◌==◌, if◌then◌else◌, arith,
}
use litedroid.Action.{pure}
use litedroid.Action.Rules.{Keeps-pure}
use litedroid.Core.Device.{default_config}
use litedroid.Host.{Host, JsonValue, Command, alive, exited}
use litedroid.Host.Blank.{blank}
use litedroid.Host.Processes.{IsProcesses, IsWaitable, begins_avd}
use litedroid.Ipc.{IpcRequest}
use litedroid.Daemon.State.{Session, init}
use litedroid.Daemon.Launch.{ConfigOps}
use litedroid.Daemon.Orphans.{IsQuiet}

pub record Machine : Type 0 where
  pub next : ℕ
  pub living : ℕ → Bool

abbrev pub is_living : Machine → ℕ → Bool
is_living m d = m.living d

abbrev pub with_life : ℕ → Bool → Machine → Machine
with_life c b m = record m { living = λ d. if d == c then b else m.living d }

abbrev pub begin : Command → Machine → Outcome String ℕ × Machine
begin command m = (
  ok m.next,
  record {
    next = m.next + 1;
    living = λ d. if d == m.next then begins_avd command.args else m.living d;
  },
)

abbrev pub machine : Host Machine
machine = record blank {
  spawn = begin;
  wait_status = λ child m. (ok true, with_life child false m);
  try_wait = λ child m. (if m.living child then alive else exited true, m);
}

-- The tools are not installed.
abbrev pub bare_machine : Host Machine
bare_machine = record machine { is_file = λ m path. false }

ended_exited : (b c : Bool) → (if b then alive else exited true) ≡ exited c → b ≡ false
ended_exited true c e = cc
ended_exited false c e = refl

pub machine-IsProcesses : IsProcesses machine is_living
unfolding pure
machine-IsProcesses = record {
  create_dir_all_starts = λ p w. Keeps-pure tt;
  write_starts = λ p bytes w. Keeps-pure tt;
  read_starts = λ p w. Keeps-pure "";
  create_starts = λ p w. Keeps-pure _;
  clone_starts = λ h w. Keeps-pure _;
  output_starts = λ p args w. Keeps-pure _;
  write_all_starts = λ c bytes w. Keeps-pure tt;
  wait_output_starts = λ c w. Keeps-pure _;
  wait_status_starts = λ c w. record { at = λ m h d l. h d (ground arith) };
  status_starts = λ c e w. Keeps-pure false;
  copy_starts = λ a b w. Keeps-pure tt;
  kill_starts = λ c w d l. l;
  wait_ends = λ c w b e. ground arith;
  try_wait_starts = λ c w d l. l;
  try_wait_ended = λ c w b e. ended_exited (w.living c) b e;
  store_starts = λ h b w d l. l;
  spawn_tool = λ c e w. record { at = λ m h d l. h d (ground arith) };
  spawn_one = λ c w d l. ground arith;
}

pub machine-IsWaitable : IsWaitable machine
machine-IsWaitable = record { wait_succeeds = λ c w. (true, refl) }

-- A JSON document.
mutual
  pub data Doc : Type 0 where
    null : Doc
    boolean : Bool → Doc
    number : ℕ → Doc
    text : String → Doc
    array : Docs → Doc
    object : Fields → Doc

  pub data Docs : Type 0 where
    nil : Docs
    item : Doc → Docs → Docs

  pub data Fields : Type 0 where
    none_left : Fields
    field : String → Doc → Fields → Fields

abbrev docs : List Doc → Docs
docs [] = nil
docs (d ∷ l) = item d (docs l)

abbrev pub fields : List (String × Doc) → Fields
fields [] = none_left
fields ((k, d) ∷ l) = field k d (fields l)

abbrev pub find_field : Fields → String → Option Doc
find_field none_left k = none
find_field (field j d rest) k = elim (find_field rest k) [
  | some e ↦ some e
  | none ↦ if k =t j then some d else none
]

abbrev member : Doc → String → Option Doc
member (object f) k = find_field f k
member null k = none
member (boolean b) k = none
member (number n) k = none
member (text s) k = none
member (array l) k = none

abbrev string_of : Doc → Option String
string_of (text s) = some s
string_of null = none
string_of (boolean b) = none
string_of (number n) = none
string_of (array l) = none
string_of (object f) = none

abbrev number_of : Doc → Option ℕ
number_of (number n) = some n
number_of null = none
number_of (boolean b) = none
number_of (text s) = none
number_of (array l) = none
number_of (object f) = none

abbrev pub doc : JsonValue Doc
doc = record {
  null = Doc.null;
  boolean = Doc.boolean;
  number = Doc.number;
  float = Doc.text;
  string = Doc.text;
  array = λ l. Doc.array (docs l);
  object = λ l. Doc.object (fields l);
  get = member;
  as_str = string_of;
  as_u64 = number_of;
  from_str = λ s. ok Doc.null;
  to_string_pretty = λ d. ok "";
}

abbrev pub config : ConfigOps Machine (Unit {0})
config = record {
  load = pure tt;
  data_dir = λ c. "/data";
  device_config = λ c name. pure (default_config "0");
  ensure_default_device = λ c. pure (default_config "0");
  ensure_android_images = λ c level. pure tt;
}

pub config-IsQuiet : IsQuiet config is_living
config-IsQuiet = record {
  load_starts = λ w. Keeps-pure tt;
  device_starts = λ c name w. Keeps-pure _;
  default_starts = λ c w. Keeps-pure _;
  images_starts = λ c level w. Keeps-pure tt;
}

abbrev pub fresh : Session Machine
fresh = record { state = init; running = true; world = record { next = 7; living = λ d. false } }

abbrev pub ask : String → IpcRequest Doc
ask method = record { version = 1; request_id = "r"; method = method; params = Doc.null }

-- A daemon whose emulator, the child 7, runs.
abbrev pub busy : Session Machine
busy = record {
  state = record {
    active_device = some "pixel";
    power_state = "running";
    stop_handle = none;
    emulator = some 7;
    adb = some "adb";
  };
  running = true;
  world = record { next = 8; living = λ d. true };
}
