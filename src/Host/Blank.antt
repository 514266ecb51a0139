-- ===== src/Host/Blank.antt =====
-- A host to start from in an example.
use litedroid.Base.{true, false, ok, [], ◌∷◌, none, some, codes, ◌<>◌}
use litedroid.Action.{pure}
use litedroid.Host.{Host, exited}

-- Every call succeeds and changes nothing.
abbrev pub blank : {W : Type 0} → Host W
blank = record {
  process_id = 1;
  var_os = λ name. none;
  home_dir = some "/home";
  join = λ a b. a <> "/" <> b;
  parent = λ path. none;
  from_utf8_lossy = λ bytes. "device";
  trim = λ s. s;
  lines = λ s. s ∷ [];
  split_whitespace = λ s. s ∷ [];
  contains = λ text part. false;
  parse_u64 = λ s. none;
  as_bytes = codes;
  is_file = λ w path. true;
  read = λ w path. ok [];
  metadata_len = λ w path. ok 0;
  read_at = λ w path offset len. ok [];
  is_dir = λ w path. true;
  exists = λ w path. true;
  create_dir_all = λ path. pure tt;
  write = λ path bytes. pure tt;
  read_to_string = λ path. pure "";
  create = λ path. pure 3;
  try_clone = λ handle. pure 4;
  spawn = λ command. pure 0;
  output = λ program args. pure (record { success = true; stdout = []; stderr = [] });
  write_all = λ child bytes. pure tt;
  wait_with_output = λ child. pure (record { success = true; stdout = []; stderr = [] });
  wait_status = λ child. pure true;
  status = λ command. pure false;
  copy = λ a b. pure tt;
  kill = λ child. pure tt;
  try_wait = λ child w. (exited true, w);
  store = λ handle value w. w;
  remove_file = λ path w. w;
}
