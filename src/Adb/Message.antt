-- ===== src/Adb/Message.antt =====
-- crates/adb/src/lib.rs: `AdbMessage`, its constructors, its wire format and the checksum.
pub mod RoundTrip
use litedroid.Base.{
  ℕ, ◌+◌, ◌-◌, ◌^◌, bit_xor, String, Bool, List, [], ◌∷◌, ◌++◌, foldl, length, take, drop, ok, err,
  ltb, ◌==◌, not, if◌then◌else◌, wrap32, le_bytes, from_le_bytes, codes,
}
use litedroid.Core.Error.{Result, adb_protocol_error}

pub record AdbMessage : Type 0 where
  pub command : List ℕ
  pub arg0 : ℕ
  pub arg1 : ℕ
  pub data_length : ℕ
  pub data_check : ℕ
  pub payload : List ℕ

abbrev pub adb_version : ℕ
adb_version = 0x0100_0000

abbrev pub adb_max_payload : ℕ
adb_max_payload = 4096

abbrev pub adb_header_size : ℕ
adb_header_size = 24

abbrev pub cmd_cnxn : List ℕ
cmd_cnxn = codes "CNXN"

abbrev pub cmd_open : List ℕ
cmd_open = codes "OPEN"

abbrev pub cmd_okay : List ℕ
cmd_okay = codes "OKAY"

abbrev pub cmd_clse : List ℕ
cmd_clse = codes "CLSE"

abbrev pub cmd_wrte : List ℕ
cmd_wrte = codes "WRTE"

abbrev pub add_byte : ℕ → ℕ → ℕ
add_byte acc b = wrap32 (acc + b)

unfoldable pub checksum : List ℕ → ℕ
checksum bytes = foldl add_byte 0 bytes

-- A message that carries `payload`.
unfoldable pub with_payload : List ℕ → ℕ → ℕ → List ℕ → AdbMessage
with_payload command arg0 arg1 payload = record {
  command = command;
  arg0 = arg0;
  arg1 = arg1;
  data_length = wrap32 (length payload);
  data_check = checksum payload;
  payload = payload;
}

unfoldable pub connect : (identity : List ℕ) (max_payload : ℕ) → AdbMessage
unfolding with_payload
connect identity max_payload = with_payload cmd_cnxn adb_version max_payload identity

unfoldable pub open_msg : (local_id : ℕ) (dest : List ℕ) → AdbMessage
unfolding with_payload
open_msg local_id dest = with_payload cmd_open local_id 0 dest

unfoldable pub okay : (local_id remote_id : ℕ) → AdbMessage
okay local_id remote_id = record {
  command = cmd_okay;
  arg0 = local_id;
  arg1 = remote_id;
  data_length = 0;
  data_check = 0;
  payload = [];
}

unfoldable pub close : (local_id remote_id : ℕ) → AdbMessage
close local_id remote_id = record {
  command = cmd_clse;
  arg0 = local_id;
  arg1 = remote_id;
  data_length = 0;
  data_check = 0;
  payload = [];
}

unfoldable pub write_msg : (local_id remote_id : ℕ) (payload : List ℕ) → AdbMessage
unfolding with_payload
write_msg local_id remote_id payload = with_payload cmd_wrte local_id remote_id payload

unfoldable pub magic : List ℕ → ℕ
magic command = bit_xor (from_le_bytes command) (2 ^ 32 - 1)

unfoldable pub encode : AdbMessage → List ℕ
encode m =
    m.command
    ++ (le_bytes 4 m.arg0
        ++ (le_bytes 4 m.arg1
            ++ (le_bytes 4 m.data_length
                ++ (le_bytes 4 m.data_check ++ (le_bytes 4 (magic m.command) ++ m.payload)))))

-- `u32::from_le_bytes(data[i..i + 4])`.
unfoldable pub field : ℕ → List ℕ → ℕ
field i bytes = from_le_bytes (take 4 (drop i bytes))

-- What is left of `decode` when the header is whole and its magic fits.
unfoldable pub decode_payload : List ℕ → Result AdbMessage
decode_payload bytes =
    let data_length = field 12 bytes in
    let payload = take data_length (drop adb_header_size bytes) in
    if ltb (length bytes) (adb_header_size + data_length)
    then err (adb_protocol_error "incomplete payload")
    else if not (checksum payload == field 16 bytes)
    then err (adb_protocol_error "checksum mismatch")
    else ok (record {
      command = take 4 bytes;
      arg0 = field 4 bytes;
      arg1 = field 8 bytes;
      data_length = data_length;
      data_check = field 16 bytes;
      payload = payload;
    })

unfoldable pub decode : List ℕ → Result AdbMessage
unfolding decode_payload
decode bytes =
    if ltb (length bytes) adb_header_size
    then err (adb_protocol_error "message too short")
    else if not (field 20 bytes == magic (take 4 bytes))
    then err (adb_protocol_error "invalid magic")
    else decode_payload bytes
