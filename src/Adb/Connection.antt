-- ===== src/Adb/Connection.antt =====
-- crates/adb/src/lib.rs: `AdbConnection::handle_client`. The socket is what the peer has sent and
-- will send, then end of file, and what was written to it, with a flag for whether it takes writes.
pub mod Replies
use litedroid.Base.{
  ℕ, zero, suc, ◌+◌, Bool, true, false, List, [], ◌∷◌, ◌++◌, length, take, drop, ok, err, panic,
  out_of_fuel, ltb, if◌then◌else◌, ◌=b◌, ◌>>=◌, Option, none, some, wrap32, codes,
}
use litedroid.Core.Error.{Result, os_error}
use litedroid.Adb.Message.{
  AdbMessage, adb_max_payload, cmd_cnxn, cmd_open, cmd_okay, cmd_clse, cmd_wrte, connect, okay,
  close, write_msg, field, encode, decode,
}

pub record TcpStream : Type 0 where
  pub incoming : List ℕ
  pub sent : List ℕ
  pub writable : Bool

unfoldable pub write_all : List ℕ → TcpStream → Result TcpStream
write_all bytes s =
    if s.writable then ok (record s { sent = s.sent ++ bytes }) else err (os_error "write failed")

-- A failed write is only logged.
unfoldable pub send_msg : AdbMessage → TcpStream → TcpStream
send_msg m s = if s.writable then record s { sent = s.sent ++ encode m } else s

-- The `read_exact` calls of one turn of the loop: the header and the payload that it announces, or
-- nothing when the peer stops short, after which the stream is not read again.
unfoldable pub receive : TcpStream → Option (List ℕ × TcpStream)
receive s =
    let header = take 24 s.incoming in
    let data_len = field 12 header in
    let rest = drop 24 s.incoming in
    if ltb (length s.incoming) 24
    then none
    else if ltb (length rest) data_len
    then none
    else some (header ++ take data_len rest, record s { incoming = drop data_len rest })

unfoldable pub adb_version_reply : List ℕ
adb_version_reply = codes "00040024"

unfoldable pub device_list : List ℕ
device_list = codes "LITEDROID001\tdevice"

-- `device::litedroid` is the identity that both handshakes give.
unfoldable pub handshake : AdbMessage
handshake = connect (codes "device::litedroid") adb_max_payload

-- What the arm for `OPEN` sends back. The destination is compared as a string, which for these
-- ASCII literals is equality of the bytes.
unfoldable pub open_replies : (local_id : ℕ) (msg : AdbMessage) → List AdbMessage
open_replies local_id msg =
    if msg.payload =b codes "host:version"
    then okay local_id msg.arg0 ∷ write_msg local_id msg.arg0 adb_version_reply ∷ []
    else if msg.payload =b codes "host:devices"
    then okay local_id msg.arg0 ∷ write_msg local_id msg.arg0 device_list ∷ []
    else if msg.payload =b codes "host:kill"
    then close local_id msg.arg0 ∷ []
    else okay local_id msg.arg0 ∷ []

-- What one message makes of the connection: its replies, the next local id and whether the loop
-- goes on.
pub record Turn : Type 0 where
  pub replies : List AdbMessage
  pub next_local_id : ℕ
  pub continues : Bool

-- The `match` on the command.
unfoldable pub dispatch : (next_local_id : ℕ) → AdbMessage → Turn
unfolding open_replies handshake
dispatch next msg =
    if msg.command =b cmd_open
    then record {
      replies = open_replies next msg;
      next_local_id = wrap32 (next + 1);
      continues = if msg.payload =b codes "host:kill" then false else true;
    }
    else if msg.command =b cmd_cnxn
    then record { replies = handshake ∷ []; next_local_id = next; continues = true }
    else if msg.command =b cmd_okay
    then record { replies = []; next_local_id = next; continues = true }
    else if msg.command =b cmd_wrte
    then record { replies = []; next_local_id = next; continues = true }
    else if msg.command =b cmd_clse
    then record { replies = []; next_local_id = next; continues = false }
    else record { replies = []; next_local_id = next; continues = true }

unfoldable pub send_all : List AdbMessage → TcpStream → TcpStream
send_all [] s = s
send_all (m ∷ ms) s = send_all ms (send_msg m s)

-- The loop, once the handshake is sent. A break ends with the stream as it then is.
unfoldable pub serve_client : (fuel next_local_id : ℕ) → TcpStream → Result TcpStream
serve_client zero next s = out_of_fuel
serve_client (suc fuel) next s = elim (receive s) [
  | none ↦ ok s
  | some (full, s') ↦ elim (decode full) [
    | ok m ↦
        let t = dispatch next m in
        let answered = send_all t.replies s' in
        let rest = serve_client fuel t.next_local_id answered in
        if t.continues then rest else ok answered
    | err e ↦ ok s'
    | panic ↦ panic
    | out_of_fuel ↦ out_of_fuel
  ]
]

-- Each turn takes at least a header from the stream, so its length is fuel enough.
unfoldable pub handle_client : TcpStream → Result TcpStream
unfolding handshake
handle_client s = do s ← write_all (encode handshake) s; serve_client (suc (length s.incoming)) 1 s
