-- ===== src/Adb/Tests.antt =====
-- A client that asks for the version, and closes.
use litedroid.Base.{
  ◌⊎◌, inl, ℕ, ◌≡◌, ◌≢◌, ◌≤◌, some, none, false, refl, List, [], ◌∷◌, ◌++◌, ok, arith, Bool, true,
  ◌&&◌, ltb, codes,
}
use litedroid.Adb.Message.{AdbMessage, checksum, encode, decode, cmd_open, cmd_clse}
use litedroid.Adb.Message.RoundTrip.{IsWellFormed, decode-encode}
use litedroid.Adb.Connection.{TcpStream, handshake, handle_client, write_all, serve_client, receive}
use litedroid.Adb.Server.{
  Peer, AdbServer, Accepting, Place, stop, AcceptStep, accept, served, leave, Run,
}
use litedroid.Adb.Server.Stopping.{distance, IsWaiting, stop_ends}
use litedroid.Adb.Connection.Replies.{
  connected, replies_to, encode_all, AllWellFormed, handle_client-replies,
}

abbrev asks : AdbMessage
asks = record {
  command = cmd_open;
  arg0 = 7;
  arg1 = 0;
  data_length = 12;
  data_check = 1278;
  payload = codes "host:version";
}

asks-IsWellFormed : IsWellFormed asks
unfolding checksum
asks-IsWellFormed = record {
  four = refl;
  command_bytes = (omega arith, (omega arith, (omega arith, (omega arith, tt))));
  fits0 = omega arith;
  fits1 = omega arith;
  short = omega arith;
  measured = refl;
  summed = refl;
}

decode-encode_example : decode (encode asks ++ (1 ∷ 2 ∷ [])) ≡ ok asks
decode-encode_example = decode-encode asks (1 ∷ 2 ∷ []) asks-IsWellFormed

abbrev closing : AdbMessage
closing = record {
  command = cmd_clse;
  arg0 = 1;
  arg1 = 7;
  data_length = 0;
  data_check = 0;
  payload = [];
}

-- Whether every number is below 256.
unfoldable all_bytes : List ℕ → Bool
all_bytes [] = true
all_bytes (b ∷ bs) = ltb b 256 && all_bytes bs

closing-IsWellFormed : IsWellFormed closing
unfolding checksum
closing-IsWellFormed = record {
  four = refl;
  command_bytes = (omega arith, (omega arith, (omega arith, (omega arith, tt))));
  fits0 = omega arith;
  fits1 = omega arith;
  short = omega arith;
  measured = refl;
  summed = refl;
}

conversation : AllWellFormed (asks ∷ closing ∷ [])
unfolding AllWellFormed
conversation = (asks-IsWellFormed, (closing-IsWellFormed, tt))

handle_client-replies_example :
    (left : List ℕ) × (handle_client (connected (encode_all (asks ∷ closing ∷ []) ++ (9 ∷ [])) [])
      ≡ ok (connected left (encode handshake ++ encode_all (replies_to 1 (asks ∷ closing ∷ [])))))
handle_client-replies_example =
    handle_client-replies (asks ∷ closing ∷ []) (9 ∷ []) conversation (omega arith)

-- A server in `accept`, which is stopped and woken by its own connection.
abbrev server : AdbServer
server = record { port = 5555; running = true; listener = none }

abbrev idle : Accepting
idle = record { place = Place.accepting; server = server; backlog = [] }

abbrev own : TcpStream
own = record { incoming = []; sent = []; writable = true }

abbrev leaving : Peer
leaving = record { stream = own; closed = true }

abbrev greeted : TcpStream
greeted = record own { sent = encode handshake }

greets : handle_client own ≡ ok greeted
unfolding handle_client handshake encode write_all serve_client receive
greets = refl

abbrev finished : Accepting
finished = record { place = Place.ended; server = record server { running = false }; backlog = [] }

stopping_Run : Run (stop (some own) idle) 3 finished
unfolding stop
stopping_Run =
    Run.thread
      (Run.thread (Run.thread Run.here (accept leaving [] refl refl))
        (served leaving greeted refl (inl refl) greets))
      (leave refl refl)

stop_ends_example :
    (3 ≤ distance Place.accepting)
    × (3 ≡ distance Place.accepting → finished.place ≡ Place.ended)
    × (finished.place ≢ Place.ended
        → ((u : Accepting) × AcceptStep finished u) ⊎ IsWaiting finished)
stop_ends_example = stop_ends own 3 idle finished stopping_Run
