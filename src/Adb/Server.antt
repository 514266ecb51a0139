-- ===== src/Adb/Server.antt =====
-- crates/adb/src/lib.rs: `AdbServer`, as the steps of its threads. The accept thread serves one
-- client after another; other threads start and stop the server, and clients connect at any time.
-- What `bind` and `connect` gave, and what clients send, are parameters.
pub mod Stopping
use litedroid.Base.{
  ℕ, zero, suc, String, ◌<>◌, show, ◌≡◌, ◌⊎◌, Bool, true, false, Outcome, ok, err, panic,
  out_of_fuel, Option, none, some, List, [], ◌∷◌, ◌++◌,
}
use litedroid.Core.Error.{LiteDroidError, Result, adb_connection_failed}
use litedroid.Adb.Connection.{TcpStream, handle_client}

pub record AdbServer : Type 0 where
  pub port : ℕ
  pub running : Bool
  -- The descriptor of the listener, until a thread takes it.
  pub listener : Option ℕ

-- What `TcpListener::bind` gave decides.
unfoldable pub new : (port : ℕ) → Outcome String ℕ → Result AdbServer
new port (ok fd) = ok (record { port = port; running = false; listener = some fd })
new port (err e) = err (adb_connection_failed ("bind port " <> show port <> ": " <> e))
new port panic = panic
new port out_of_fuel = out_of_fuel

-- The listener that the accept thread goes on with, and the server.
unfoldable pub start : AdbServer → Result ℕ × AdbServer
start server = elim server.listener [
  | none ↦ (err (adb_connection_failed "already started"), server)
  | some fd ↦ (ok fd, record server { running = true; listener = none })
]

-- A client's connection: what it has sent so far, and whether it has closed its end. Until then
-- `read_exact` waits for more, without a limit.
pub record Peer : Type 0 where
  pub stream : TcpStream
  pub closed : Bool

-- Where the accept thread is: at the test of the loop, in `accept`, with a client, in `sleep`, or
-- past the loop.
pub data Place : Type 0 where
  testing accepting sleeping ended : Place
  handling : Peer → Place

pub record Accepting : Type 0 where
  pub place : Place
  pub server : AdbServer
  -- The connections that have not been accepted yet.
  pub backlog : List Peer

-- The server's own connection is dropped as soon as it is made.
abbrev pub arrivals : Option TcpStream → List Peer
arrivals none = []
arrivals (some stream) = record { stream = stream; closed = true } ∷ []

-- `stop` connects to the server itself; `own` is that connection, if it succeeds.
unfoldable pub stop : (own : Option TcpStream) → Accepting → Accepting
stop own s = record s {
  server = record s.server { running = false };
  backlog = s.backlog ++ arrivals own;
}

abbrev with_more : List ℕ → TcpStream → TcpStream
with_more bytes stream = record stream { incoming = stream.incoming ++ bytes }

-- What a session that ended has answered, or its error.
abbrev answered : Result TcpStream → Result (List ℕ)
answered (ok stream) = ok stream.sent
answered (err e) = err e
answered panic = panic
answered out_of_fuel = out_of_fuel

-- The session does not wait for the client: it has closed its end, or nothing that it may still send
-- makes a difference.
abbrev IsOver : Peer → Type 0
IsOver peer =
    (peer.closed ≡ true)
    ⊎ ((more : List ℕ)
        → answered (handle_client (with_more more peer.stream))
          ≡ answered (handle_client peer.stream))

-- A step of the accept thread.
pub data AcceptStep (s : Accepting) : Accepting → Type 0 where
  enter :
      s.place ≡ testing → s.server.running ≡ true → AcceptStep s (record s { place = accepting })
  leave : s.place ≡ testing → s.server.running ≡ false → AcceptStep s (record s { place = ended })
  accept :
      (peer : Peer) (rest : List Peer)
      → s.place ≡ accepting
      → s.backlog ≡ peer ∷ rest
      → AcceptStep s (record s { place = handling peer; backlog = rest })
  served :
      (peer : Peer) (left : TcpStream)
      → s.place ≡ handling peer
      → IsOver peer
      → handle_client peer.stream ≡ ok left
      → AcceptStep s (record s { place = testing })
  -- The error of a connection is only logged.
  serve_failed :
      (peer : Peer) (e : LiteDroidError)
      → s.place ≡ handling peer
      → IsOver peer
      → handle_client peer.stream ≡ err e
      → AcceptStep s (record s { place = testing })
  accept_failed :
      s.place ≡ accepting → s.server.running ≡ true → AcceptStep s (record s { place = sleeping })
  accept_stopped :
      s.place ≡ accepting → s.server.running ≡ false → AcceptStep s (record s { place = ended })
  wake : s.place ≡ sleeping → AcceptStep s (record s { place = testing })

-- A client connects, the client that is served sends something or closes its end, or another thread
-- stops the server. What a client does before it is accepted counts from then on. A second `start`
-- would change nothing, since the listener has been taken.
pub data OtherStep (s : Accepting) : Accepting → Type 0 where
  client : (peer : Peer) → OtherStep s (record s { backlog = s.backlog ++ peer ∷ [] })
  sends :
      (bytes : List ℕ) (peer : Peer)
      → s.place ≡ handling peer
      → peer.closed ≡ false
      → OtherStep s
          (record s { place = handling (record peer { stream = with_more bytes peer.stream }) })
  closes :
      (peer : Peer)
      → s.place ≡ handling peer
      → OtherStep s (record s { place = handling (record peer { closed = true }) })
  stopped : (own : Option TcpStream) → OtherStep s (stop own s)

-- Any interleaving in which the accept thread makes `n` steps.
pub data Run (s : Accepting) : ℕ → Accepting → Type 0 where
  here : Run s zero s
  thread : {n : ℕ} {t u : Accepting} → Run s n t → AcceptStep t u → Run s (suc n) u
  others : {n : ℕ} {t u : Accepting} → Run s n t → OtherStep t u → Run s n u
