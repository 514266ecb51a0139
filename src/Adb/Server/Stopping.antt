-- ===== src/Adb/Server/Stopping.antt =====
-- That `AdbServer::stop` ends the accept thread.
use litedroid.Base.{
  ℕ, ◌+◌, ◌≤◌, ◌≡◌, ◌≢◌, ◌⊎◌, Bool-cases, inl, inr, refl, Bool, true, false, ok, err, some, List,
  [], ◌∷◌, ◌++◌, arith,
}
use litedroid.Core.Error.{LiteDroidError}
use litedroid.Adb.Connection.{TcpStream, handle_client, write_all}
use litedroid.Adb.Connection.Replies.{handle_client-total}
use litedroid.Adb.Server.{
  Peer, sends, closes, Accepting, Place, testing, accepting, sleeping, ended, handling, stop,
  AcceptStep, enter, leave, accept, served, serve_failed, accept_failed, accept_stopped, wake,
  OtherStep, client, stopped, Run, here, thread, others,
}

abbrev Occupied : List Peer → Type 0
Occupied l = (peer : Peer) × (rest : List Peer) × (l ≡ peer ∷ rest)

append-Occupied : (l m : List Peer) → Occupied l → Occupied (l ++ m)
append-Occupied l m (peer, rest, e) = (peer, rest ++ m, rw e refl)

last-Occupied : (l : List Peer) (peer : Peer) → Occupied (l ++ peer ∷ [])
last-Occupied [] peer = (peer, [], refl)
last-Occupied (first ∷ l) peer = (first, l ++ peer ∷ [], refl)

-- A server that has been stopped, whose thread does not wait for a client in vain.
record IsStopping (s : Accepting) : Type 0 where
  off : s.server.running ≡ false
  woken : s.place ≡ accepting → Occupied s.backlog

-- The steps of the accept thread that are left once the server is stopped.
abbrev pub distance : Place → ℕ
distance accepting = 3
distance (handling peer) = 2
distance sleeping = 2
distance testing = 1
distance ended = 0

AcceptStep-distance :
    (s t : Accepting)
    → IsStopping s
    → AcceptStep s t
    → IsStopping t × (distance t.place + 1 ≤ distance s.place)
AcceptStep-distance s _ h (enter e r) = let off = h.off in cc
AcceptStep-distance s _ h (leave e r) = (record { off = r; woken = λ w. cc }, rw e (omega arith))
AcceptStep-distance s _ h (accept peer rest e b) =
    (record { off = h.off; woken = λ w. cc }, rw e (omega arith))
AcceptStep-distance s _ h (served peer left e over r) =
    (record { off = h.off; woken = λ w. cc }, rw e (omega arith))
AcceptStep-distance s _ h (serve_failed peer x e over r) =
    (record { off = h.off; woken = λ w. cc }, rw e (omega arith))
AcceptStep-distance s _ h (accept_failed e r) = let off = h.off in cc
AcceptStep-distance s _ h (accept_stopped e r) =
    (record { off = r; woken = λ w. cc }, rw e (omega arith))
AcceptStep-distance s _ h (wake e) = (record { off = h.off; woken = λ w. cc }, rw e (omega arith))

OtherStep-distance :
    (s t : Accepting)
    → IsStopping s
    → OtherStep s t
    → IsStopping t × (distance t.place ≡ distance s.place)
unfolding stop
OtherStep-distance s _ h (client peer) =
    (record { off = h.off; woken = λ w. append-Occupied s.backlog _ (h.woken w) }, refl)
OtherStep-distance s _ h (sends bytes peer e o) =
    (record { off = h.off; woken = λ w. cc }, rw e refl)
OtherStep-distance s _ h (closes peer e) = (record { off = h.off; woken = λ w. cc }, rw e refl)
OtherStep-distance s _ h (stopped own) =
    (record { off = refl; woken = λ w. append-Occupied s.backlog _ (h.woken w) }, refl)

Run-distance :
    {s : Accepting} {n : ℕ} {t : Accepting}
    → IsStopping s
    → Run s n t
    → IsStopping t × (distance t.place + n ≤ distance s.place)
Run-distance h here = (h, omega arith)
Run-distance h (thread r step) =
    let (stopping, far) = Run-distance h r in
    let (stopping', near) = AcceptStep-distance _ _ stopping step in (stopping', omega arith)
Run-distance h (others r step) =
    let (stopping, far) = Run-distance h r in
    let (stopping', same) = OtherStep-distance _ _ stopping step in (stopping', rw same far)

distance-ended : (p : Place) → distance p ≤ 0 → p ≡ ended
distance-ended accepting h = absurd (omega arith)
distance-ended (handling peer) h = absurd (omega arith)
distance-ended sleeping h = absurd (omega arith)
distance-ended testing h = absurd (omega arith)
distance-ended ended h = refl

-- The handler ends for every stream.
handled :
    (i b : List ℕ) (w : Bool)
    → ((left : TcpStream) × (handle_client (record { incoming = i; sent = b; writable = w })
          ≡ ok left))
      ⊎ ((e : LiteDroidError) × (handle_client (record { incoming = i; sent = b; writable = w })
            ≡ err e))
unfolding handle_client write_all
handled i b true = inl (handle_client-total i b)
handled i b false = inr (_, refl)

-- The client that is served keeps its connection open.
abbrev pub IsWaiting : Accepting → Type 0
IsWaiting t = (peer : Peer) × (t.place ≡ handling peer) × (peer.closed ≡ false)

serves :
    (t : Accepting) (peer : Peer)
    → t.place ≡ handling peer
    → peer.closed ≡ true
    → (u : Accepting) × AcceptStep t u
serves t peer e closed = elim (handled peer.stream.incoming peer.stream.sent peer.stream.writable) [
  | inl (left, r) ↦ (_, served peer left e (inl closed) r)
  | inr (x, r) ↦ (_, serve_failed peer x e (inl closed) r)
]

next_step :
    (t : Accepting) (p : Place)
    → t.place ≡ p
    → IsStopping t
    → p ≢ ended
    → ((u : Accepting) × AcceptStep t u) ⊎ IsWaiting t
next_step t testing e h moves = inl (_, leave e h.off)
next_step t sleeping e h moves = inl (_, wake e)
next_step t accepting e h moves = let (peer, rest, b) = h.woken e in inl (_, accept peer rest e b)
next_step t (handling peer) e h moves = elim (Bool-cases peer.closed) [
  | inl closed ↦ inl (serves t peer e closed)
  | inr open_end ↦ inr (peer, e, open_end)
]
next_step t ended e h moves = absurd (moves refl)

-- Once `stop` has cleared the flag and its own connection has reached the listener, the accept
-- thread makes at most as many steps as its place is away from the end (three from `accept`, two
-- with a client or from `sleep`, one from the test), whatever clients and other threads do in
-- between; after so many it has ended, and until then it can make a step, or it is with a client
-- that has not closed its connection.
pub stop_ends :
    (own : TcpStream) (n : ℕ) (s t : Accepting)
    → Run (stop (some own) s) n t
    → (n ≤ distance s.place)
      × (n ≡ distance s.place → t.place ≡ ended)
      × (t.place ≢ ended → ((u : Accepting) × AcceptStep t u) ⊎ IsWaiting t)
unfolding stop
stop_ends own n s t r =
    let begun : IsStopping (stop (some own) s) = record {
      off = refl;
      woken = λ w. last-Occupied s.backlog _;
    } in
    let (stopping, near) = Run-distance begun r in
    (omega arith, λ all. distance-ended t.place (omega arith), next_step t t.place refl stopping)
