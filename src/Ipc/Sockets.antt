-- ===== src/Ipc/Sockets.antt =====
-- crates/ipc/src/lib.rs: `IpcServer`, and the connection of a client. The calls of UnixListener and
-- UnixStream are parameters; a stream is given by its descriptor.
use litedroid.Base.{
  ℕ, String, ◌≡◌, refl, sym, ap, subst, ◌∙◌, arith, Outcome, ok, err, panic, out_of_fuel, Option,
  none, some,
}
use litedroid.Action.{Action, pure, modify, resume, relabel, map_err, ◌>>=◌, ◌>>◌}
use litedroid.Core.Error.{LiteDroidError, ipc_connection_failed, os_error}

pub record Sockets (W : Type 0) : Type 0 where
  pub remove_file : String → W → W
  pub bind : String → Action W String ℕ
  -- The stream, the peer's path if it has one, and its address as `{:?}` prints it.
  pub accept : (listener : ℕ) → Action W String (ℕ × Option String × String)
  pub connect : String → Action W String ℕ
  pub set_read_timeout : (stream seconds : ℕ) → Action W String (Unit {0})
  pub set_write_timeout : (stream seconds : ℕ) → Action W String (Unit {0})

pub record IpcServer : Type 0 where
  pub listener : ℕ

-- `unwrap_or_else` on the path of the peer.
abbrev pub path_or : String → Option String → String
path_or other none = other
path_or other (some path) = path

module _ {S E A B : Type 0} (next : A → Action S E B) where
  resume-eq-ok :
      (r : Outcome E A) (s : S) (b : B) (t : S)
      → resume next r s ≡ (ok b, t)
      → (a : A) × (r ≡ ok a) × (next a s ≡ (ok b, t))
  resume-eq-ok (ok a) s b t e = (a, refl, e)
  resume-eq-ok (err x) s b t e = cc
  resume-eq-ok panic s b t e = cc
  resume-eq-ok out_of_fuel s b t e = cc

  -- Inversion of a successful bind.
  bind-eq-ok :
      (m : Action S E A) (s : S) (b : B) (t : S)
      → (m >>= next) s ≡ (ok b, t)
      → (a : A) × (u : S) × (m s ≡ (ok a, u)) × (next a u ≡ (ok b, t))
  unfolding ◌>>=◌
  bind-eq-ok m s b t e =
      let (a, r, rest) = resume-eq-ok (m s).0 (m s).1 b t e in
      (a, (m s).1, ap (λ (o : Outcome E A). (o, (m s).1)) r, rest)

relabel-eq-ok :
    {E F A : Type 0} (f : E → F) (r : Outcome E A) (a : A) → relabel f r ≡ ok a → r ≡ ok a
relabel-eq-ok f (ok b) a e = cc
relabel-eq-ok f (err x) a e = cc
relabel-eq-ok f panic a e = cc
relabel-eq-ok f out_of_fuel a e = cc

map_err-eq-ok :
    {S E F A : Type 0} (f : E → F) (m : Action S E A) (s : S) (a : A) (t : S)
    → map_err f m s ≡ (ok a, t)
    → m s ≡ (ok a, t)
unfolding map_err
map_err-eq-ok {F = F} {A = A} f m s a t e =
    let good = relabel-eq-ok f (m s).0 a (ap (λ p. p.0) e) in
    let last : (m s).1 ≡ t = ap (λ p. p.1) e in rw (sym good, sym last) refl

pure-eq-ok :
    {S E A : Type 0} (a b : A) (s t : S) → pure {S = S} {E = E} a s ≡ (ok b, t) → (a ≡ b) × (s ≡ t)
unfolding pure
pure-eq-ok a b s t e = (ground arith, ground arith)

module _ {W : Type 0} (sockets : Sockets W) where
  unfoldable pub new : (socket_path : String) → Action W LiteDroidError IpcServer
  unfolding modify map_err ◌>>=◌
  new socket_path = do
    modify (sockets.remove_file socket_path)
    listener ← map_err ipc_connection_failed (sockets.bind socket_path)
    pure (record { listener = listener })

  -- Thirty seconds for reads, and for writes.
  unfoldable pub set_timeouts : (stream : ℕ) → Action W LiteDroidError (Unit {0})
  unfolding map_err ◌>>=◌
  set_timeouts stream = do
    map_err os_error (sockets.set_read_timeout stream 30)
    map_err os_error (sockets.set_write_timeout stream 30)

  unfoldable pub accept : IpcServer → Action W LiteDroidError (ℕ × String)
  unfolding set_timeouts map_err ◌>>=◌
  accept server = do
    peer ← map_err ipc_connection_failed (sockets.accept server.listener)
    set_timeouts peer.0
    pure (peer.0, path_or peer.2 peer.1)

  -- It only writes a line to the log.
  unfoldable pub shutdown : IpcServer → Action W LiteDroidError (Unit {0})
  shutdown server = pure tt

  unfoldable pub connect : (socket_path : String) → Action W LiteDroidError ℕ
  unfolding set_timeouts map_err ◌>>=◌
  connect socket_path = do
    stream ← map_err ipc_connection_failed (sockets.connect socket_path)
    set_timeouts stream
    pure stream

  -- The timeouts of a stream, as `set_read_timeout` and `set_write_timeout` leave them.
  pub record IsTimed (reads writes : W → ℕ → ℕ) : Type 0 where
    pub read_set :
        (stream seconds : ℕ) (w w' : W)
        → sockets.set_read_timeout stream seconds w ≡ (ok tt, w')
        → reads w' stream ≡ seconds
    pub write_set :
        (stream seconds : ℕ) (w w' : W)
        → sockets.set_write_timeout stream seconds w ≡ (ok tt, w')
        → (writes w' stream ≡ seconds) × (reads w' stream ≡ reads w stream)

  module _ (reads writes : W → ℕ → ℕ) (timed : IsTimed reads writes) where
    abbrev pub Timed : ℕ → W → Type 0
    Timed stream w = (reads w stream ≡ 30) × (writes w stream ≡ 30)

    set_timeouts-Timed :
        (stream : ℕ) (w w' : W) → set_timeouts stream w ≡ (ok tt, w') → Timed stream w'
    unfolding set_timeouts
    set_timeouts-Timed stream w w' e =
        let read_call = sockets.set_read_timeout stream 30 in
        let write_call = sockets.set_write_timeout stream 30 in
        let (_, w1, e1, e2) =
          bind-eq-ok (λ _. map_err os_error write_call) (map_err os_error read_call) w tt w' e in
        let read = timed.read_set stream 30 w w1 (map_err-eq-ok os_error read_call w tt w1 e1) in
        let (write, kept) =
          timed.write_set stream 30 w1 w' (map_err-eq-ok os_error write_call w1 tt w' e2) in
        (kept ∙ read, write)

    -- A stream that the client is given has both timeouts at thirty seconds.
    pub connect-Timed :
        (socket_path : String) (stream : ℕ) (w w' : W)
        → connect socket_path w ≡ (ok stream, w')
        → Timed stream w'
    unfolding connect
    connect-Timed socket_path stream w w' e =
        let (s, w1, e1, e2) =
          bind-eq-ok (λ s. set_timeouts s >> pure s)
            (map_err ipc_connection_failed (sockets.connect socket_path)) w stream w' e in
        let (_, w2, e3, e4) = bind-eq-ok (λ _. pure s) (set_timeouts s) w1 stream w' e2 in
        let (same, last) = pure-eq-ok s stream w2 w' e4 in
        subst (λ (x : ℕ). Timed x w') same (subst (Timed s) last (set_timeouts-Timed s w1 w2 e3))

    -- A stream that the server is given has both timeouts at thirty seconds.
    pub accept-Timed :
        (server : IpcServer) (stream : ℕ) (addr : String) (w w' : W)
        → accept server w ≡ (ok (stream, addr), w')
        → Timed stream w'
    unfolding accept
    accept-Timed server stream addr w w' e =
        let addressed : ℕ × Option String × String → ℕ × String =
          λ peer. (peer.0, path_or peer.2 peer.1) in
        let (peer, w1, e1, e2) =
          bind-eq-ok (λ peer. set_timeouts peer.0 >> pure (addressed peer))
            (map_err ipc_connection_failed (sockets.accept server.listener)) w (stream, addr) w'
            e in
        let (_, w2, e3, e4) =
          bind-eq-ok (λ _. pure (addressed peer)) (set_timeouts peer.0) w1 (stream, addr) w' e2 in
        let (same, last) = pure-eq-ok (addressed peer) (stream, addr) w2 w' e4 in
        subst (λ (x : ℕ). Timed x w') (ap (λ (x : ℕ × String). x.0) same)
          (subst (Timed peer.0) last (set_timeouts-Timed peer.0 w1 w2 e3))
