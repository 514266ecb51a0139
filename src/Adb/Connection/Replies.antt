-- ===== src/Adb/Connection/Replies.antt =====
-- What a client gets back: the byte loop of `handle_client` against a conversation of messages.
use litedroid.Base.{
  ℕ, zero, suc, ◌+◌, ◌≤◌, ◌<◌, ◌≡◌, ◌⊎◌, inl, inr, Option-cases, refl, sym, ap, ◌∙◌, Bool, true,
  false, List, [], ◌∷◌, ◌++◌, length, take, drop, ok, err, arith, none, some, ltb, if◌then◌else◌,
  length-append, take-append_length, drop-append_length, length-drop, append-nil, append_assoc,
  le_bytes, from_le_bytes, le→ltb, if_split, Bool-cases, ◌==◌, IsPlain, value, error,
}
use native.Mathlib.Nat.{suc-add, zero-add}
use litedroid.Core.Error.{Result, LiteDroidError}
use litedroid.Adb.Message.{AdbMessage, checksum, field, encode, decode, decode_payload, magic}
use litedroid.Adb.Message.RoundTrip.{IsWellFormed, decode-encode, Reads-decode, take_join, drop-add}
use litedroid.Adb.Connection.{
  TcpStream, write_all, send_msg, receive, handshake, dispatch, send_all, serve_client,
  handle_client,
}

-- The conversation at the level of messages: the replies to `ms`, in order, up to the message that
-- ends the connection.
unfoldable pub replies_to : (next_local_id : ℕ) → List AdbMessage → List AdbMessage
replies_to next [] = []
replies_to next (m ∷ ms) =
    let t = dispatch next m in
    let rest = replies_to t.next_local_id ms in t.replies ++ (if t.continues then rest else [])

unfoldable pub encode_all : List AdbMessage → List ℕ
encode_all [] = []
encode_all (m ∷ ms) = encode m ++ encode_all ms

encode_all-append :
    (ms ns : List AdbMessage) → encode_all (ms ++ ns) ≡ encode_all ms ++ encode_all ns
unfolding encode_all
encode_all-append [] ns = refl
encode_all-append (m ∷ ms) ns =
    rw (encode_all-append ms ns) (sym (append_assoc (encode m) (encode_all ms) (encode_all ns)))

-- A stream that takes writes.
abbrev pub connected : (incoming sent : List ℕ) → TcpStream
connected incoming sent = record { incoming = incoming; sent = sent; writable = true }

send_all-connected :
    (ms : List AdbMessage) (i b : List ℕ)
    → send_all ms (connected i b) ≡ connected i (b ++ encode_all ms)
unfolding send_all send_msg encode_all
send_all-connected [] i b = ap (connected i) (sym (append-nil b))
send_all-connected (m ∷ ms) i b =
    send_all-connected ms i (b ++ encode m)
    ∙ ap (connected i) (append_assoc b (encode m) (encode_all ms))

take-take : (k j : ℕ) (xs : List ℕ) → take k (take (k + j) xs) ≡ take k xs
take-take zero j xs = refl
take-take (suc k) j [] = rw suc-add refl
take-take (suc k) j (x ∷ xs) = rw suc-add (ap (λ (t : List ℕ). x ∷ t) (take-take k j xs))

field_take :
    (i k j : ℕ) (xs : List ℕ) → take k (drop i (take (i + (k + j)) xs)) ≡ take k (drop i xs)
field_take zero k j xs = rw zero-add (take-take k j xs)
field_take (suc i) k j [] = rw suc-add refl
field_take (suc i) k j (x ∷ xs) = rw suc-add (field_take i k j xs)

length-encode : (m : AdbMessage) → IsWellFormed m → length (encode m) ≡ 24 + length m.payload
unfolding encode le_bytes
length-encode m w = let four = w.four in rw length-append (omega arith)

receive-whole :
    (n : ℕ) (s : TcpStream)
    → field 12 s.incoming ≡ n
    → 24 + n ≤ length s.incoming
    → receive s ≡ some (take (24 + n) s.incoming, record s { incoming = drop (24 + n) s.incoming })
unfolding receive field
receive-whole n s e h =
    let xs = s.incoming in
    let f : field 12 (take 24 xs) ≡ n = ap from_le_bytes (field_take 12 4 8 xs) ∙ e in
    let enough : ltb (length xs) 24 ≡ false = le→ltb _ _ (omega arith) in
    let rest_enough : ltb (length (drop 24 xs)) n ≡ false =
      le→ltb _ _ (omega (arith, length-drop {0} 24 xs)) in
    rw (enough, f, rest_enough, take_join 24 n xs, sym (drop-add 24 n xs)) refl

-- The reads of one turn take exactly one encoded message off the stream.
receive-encode :
    (m : AdbMessage) (rest : List ℕ) (s : TcpStream)
    → IsWellFormed m
    → s.incoming ≡ encode m ++ rest
    → receive s ≡ some (encode m, record s { incoming = rest })
receive-encode m rest s w e =
    let r = Reads-decode _ m (decode-encode m rest w) in
    let long = length-encode m w in
    let n = length m.payload in
    let whole =
      receive-whole n s (ap (field 12) e ∙ r.measured ∙ w.measured)
        (rw (e, length-append, long) (omega arith)) in
    let front : take (24 + n) (encode m ++ rest) ≡ encode m =
      rw long at (take-append_length (encode m) rest) in
    let back : drop (24 + n) (encode m ++ rest) ≡ rest =
      rw long at (drop-append_length (encode m) rest) in
    whole
    ∙ (ap (λ (xs : List ℕ). some (take (24 + n) xs, record s { incoming = drop (24 + n) xs })) e
        ∙ rw (front, back) refl)

receive-shorter :
    (s s' : TcpStream) (full : List ℕ)
    → receive s ≡ some (full, s')
    → (length s'.incoming < length s.incoming) × (s'.writable ≡ s.writable) × (s'.sent ≡ s.sent)
unfolding receive
receive-shorter s s' full e = ground (
  arith,
  length-drop {0} 24 s.incoming,
  length-drop {0} (field 12 (take 24 s.incoming)) (drop 24 s.incoming),
)

send_all-incoming : (ms : List AdbMessage) (s : TcpStream) → (send_all ms s).incoming ≡ s.incoming
unfolding send_all send_msg
send_all-incoming [] s = refl
send_all-incoming (m ∷ ms) s =
    send_all-incoming ms (send_msg m s)
    ∙ if_split (λ (t : TcpStream). t.incoming ≡ s.incoming) s.writable (λ _. refl) (λ _. refl)

-- Messages that the peer can have encoded.
unfoldable pub AllWellFormed : List AdbMessage → Type 0
AllWellFormed [] = Unit
AllWellFormed (m ∷ ms) = IsWellFormed m × AllWellFormed ms

receive-short : (s : TcpStream) → length s.incoming < 24 → receive s ≡ none
unfolding receive
receive-short s h = ground arith

-- One turn, when the rest of the loop is known.
turn_ends :
    (replies more : List AdbMessage) (tail b : List ℕ) (c : Bool) (rest : Result TcpStream)
    → (left : List ℕ) × (rest ≡ ok (connected left ((b ++ encode_all replies) ++ encode_all more)))
    → (left : List ℕ) × ((if c then rest else ok (send_all replies (connected tail b)))
        ≡ ok (connected left (b ++ encode_all (replies ++ (if c then more else [])))))
turn_ends replies more tail b true rest (left, e) = (
  left,
  e
      ∙ ap (λ (x : List ℕ). ok (connected left x))
          (append_assoc b (encode_all replies) (encode_all more)
            ∙ ap (λ (x : List ℕ). b ++ x) (sym (encode_all-append replies more))),
)
turn_ends replies more tail b false rest (left, e) =
    (tail, rw append-nil (ap ok (send_all-connected replies tail b)))

serve_client-replies :
    (fuel next : ℕ) (ms : List AdbMessage) (rest b : List ℕ)
    → AllWellFormed ms
    → length rest < 24
    → length (encode_all ms ++ rest) < fuel
    → (left : List ℕ) × (serve_client fuel next (connected (encode_all ms ++ rest) b)
        ≡ ok (connected left (b ++ encode_all (replies_to next ms))))
unfolding serve_client replies_to encode_all AllWellFormed
serve_client-replies zero next ms rest b w r h = absurd (omega (arith, h))
serve_client-replies (suc fuel) next [] rest b w r h =
    (rest, rw (receive-short (connected rest b) r, append-nil b, serve_client) refl)
serve_client-replies (suc fuel) next (m ∷ ms) rest b (w, ws) r h =
    let s = connected (encode_all (m ∷ ms) ++ rest) b in
    let got =
      receive-encode m (encode_all ms ++ rest) s w (append_assoc (encode m) (encode_all ms) rest) in
    let understood = rw append-nil at (decode-encode m [] w) in
    let t = dispatch next m in
    let tail = encode_all ms ++ rest in
    let more = replies_to t.next_local_id ms in
    let go = serve_client-replies fuel t.next_local_id ms rest (b ++ encode_all t.replies) ws r (
      omega (
        arith,
        h,
        length-encode m w,
        rw (append_assoc (encode m) (encode_all ms) rest, length-append {0} (encode m) tail) at h,
      )) in
    rw (got, understood, serve_client)
      (turn_ends t.replies more tail b t.continues _ (rw (send_all-connected t.replies tail b) go))

plain :
    {r : Result AdbMessage}
    → IsPlain r
    → ((m : AdbMessage) × (r ≡ ok m)) ⊎ ((e : LiteDroidError) × (r ≡ err e))
plain (value m) = inl (m, refl)
plain (error e) = inr (e, refl)

decode-IsPlain : (bytes : List ℕ) → IsPlain (decode bytes)
unfolding decode decode_payload
decode-IsPlain bytes = elim (Bool-cases (ltb (length bytes) 24)) [
  | inl e ↦ rw e (error _)
  | inr e ↦ elim (Bool-cases (field 20 bytes == magic (take 4 bytes))) [
    | inr f ↦ rw (e, f) (error _)
    | inl f ↦ elim (Bool-cases (ltb (length bytes) (24 + field 12 bytes))) [
      | inl g ↦ rw (e, f, g) (error _)
      | inr g ↦
          elim (Bool-cases (checksum (take (field 12 bytes) (drop 24 bytes)) == field 16 bytes)) [
            | inl h ↦ rw (e, f, g, h) (value _)
            | inr h ↦ rw (e, f, g, h) (error _)
          ]
    ]
  ]
]

-- The loop of `handle_client` comes to an end, whatever the peer sends.
serve_client-total :
    (fuel next : ℕ) (s : TcpStream)
    → length s.incoming < fuel
    → (s' : TcpStream) × (serve_client fuel next s ≡ ok s')
unfolding serve_client
serve_client-total zero next s h = absurd (omega (arith, h))
serve_client-total (suc fuel) next s h = elim (Option-cases (receive s)) [
  | inl e ↦ (s, rw (e, serve_client) refl)
  | inr ((full, s'), e) ↦ elim (plain (decode-IsPlain full)) [
    | inr (x, d) ↦ (s', rw (e, d, serve_client) refl)
    | inl (m, d) ↦
        let t = dispatch next m in
        let answered = send_all t.replies s' in
        let (shorter, _, _) = receive-shorter s s' full e in
        rw (e, d, serve_client)
          (if_split (λ (r : Result TcpStream). (s' : TcpStream) × (r ≡ ok s')) t.continues
            (λ _.
              serve_client-total fuel t.next_local_id answered
                (rw (send_all-incoming t.replies s') (omega (arith, shorter, h))))
            (λ _. (answered, refl)))
  ]
]

-- `handle_client` returns for every stream that takes writes, whatever bytes the peer sends.
pub handle_client-total : (i b : List ℕ) → (s : TcpStream) × (handle_client (connected i b) ≡ ok s)
unfolding handle_client write_all
handle_client-total i b = serve_client-total _ 1 (connected i (b ++ encode handshake)) (omega arith)

-- A peer that sends the well-formed messages `ms`, and then less than a header, gets from a stream
-- that takes writes the handshake and then the replies to `ms` in order, up to the message that
-- closes the connection, each in its wire format, and nothing else.
pub handle_client-replies :
    (ms : List AdbMessage) (rest : List ℕ)
    → AllWellFormed ms
    → length rest < 24
    → (left : List ℕ) × (handle_client (connected (encode_all ms ++ rest) [])
        ≡ ok (connected left (encode handshake ++ encode_all (replies_to 1 ms))))
unfolding handle_client write_all
handle_client-replies ms rest w r =
    serve_client-replies _ 1 ms rest (encode handshake) w r (omega arith)
