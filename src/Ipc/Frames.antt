-- ===== src/Ipc/Frames.antt =====
-- Frames put on a stream and taken off it.
use litedroid.Base.{
  ℕ, zero, suc, ◌^◌, ◌<◌, ◌≡◌, refl, ap, ◌∙◌, Bool, true, false, List, [], ◌∷◌, ◌++◌, All, length,
  take, drop, ok, ◌>>=◌, ltb, arith, wrap32, from_be_bytes, le→ltb, length-append,
  take-append_length, drop-append_length, append_assoc, append-nil,
}
use litedroid.Core.Error.{Result}
use litedroid.Ipc.{
  IpcStream, be_bytes, frame, write_frame, read_exact, read_frame, Json, receive, send, protocol,
}

be_bytes_back : (v : ℕ) → v < 2 ^ 32 → from_be_bytes 0 (be_bytes v) ≡ v
unfolding be_bytes from_be_bytes
be_bytes_back v h = omega arith

read_exact-front :
    (front rest sent : List ℕ) (w : Bool) (n : ℕ)
    → length front ≡ n
    → read_exact n (record { incoming = front ++ rest; sent = sent; writable = w })
      ≡ ok (front, record { incoming = rest; sent = sent; writable = w })
unfolding read_exact
read_exact-front front rest sent w n e =
    let room : ltb (length (front ++ rest)) n ≡ false =
      le→ltb _ _ (rw length-append (omega arith)) in
    let taken : take n (front ++ rest) ≡ front = rw e at (take-append_length front rest) in
    let dropped : drop n (front ++ rest) ≡ rest = rw e at (drop-append_length front rest) in
    rw (room, taken, dropped) refl

-- A frame at the front of a stream is read whole, and nothing behind it is.
read_frame-frame :
    (payload rest sent : List ℕ) (w : Bool)
    → length payload < 2 ^ 32
    → read_frame (record { incoming = frame payload ++ rest; sent = sent; writable = w })
      ≡ ok (payload, record { incoming = rest; sent = sent; writable = w })
unfolding read_frame frame be_bytes
read_frame-frame payload rest sent w h =
    let size : wrap32 (length payload) ≡ length payload = omega arith in
    rw
      (
        size,
        read_exact-front (be_bytes (length payload)) (payload ++ rest) sent w 4 refl,
        be_bytes_back (length payload) h,
      )
      (read_exact-front payload rest sent w (length payload) refl)

-- Payloads written one after another, and read one after another.
unfoldable pub write_all : List (List ℕ) → IpcStream → Result IpcStream
write_all [] s = ok s
write_all (p ∷ ps) s = write_frame p s >>= λ s. write_all ps s

unfoldable pub read_all : (n : ℕ) → IpcStream → Result (List (List ℕ))
read_all zero s = ok []
read_all (suc n) s = read_frame s >>= λ got. read_all n got.1 >>= λ rest. ok (got.0 ∷ rest)

-- The stream of the peer, which gets what was sent.
unfoldable pub peer : IpcStream → IpcStream
peer s = record { incoming = s.sent; sent = []; writable = true }

unfoldable pub frames : List (List ℕ) → List ℕ
frames [] = []
frames (p ∷ ps) = frame p ++ frames ps

-- A payload whose length the header can hold.
unfoldable pub Fits : List ℕ → Type 0
Fits p = length p < 2 ^ 32

write_all-frames :
    (ps : List (List ℕ)) (i b : List ℕ)
    → write_all ps (record { incoming = i; sent = b; writable = true })
      ≡ ok (record { incoming = i; sent = b ++ frames ps; writable = true })
unfolding write_all write_frame frames
write_all-frames [] i b = rw append-nil refl
write_all-frames (p ∷ ps) i b =
    write_all-frames ps i (b ++ frame p)
    ∙ ap (λ (x : List ℕ). ok (record { incoming = i; sent = x; writable = true }))
        (append_assoc b (frame p) (frames ps))

read_all-frames :
    (ps : List (List ℕ)) (b : List ℕ) (w : Bool)
    → All Fits ps
    → read_all (length ps) (record { incoming = frames ps; sent = b; writable = w }) ≡ ok ps
unfolding read_all frames Fits
read_all-frames [] b w h = refl
read_all-frames (p ∷ ps) b w (short, h) =
    rw (read_frame-frame p (frames ps) b w short, read_all-frames ps b w h) refl

-- Payloads that are written one after another to a fresh stream that takes writes arrive at the
-- peer as they were written, in the same order, when each is shorter than 2 ^ 32 bytes.
pub read_all-write_all :
    (ps : List (List ℕ)) (i : List ℕ)
    → All Fits ps
    → (s : IpcStream) × (write_all ps (record { incoming = i; sent = []; writable = true }) ≡ ok s)
      × (read_all (length ps) (peer s) ≡ ok ps)
unfolding peer
read_all-write_all ps i h = (_, write_all-frames ps i [], read_all-frames ps [] true h)

module _ {A : Type 0} (json : Json A) (message : A) (bytes : List ℕ) where
  pub send-frame :
      (i b : List ℕ)
      → json.to_vec message ≡ ok bytes
      → send json message (record { incoming = i; sent = b; writable = true })
        ≡ ok (record { incoming = i; sent = b ++ frame bytes; writable = true })
  unfolding send write_frame protocol
  send-frame i b to = rw to refl

  pub receive-frame :
      (b : List ℕ) (w : Bool)
      → json.from_slice bytes ≡ ok message
      → length bytes < 2 ^ 32
      → receive json (record { incoming = frame bytes; sent = b; writable = w })
        ≡ ok (message, record { incoming = []; sent = b; writable = w })
  unfolding receive protocol
  receive-frame b w from short =
      let got : read_frame (record { incoming = frame bytes; sent = b; writable = w })
          ≡ ok (bytes, record { incoming = []; sent = b; writable = w }) =
        rw append-nil at (read_frame-frame bytes [] b w short) in
      rw (got, from) refl

-- A message that serde turns into fewer than 2 ^ 32 bytes and back arrives at the peer as it was
-- sent, over a stream that takes writes.
pub receive-send :
    {A : Type 0} (json : Json A) (message : A) (bytes i : List ℕ)
    → json.to_vec message ≡ ok bytes
    → json.from_slice bytes ≡ ok message
    → length bytes < 2 ^ 32
    → (s s' : IpcStream) × (send json message (record { incoming = i; sent = []; writable = true })
        ≡ ok s)
      × (receive json (peer s) ≡ ok (message, s'))
unfolding peer
receive-send json message bytes i to from short = (
  _,
  _,
  send-frame json message bytes i [] to,
  receive-frame json message bytes [] true from short,
)
