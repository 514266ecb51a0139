-- ===== src/Vmm/Block/Served.antt =====
-- crates/vmm/src/lib.rs: a whole request of the guest, from its chain of descriptors to the used
-- ring. The parts are in `Transfer` and `Used`.
use litedroid.Base.{
  sym, ℕ, ◌+◌, ◌*◌, ◌%◌, ◌^◌, ◌≤◌, ◌<◌, ◌≡◌, ◌⊎◌, refl, ap, ◌∙◌, ok, some, List, [], ◌∷◌, length,
  arith, wrap16, wrap64,
}
use native.Mathlib.Nat.{mod-lt}
use litedroid.Core.Error.{Result}
use litedroid.Memory.{GuestMemory, read_guest}
use litedroid.Memory.Access.{read_guest-write_guest}
use litedroid.Storage.Image.{FileOps}
use litedroid.Vmm.GuestWord.{guest_u16}
use litedroid.Vmm.Block.Monad.{M, ◌>>=◌, ◌>>◌}
use litedroid.Vmm.Block.Parse.{Request, parse_request}
use litedroid.Vmm.Block.Transfer.{
  bind-eq-ok, write_memory-eq-ok, serve_read, serve_read_size, serve_write,
}
use litedroid.Vmm.Block.Used.{
  word_apart, word_size, publish-eq-ok, complete-eq-ok, complete_publishes,
}
use litedroid.Vmm.Block.{
  VirtioBlock, Guest, write_memory, serve, complete, used_ring, process_request,
}

-- A word is what its two bytes say.
same_word :
    (m m' : GuestMemory) (a : ℕ)
    → read_guest m' a 2 ≡ read_guest m a 2
    → guest_u16 m' a ≡ guest_u16 m a
unfolding guest_u16
same_word m m' a e = rw e refl

-- `n` bytes at `a` lie before or behind `k` bytes at `b`.
abbrev pub Apart : (a n b k : ℕ) → Type 0
Apart a n b k = (a + n ≤ b) ⊎ (b + k ≤ a)

module _ {F : Type 0} where
  -- Where a completion writes: the index of the used ring and its entries.
  abbrev pub ring_start : (queue : ℕ) → Guest F → ℕ
  ring_start queue g = used_ring g.device.queue_num queue + 2

  abbrev pub ring_len : Guest F → ℕ
  ring_len g = 2 + 8 * g.device.queue_num

  -- A completion leaves what is apart from the ring.
  complete-Apart :
      (queue head len : ℕ) (g h : Guest F) (a n : ℕ)
      → g.memory.size < 2 ^ 64
      → complete queue head len g ≡ (ok tt, h)
      → Apart a n (ring_start queue g) (ring_len g)
      → read_guest h.memory a n ≡ read_guest g.memory a n
  complete-Apart queue head len g h a n s e apart =
      let (i, idx, nz, p) = complete-eq-ok queue head len g h e in
      let u = used_ring g.device.queue_num queue in
      let j = i % g.device.queue_num in
      let inside : j < g.device.queue_num = mod-lt i (omega arith) in
      let (m, o, w1, w2, w3, d) = publish-eq-ok u i j head len g h p in
      let s1 = word_size 4 head g.memory m _ s w1 in
      let s2 = word_size 4 len m o _ s1 w2 in
      word_apart 2 (wrap16 (i + 1)) o h.memory (u + 2) a n s2 w3 (omega arith)
      ∙ word_apart 4 len m o (u + 8 + j * 8) a n s1 w2 (omega arith)
      ∙ word_apart 4 head g.memory m (u + 4 + j * 8) a n s w1 (omega arith)

  -- The steps of a request that is processed.
  process_request-eq-ok :
      (ops : FileOps F) (queue head : ℕ) (g h : Guest F) (q : Request)
      → parse_request g.memory g.device.queue_num queue head ≡ ok q
      → process_request ops queue head g ≡ (ok tt, h)
      → (status : ℕ) × (g1 g2 : Guest F) × (serve ops q g ≡ (ok status, g1))
        × (write_memory q.status_addr (status ∷ []) g1 ≡ (ok tt, g2))
        × (complete queue head q.payload_len g2 ≡ (ok tt, h))
  unfolding process_request
  process_request-eq-ok ops queue head g h q parsed e =
      let finish : ℕ → M (Guest F) (Unit {0}) =
        λ status. write_memory q.status_addr (status ∷ []) >> complete queue head q.payload_len in
      let chain : (serve ops q >>= finish) g ≡ (ok tt, h) = rw parsed at e in
      let (status, served, rest) = bind-eq-ok finish (serve ops q) g tt h chain in
      let g1 = (serve ops q g).1 in
      let store = write_memory {F = F} q.status_addr (status ∷ []) in
      let (_, stored, completed) =
        bind-eq-ok (λ _. complete queue head q.payload_len) store g1 tt h rest in
      (
        status,
        g1,
        (store g1).1,
        ap (λ (r : Result ℕ). (r, g1)) served,
        ap (λ (r : Result (Unit {0})). (r, (store g1).1)) stored,
        completed,
      )

  -- A read request that is processed, in a mapped region, whose buffer and status byte lie apart
  -- from each other and from the used ring, and for a `pread` that gives at most the bytes it is
  -- asked for: the bytes of the disk at the sector's offset stand in the buffer, the status byte is
  -- 0, the index of the used ring is one higher modulo 2 ^ 16, and the device is as it was.
  pub process_request_read :
      (ops : FileOps F) (queue head : ℕ) (g h : Guest F) (q : Request)
      → g.memory.size < 2 ^ 64
      → head < 2 ^ 32
      → q.payload_len < 2 ^ 32
      → parse_request g.memory g.device.queue_num queue head ≡ ok q
      → q.request_type ≡ 0
      → ((bytes : List ℕ)
          → ops.pread g.device.disk.fd (wrap64 (q.sector * 512)) q.payload_len ≡ some bytes
          → length bytes ≤ q.payload_len)
      → Apart q.payload_addr q.payload_len q.status_addr 1
      → Apart q.payload_addr q.payload_len (ring_start queue g) (ring_len g)
      → Apart q.status_addr 1 (ring_start queue g) (ring_len g)
      → process_request ops queue head g ≡ (ok tt, h)
      → (bytes : List ℕ) × (i : ℕ) × (ops.pread g.device.disk.fd
            (wrap64 (q.sector * 512))
            q.payload_len
          ≡ some bytes)
        × (read_guest h.memory q.payload_addr (length bytes) ≡ ok bytes)
        × (read_guest h.memory q.status_addr 1 ≡ ok (0 ∷ []))
        × (guest_u16 g.memory (ring_start queue g) ≡ ok i)
        × (guest_u16 h.memory (ring_start queue g) ≡ ok ((i + 1) % 2 ^ 16))
        × (h.device ≡ g.device)
  process_request_read ops queue head g h q size small short parsed reads bounded apart ring ring2
        e =
      let (status, g1, g2, served, stored, completed) =
        process_request-eq-ok ops queue head g h q parsed e in
      let (bytes, got, back, apart1, same1, zero, _) =
        serve_read ops q g g1 status size reads served in
      let few = bounded bytes got in
      let (w, same2) = write_memory-eq-ok q.status_addr (status ∷ []) g1 g2 stored in
      let size1 : g1.memory.size < 2 ^ 64 =
        rw (serve_read_size ops q g g1 status size reads served) size in
      let (byte, apart2, same_size, _) =
        read_guest-write_guest g1.memory g2.memory q.status_addr (status ∷ []) size1 w in
      let size2 : g2.memory.size < 2 ^ 64 = rw same_size size1 in
      let devices : g2.device ≡ g.device = same2 ∙ same1 in
      let num : g2.device.queue_num ≡ g.device.queue_num =
        ap (λ (d : VirtioBlock F). d.queue_num) devices in
      let (i, before, index, _, _, same3) =
        complete_publishes queue head q.payload_len g2 h size2 small short completed in
      (
        bytes,
        i,
        got,
        complete-Apart queue head q.payload_len g2 h q.payload_addr (length bytes) size2 completed
              (rw num (omega arith))
            ∙ apart2 q.payload_addr (length bytes) (omega arith)
            ∙ back,
        complete-Apart queue head q.payload_len g2 h q.status_addr 1 size2 completed (rw num ring2)
            ∙ byte
            ∙ rw zero refl,
        sym (
              same_word g.memory g2.memory (ring_start queue g) (
                apart2 (ring_start queue g) 2 (omega arith)
                ∙ apart1 (ring_start queue g) 2 (omega arith)))
            ∙ (rw num at before),
        rw num at index,
        same3 ∙ devices,
      )

  -- A write request that is processed, in a mapped region, whose status byte lies apart from the used
  -- ring: the payload that stands in the guest's memory was given to the host's `pwrite` at the
  -- sector's offset, which succeeded, and the file is what it made of it; the status byte is 0, the
  -- index of the used ring is one higher modulo 2 ^ 16, and what lies apart from the status byte and
  -- the ring reads as before.
  pub process_request_write :
      (ops : FileOps F) (queue head : ℕ) (g h : Guest F) (q : Request)
      → g.memory.size < 2 ^ 64
      → head < 2 ^ 32
      → q.payload_len < 2 ^ 32
      → parse_request g.memory g.device.queue_num queue head ≡ ok q
      → q.request_type ≡ 1
      → Apart q.status_addr 1 (ring_start queue g) (ring_len g)
      → process_request ops queue head g ≡ (ok tt, h)
      → (payload : List ℕ) × (n : ℕ) × (i : ℕ) × (read_guest g.memory q.payload_addr q.payload_len
          ≡ ok payload)
        × ((ops.pwrite g.device.disk.fd (wrap64 (q.sector * 512)) payload).0 ≡ some n)
        × (h.device.disk.fd ≡ (ops.pwrite g.device.disk.fd (wrap64 (q.sector * 512)) payload).1)
        × (read_guest h.memory q.status_addr 1 ≡ ok (0 ∷ []))
        × (guest_u16 g.memory (ring_start queue g) ≡ ok i)
        × (guest_u16 h.memory (ring_start queue g) ≡ ok ((i + 1) % 2 ^ 16))
        × ((a k : ℕ)
            → Apart a k q.status_addr 1
            → Apart a k (ring_start queue g) (ring_len g)
            → read_guest h.memory a k ≡ read_guest g.memory a k)
  process_request_write ops queue head g h q size small short parsed writes ring e =
      let (status, g1, g2, served, stored, completed) =
        process_request-eq-ok ops queue head g h q parsed e in
      let (payload, n, read, written, file, kept, zero, _, num1) =
        serve_write ops q g g1 status writes served in
      let (w, same2) = write_memory-eq-ok q.status_addr (status ∷ []) g1 g2 stored in
      let size1 : g1.memory.size < 2 ^ 64 = rw kept size in
      let (byte, apart2, same_size, _) =
        read_guest-write_guest g1.memory g2.memory q.status_addr (status ∷ []) size1 w in
      let size2 : g2.memory.size < 2 ^ 64 = rw same_size size1 in
      let num : g2.device.queue_num ≡ g.device.queue_num =
        ap (λ (d : VirtioBlock F). d.queue_num) same2 ∙ num1 in
      let (i, before, index, _, _, same3) =
        complete_publishes queue head q.payload_len g2 h size2 small short completed in
      (
        payload,
        n,
        i,
        read,
        written,
        ap (λ (d : VirtioBlock F). d.disk.fd) (same3 ∙ same2) ∙ file,
        complete-Apart queue head q.payload_len g2 h q.status_addr 1 size2 completed (rw num ring)
            ∙ byte
            ∙ rw zero refl,
        sym (
              same_word g.memory g2.memory (ring_start queue g) (
                apart2 (ring_start queue g) 2 (omega arith)
                ∙ ap (λ m. read_guest m (ring_start queue g) 2) kept))
            ∙ (rw num at before),
        rw num at index,
        λ a k off_status off_ring.
            complete-Apart queue head q.payload_len g2 h a k size2 completed (rw num off_ring)
            ∙ apart2 a k off_status
            ∙ ap (λ m. read_guest m a k) kept,
      )
