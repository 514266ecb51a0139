-- ===== src/Vmm/Block/Used.antt =====
-- The used ring: where it lies, and what a completed request adds to it.
use litedroid.Base.{
  ℕ, ◌+◌, ◌-◌, ◌*◌, ◌%◌, ◌^◌, ◌≤◌, ◌<◌, ◌≡◌, ◌≢◌, ◌⊎◌, ap, ◌∙◌, inl, inr, ok, arith, List, wrap64,
  wrap16, le_bytes, length-le_bytes, from_le_bytes-le_bytes,
}
use litedroid.Base.Bits.{bit_and_high}
use litedroid.Memory.{GuestMemory, read_guest, write_guest}
use litedroid.Memory.Access.{read_guest-write_guest}
use litedroid.Core.Error.{Result}
use litedroid.Vmm.Block.Transfer.{bind-eq-ok, write_memory-eq-ok}
use litedroid.Vmm.GuestWord.{guest_u16, guest_u32, align_up}
use litedroid.Vmm.Block.Monad.{◌>>◌}
use litedroid.Vmm.Block.{Guest, write_memory, publish, complete, used_ring, used_index}

-- Rounding a value up to a page gives a multiple of 4096 that is not below the value and less than
-- 4096 above it, when the sum does not overflow 64 bits.
pub align_up_page :
    (v : ℕ)
    → v + 4095 < 2 ^ 64
    → (v ≤ align_up v 4096) × (align_up v 4096 < v + 4096) × (align_up v 4096 % 4096 ≡ 0)
unfolding align_up
align_up_page v h =
    rw (bit_and_high 52 12 (wrap64 (v + 4096 - 1))) (omega arith, omega arith, omega arith)

word_back :
    (k v : ℕ) (m n : GuestMemory) (addr : ℕ)
    → m.size < 2 ^ 64
    → write_guest m addr (le_bytes k v) ≡ ok n
    → read_guest n addr k ≡ ok (le_bytes k v)
word_back k v m n addr s w =
    rw (length-le_bytes k v) at (read_guest-write_guest m n addr (le_bytes k v) s w).0

pub word_apart :
    (k v : ℕ) (m n : GuestMemory) (addr a l : ℕ)
    → m.size < 2 ^ 64
    → write_guest m addr (le_bytes k v) ≡ ok n
    → (a + l ≤ addr) ⊎ (addr + k ≤ a)
    → read_guest n a l ≡ read_guest m a l
word_apart k v m n addr a l s w d =
    let (_, apart, _, _) = read_guest-write_guest m n addr (le_bytes k v) s w in
    apart a l (rw (length-le_bytes k v) d)

pub word_size :
    (k v : ℕ) (m n : GuestMemory) (addr : ℕ)
    → m.size < 2 ^ 64
    → write_guest m addr (le_bytes k v) ≡ ok n
    → n.size < 2 ^ 64
word_size k v m n addr s w =
    let (_, _, size, _) = read_guest-write_guest m n addr (le_bytes k v) s w in rw size s

-- The three writes of a completion, at places that do not overlap.
entry_written :
    (m n o h : GuestMemory) (u j head len idx : ℕ)
    → m.size < 2 ^ 64
    → head < 2 ^ 32
    → len < 2 ^ 32
    → idx < 2 ^ 16
    → write_guest m (u + 4 + j * 8) (le_bytes 4 head) ≡ ok n
    → write_guest n (u + 8 + j * 8) (le_bytes 4 len) ≡ ok o
    → write_guest o (u + 2) (le_bytes 2 idx) ≡ ok h
    → (guest_u16 h (u + 2) ≡ ok idx)
      × (guest_u32 h (u + 4 + j * 8) ≡ ok head)
      × (guest_u32 h (u + 8 + j * 8) ≡ ok len)
unfolding guest_u16 guest_u32
entry_written m n o h u j head len idx s b c i w1 w2 w3 =
    let s2 = word_size 4 head m n _ s w1 in
    let s3 = word_size 4 len n o _ s2 w2 in
    let id =
      word_apart 2 idx o h (u + 2) (u + 4 + j * 8) 4 s3 w3 (inr (omega arith))
      ∙ word_apart 4 len n o (u + 8 + j * 8) (u + 4 + j * 8) 4 s2 w2 (inl (omega arith))
      ∙ word_back 4 head m n (u + 4 + j * 8) s w1 in
    let measure =
      word_apart 2 idx o h (u + 2) (u + 8 + j * 8) 4 s3 w3 (inr (omega arith))
      ∙ word_back 4 len n o (u + 8 + j * 8) s2 w2 in
    (
      rw (word_back 2 idx o h (u + 2) s3 w3) (ap ok (from_le_bytes-le_bytes 2 idx i)),
      rw id (ap ok (from_le_bytes-le_bytes 4 head b)),
      rw measure (ap ok (from_le_bytes-le_bytes 4 len c)),
    )

module _ {F : Type 0} where
  store-eq-ok :
      (addr : ℕ) (bytes : List ℕ) (g : Guest F)
      → (write_memory addr bytes g).0 ≡ ok tt
      → (write_guest g.memory addr bytes ≡ ok ((write_memory addr bytes g).1).memory)
        × (((write_memory addr bytes g).1).device ≡ g.device)
  store-eq-ok addr bytes g e =
      write_memory-eq-ok addr bytes g (write_memory addr bytes g).1
        (ap (λ (r : Result (Unit {0})). (r, (write_memory addr bytes g).1)) e)

  pub publish-eq-ok :
      (u i s head len : ℕ) (g h : Guest F)
      → publish u i s head len g ≡ (ok tt, h)
      → (m : GuestMemory) × (n : GuestMemory) × (write_guest g.memory
            (u + 4 + s * 8)
            (le_bytes 4 head)
          ≡ ok m)
        × (write_guest m (u + 8 + s * 8) (le_bytes 4 len) ≡ ok n)
        × (write_guest n (u + 2) (le_bytes 2 (wrap16 (i + 1))) ≡ ok h.memory)
        × (h.device ≡ g.device)
  unfolding publish
  publish-eq-ok u i s head len g h e =
      let first = write_memory {F = F} (u + 4 + s * 8) (le_bytes 4 head) in
      let second = write_memory {F = F} (u + 8 + s * 8) (le_bytes 4 len) in
      let third = write_memory {F = F} (u + 2) (le_bytes 2 (wrap16 (i + 1))) in
      let (_, e1, rest) = bind-eq-ok (λ _. second >> third) first g tt h e in
      let (_, e2, e3) = bind-eq-ok (λ _. third) second (first g).1 tt h rest in
      let (w1, d1) = store-eq-ok _ _ g e1 in
      let (w2, d2) = store-eq-ok _ _ (first g).1 e2 in
      let (w3, d3) = write_memory-eq-ok _ _ (second (first g).1).1 h e3 in
      ((first g).1.memory, (second (first g).1).1.memory, w1, w2, w3, d3 ∙ d2 ∙ d1)

  pub complete-eq-ok :
      (queue head len : ℕ) (g h : Guest F)
      → complete queue head len g ≡ (ok tt, h)
      → (i : ℕ) × (used_index queue g ≡ ok i)
        × (g.device.queue_num ≢ 0)
        × (publish (used_ring g.device.queue_num queue) i (i % g.device.queue_num) head len g
            ≡ (ok tt, h))
  unfolding complete
  complete-eq-ok queue head len g h e = ground arith

  -- In a mapped region, for a head and a length of 32 bits, a completion that succeeds could read
  -- the used index `i`; it raises the index by one modulo 2 ^ 16, the entry at `i` modulo the queue
  -- size holds the head of the chain and the length of the payload, and the device is as it was.
  pub complete_publishes :
      (queue head len : ℕ) (g h : Guest F)
      → g.memory.size < 2 ^ 64
      → head < 2 ^ 32
      → len < 2 ^ 32
      → complete queue head len g ≡ (ok tt, h)
      → (i : ℕ) × (guest_u16 g.memory (used_ring g.device.queue_num queue + 2) ≡ ok i)
        × (guest_u16 h.memory (used_ring g.device.queue_num queue + 2) ≡ ok ((i + 1) % 2 ^ 16))
        × (guest_u32 h.memory (used_ring g.device.queue_num queue + 4 + i % g.device.queue_num * 8)
            ≡ ok head)
        × (guest_u32 h.memory (used_ring g.device.queue_num queue + 8 + i % g.device.queue_num * 8)
            ≡ ok len)
        × (h.device ≡ g.device)
  unfolding used_index
  complete_publishes queue head len g h s b c e =
      let (i, idx, nz, p) = complete-eq-ok queue head len g h e in
      let u = used_ring g.device.queue_num queue in
      let j = i % g.device.queue_num in
      let (m, n, w1, w2, w3, d) = publish-eq-ok u i j head len g h p in
      let (index, id, measure) =
        entry_written g.memory m n h.memory u j head len _ s b c (omega arith) w1 w2 w3 in
      (i, idx, index, id, measure, d)
