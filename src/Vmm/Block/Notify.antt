-- ===== src/Vmm/Block/Notify.antt =====
-- `process_queue` and the register writes of the device as a whole.
use litedroid.Base.{
  ℕ, ◌+◌, ◌*◌, ◌%◌, ◌^◌, ◌≤◌, ◌<◌, ◌≡◌, ◌≢◌, refl, ◌∙◌, ap, ok, err, panic, out_of_fuel, ◌==◌, not,
  ◌&&◌, arith, min, wrap32, leb, ne→==, from_le_bytes, from_le_bytes-lt, IsPlain-ends,
  IsPlain-ne-panic, if_split, >>=-eq-ok, false,
}
use litedroid.Base.Bits.{bit_and_mask}
use litedroid.Core.Error.{LiteDroidError, Result}
use litedroid.Memory.{GuestMemory, read_guest}
use litedroid.Memory.Copy.{bytes_at-IsBytes, length-bytes_at}
use litedroid.Memory.Access.{IsRegion, read_guest-eq-ok}
use litedroid.Storage.Image.{FileOps}
use litedroid.Vmm.GuestWord.{guest_u16}
use litedroid.Vmm.Block.Monad.{resume}
use litedroid.Vmm.Block.{
  VirtioBlock, Guest, process_loop, process_queue, register, read, write, log_error,
}
use litedroid.Vmm.Block.Steady.{guest_u16-IsPlain}
use litedroid.Vmm.Block.Queue.{Settled, settle, loop-empty}

pub guest_u16-lt :
    (m : GuestMemory) (addr v : ℕ) → IsRegion m → guest_u16 m addr ≡ ok v → v < 2 ^ 16
unfolding guest_u16
guest_u16-lt m addr v r h =
    let (bs, e, f) = >>=-eq-ok (read_guest m addr 2) (λ bytes. ok (from_le_bytes bytes)) h in
    let (fits, same) = read_guest-eq-ok m addr 2 bs e in
    let value : from_le_bytes bs ≡ v = ground arith in
    rw (← value, ← same)
      (rw (length-bytes_at m.bytes addr 2) at
        (from_le_bytes-lt _ (bytes_at-IsBytes m.bytes addr 2 r.holds)))

-- The values that the registers can hold.
pub record IsDevice {F : Type 0} (d : VirtioBlock F) : Type 0 where
  pub num : d.queue_num ≤ 128
  pub pfn : d.queue_pfn < 2 ^ 32
  pub status : d.status < 2 ^ 32
  pub avail : d.last_avail < 2 ^ 16

abbrev pub avail_index : {F : Type 0} → Guest F → Result ℕ
avail_index g = guest_u16 g.memory (g.device.queue_pfn * 4096 + 2)

module _ {F : Type 0} (ops : FileOps F) where
  pub queue_from :
      (g : Guest F) (r : Result ℕ)
      → avail_index g ≡ r
      → process_queue ops g ≡ resume (process_loop ops 65535 (g.device.queue_pfn * 4096)) (r, g)
  unfolding process_queue
  queue_from g r e = rw e

  -- In a mapped region of bytes, with `last_avail` a 16-bit number and an available index `a` that
  -- can be read, `process_queue` ends for every content of the memory. If it succeeds, `last_avail`
  -- has reached `a`; if a request fails, it has not. It does not panic on a queue that has entries.
  -- The other registers and the sizes of the memory and the disk stay as they were.
  pub process_queue_settles :
      (g : Guest F) (a : ℕ)
      → IsRegion g.memory
      → g.device.last_avail < 2 ^ 16
      → guest_u16 g.memory (g.device.queue_pfn * 4096 + 2) ≡ ok a
      → Settled ops (g.device.queue_pfn * 4096) a g (process_queue ops g)
  process_queue_settles g a r u e = rw (queue_from g (ok a) e) (
      settle ops (g.device.queue_pfn * 4096) a 65535 g u (guest_u16-lt g.memory _ a r e)
        (omega arith))

  -- What holds of a register write from `g`.
  pub record Accepted (g : Guest F) (out : Result (Unit {0}) × Guest F) : Type 0 where
    pub valid : IsDevice out.1.device
    pub capacity : out.1.device.disk.size ≡ g.device.disk.size
    pub extent : out.1.memory.size ≡ g.memory.size
    pub finished : out.0 ≢ out_of_fuel
    pub no_error : (e : LiteDroidError) → out.0 ≢ err e
    pub calm : g.device.queue_num ≢ 0 → out.0 ≢ panic

  logged :
      (g : Guest F) (r : Result (Unit {0})) (h : Guest F)
      → IsDevice h.device
      → h.device.disk.size ≡ g.device.disk.size
      → h.memory.size ≡ g.memory.size
      → r ≢ out_of_fuel
      → (g.device.queue_num ≢ 0 → r ≢ panic)
      → Accepted g (log_error (λ _. (r, h)) g)
  logged g r h d c x o p = record {
    valid = d;
    capacity = c;
    extent = x;
    finished = ended r o;
    no_error = λ e. silent r e;
    calm = λ n. quiet r (p n);
  }
    where
      ended :
          (r : Result (Unit {0})) → r ≢ out_of_fuel → (log_error (λ _. (r, h)) g).0 ≢ out_of_fuel
      ended (ok u) o e = cc
      ended (err x) o e = cc
      ended panic o e = cc
      ended out_of_fuel o e = o refl

      silent : (r : Result (Unit {0})) (e : LiteDroidError) → (log_error (λ _. (r, h)) g).0 ≢ err e
      silent (ok u) e x = cc
      silent (err y) e x = cc
      silent panic e x = cc
      silent out_of_fuel e x = cc

      quiet : (r : Result (Unit {0})) → r ≢ panic → (log_error (λ _. (r, h)) g).0 ≢ panic
      quiet (ok u) o e = cc
      quiet (err x) o e = cc
      quiet panic o e = o refl
      quiet out_of_fuel o e = cc

  pub set-Accepted :
      (g h : Guest F)
      → IsDevice h.device
      → h.device.disk.size ≡ g.device.disk.size
      → h.memory.size ≡ g.memory.size
      → Accepted g (ok tt, h)
  set-Accepted g h d c x = logged g (ok tt) h d c x (λ e. cc) (λ n e. cc)

  notify-Accepted :
      (g : Guest F) (r : Result ℕ)
      → IsRegion g.memory
      → IsDevice g.device
      → avail_index g ≡ r
      → Accepted g (log_error (process_queue ops) g)
  notify-Accepted g (ok a) m d e =
      let s = process_queue_settles g a m (d.avail) e in
      let h = (process_queue ops g).1 in
      logged g (process_queue ops g).0 h
        (record {
          num = rw (s.num) (d.num);
          pfn = rw (s.pfn) (d.pfn);
          status = rw (s.status) (d.status);
          avail = s.avail;
        })
        (s.capacity) (s.extent) (s.ends) (s.calm)
  notify-Accepted g (err x) m d e = rw (queue_from g (err x) e) (set-Accepted g g d refl refl)
  notify-Accepted g panic m d e = absurd (IsPlain-ne-panic _ (guest_u16-IsPlain g.memory _) e)
  notify-Accepted g out_of_fuel m d e = absurd (IsPlain-ends _ (guest_u16-IsPlain g.memory _) e)

  -- On a mapped region of bytes and registers in their ranges, a write to any register keeps the
  -- registers in their ranges and the memory and the disk at their sizes, ends, reports no error,
  -- and does not panic while the queue has entries.
  pub write-Accepted :
      (g : Guest F) (offset value : ℕ)
      → IsRegion g.memory
      → IsDevice g.device
      → Accepted g (write ops offset value g)
  unfolding write
  write-Accepted g offset value m d =
      if_split (Accepted g) (offset == 0x38) (λ _. set-Accepted g _ (omega arith) refl refl)
        λ _.
          if_split (Accepted g) (offset == 0x40) (λ _. set-Accepted g _ (omega arith) refl refl)
            λ _.
              if_split (Accepted g) (offset == 0x50)
                (λ _.
                  if_split (Accepted g) (value == 0 && not (g.device.queue_pfn == 0))
                    (λ _. notify-Accepted g _ m d refl) (λ _. set-Accepted g g d refl refl))
                λ _.
                  if_split (Accepted g) (offset == 0x60)
                    (λ _. set-Accepted g _ (omega arith) refl refl)
                    (λ _. set-Accepted g g d refl refl)

  -- With a queue of size 0, a queue page other than 0 and an available index that can be read and
  -- is not `last_avail`, a notification (0 to the register at 0x50) panics.
  pub notify-empty_queue :
      (g : Guest F) (a : ℕ)
      → g.device.queue_num ≡ 0
      → g.device.queue_pfn ≢ 0
      → guest_u16 g.memory (g.device.queue_pfn * 4096 + 2) ≡ ok a
      → g.device.last_avail ≢ a
      → (write ops 0x50 0 g).0 ≡ panic
  unfolding write
  notify-empty_queue g a z p e n = rw (ne→== _ _ p) (
      log_panic (process_queue ops g) (
        ap (λ (o : Result (Unit {0}) × Guest F). o.0) (queue_from g (ok a) e)
        ∙ loop-empty ops (g.device.queue_pfn * 4096) a 65534 g z n))
    where
      log_panic : (o : Result (Unit {0}) × Guest F) → o.0 ≡ panic → (log_error (λ _. o) g).0 ≡ panic
      log_panic o q = rw (q, log_error)

  -- A 32-bit value that the driver writes to the queue page or status register is what it reads
  -- back in four bytes; of a queue size it reads the low 16 bits, cut to at most 128.
  pub read-write :
      (g : Guest F) (value : ℕ)
      → value < 2 ^ 32
      → (read (write ops 0x38 value g).1.device 0x38 4 ≡ min (value % 2 ^ 16) 128)
        × (read (write ops 0x40 value g).1.device 0x40 4 ≡ value)
        × (read (write ops 0x60 value g).1.device 0x60 4 ≡ value)
  unfolding read write register
  read-write g value h = (
    bit_and_mask 32 (min (value % 2 ^ 16) 128) ∙ omega arith,
    bit_and_mask 32 (wrap32 value) ∙ omega arith,
    bit_and_mask 32 (wrap32 value) ∙ omega arith,
  )

-- A read of fewer than eight bytes returns the low bytes of the register, whatever the register.
pub read-mask :
    {F : Type 0} (d : VirtioBlock F) (offset size : ℕ)
    → size < 8
    → read d offset size ≡ register d offset % 2 ^ (size * 8)
unfolding read
read-mask d offset size h = rw (lt→leb size h) (bit_and_mask (size * 8) (register d offset))
  where
    lt→leb : (size : ℕ) → size < 8 → leb 8 size ≡ false
    lt→leb size h = ground arith
