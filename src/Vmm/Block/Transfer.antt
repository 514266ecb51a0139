-- ===== src/Vmm/Block/Transfer.antt =====
-- What a served request moves between the disk and the guest, and what it leaves alone.
use litedroid.Base.{
  ℕ, ◌+◌, ◌*◌, ◌^◌, ◌≤◌, ◌<◌, ◌≡◌, ◌≢◌, refl, some, List, length, ok, err, panic, out_of_fuel, Bool,
  true, false, ◌⊎◌, arith, wrap64, bit_and, String,
}
use litedroid.Core.Error.{Result}
use litedroid.Memory.{GuestMemory, read_guest, write_guest}
use litedroid.Memory.Access.{read_guest-write_guest}
use litedroid.Storage.Image.{FileOps, RawDiskImage}
use litedroid.Storage.Image
use litedroid.Vmm.Block.Monad.{M, ◌>>=◌, resume}
use litedroid.Vmm.Block.Parse.{Request, require, desc_write}
use litedroid.Vmm.Block.{
  Guest, write_memory, stored, write_disk, set_disk, serve, read_sectors, write_sectors,
}

module _ {S A B : Type 0} (f : A → M S B) where
  resume-eq-ok :
      (r : Result A) (s : S) (b : B) (t : S)
      → resume f (r, s) ≡ (ok b, t)
      → (a : A) × (r ≡ ok a) × (f a s ≡ (ok b, t))
  resume-eq-ok (ok a) s b t h = (a, refl, h)
  resume-eq-ok (err e) s b t h = cc
  resume-eq-ok panic s b t h = cc
  resume-eq-ok out_of_fuel s b t h = cc

  -- Inversion of a successful bind.
  pub bind-eq-ok :
      (m : M S A) (s : S) (b : B) (t : S)
      → (m >>= f) s ≡ (ok b, t)
      → (a : A) × ((m s).0 ≡ ok a) × (f a (m s).1 ≡ (ok b, t))
  bind-eq-ok m s b t h = resume-eq-ok (m s).0 (m s).1 b t h

require-eq-ok : (b : Bool) (s : String) → require b s ≡ ok tt → b ≡ true
require-eq-ok true s e = refl
require-eq-ok false s e = cc

module _ {F : Type 0} where
  stored-eq-ok :
      (g : Guest F) (r : Result GuestMemory) (h : Guest F)
      → stored g r ≡ (ok tt, h)
      → (r ≡ ok h.memory) × (h.device ≡ g.device)
  stored-eq-ok g (ok m) h e = (ground arith, ground arith)
  stored-eq-ok g (err x) h e = cc
  stored-eq-ok g panic h e = cc
  stored-eq-ok g out_of_fuel h e = cc

  pub write_memory-eq-ok :
      (addr : ℕ) (bytes : List ℕ) (g h : Guest F)
      → write_memory addr bytes g ≡ (ok tt, h)
      → (write_guest g.memory addr bytes ≡ ok h.memory) × (h.device ≡ g.device)
  unfolding write_memory
  write_memory-eq-ok addr bytes g h e = stored-eq-ok g _ h e

  serve-reads :
      (ops : FileOps F) (q : Request) → q.request_type ≡ 0 → serve ops q ≡ read_sectors ops q
  unfolding serve
  serve-reads ops q z = rw z

  serve-writes :
      (ops : FileOps F) (q : Request) → q.request_type ≡ 1 → serve ops q ≡ write_sectors ops q
  unfolding serve
  serve-writes ops q z = rw z

  read_image-eq-ok :
      (ops : FileOps F) (d : RawDiskImage F) (o n : ℕ) (bs : List ℕ)
      → Image.read ops d o n ≡ ok bs
      → ops.pread d.fd o n ≡ some bs
  unfolding Image.read
  read_image-eq-ok ops d o n bs e = ground arith

  read_sectors-eq-ok :
      (ops : FileOps F) (q : Request) (g h : Guest F) (status : ℕ)
      → read_sectors ops q g ≡ (ok status, h)
      → (bytes : List ℕ) × (Image.read ops g.device.disk (wrap64 (q.sector * 512)) q.payload_len
          ≡ ok bytes)
        × (write_guest g.memory q.payload_addr bytes ≡ ok h.memory)
        × (h.device ≡ g.device)
        × (status ≡ 0)
        × (bit_and q.payload_flags desc_write ≢ 0)
  unfolding read_sectors write_memory
  read_sectors-eq-ok ops q g h status e = ground arith

  -- In a mapped region, a read request that is served was marked writable; the bytes that the
  -- host's `pread` gave at the sector's offset stand at the payload address, ranges apart from them
  -- read as before, the device is as it was, and the status is 0.
  pub serve_read :
      (ops : FileOps F) (q : Request) (g h : Guest F) (status : ℕ)
      → g.memory.size < 2 ^ 64
      → q.request_type ≡ 0
      → serve ops q g ≡ (ok status, h)
      → (bytes : List ℕ) × (ops.pread g.device.disk.fd (wrap64 (q.sector * 512)) q.payload_len
          ≡ some bytes)
        × (read_guest h.memory q.payload_addr (length bytes) ≡ ok bytes)
        × ((a n : ℕ)
            → (a + n ≤ q.payload_addr) ⊎ (q.payload_addr + length bytes ≤ a)
            → read_guest h.memory a n ≡ read_guest g.memory a n)
        × (h.device ≡ g.device)
        × (status ≡ 0)
        × (bit_and q.payload_flags desc_write ≢ 0)
  serve_read ops q g h status s z e =
      let (bytes, r, w, d, k, x) =
        read_sectors-eq-ok ops q g h status (rw (serve-reads ops q z) at e) in
      let (back, apart, _, _) = read_guest-write_guest g.memory h.memory q.payload_addr bytes s w in
      (bytes, read_image-eq-ok ops _ _ _ bytes r, back, apart, d, k, x)

  -- The region stays the size it was.
  pub serve_read_size :
      (ops : FileOps F) (q : Request) (g h : Guest F) (status : ℕ)
      → g.memory.size < 2 ^ 64
      → q.request_type ≡ 0
      → serve ops q g ≡ (ok status, h)
      → h.memory.size ≡ g.memory.size
  serve_read_size ops q g h status s z e =
      let (bytes, _, w, _, _, _) =
        read_sectors-eq-ok ops q g h status (rw (serve-reads ops q z) at e) in
      let (_, _, same, _) = read_guest-write_guest g.memory h.memory q.payload_addr bytes s w in
      same

  write_sectors-eq-ok :
      (ops : FileOps F) (q : Request) (g h : Guest F) (status : ℕ)
      → write_sectors ops q g ≡ (ok status, h)
      → (payload : List ℕ) × (read_guest g.memory q.payload_addr q.payload_len ≡ ok payload)
        × ((write_disk ops (wrap64 (q.sector * 512)) payload g).1 ≡ h)
        × ((n : ℕ) × ((write_disk ops (wrap64 (q.sector * 512)) payload g).0 ≡ ok n))
        × (status ≡ 0)
        × (bit_and q.payload_flags desc_write ≡ 0)
  unfolding write_sectors
  write_sectors-eq-ok ops q g h status e = ground arith

  write_disk-eq-ok :
      (ops : FileOps F) (o : ℕ) (bs : List ℕ) (g h : Guest F) (n : ℕ)
      → (write_disk ops o bs g).1 ≡ h
      → (write_disk ops o bs g).0 ≡ ok n
      → (h.memory ≡ g.memory)
        × (h.device.disk.fd ≡ (ops.pwrite g.device.disk.fd o bs).1)
        × ((ops.pwrite g.device.disk.fd o bs).0 ≡ some n)
        × (h.device.queue_num ≡ g.device.queue_num)
  unfolding write_disk set_disk Image.write
  write_disk-eq-ok ops o bs g h n e k = ground arith

  -- A write request that is served was marked readable; the host's `pwrite` was given, at the
  -- sector's offset, the payload that stands in the guest's memory, and succeeded; the file is what
  -- it made of it, the memory and the size of the queue are as they were, and the status is 0.
  pub serve_write :
      (ops : FileOps F) (q : Request) (g h : Guest F) (status : ℕ)
      → q.request_type ≡ 1
      → serve ops q g ≡ (ok status, h)
      → (payload : List ℕ) × (n : ℕ) × (read_guest g.memory q.payload_addr q.payload_len
          ≡ ok payload)
        × ((ops.pwrite g.device.disk.fd (wrap64 (q.sector * 512)) payload).0 ≡ some n)
        × (h.device.disk.fd ≡ (ops.pwrite g.device.disk.fd (wrap64 (q.sector * 512)) payload).1)
        × (h.memory ≡ g.memory)
        × (status ≡ 0)
        × (bit_and q.payload_flags desc_write ≡ 0)
        × (h.device.queue_num ≡ g.device.queue_num)
  serve_write ops q g h status z e =
      let (payload, r, w, (n, k), t, f) =
        write_sectors-eq-ok ops q g h status (rw (serve-writes ops q z) at e) in
      let (m, d, p, same) = write_disk-eq-ok ops _ payload g h n w k in
      (payload, n, r, p, d, m, t, f, same)
