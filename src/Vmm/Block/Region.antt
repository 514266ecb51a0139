-- ===== src/Vmm/Block/Region.antt =====
-- The device writes only bytes into the guest's memory: from a mapped region of bytes, every call
-- leaves one, if `pread` gives bytes.
use litedroid.Base.{
  ℕ, zero, suc, ◌*◌, ◌+◌, ◌≡◌, refl, subst, Option-cases, some, List, [], ◌∷◌, ok, err, panic,
  out_of_fuel, ◌==◌, if◌then◌else◌, le_bytes-IsBytes, wrap64, IsBytes, IsByte, if_split, inl, inr,
  arith, not, ◌&&◌,
}
use litedroid.Core.Error.{Result}
use litedroid.Memory.{GuestMemory, write_guest, read_guest}
use litedroid.Memory.Access.{IsRegion, write_guest-IsRegion}
use litedroid.Storage.Image.{FileOps, RawDiskImage}
use litedroid.Storage.Image
use litedroid.Vmm.GuestWord.{guest_u16}
use litedroid.Vmm.Block.Monad.{M, ◌>>=◌, pure, look, resume}
use litedroid.Vmm.Block.Parse.{Request, parse_request}
use litedroid.Vmm.Block.{
  Guest, stored, write_memory, write_disk, set_disk, serve, read_sectors, write_sectors, complete,
  publish, process_request, serve_next, used_index, advance, process_next, process_loop,
  process_queue, write,
}

-- `pread` gives bytes.
abbrev pub ReadsBytes : {F : Type 0} → FileOps F → Type 0
ReadsBytes {F} ops =
    (fd : F) (offset len : ℕ) (bs : List ℕ) → ops.pread fd offset len ≡ some bs → IsBytes bs

abbrev Anything : {A : Type 0} → A → Type 0
Anything a = Unit {0}

module _ {F : Type 0} where
  abbrev pub IsMapped : Guest F → Type 0
  IsMapped g = IsRegion g.memory

  -- From a mapped region the call leaves one, and if it succeeds, its value is in `R`.
  record Yields {A : Type 0} (R : A → Type 0) (m : M (Guest F) A) : Type 0 where
    leaves : (g : Guest F) → IsMapped g → IsMapped (m g).1
    value : (g : Guest F) (a : A) → IsMapped g → (m g).0 ≡ ok a → R a

  look-Yields :
      {A : Type 0} (R : A → Type 0) (f : Guest F → Result A)
      → ((g : Guest F) (a : A) → f g ≡ ok a → R a)
      → Yields R (look f)
  look-Yields R f h = record { leaves = λ g m. m; value = λ g a m e. h g a e }

  sees : {A : Type 0} (f : Guest F → Result A) → Yields Anything (look f)
  sees f = look-Yields Anything f (λ g a e. tt)

  pure-Yields : {A : Type 0} (R : A → Type 0) (a : A) → R a → Yields R (pure a)
  pure-Yields R a h = record { leaves = λ g m. m; value = λ g b m e. subst R (ok_path a b e) h }
    where
      ok_path : {A : Type 0} (a b : A) → ◌≡◌ {A = Result A} (ok a) (ok b) → a ≡ b
      ok_path a b e = cc

  module _ {A B : Type 0} (R : A → Type 0) (Q : B → Type 0) (f : A → M (Guest F) B)
      (next : (a : A) → R a → Yields Q (f a)) where
    resume-leaves :
        (r : Result A) (g : Guest F)
        → ((a : A) → r ≡ ok a → R a)
        → IsMapped g
        → IsMapped (resume f (r, g)).1
    resume-leaves (ok a) g h m = (next a (h a refl)).leaves g m
    resume-leaves (err e) g h m = m
    resume-leaves panic g h m = m
    resume-leaves out_of_fuel g h m = m

    resume-value :
        (r : Result A) (g : Guest F) (b : B)
        → ((a : A) → r ≡ ok a → R a)
        → IsMapped g
        → (resume f (r, g)).0 ≡ ok b
        → Q b
    resume-value (ok a) g b h m e = (next a (h a refl)).value g b m e
    resume-value (err x) g b h m e = cc
    resume-value panic g b h m e = cc
    resume-value out_of_fuel g b h m e = cc

  bind-Yields :
      {A B : Type 0} {R : A → Type 0} {Q : B → Type 0} (m : M (Guest F) A) (f : A → M (Guest F) B)
      → Yields R m
      → ((a : A) → R a → Yields Q (f a))
      → Yields Q (m >>= f)
  bind-Yields {R} {Q} m f y next = record {
    leaves = λ g h. resume-leaves R Q f next (m g).0 (m g).1 (λ a. y.value g a h) (y.leaves g h);
    value = λ g b h. resume-value R Q f next (m g).0 (m g).1 b (λ a. y.value g a h) (y.leaves g h);
  }

  stored-IsMapped :
      (g : Guest F) (addr : ℕ) (bs : List ℕ) (r : Result GuestMemory)
      → IsBytes bs
      → IsMapped g
      → write_guest g.memory addr bs ≡ r
      → IsMapped (stored g r).1
  stored-IsMapped g addr bs (ok m) k h e = write_guest-IsRegion g.memory m addr bs h k e
  stored-IsMapped g addr bs (err x) k h e = h
  stored-IsMapped g addr bs panic k h e = h
  stored-IsMapped g addr bs out_of_fuel k h e = h

  write_memory-Yields :
      (addr : ℕ) (bs : List ℕ) → IsBytes bs → Yields Anything (write_memory {F = F} addr bs)
  unfolding write_memory
  write_memory-Yields addr bs k = record {
    leaves = λ g h. stored-IsMapped g addr bs _ k h refl;
    value = λ g a h e. tt;
  }

  write_disk-Yields :
      (ops : FileOps F) (offset : ℕ) (bs : List ℕ) → Yields Anything (write_disk ops offset bs)
  unfolding write_disk set_disk
  write_disk-Yields ops offset bs = record { leaves = λ g h. h; value = λ g a h e. tt }

  module _ (ops : FileOps F) (bytes_read : ReadsBytes ops) where
    read_disk-IsBytes :
        (d : RawDiskImage F) (offset len : ℕ) (bs : List ℕ)
        → Image.read ops d offset len ≡ ok bs
        → IsBytes bs
    unfolding Image.read
    read_disk-IsBytes d offset len bs e = elim (Option-cases (ops.pread d.fd offset len)) [
      | inl failed ↦ ground arith
      | inr (got, done) ↦ subst IsBytes (ground arith) (bytes_read d.fd offset len got done)
    ]

    disk_read-Yields :
        (f g : Guest F → ℕ) → Yields IsBytes (look (λ x. Image.read ops x.device.disk (f x) (g x)))
    disk_read-Yields f g =
        look-Yields IsBytes _ (λ x bs. read_disk-IsBytes x.device.disk (f x) (g x) bs)

    read_sectors-Yields : (q : Request) → Yields IsByte (read_sectors ops q)
    unfolding read_sectors
    read_sectors-Yields q = bind-Yields {A = Unit {0}} _ _ (sees _) λ _ _.
        bind-Yields _ _ (disk_read-Yields (λ x. wrap64 (q.sector * 512)) (λ x. q.payload_len))
          λ bytes k.
            bind-Yields _ _ (write_memory-Yields q.payload_addr bytes k)
              λ _ _. pure-Yields IsByte 0 (omega arith)

    write_sectors-Yields : (q : Request) → Yields IsByte (write_sectors ops q)
    unfolding write_sectors
    write_sectors-Yields q = bind-Yields {A = Unit {0}} _ _ (sees _) λ _ _.
        bind-Yields _ _ (sees (λ g. read_guest g.memory q.payload_addr q.payload_len)) λ payload _.
          bind-Yields _ _ (write_disk-Yields ops (wrap64 (q.sector * 512)) payload)
            λ _ _. pure-Yields IsByte 0 (omega arith)

    serve-Yields : (q : Request) → Yields IsByte (serve ops q)
    unfolding serve
    serve-Yields q =
        if_split (Yields IsByte) (q.request_type == 0) (λ _. read_sectors-Yields q)
          λ _.
            if_split (Yields IsByte) (q.request_type == 1) (λ _. write_sectors-Yields q)
              (λ _. pure-Yields IsByte 1 (omega arith))

    publish-Yields : (u i s head len : ℕ) → Yields Anything (publish {F = F} u i s head len)
    unfolding publish
    publish-Yields u i s head len =
        bind-Yields _ _ (write_memory-Yields _ _ (le_bytes-IsBytes 4 head)) λ _ _.
          bind-Yields _ _ (write_memory-Yields _ _ (le_bytes-IsBytes 4 len))
            λ _ _. write_memory-Yields _ _ (le_bytes-IsBytes 2 _)

    complete-Yields : (queue head len : ℕ) → Yields Anything (complete {F = F} queue head len)
    unfolding complete
    complete-Yields queue head len = bind-Yields _ _ (sees (used_index queue)) λ used_idx _.
        bind-Yields _ _
          (sees (λ (g : Guest F). if g.device.queue_num == 0 then panic else ok g.device.queue_num))
          λ n _. publish-Yields _ _ _ head len

    process_request-Yields : (queue head : ℕ) → Yields Anything (process_request ops queue head)
    unfolding process_request
    process_request-Yields queue head =
        bind-Yields _ _ (sees (λ g. parse_request g.memory g.device.queue_num queue head)) λ q _.
          bind-Yields _ _ (serve-Yields q) λ status k.
            bind-Yields _ _ (write_memory-Yields q.status_addr (status ∷ []) (k, tt))
              λ _ _. complete-Yields queue head q.payload_len

    advance-Yields : Yields Anything (advance {F = F})
    unfolding advance
    advance-Yields = record { leaves = λ g h. h; value = λ g a h e. tt }

    process_next-Yields : (queue : ℕ) → Yields Anything (process_next ops queue)
    unfolding process_next serve_next
    process_next-Yields queue =
        bind-Yields _ _
          (bind-Yields {A = ℕ} _ _ (sees _) λ head _. process_request-Yields queue head)
          (λ _ _. advance-Yields)

    mapped_only :
        {A : Type 0} (m : M (Guest F) A)
        → ((g : Guest F) → IsMapped g → IsMapped (m g).1)
        → Yields Anything m
    mapped_only m h = record { leaves = h; value = λ g a h e. tt }

    abbrev Leaves : Result (Unit {0}) × Guest F → Type 0
    Leaves (r, g) = IsMapped g

    process_loop-IsMapped :
        (fuel queue avail : ℕ) (g : Guest F)
        → IsMapped g
        → Leaves (process_loop ops fuel queue avail g)
    unfolding process_loop
    process_loop-IsMapped zero queue avail g h =
        if_split Leaves (g.device.last_avail == avail) (λ _. h) (λ _. h)
    process_loop-IsMapped (suc fuel) queue avail g h =
        if_split Leaves (g.device.last_avail == avail) (λ _. h)
          (λ _.
            (bind-Yields _ _ (process_next-Yields queue)
                (λ _ _. mapped_only _ (process_loop-IsMapped fuel queue avail))).leaves
              g h)

    process_queue-IsMapped : (g : Guest F) → IsMapped g → Leaves (process_queue ops g)
    unfolding process_queue
    process_queue-IsMapped g =
        (bind-Yields _ _ (sees (λ g. guest_u16 g.memory (g.device.queue_pfn * 4096 + 2)))
            (λ avail _.
              mapped_only _ (process_loop-IsMapped 65535 (g.device.queue_pfn * 4096) avail))).leaves
          g

    -- A write to any register leaves a mapped region of bytes one.
    pub write-IsMapped :
        (g : Guest F) (offset value : ℕ) → IsMapped g → Leaves (write ops offset value g)
    unfolding write
    write-IsMapped g offset value h =
        if_split Leaves (offset == 0x38) (λ _. h)
          λ _.
            if_split Leaves (offset == 0x40) (λ _. h)
              λ _.
                if_split Leaves (offset == 0x50)
                  (λ _.
                    if_split Leaves (value == 0 && not (g.device.queue_pfn == 0))
                      (λ _. process_queue-IsMapped g h) (λ _. h))
                  (λ _. if_split Leaves (offset == 0x60) (λ _. h) (λ _. h))
