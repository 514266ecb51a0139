-- ===== src/Vmm/Block/Steady.antt =====
-- What every step of a request leaves alone: the registers of the device and the extent of the
-- memory and the disk. It ends with a value or an error unless the queue has size 0.
use litedroid.Base.{
  ℕ, ◌+◌, ◌*◌, ◌%◌, ◌≡◌, ◌≢◌, refl, Bool, true, false, List, ok, err, panic, out_of_fuel, le_bytes,
  IsPlain, IsPlain->>=, IsPlain-ends, IsPlain-ne-panic, value, error, Bool-cases, if_split,
  Option-cases, ltb, ◌⊎◌, ==_iff, ◌==◌, if◌then◌else◌, inl, inr, arith, String,
}
use litedroid.Core.Error.{Result}
use litedroid.Memory.{GuestMemory, check_range, checked_add, read_guest, write_guest}
use litedroid.Storage.Image.{FileOps, RawDiskImage}
use litedroid.Storage.Image
use litedroid.Vmm.GuestWord.{guest_u16, guest_u32, guest_u64}
use litedroid.Vmm.Block.Monad.{M, ◌>>=◌, pure, look, resume}
use litedroid.Vmm.Block.Parse.{Request, parse_request, require}
use litedroid.Vmm.Block.{
  Guest, write_memory, write_disk, serve, complete, process_request, set_disk, publish, used_index,
  serve_next, read_sectors, write_sectors,
}

check_range-IsPlain {ℓ} :
    {A : Type ℓ} (m : GuestMemory) (addr n : ℕ) (a : A) → IsPlain (check_range m addr n a)
unfolding check_range
check_range-IsPlain m addr n a = elim (Option-cases (checked_add addr n)) [
  | inl none_e ↦ rw (none_e, check_range) (error _)
  | inr (end, e) ↦
      rw (e, check_range)
        (elim (Bool-cases (ltb m.size end)) [
          | inl far ↦ rw far (error _)
          | inr near ↦ rw near (value a)
        ])
]

pub guest_u16-IsPlain : (m : GuestMemory) (a : ℕ) → IsPlain (guest_u16 m a)
unfolding guest_u16 read_guest
guest_u16-IsPlain m a = IsPlain->>= _ _ (check_range-IsPlain m a 2 _) (λ bytes. value _)

guest_u32-IsPlain : (m : GuestMemory) (a : ℕ) → IsPlain (guest_u32 m a)
unfolding guest_u32 read_guest
guest_u32-IsPlain m a = IsPlain->>= _ _ (check_range-IsPlain m a 4 _) (λ bytes. value _)

guest_u64-IsPlain : (m : GuestMemory) (a : ℕ) → IsPlain (guest_u64 m a)
unfolding guest_u64 read_guest
guest_u64-IsPlain m a = IsPlain->>= _ _ (check_range-IsPlain m a 8 _) (λ bytes. value _)

require-IsPlain : (b : Bool) (s : String) → IsPlain (require b s)
require-IsPlain true s = value tt
require-IsPlain false s = error _

pub parse_request-IsPlain :
    (m : GuestMemory) (n queue head : ℕ) → IsPlain (parse_request m n queue head)
unfolding parse_request
parse_request-IsPlain m n queue head =
    search
      (IsPlain->>=, guest_u64-IsPlain, guest_u32-IsPlain, guest_u16-IsPlain, require-IsPlain, value)
      depth 20

read_guest-IsPlain : (m : GuestMemory) (addr n : ℕ) → IsPlain (read_guest m addr n)
unfolding read_guest
read_guest-IsPlain m addr n = check_range-IsPlain m addr n _

module _ {F : Type 0} where
  pub record SameRegs (g h : Guest F) : Type 0 where
    pub num : h.device.queue_num ≡ g.device.queue_num
    pub pfn : h.device.queue_pfn ≡ g.device.queue_pfn
    pub status : h.device.status ≡ g.device.status
    pub avail : h.device.last_avail ≡ g.device.last_avail
    pub capacity : h.device.disk.size ≡ g.device.disk.size
    pub extent : h.memory.size ≡ g.memory.size

  SameRegs-trans : (g h k : Guest F) → SameRegs g h → SameRegs h k → SameRegs g k
  SameRegs-trans g h k p q = ground arith

  pub record Steady {A : Type 0} (m : M (Guest F) A) : Type 0 where
    pub keeps : (g : Guest F) → SameRegs g (m g).1
    pub ends : (g : Guest F) → (m g).0 ≢ out_of_fuel
    pub calm : (g : Guest F) → g.device.queue_num ≢ 0 → (m g).0 ≢ panic

  look-Steady :
      {A : Type 0} (f : Guest F → Result A)
      → ((g : Guest F) → f g ≢ out_of_fuel)
      → ((g : Guest F) → g.device.queue_num ≢ 0 → f g ≢ panic)
      → Steady (look f)
  look-Steady f e c = record { keeps = λ g. ground arith; ends = e; calm = c }

  plain-Steady :
      {A : Type 0} (f : Guest F → Result A) → ((g : Guest F) → IsPlain (f g)) → Steady (look f)
  plain-Steady f p =
      look-Steady f (λ g. IsPlain-ends (f g) (p g)) (λ g h. IsPlain-ne-panic (f g) (p g))

  resume-keeps :
      {A B : Type 0} (f : A → M (Guest F) B) (t : (a : A) → Steady (f a)) (r : Result A)
      (g : Guest F)
      → SameRegs g (resume f (r, g)).1
  resume-keeps f t (ok a) g = (t a).keeps g
  resume-keeps f t (err e) g = ground arith
  resume-keeps f t panic g = ground arith
  resume-keeps f t out_of_fuel g = ground arith

  resume-ends :
      {A B : Type 0} (f : A → M (Guest F) B) (t : (a : A) → Steady (f a)) (r : Result A)
      (g : Guest F)
      → r ≢ out_of_fuel
      → (resume f (r, g)).0 ≢ out_of_fuel
  resume-ends f t (ok a) g h = (t a).ends g
  resume-ends f t (err x) g h = λ e. cc
  resume-ends f t panic g h = λ e. cc
  resume-ends f t out_of_fuel g h = absurd (h refl)

  resume-calm :
      {A B : Type 0} (f : A → M (Guest F) B) (t : (a : A) → Steady (f a)) (r : Result A)
      (g : Guest F)
      → r ≢ panic
      → g.device.queue_num ≢ 0
      → (resume f (r, g)).0 ≢ panic
  resume-calm f t (ok a) g h n = (t a).calm g n
  resume-calm f t (err x) g h n = λ e. cc
  resume-calm f t panic g h n = absurd (h refl)
  resume-calm f t out_of_fuel g h n = λ e. cc

  bind-Steady :
      {A B : Type 0} (m : M (Guest F) A) (f : A → M (Guest F) B)
      → Steady m
      → ((a : A) → Steady (f a))
      → Steady (m >>= f)
  bind-Steady m f s t = record {
    keeps = λ g. SameRegs-trans g (m g).1 _ (s.keeps g) (resume-keeps f t (m g).0 (m g).1);
    ends = λ g. resume-ends f t (m g).0 (m g).1 (s.ends g);
    calm = λ g n. resume-calm f t (m g).0 (m g).1 (s.calm g n) (rw ((s.keeps g).num) n);
  }

  write_memory-Steady : (addr : ℕ) (bytes : List ℕ) → Steady (write_memory {F = F} addr bytes)
  unfolding write_memory write_guest check_range checked_add
  write_memory-Steady addr bytes = record {
    keeps = λ g. ground arith;
    ends = λ g. ground arith;
    calm = λ g n. ground arith;
  }

  write_disk-Steady : (ops : FileOps F) (o : ℕ) (bs : List ℕ) → Steady (write_disk ops o bs)
  unfolding write_disk set_disk Image.write
  write_disk-Steady ops o bs = record {
    keeps = λ g. ground arith;
    ends = λ g. ground arith;
    calm = λ g n. ground arith;
  }

  read_disk-IsPlain :
      (ops : FileOps F) (d : RawDiskImage F) (o n : ℕ) → IsPlain (Image.read ops d o n)
  unfolding Image.read
  read_disk-IsPlain ops d o n = elim (Option-cases (ops.pread d.fd o n)) [
    | inl failed ↦ rw (failed, Image.read) (error _)
    | inr (bs, done) ↦ rw (done, Image.read) (value bs)
  ]

  pure-Steady : {A : Type 0} (a : A) → Steady (pure {S = Guest F} a)
  pure-Steady a = plain-Steady (λ g. ok a) (λ g. value a)

  read_sectors-Steady : (ops : FileOps F) (q : Request) → Steady (read_sectors ops q)
  unfolding read_sectors
  read_sectors-Steady ops q =
      bind-Steady _ _ (plain-Steady _ (λ g. require-IsPlain _ _)) λ writable.
        bind-Steady _ _ (plain-Steady _ (λ g. read_disk-IsPlain ops _ _ _))
          λ bytes. bind-Steady _ _ (write_memory-Steady _ _) λ done. pure-Steady 0

  write_sectors-Steady : (ops : FileOps F) (q : Request) → Steady (write_sectors ops q)
  unfolding write_sectors
  write_sectors-Steady ops q =
      bind-Steady _ _ (plain-Steady _ (λ g. require-IsPlain _ _)) λ readable.
        bind-Steady _ _ (plain-Steady _ (λ g. read_guest-IsPlain _ _ _))
          λ payload. bind-Steady _ _ (write_disk-Steady ops _ _) λ done. pure-Steady 0

  serve-Steady : (ops : FileOps F) (q : Request) → Steady (serve ops q)
  unfolding serve
  serve-Steady ops q =
      if_split Steady (q.request_type == 0) (λ _. read_sectors-Steady ops q)
        λ _.
          if_split Steady (q.request_type == 1) (λ _. write_sectors-Steady ops q)
            (λ _. pure-Steady 1)

  size_check-Steady :
      Steady
        (look (λ (g : Guest F). if g.device.queue_num == 0 then panic else ok g.device.queue_num))
  size_check-Steady = look-Steady _ (λ g. ground arith) (λ g n. ground arith)

  used_index-IsPlain : (queue : ℕ) (g : Guest F) → IsPlain (used_index queue g)
  unfolding used_index
  used_index-IsPlain queue g = guest_u16-IsPlain g.memory _

  publish-Steady : (u i s head len : ℕ) → Steady (publish {F = F} u i s head len)
  unfolding publish
  publish-Steady u i s head len =
      bind-Steady (write_memory (u + 4 + s * 8) (le_bytes 4 head)) _ (write_memory-Steady _ _)
        λ placed.
          bind-Steady (write_memory (u + 8 + s * 8) (le_bytes 4 len)) _ (write_memory-Steady _ _)
            λ measured. write_memory-Steady _ _

  complete-Steady : (queue head len : ℕ) → Steady (complete {F = F} queue head len)
  unfolding complete
  complete-Steady queue head len =
      bind-Steady (look (used_index queue)) _ (plain-Steady _ (used_index-IsPlain queue))
        λ used_idx. bind-Steady _ _ size_check-Steady λ n. publish-Steady _ _ _ _ _

  pub process_request-Steady :
      (ops : FileOps F) (queue head : ℕ) → Steady (process_request ops queue head)
  unfolding process_request
  process_request-Steady ops queue head =
      bind-Steady _ _ (plain-Steady _ (λ g. parse_request-IsPlain _ _ _ _)) λ q.
        bind-Steady _ _ (serve-Steady ops q)
          λ status. bind-Steady _ _ (write_memory-Steady _ _) λ stored. complete-Steady _ _ _

  abbrev next_head : ℕ → Guest F → Result ℕ
  next_head queue g =
      if g.device.queue_num == 0
      then panic
      else guest_u16 g.memory (queue + 4 + g.device.last_avail % g.device.queue_num * 2)

  next_head-cases :
      (queue : ℕ) (g : Guest F)
      → (g.device.queue_num ≡ 0) × (next_head queue g ≡ panic) ⊎ IsPlain (next_head queue g)
  next_head-cases queue g = elim (Bool-cases (g.device.queue_num == 0)) [
    | inl none_left ↦ inl ((==_iff _ 0).0 none_left, rw none_left)
    | inr some_left ↦ inr (rw some_left (guest_u16-IsPlain g.memory _))
  ]

  head-Steady : (queue : ℕ) → Steady (look (next_head queue))
  head-Steady queue = look-Steady _ ends calm
    where
      ends : (g : Guest F) → next_head queue g ≢ out_of_fuel
      ends g e = elim (next_head-cases queue g) [ inl (z, p) ↦ cc | inr w ↦ IsPlain-ends _ w e ]

      calm : (g : Guest F) → g.device.queue_num ≢ 0 → next_head queue g ≢ panic
      calm g n e = elim (next_head-cases queue g) [
        | inl (z, p) ↦ n z
        | inr w ↦ IsPlain-ne-panic _ w e
      ]

  pub serve_next-Steady : (ops : FileOps F) (queue : ℕ) → Steady (serve_next ops queue)
  unfolding serve_next
  serve_next-Steady ops queue =
      bind-Steady _ _ (head-Steady queue) λ head. process_request-Steady ops queue head
