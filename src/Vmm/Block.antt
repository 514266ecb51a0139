-- ===== src/Vmm/Block.antt =====
-- crates/vmm/src/lib.rs: `VirtioBlock`, the block device that the run loop drives, with its queue in
-- guest memory. Logging is left out. Arithmetic is that of the release profile.
pub mod Monad
pub mod Parse
pub mod Steady
pub mod Queue
pub mod Notify
pub mod Transfer
pub mod Used
pub mod Legacy
pub mod Region
pub mod Served
mod Tests
use litedroid.Base.{
  ℕ, zero, suc, ◌+◌, ◌-◌, ◌*◌, ◌/◌, ◌%◌, ◌^◌, bit_and, min, String, Bool, true, false, not, ◌&&◌,
  ◌||◌, List, [], ◌∷◌, length, take, ok, err, panic, out_of_fuel, leb, ◌==◌, if◌then◌else◌, wrap16,
  wrap32, wrap64, le_bytes,
}
use litedroid.Core.Error.{Result, disk_io}
use litedroid.Memory.{GuestMemory, read_guest, write_guest}
use litedroid.Storage.Image.{FileOps, RawDiskImage, sectors}
use litedroid.Storage.Image
use litedroid.Vmm.GuestWord.{guest_u16, align_up}
use Parse.{Request, parse_request, require, desc_write}
use Monad.{M, ◌>>=◌, ◌>>◌, pure, look}

pub record VirtioBlock (F : Type 0) : Type 0 where
  pub disk : RawDiskImage F
  pub queue_num : ℕ
  pub queue_pfn : ℕ
  pub status : ℕ
  pub last_avail : ℕ

unfoldable pub new : {F : Type 0} → FileOps F → (path : String) → Result (VirtioBlock F)
new ops path = elim (Image.open_image ops path) [
  | ok disk ↦
      ok (record { disk = disk; queue_num = 128; queue_pfn = 0; status = 0; last_avail = 0 })
  | err e ↦ err e
  | panic ↦ panic
  | out_of_fuel ↦ out_of_fuel
]

-- The device and the guest memory that its methods are given.
pub record Guest (F : Type 0) : Type 0 where
  pub device : VirtioBlock F
  pub memory : GuestMemory

unfoldable pub register : {F : Type 0} → VirtioBlock F → ℕ → ℕ
unfolding sectors
register d offset =
    if offset == 0x00
    then 0x7472_6976
    else if offset == 0x04
    then 2
    else if offset == 0x08
    then 2
    else if offset == 0x0c
    then 0
    else if offset == 0x10
    then 0
    else if offset == 0x34
    then d.queue_num
    else if offset == 0x38
    then d.queue_num
    else if offset == 0x3c
    then 4096
    else if offset == 0x40
    then d.queue_pfn
    else if offset == 0x60
    then d.status
    else if offset == 0x64
    then 0
    else if offset == 0x100
    then sectors d.disk
    else 0

unfoldable pub read : {F : Type 0} → VirtioBlock F → (offset size : ℕ) → ℕ
unfolding register
read d offset size =
    if leb 8 size then register d offset else bit_and (register d offset) (2 ^ (size * 8) - 1)

-- Where the code looks for the used ring.
unfoldable pub used_ring : (queue_num queue : ℕ) → ℕ
unfolding align_up
used_ring queue_num queue = align_up (queue + 16 * queue_num + 4 + 2 * queue_num) 4096

module _ {F : Type 0} where
  abbrev pub stored : Guest F → Result GuestMemory → Result (Unit {0}) × Guest F
  stored g (ok memory') = (ok tt, record g { memory = memory' })
  stored g (err e) = (err e, g)
  stored g panic = (panic, g)
  stored g out_of_fuel = (out_of_fuel, g)

  unfoldable pub write_memory : ℕ → List ℕ → M (Guest F) (Unit {0})
  write_memory addr bytes g = stored g (write_guest g.memory addr bytes)

  unfoldable pub set_disk : RawDiskImage F → Guest F → Guest F
  set_disk disk g = record g { device = record (g.device) { disk = disk } }

  unfoldable pub write_disk : FileOps F → ℕ → List ℕ → M (Guest F) ℕ
  unfolding set_disk
  write_disk ops offset bytes g =
      let (r, disk') = Image.write ops g.device.disk offset bytes in (r, set_disk disk' g)

  -- The two arms of `match request_type` that move data.
  unfoldable pub read_sectors : FileOps F → Request → M (Guest F) ℕ
  read_sectors ops q = do
    look (λ g.
        require (not (bit_and q.payload_flags desc_write == 0))
          "virtio read buffer is not writable")
    bytes ← look (λ g. Image.read ops g.device.disk (wrap64 (q.sector * 512)) q.payload_len)
    write_memory q.payload_addr bytes
    pure 0

  unfoldable pub write_sectors : FileOps F → Request → M (Guest F) ℕ
  write_sectors ops q = do
    look (λ g.
        require (bit_and q.payload_flags desc_write == 0) "virtio write buffer is not readable")
    payload ← look (λ g. read_guest g.memory q.payload_addr q.payload_len)
    written ← write_disk ops (wrap64 (q.sector * 512)) payload
    pure 0

  -- `match request_type`: the transfer between the disk and the payload, and the status byte.
  unfoldable pub serve : FileOps F → Request → M (Guest F) ℕ
  serve ops q =
      if q.request_type == 0
      then read_sectors ops q
      else if q.request_type == 1
      then write_sectors ops q
      else pure 1

  unfoldable pub publish : (used used_idx used_slot head payload_len : ℕ) → M (Guest F) (Unit {0})
  publish used used_idx used_slot head payload_len = do
    write_memory (used + 4 + used_slot * 8) (le_bytes 4 head)
    write_memory (used + 8 + used_slot * 8) (le_bytes 4 payload_len)
    write_memory (used + 2) (le_bytes 2 (wrap16 (used_idx + 1)))

  unfoldable pub used_index : (queue : ℕ) → Guest F → Result ℕ
  used_index queue g = guest_u16 g.memory (used_ring g.device.queue_num queue + 2)

  -- The entry of the used ring and its index, at the end of `process_request`; `% queue_num` panics
  -- on a queue of size 0.
  unfoldable pub complete : (queue head payload_len : ℕ) → M (Guest F) (Unit {0})
  unfolding used_index
  complete queue head payload_len = do
    used_idx ← look (used_index queue)
    n ← look (λ g. if g.device.queue_num == 0 then panic else ok g.device.queue_num)
    publish (used_ring n queue) used_idx (used_idx % n) head payload_len

  unfoldable pub process_request : FileOps F → (queue head : ℕ) → M (Guest F) (Unit {0})
  process_request ops queue head = do
    q ← look (λ g. parse_request g.memory g.device.queue_num queue head)
    status ← serve ops q
    write_memory q.status_addr (status ∷ [])
    complete queue head q.payload_len

  unfoldable pub advance : M (Guest F) (Unit {0})
  advance g = (
    ok tt,
    record g { device = record (g.device) { last_avail = wrap16 (g.device.last_avail + 1) } },
  )

  unfoldable pub serve_next : FileOps F → (queue : ℕ) → M (Guest F) (Unit {0})
  serve_next ops queue = do
    head ← look (λ g.
        if g.device.queue_num == 0
        then panic
        else guest_u16 g.memory (queue + 4 + g.device.last_avail % g.device.queue_num * 2))
    process_request ops queue head

  -- One round of the loop in `process_queue`.
  unfoldable pub process_next : FileOps F → (queue : ℕ) → M (Guest F) (Unit {0})
  unfolding advance
  process_next ops queue = serve_next ops queue >> advance

  unfoldable pub process_loop : FileOps F → (fuel queue avail_idx : ℕ) → M (Guest F) (Unit {0})
  process_loop ops zero queue avail_idx g =
      if g.device.last_avail == avail_idx then (ok tt, g) else (out_of_fuel, g)
  process_loop ops (suc fuel) queue avail_idx g =
      let round = (process_next ops queue >> process_loop ops fuel queue avail_idx) g in
      if g.device.last_avail == avail_idx then (ok tt, g) else round

  -- `last_avail` counts modulo 2 ^ 16 up to `avail_idx`, so 65535 rounds are enough.
  unfoldable pub process_queue : FileOps F → M (Guest F) (Unit {0})
  process_queue ops g =
      let queue = g.device.queue_pfn * 4096 in
      (do
        avail_idx ← look (λ g. guest_u16 g.memory (queue + 2))
        process_loop ops 65535 queue avail_idx)
        g

  -- An error of `process_queue` is logged and dropped.
  abbrev pub log_error : M (Guest F) (Unit {0}) → M (Guest F) (Unit {0})
  log_error m g =
      let (r, g') = m g in
      (elim r [ ok a ↦ ok a | err e ↦ ok tt | panic ↦ panic | out_of_fuel ↦ out_of_fuel ], g')

  abbrev pub set_device : Guest F → VirtioBlock F → Guest F
  set_device g d = record g { device = d }

  unfoldable pub write : FileOps F → (offset value : ℕ) → M (Guest F) (Unit {0})
  write ops offset value g =
      let d = g.device in
      let notified = log_error (process_queue ops) g in
      if offset == 0x38
      then (ok tt, set_device g (record d { queue_num = min (wrap16 value) 128 }))
      else if offset == 0x40
      then (ok tt, set_device g (record d { queue_pfn = wrap32 value }))
      else if offset == 0x50
      then (if value == 0 && not (d.queue_pfn == 0) then notified else (ok tt, g))
      else if offset == 0x60
      then (ok tt, set_device g (record d { status = wrap32 value }))
      else (ok tt, g)
