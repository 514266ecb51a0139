-- ===== src/Vmm/Block/Tests.antt =====
-- A disk of two sectors behind the device, and a driver with one read request in its queue.
use litedroid.Base.{
  ℕ, ◌+◌, ◌*◌, ◌%◌, ◌^◌, ◌≡◌, refl, inl, inr, true, none, some, List, [], ◌∷◌, ◌++◌, length, take,
  drop, replicate, ok, panic, wrap64, le_bytes, from_le_bytes, le_bytes-IsBytes, arith, IsByte,
  All-append,
}
use litedroid.Memory.{GuestMemory, read_guest, write_guest, check_range, checked_add}
use litedroid.Memory.Copy.{copy_in, update, copy_in-IsByte, bytes_at}
use litedroid.Memory.Access.{IsRegion}
use litedroid.Storage.Image.{FileOps, RawDiskImage}
use litedroid.Storage.Image
use litedroid.Vmm.GuestWord.{guest_u16, guest_u32, guest_u64, align_up}
use litedroid.Vmm.Block.Parse.{Request, parse_request}
use litedroid.Vmm.Block.{
  Guest, write, serve, read_sectors, write_sectors, complete, publish, used_index, used_ring,
  process_queue, write_memory, set_disk, write_disk, process_request,
}
use litedroid.Vmm.Block.Queue.{Settled}
use litedroid.Vmm.Block.Notify.{process_queue_settles, notify-empty_queue}
use litedroid.Vmm.Block.Used.{complete_publishes}
use litedroid.Vmm.Block.Served.{
  Apart, ring_start, ring_len, process_request_read, process_request_write,
}
use litedroid.Vmm.Block.Legacy.{process_queue-legacy}

-- The host's calls over a file that is a list of bytes.
abbrev ops : FileOps (List ℕ)
ops = record {
  path_error = λ p. none;
  open_create = λ p. some [];
  open_rdwr = λ p. some (replicate 1024 7);
  ftruncate = λ f n. some (replicate n 0);
  fstat_size = λ f. some (length f);
  pread = λ f o n. some (take n (drop o f));
  pwrite = λ f o bs. (some (length bs), take o f ++ (bs ++ drop (o + length bs) f));
  fsync = λ f. true;
  last_os_error = "";
}

abbrev disk : RawDiskImage (List ℕ)
disk = record { fd = replicate 1024 7; size = 1024 }

-- The request whose chain starts at descriptor 1 of the queue at 4096.
abbrev driver_memory : ℕ → ℕ
driver_memory =
    copy_in
      (copy_in
        (copy_in
          (copy_in (copy_in (copy_in (λ i. 0) 4098 (le_bytes 2 1)) 4100 (le_bytes 2 1)) 4112
            (le_bytes 8 0x3000 ++ (le_bytes 4 16 ++ (le_bytes 2 1 ++ le_bytes 2 2))))
          4128 (le_bytes 8 0x3100 ++ (le_bytes 4 4 ++ (le_bytes 2 3 ++ le_bytes 2 3))))
        4144 (le_bytes 8 0x3200))
      0x3008 (le_bytes 8 1)

abbrev memory : GuestMemory
memory = record { base = 0x10000; size = 0x10000; bytes = driver_memory }

abbrev guest : Guest (List ℕ)
guest = record {
  device = record { disk = disk; queue_num = 4; queue_pfn = 1; status = 0; last_avail = 0 };
  memory = memory;
}

memory-IsRegion : IsRegion memory
memory-IsRegion = record {
  mapped = omega arith;
  holds =
      copy_in-IsByte _ 0x3008 _
        (copy_in-IsByte _ 4144 _
          (copy_in-IsByte _ 4128 _
            (copy_in-IsByte _ 4112 _
              (copy_in-IsByte _ 4100 _
                (copy_in-IsByte _ 4098 _ (λ i. omega arith) (le_bytes-IsBytes 2 1))
                (le_bytes-IsBytes 2 1))
              (All-append IsByte (le_bytes 8 0x3000) _ (le_bytes-IsBytes 8 0x3000) (
                All-append IsByte (le_bytes 4 16) _ (le_bytes-IsBytes 4 16) (
                  All-append IsByte (le_bytes 2 1) _ (le_bytes-IsBytes 2 1)
                    (le_bytes-IsBytes 2 2)))))
            (All-append IsByte (le_bytes 8 0x3100) _ (le_bytes-IsBytes 8 0x3100) (
              All-append IsByte (le_bytes 4 4) _ (le_bytes-IsBytes 4 4) (
                All-append IsByte (le_bytes 2 3) _ (le_bytes-IsBytes 2 3) (le_bytes-IsBytes 2 3)))))
          (le_bytes-IsBytes 8 0x3200))
        (le_bytes-IsBytes 8 1);
}

avail_is_1 : guest_u16 memory 4098 ≡ ok 1
unfolding guest_u16 read_guest check_range checked_add le_bytes copy_in update bytes_at
    from_le_bytes
avail_is_1 = refl

process_queue_settles_example : Settled ops 4096 1 guest (process_queue ops guest)
process_queue_settles_example =
    process_queue_settles ops guest 1 memory-IsRegion (omega arith) avail_is_1

abbrev read_request : Request
read_request = record {
  request_type = 0;
  sector = 1;
  payload_addr = 0x3100;
  payload_len = 4;
  payload_flags = 3;
  status_addr = 0x3200;
}

abbrev completed : Guest (List ℕ)
completed = (complete 4096 1 4 guest).1

completes : complete 4096 1 4 guest ≡ (ok tt, completed)
unfolding complete publish used_index used_ring align_up write_memory write_guest guest_u16
    read_guest check_range checked_add from_le_bytes bytes_at copy_in le_bytes
completes = refl

complete_publishes_example :
    (i : ℕ) × (guest_u16 memory (used_ring 4 4096 + 2) ≡ ok i)
    × (guest_u16 completed.memory (used_ring 4 4096 + 2) ≡ ok ((i + 1) % 2 ^ 16))
    × (guest_u32 completed.memory (used_ring 4 4096 + 4 + i % 4 * 8) ≡ ok 1)
    × (guest_u32 completed.memory (used_ring 4 4096 + 8 + i % 4 * 8) ≡ ok 4)
    × (completed.device ≡ guest.device)
complete_publishes_example =
    complete_publishes 4096 1 4 guest completed (omega arith) (omega arith) (omega arith) completes

abbrev empty_guest : Guest (List ℕ)
empty_guest = record guest { device = record (guest.device) { queue_num = 0 } }

notify-empty_queue_example : (write ops 0x50 0 empty_guest).0 ≡ panic
notify-empty_queue_example =
    notify-empty_queue ops empty_guest 1 refl (omega arith) avail_is_1 (omega arith)

abbrev published : GuestMemory
published = record memory { bytes = copy_in driver_memory 4162 (le_bytes 2 9) }

legacy_write : write_guest memory 4162 (le_bytes 2 9) ≡ ok published
unfolding write_guest check_range checked_add le_bytes
legacy_write = refl

-- The guest whose device has taken the first request.
abbrev caught_up : Guest (List ℕ)
caught_up = record guest { device = record (guest.device) { last_avail = 1 } }

process_queue-legacy_example :
    process_queue ops (record caught_up { memory = published })
    ≡ (ok tt, record caught_up { memory = published })
process_queue-legacy_example =
    process_queue-legacy ops caught_up published 9 (omega arith) (omega arith) avail_is_1
      legacy_write

parses : parse_request memory 4 4096 1 ≡ ok read_request
unfolding parse_request guest_u16 guest_u32 guest_u64 read_guest check_range checked_add
    from_le_bytes bytes_at copy_in le_bytes
parses = refl

abbrev requested : Guest (List ℕ)
requested = (process_request ops 4096 1 guest).1

request_is_processed : process_request ops 4096 1 guest ≡ (ok tt, requested)
unfolding process_request parse_request serve read_sectors Image.read complete publish used_index
    used_ring align_up write_memory write_guest guest_u16 guest_u32 guest_u64 read_guest check_range
    checked_add from_le_bytes bytes_at copy_in le_bytes
request_is_processed = refl

process_request_read_example :
    (bytes : List ℕ) × (i : ℕ) × (some (take 4 (drop (wrap64 (1 * 512)) (replicate 1024 7)))
      ≡ some bytes)
    × (read_guest requested.memory 0x3100 (length bytes) ≡ ok bytes)
    × (read_guest requested.memory 0x3200 1 ≡ ok (0 ∷ []))
    × (guest_u16 memory (used_ring 4 4096 + 2) ≡ ok i)
    × (guest_u16 requested.memory (used_ring 4 4096 + 2) ≡ ok ((i + 1) % 2 ^ 16))
    × (requested.device ≡ guest.device)
unfolding used_ring align_up
process_request_read_example =
    process_request_read ops 4096 1 guest requested read_request (omega arith) (omega arith)
      (omega arith) parses refl (λ bytes e. ground arith) (inl (omega arith)) (inr (omega arith))
      (inr (omega arith)) request_is_processed

-- The same queue, whose header asks for a write of the four bytes, from a buffer that is readable.
abbrev write_guest_state : Guest (List ℕ)
write_guest_state = record guest {
  memory = record memory {
    bytes = copy_in (copy_in driver_memory 4140 (le_bytes 2 1)) 0x3000 (le_bytes 4 1);
  };
}

abbrev write_request : Request
write_request = record read_request { request_type = 1; payload_flags = 1 }

parses_write : parse_request write_guest_state.memory 4 4096 1 ≡ ok write_request
unfolding parse_request guest_u16 guest_u32 guest_u64 read_guest check_range checked_add
    from_le_bytes bytes_at copy_in le_bytes
parses_write = refl

abbrev stored : Guest (List ℕ)
stored = (process_request ops 4096 1 write_guest_state).1

write_is_processed : process_request ops 4096 1 write_guest_state ≡ (ok tt, stored)
unfolding process_request parse_request serve write_sectors write_disk set_disk Image.write complete
    publish used_index used_ring align_up write_memory write_guest guest_u16 guest_u32 guest_u64
    read_guest check_range checked_add from_le_bytes bytes_at copy_in le_bytes
write_is_processed = refl

process_request_write_example :
    (payload : List ℕ) × (n : ℕ) × (i : ℕ) × (read_guest write_guest_state.memory 0x3100 4
      ≡ ok payload)
    × ((ops.pwrite (replicate 1024 7) (wrap64 (1 * 512)) payload).0 ≡ some n)
    × (stored.device.disk.fd ≡ (ops.pwrite (replicate 1024 7) (wrap64 (1 * 512)) payload).1)
    × (read_guest stored.memory 0x3200 1 ≡ ok (0 ∷ []))
    × (guest_u16 write_guest_state.memory (ring_start 4096 write_guest_state) ≡ ok i)
    × (guest_u16 stored.memory (ring_start 4096 write_guest_state) ≡ ok ((i + 1) % 2 ^ 16))
    × ((a k : ℕ)
        → Apart a k 0x3200 1
        → Apart a k (ring_start 4096 write_guest_state) (ring_len write_guest_state)
        → read_guest stored.memory a k ≡ read_guest write_guest_state.memory a k)
unfolding used_ring align_up
process_request_write_example =
    process_request_write ops 4096 1 write_guest_state stored write_request (omega arith)
      (omega arith) (omega arith) parses_write refl (inr (omega arith)) write_is_processed
