-- ===== src/Vmm/Block/Legacy.antt =====
-- Where `process_queue` looks for the available ring, against the legacy layout of virtio, which puts
-- it behind the descriptor table, at `queue + 16 * queue_num`.
use litedroid.Base.{ℕ, ◌+◌, ◌*◌, ◌^◌, ◌≤◌, ◌<◌, ◌≡◌, refl, ◌∙◌, inl, ok, arith, le_bytes}
use litedroid.Memory.{GuestMemory, write_guest}
use litedroid.Storage.Image.{FileOps}
use litedroid.Vmm.GuestWord.{guest_u16}
use litedroid.Vmm.Block.{Guest, process_queue}
use litedroid.Vmm.Block.Queue.{loop_done}
use litedroid.Vmm.Block.Notify.{avail_index, queue_from}
use litedroid.Vmm.Block.Used.{word_apart}

module _ {F : Type 0} where
  avail_index-legacy :
      (g : Guest F) (m : GuestMemory) (v : ℕ)
      → g.memory.size < 2 ^ 64
      → 1 ≤ g.device.queue_num
      → write_guest g.memory
          (g.device.queue_pfn * 4096 + 16 * g.device.queue_num + 2)
          (le_bytes 2 v)
        ≡ ok m
      → avail_index (record g { memory = m }) ≡ avail_index g
  unfolding guest_u16
  avail_index-legacy g m v s n w =
      rw (word_apart 2 v g.memory m _ (g.device.queue_pfn * 4096 + 2) 2 s w (inl (omega arith)))

  -- In a mapped region, with a queue of at least one entry and `last_avail` in the word at offset 2
  -- of the queue, which lies in descriptor 0: whatever index the driver writes to the available
  -- ring of the legacy layout, `process_queue` succeeds and does nothing.
  pub process_queue-legacy :
      (ops : FileOps F) (g : Guest F) (m : GuestMemory) (v : ℕ)
      → g.memory.size < 2 ^ 64
      → 1 ≤ g.device.queue_num
      → guest_u16 g.memory (g.device.queue_pfn * 4096 + 2) ≡ ok g.device.last_avail
      → write_guest g.memory
          (g.device.queue_pfn * 4096 + 16 * g.device.queue_num + 2)
          (le_bytes 2 v)
        ≡ ok m
      → process_queue ops (record g { memory = m }) ≡ (ok tt, record g { memory = m })
  process_queue-legacy ops g m v s n same w =
      queue_from ops (record g { memory = m }) (ok g.device.last_avail)
        (avail_index-legacy g m v s n w ∙ same)
      ∙ loop_done ops (g.device.queue_pfn * 4096) g.device.last_avail 65535
          (record g { memory = m }) refl
