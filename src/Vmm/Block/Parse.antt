-- ===== src/Vmm/Block/Parse.antt =====
-- crates/vmm/src/lib.rs: the head of `process_request`, which reads the chain of three descriptors
-- (header, payload, status) and checks it before anything is changed.
use litedroid.Base.{
  ℕ, ◌+◌, ◌*◌, bit_and, String, Bool, true, false, not, ◌||◌, ok, err, ◌>>=◌, ◌>>◌, leb, ◌==◌,
  wrap64,
}
use litedroid.Core.Error.{Result, disk_io}
use litedroid.Memory.{GuestMemory}
use litedroid.Vmm.GuestWord.{guest_u16, guest_u32, guest_u64}

-- What the descriptors of a request say.
pub record Request : Type 0 where
  pub request_type : ℕ
  pub sector : ℕ
  pub payload_addr : ℕ
  pub payload_len : ℕ
  pub payload_flags : ℕ
  pub status_addr : ℕ

abbrev pub desc_next : ℕ
desc_next = 1

abbrev pub desc_write : ℕ
desc_write = 2

-- The error of a request that the code refuses.
abbrev pub require : Bool → String → Result (Unit {0})
require true message = ok tt
require false message = err (disk_io message)

unfoldable pub parse_request : GuestMemory → (queue_num queue head : ℕ) → Result Request
parse_request memory queue_num queue head = do
  let desc = queue + head * 16
  header_addr ← guest_u64 memory desc
  header_flags ← guest_u16 memory (desc + 12)
  header_next ← guest_u16 memory (desc + 14)
  require (not (bit_and header_flags desc_next == 0)) "virtio request has no data descriptor"
  request_type ← guest_u32 memory header_addr
  sector ← guest_u64 memory (wrap64 (header_addr + 8))
  let payload_desc = queue + header_next * 16
  payload_addr ← guest_u64 memory payload_desc
  payload_len ← guest_u32 memory (payload_desc + 8)
  payload_flags ← guest_u16 memory (payload_desc + 12)
  status_next ← guest_u16 memory (payload_desc + 14)
  require (not (bit_and payload_flags desc_next == 0 || leb queue_num status_next))
      "virtio request has invalid status descriptor"
  status_addr ← guest_u64 memory (queue + status_next * 16)
  require (not (status_addr == 0)) "virtio status address is null"
  ok (record {
    request_type = request_type;
    sector = sector;
    payload_addr = payload_addr;
    payload_len = payload_len;
    payload_flags = payload_flags;
    status_addr = status_addr;
  })
