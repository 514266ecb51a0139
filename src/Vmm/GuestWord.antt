-- ===== src/Vmm/GuestWord.antt =====
-- crates/vmm/src/lib.rs: little-endian words in guest memory and in a buffer, and `align_up`.
use litedroid.Base.{
  ℕ, ◌+◌, ◌-◌, ◌^◌, bit_and, ◌<>◌, show_hex, List, ◌++◌, length, take, drop, ok, err, panic, ◌>>=◌,
  ltb, leb, if◌then◌else◌, wrap64, le_bytes, from_le_bytes,
}
use litedroid.Core.Error.{Result, kernel_load_failed}
use litedroid.Memory.{GuestMemory, read_guest}

unfoldable pub guest_u16 : GuestMemory → ℕ → Result ℕ
guest_u16 memory address = do bytes ← read_guest memory address 2; ok (from_le_bytes bytes)

unfoldable pub guest_u32 : GuestMemory → ℕ → Result ℕ
guest_u32 memory address = do bytes ← read_guest memory address 4; ok (from_le_bytes bytes)

unfoldable pub guest_u64 : GuestMemory → ℕ → Result ℕ
guest_u64 memory address = do bytes ← read_guest memory address 8; ok (from_le_bytes bytes)

-- `!(alignment - 1)` on `u64` is `2 ^ 64 - 1` less `alignment - 1`.
unfoldable pub align_up : ℕ → ℕ → ℕ
align_up value alignment = bit_and (wrap64 (value + alignment - 1)) (2 ^ 64 - 1 - (alignment - 1))

unfoldable pub read_u32 : List ℕ → ℕ → Result ℕ
read_u32 bytes offset =
    if leb (offset + 4) (length bytes)
    then ok (from_le_bytes (take 4 (drop offset bytes)))
    else err (kernel_load_failed ("bzImage header is missing field at " <> show_hex offset))

-- `data[offset..offset + src.len()].copy_from_slice(src)`, which panics out of range.
unfoldable pub copy_slice : List ℕ → ℕ → List ℕ → Result (List ℕ)
copy_slice bytes offset src =
    if ltb (length bytes) (offset + length src)
    then panic
    else ok (take offset bytes ++ (src ++ drop (offset + length src) bytes))

unfoldable pub write_u16 : List ℕ → ℕ → ℕ → Result (List ℕ)
unfolding copy_slice
write_u16 bytes offset value = copy_slice bytes offset (le_bytes 2 value)

unfoldable pub write_u32 : List ℕ → ℕ → ℕ → Result (List ℕ)
unfolding copy_slice
write_u32 bytes offset value = copy_slice bytes offset (le_bytes 4 value)
