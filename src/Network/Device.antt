-- ===== src/Network/Device.antt =====
-- crates/network/src/lib.rs: `VirtioNetDevice`.
use litedroid.Base.{
  ℕ, zero, suc, sym, ◌+◌, ◌*◌, ◌^◌, ◌<◌, ◌≤◌, ◌≡◌, refl, ◌∙◌, ap, ◌==◌, if◌then◌else◌, List, [],
  ◌∷◌, All, length, IsByte, bit_or, wrap32, wrap64, from_be_bytes, arith,
}
use litedroid.Base.Bits.{bit_or_disjoint}
use native.Mathlib.Nat.{mod-eq_of_lt, pow-suc, pow-succ', mul_assoc, le-mul_of_pos_right}
use litedroid.Devices.Trait.{VirtDevice, virtio_magic, virtio_version_2}
use litedroid.Network.Tap.{TapInterface}

pub record VirtioNetDevice : Type 0 where
  pub tap : TapInterface
  pub mac_address : List ℕ
  pub status : ℕ

unfoldable pub new : TapInterface → List ℕ → VirtioNetDevice
new tap mac_address = record { tap = tap; mac_address = mac_address; status = 0 }

-- `v = (v << 8) | b as u64` for the bytes that are left.
unfoldable pub shift_in : ℕ → List ℕ → ℕ
shift_in v [] = v
shift_in v (b ∷ bytes) = shift_in (bit_or (wrap64 (v * 2 ^ 8)) b) bytes

unfoldable pub mac_as_u64 : VirtioNetDevice → ℕ
unfolding shift_in
mac_as_u64 d = shift_in 0 d.mac_address

unfoldable pub mmio_read : VirtioNetDevice → ℕ → ℕ → ℕ × VirtioNetDevice
unfolding mac_as_u64
mmio_read d offset size =
    if offset == 0x00
    then (virtio_magic, d)
    else if offset == 0x04
    then (virtio_version_2, d)
    else if offset == 0x08
    then (1, d)
    else if offset == 0x0c
    then (0, d)
    else if offset == 0x24
    then (1, d)
    else if offset == 0x30
    then (d.status, d)
    else if offset == 0x100
    then (mac_as_u64 d, d)
    else (0, d)

-- A queue notification, at 0x28, is logged and changes nothing.
unfoldable pub mmio_write : VirtioNetDevice → ℕ → ℕ → ℕ → VirtioNetDevice
mmio_write d offset size value =
    if offset == 0x28 then d else if offset == 0x30 then record d { status = wrap32 value } else d

unfoldable pub reset : VirtioNetDevice → VirtioNetDevice
reset d = record d { status = 0 }

instance abbrev pub net_device : VirtDevice VirtioNetDevice
net_device = record {
  name = λ d. "virtio-net";
  device_type = λ d. "net";
  mmio_read = mmio_read;
  mmio_write = mmio_write;
  reset = reset;
  device_tree_compatible = λ d. "virtio,net";
}

pow_pos : (k : ℕ) → 0 < 256 ^ k
pow_pos zero = omega arith
pow_pos (suc k) = omega (arith, pow_pos k, pow-suc 256 k)

-- Eight bytes fit: while `k` are left, the value is below `2 ^ (64 - 8 * k)`.
shift_in-from_be_bytes :
    (bytes : List ℕ) (v bound : ℕ)
    → All IsByte bytes
    → v < bound
    → bound * 256 ^ length bytes ≤ 2 ^ 64
    → shift_in v bytes ≡ from_be_bytes v bytes
unfolding shift_in from_be_bytes
shift_in-from_be_bytes [] v bound h small room = refl
shift_in-from_be_bytes (b ∷ bytes) v bound (byte, h) small room =
    let left : bound * 256 * 256 ^ length bytes ≤ 2 ^ 64 =
      rw (mul_assoc bound 256 (256 ^ length bytes), sym (pow-succ' 256 (length bytes))) room in
    let below : bound * 256 ≤ bound * 256 * 256 ^ length bytes =
      le-mul_of_pos_right (bound * 256) (pow_pos (length bytes)) in
    let fits : wrap64 (v * 2 ^ 8) ≡ v * 2 ^ 8 = mod-eq_of_lt (omega arith) in
    let joined : bit_or (wrap64 (v * 2 ^ 8)) b ≡ v * 256 + b =
      ap (λ n. bit_or n b) fits ∙ bit_or_disjoint 8 v b byte in
    rw joined (shift_in-from_be_bytes bytes (v * 256 + b) (bound * 256) h (omega arith) left)

-- The guest reads the hardware address from 0x100 as one number, its six bytes with the first one
-- the highest.
pub mmio_read-mac_address :
    (d : VirtioNetDevice) (size : ℕ)
    → length d.mac_address ≡ 6
    → All IsByte d.mac_address
    → mmio_read d 0x100 size ≡ (from_be_bytes 0 d.mac_address, d)
unfolding mmio_read mac_as_u64
mmio_read-mac_address d size six bytes =
    ap (λ n. (n, d))
      (shift_in-from_be_bytes d.mac_address 0 1 bytes (omega arith) (rw six (omega arith)))
