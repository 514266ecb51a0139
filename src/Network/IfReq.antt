-- ===== src/Network/IfReq.antt =====
-- crates/network/src/lib.rs: `IfReq`, the request of the ioctls on a network interface: sixteen
-- bytes for its name and 24 for the rest. A number in it has the byte order of x86.
use litedroid.Base.{
  ℕ, ◌-◌, ◌<◌, ◌≡◌, ◌≢◌, refl, List, [], ◌∷◌, ◌++◌, All, length, take, drop, set, replicate, min,
  ◌==◌, if◌then◌else◌, le_bytes, arith, length-take, All-take, take_all, sym, ap, ◌∙◌, String,
}
use native.Mathlib.Decide.{dec_le}

pub record IfReq : Type 0 where
  pub name : List ℕ
  pub rest : List ℕ

unfoldable pub new : IfReq
new = record { name = replicate 16 0; rest = replicate 24 0 }

-- `slice[..len].copy_from_slice(&bytes)` with as many bytes.
unfoldable pub overwrite : List ℕ → List ℕ → List ℕ
overwrite bytes old = bytes ++ drop (length bytes) old

unfoldable pub set_name : List ℕ → IfReq → IfReq
unfolding overwrite
set_name bytes req =
    let len = min (length bytes) (length req.name - 1) in
    record req { name = set (overwrite (take len bytes) req.name) len 0 }

-- The bytes before the first NUL, or all of them.
unfoldable pub until_nul : List ℕ → List ℕ
until_nul [] = []
until_nul (b ∷ bytes) = if b == 0 then [] else b ∷ until_nul bytes

unfoldable pub get_name : (from_utf8_lossy : List ℕ → String) → IfReq → String
unfolding until_nul
get_name from_utf8_lossy req = from_utf8_lossy (until_nul req.name)

unfoldable pub set_flags : ℕ → IfReq → IfReq
unfolding overwrite
set_flags flags req = record req { rest = overwrite (le_bytes 2 flags) req.rest }

-- `libc::sockaddr_in`: the family, the port, the address and eight zeros.
pub record SockaddrIn : Type 0 where
  pub sin_family : ℕ
  pub sin_port : ℕ
  pub s_addr : ℕ

unfoldable pub sockaddr_bytes : SockaddrIn → List ℕ
sockaddr_bytes sa =
    le_bytes 2 sa.sin_family ++ (le_bytes 2 sa.sin_port ++ (le_bytes 4 sa.s_addr ++ replicate 8 0))

unfoldable pub set_sockaddr_in : SockaddrIn → IfReq → IfReq
unfolding sockaddr_bytes overwrite
set_sockaddr_in sa req = record req { rest = overwrite (sockaddr_bytes sa) req.rest }

abbrev IsText : List ℕ → Type 0
IsText = All (λ b. b ≢ 0)

until_nul-set :
    (bytes old : List ℕ)
    → IsText bytes
    → length bytes < length old
    → until_nul (set (bytes ++ drop (length bytes) old) (length bytes) 0) ≡ bytes
unfolding until_nul
until_nul-set [] [] text h = absurd (omega arith)
until_nul-set [] (o ∷ old) text h = refl
until_nul-set (b ∷ bytes) [] text h = absurd (omega arith)
until_nul-set (b ∷ bytes) (o ∷ old) text h =
    ground (arith, until_nul-set bytes old text.1 (omega arith))

until_nul-set_at :
    (bytes old : List ℕ) (n : ℕ)
    → IsText bytes
    → length bytes < length old
    → n ≡ length bytes
    → until_nul (set (bytes ++ drop (length bytes) old) n 0) ≡ bytes
until_nul-set_at bytes old n text h e = rw e (until_nul-set bytes old text h)

take-min : (n : ℕ) (xs : List ℕ) → take (min (length xs) n) xs ≡ take n xs
take-min n xs = elim (dec_le (length xs) n) [
  | yes p ↦ take_all _ xs (omega arith) ∙ sym (take_all n xs p)
  | no p ↦ let shorter : min (length xs) n ≡ n = omega arith in rw shorter refl
]

-- A name without NUL that was set reads back as the text that from_utf8_lossy makes of its first
-- fifteen bytes, whatever was in the sixteen bytes of the request before.
pub get_name-set_name :
    (from_utf8_lossy : List ℕ → String) (bytes : List ℕ) (req : IfReq)
    → All (λ b. b ≢ 0) bytes
    → length req.name ≡ 16
    → get_name from_utf8_lossy (set_name bytes req) ≡ from_utf8_lossy (take 15 bytes)
unfolding get_name set_name
get_name-set_name from_utf8_lossy bytes req text sixteen =
    let len = min (length bytes) 15 in
    let size : length (take len bytes) ≡ len = omega (arith, length-take len bytes) in
    rw sixteen (
      ap from_utf8_lossy (
        until_nul-set_at (take len bytes) req.name len (All-take _ len bytes text) (omega arith)
          (sym size)
        ∙ take-min 15 bytes))
