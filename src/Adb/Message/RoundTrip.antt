-- ===== src/Adb/Message/RoundTrip.antt =====
-- Decoding what was encoded, and encoding what was decoded.
use litedroid.Base.{
  ℕ, zero, suc, ◌+◌, ◌^◌, ◌≤◌, ◌<◌, ◌≡◌, refl, ap, sym, ◌∙◌, List, [], ◌∷◌, ◌++◌, foldl, length,
  take, drop, ok, arith, IsBytes, IsByte, le_bytes, from_le_bytes, from_le_bytes-le_bytes,
  from_le_bytes-lt, take-append_length, length-append, length-take, length-drop, All-take,
  le_bytes-from_le_bytes,
}
use native.Mathlib.Nat.{zero-add, suc-add}
use litedroid.Base.Bits.{bit_xor_mask}
use litedroid.Adb.Message.{AdbMessage, add_byte, checksum, magic, encode, field, decode}

-- A message whose header fits its payload and whose fields fit their words.
pub record IsWellFormed (m : AdbMessage) : Type 0 where
  pub four : length m.command ≡ 4
  pub command_bytes : IsBytes m.command
  pub fits0 : m.arg0 < 2 ^ 32
  pub fits1 : m.arg1 < 2 ^ 32
  pub short : length m.payload < 2 ^ 32
  pub measured : m.data_length ≡ length m.payload
  pub summed : m.data_check ≡ checksum m.payload

sum_from-lt : (acc : ℕ) (bs : List ℕ) → acc < 2 ^ 32 → foldl add_byte acc bs < 2 ^ 32
sum_from-lt acc [] h = h
sum_from-lt acc (b ∷ bs) h = sum_from-lt (add_byte acc b) bs (omega arith)

pub checksum-lt : (bs : List ℕ) → checksum bs < 2 ^ 32
unfolding checksum
checksum-lt bs = sum_from-lt 0 bs (omega arith)

magic-lt : (c : List ℕ) → length c ≡ 4 → IsBytes c → magic c < 2 ^ 32
unfolding magic
magic-lt c e b =
    let v = from_le_bytes-lt c b in rw (bit_xor_mask 32 (from_le_bytes c) (rw e at v)) (omega arith)

-- What the fields of a byte string say, if it is the encoding of `m` with something behind it.
pub record Reads (bytes : List ℕ) (m : AdbMessage) : Type 0 where
  pub long : 24 + m.data_length ≤ length bytes
  pub command : take 4 bytes ≡ m.command
  pub arg0 : field 4 bytes ≡ m.arg0
  pub arg1 : field 8 bytes ≡ m.arg1
  pub measured : field 12 bytes ≡ m.data_length
  pub check : field 16 bytes ≡ m.data_check
  pub magic_number : field 20 bytes ≡ magic m.command
  pub contents : take m.data_length (drop 24 bytes) ≡ m.payload
  pub summed : checksum m.payload ≡ m.data_check

decode-Reads : (bytes : List ℕ) (m : AdbMessage) → Reads bytes m → decode bytes ≡ ok m
unfolding decode
decode-Reads bytes m r = ground arith

pub Reads-decode : (bytes : List ℕ) (m : AdbMessage) → decode bytes ≡ ok m → Reads bytes m
unfolding decode
Reads-decode bytes m e = ground arith

encoded_header :
    (m : AdbMessage) (rest : List ℕ) (a b c d : ℕ)
    → m.arg0 < 2 ^ 32
    → m.arg1 < 2 ^ 32
    → m.data_length < 2 ^ 32
    → m.data_check < 2 ^ 32
    → magic (a ∷ b ∷ c ∷ d ∷ []) < 2 ^ 32
    → let n : AdbMessage = record m { command = a ∷ b ∷ c ∷ d ∷ [] } in
      let bytes = encode n ++ rest in
      (take 4 bytes ≡ n.command)
      × (field 4 bytes ≡ m.arg0)
      × (field 8 bytes ≡ m.arg1)
      × (field 12 bytes ≡ m.data_length)
      × (field 16 bytes ≡ m.data_check)
      × (field 20 bytes ≡ magic n.command)
      × (drop 24 bytes ≡ m.payload ++ rest)
      × (length bytes ≡ 24 + length (m.payload ++ rest))
unfolding encode field le_bytes
encoded_header m rest a b c d h0 h1 h2 h3 h4 = (
  refl,
  from_le_bytes-le_bytes 4 m.arg0 h0,
  from_le_bytes-le_bytes 4 m.arg1 h1,
  from_le_bytes-le_bytes 4 m.data_length h2,
  from_le_bytes-le_bytes 4 m.data_check h3,
  from_le_bytes-le_bytes 4 _ h4,
  refl,
  omega arith,
)

-- `cs` is the command of `m`, in the four bytes that it has.
decode-encode_at :
    (m : AdbMessage) (rest cs : List ℕ)
    → IsWellFormed (record m { command = cs })
    → decode (encode (record m { command = cs }) ++ rest) ≡ ok (record m { command = cs })
decode-encode_at m rest [] w = absurd (omega (arith, w.four))
decode-encode_at m rest (a ∷ []) w = absurd (omega (arith, w.four))
decode-encode_at m rest (a ∷ b ∷ []) w = absurd (omega (arith, w.four))
decode-encode_at m rest (a ∷ b ∷ c ∷ []) w = absurd (omega (arith, w.four))
decode-encode_at m rest (a ∷ b ∷ c ∷ d ∷ e ∷ cs) w = absurd (omega (arith, w.four))
decode-encode_at m rest (a ∷ b ∷ c ∷ d ∷ []) w =
    let (t, f4, f8, f12, f16, f20, d24, len) =
      encoded_header m rest a b c d w.fits0 w.fits1 (rw (w.measured) (w.short))
        (rw (w.summed) (checksum-lt m.payload))
        (magic-lt (a ∷ b ∷ c ∷ d ∷ []) refl w.command_bytes) in
    decode-Reads _ _ (record {
      long = rw (len, w.measured, length-append) (omega arith);
      command = t;
      arg0 = f4;
      arg1 = f8;
      measured = f12;
      check = f16;
      magic_number = f20;
      contents = rw (d24, w.measured) (take-append_length m.payload rest);
      summed = sym w.summed;
    })

-- Decoding the encoding of a well-formed message gives the message back, whatever bytes follow.
pub decode-encode :
    (m : AdbMessage) (rest : List ℕ) → IsWellFormed m → decode (encode m ++ rest) ≡ ok m
decode-encode m rest w = decode-encode_at m rest m.command w

take_nil : (k : ℕ) → take {A = ℕ} k [] ≡ []
take_nil zero = refl
take_nil (suc k) = refl

drop_nil : (k : ℕ) → drop {A = ℕ} k [] ≡ []
drop_nil zero = refl
drop_nil (suc k) = refl

pub take_join : (n k : ℕ) (xs : List ℕ) → take n xs ++ take k (drop n xs) ≡ take (n + k) xs
take_join zero k xs = rw zero-add
take_join (suc n) k [] = rw (suc-add, take_nil k) refl
take_join (suc n) k (x ∷ xs) = rw suc-add (ap (λ (t : List ℕ). x ∷ t) (take_join n k xs))

IsBytes-drop : (n : ℕ) (xs : List ℕ) → IsBytes xs → IsBytes (drop n xs)
IsBytes-drop zero xs h = h
IsBytes-drop (suc n) [] h = tt
IsBytes-drop (suc n) (x ∷ xs) (p, h) = IsBytes-drop n xs h

le_bytes-field :
    (i : ℕ) (bytes : List ℕ)
    → IsBytes bytes
    → i + 4 ≤ length bytes
    → le_bytes 4 (field i bytes) ≡ take 4 (drop i bytes)
unfolding field
le_bytes-field i bytes b h =
    let word = take 4 (drop i bytes) in
    let four : length word ≡ 4 =
      omega (arith, length-take {0} 4 (drop i bytes), length-drop {0} i bytes) in
    rw four at
      (le_bytes-from_le_bytes word (All-take IsByte 4 (drop i bytes) (IsBytes-drop i bytes b)))

field-lt : (i : ℕ) (bytes : List ℕ) → IsBytes bytes → i + 4 ≤ length bytes → field i bytes < 2 ^ 32
unfolding field
field-lt i bytes b h =
    let word = take 4 (drop i bytes) in
    let four : length word ≡ 4 =
      omega (arith, length-take {0} 4 (drop i bytes), length-drop {0} i bytes) in
    rw four at (from_le_bytes-lt word (All-take IsByte 4 (drop i bytes) (IsBytes-drop i bytes b)))

pub drop-add : (i j : ℕ) (xs : List ℕ) → drop (i + j) xs ≡ drop j (drop i xs)
drop-add zero j xs = rw zero-add
drop-add (suc i) j [] = rw (suc-add, drop_nil j) refl
drop-add (suc i) j (x ∷ xs) = rw suc-add (drop-add i j xs)

joint :
    (i j k t : ℕ) (xs ys zs : List ℕ)
    → j + k ≡ t
    → ys ≡ take j (drop i xs)
    → zs ≡ take k (drop (i + j) xs)
    → ys ++ zs ≡ take t (drop i xs)
joint i j k t xs ys zs e p q = rw (p, q, drop-add i j xs, sym e) (take_join j k (drop i xs))

header_word :
    (bytes : List ℕ) (m : AdbMessage)
    → IsBytes bytes
    → Reads bytes m
    → (i : ℕ) → i + 4 ≤ 24
    → (w : ℕ) → field i bytes ≡ w
    → le_bytes 4 w ≡ take 4 (drop i bytes)
header_word bytes m b r i h w e =
    let long = r.long in rw e at (le_bytes-field i bytes b (omega arith))

-- The six words of the header and the payload, laid end to end.
encode_joined :
    (bytes : List ℕ) (m : AdbMessage)
    → IsBytes bytes
    → Reads bytes m
    → encode m ≡ take (24 + m.data_length) bytes
unfolding encode
encode_joined bytes m b r =
    let n = m.data_length in
    let word = header_word bytes m b r in
    let at24 = sym r.contents in
    let at20 =
      joint 20 4 n (4 + n) bytes _ _ (omega arith) (word 20 (omega arith) _ r.magic_number) at24 in
    let at16 =
      joint 16 4 (4 + n) (8 + n) bytes _ _ (omega arith) (word 16 (omega arith) _ r.check) at20 in
    let at12 =
      joint 12 4 (8 + n) (12 + n) bytes _ _ (omega arith) (word 12 (omega arith) _ r.measured)
        at16 in
    let at8 =
      joint 8 4 (12 + n) (16 + n) bytes _ _ (omega arith) (word 8 (omega arith) _ r.arg1) at12 in
    let at4 =
      joint 4 4 (16 + n) (20 + n) bytes _ _ (omega arith) (word 4 (omega arith) _ r.arg0) at8 in
    joint 0 4 (20 + n) (24 + n) bytes _ _ (omega arith) (sym r.command) at4

Reads-IsWellFormed :
    (bytes : List ℕ) (m : AdbMessage) → IsBytes bytes → Reads bytes m → IsWellFormed m
Reads-IsWellFormed bytes m b r =
    let long = r.long in
    let measured : m.data_length ≡ length m.payload = omega (
      arith,
      ap length r.contents,
      length-take {0} m.data_length (drop 24 bytes),
      length-drop {0} 24 bytes,
    ) in
    record {
      four = omega (arith, ap length r.command, length-take {0} 4 bytes);
      command_bytes = rw r.command at (All-take IsByte 4 bytes b);
      fits0 = rw r.arg0 at (field-lt 4 bytes b (omega arith));
      fits1 = rw r.arg1 at (field-lt 8 bytes b (omega arith));
      short = omega (arith, r.measured, field-lt 12 bytes b (omega arith));
      measured = measured;
      summed = sym r.summed;
    }

-- Whatever decodes is well-formed, and is the encoding of the message that it decodes to, up to the
-- end of the payload.
pub encode-decode :
    (bytes : List ℕ) (m : AdbMessage)
    → IsBytes bytes
    → decode bytes ≡ ok m
    → IsWellFormed m × (encode m ≡ take (24 + length m.payload) bytes)
encode-decode bytes m b e =
    let r = Reads-decode bytes m e in
    let w = Reads-IsWellFormed bytes m b r in
    (w, encode_joined bytes m b r ∙ ap (λ (n : ℕ). take (24 + n) bytes) w.measured)
