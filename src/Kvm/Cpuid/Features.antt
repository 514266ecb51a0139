-- ===== src/Kvm/Cpuid/Features.antt =====
-- Which feature bits the filter changes.
use litedroid.Base.{
  ℕ, zero, suc, ◌+◌, ◌*◌, ◌/◌, ◌%◌, ◌^◌, ◌<◌, ◌≡◌, ◌≢◌, refl, sym, ap, ◌∙◌, bit_or, List, [], ◌∷◌,
  arith, ◌==◌, if_split, Bool-cases, inl, inr, ==_iff, bit_and,
}
use Prim.Native.Nat.{max}
use native.Mathlib.Nat.{pow-suc, div-div-eq-div-mul}
use litedroid.Base.Bits.{bit_or_step, bit_and_mask}
use litedroid.Kvm.Cpuid.{CpuidEntry, filter_entry, filter_for_android, supports_avx, supports_sse42}

-- Bit `j` of a word.
unfoldable pub bit : ℕ → ℕ → ℕ
bit j a = a / 2 ^ j % 2

shifted : (j a : ℕ) → a / 2 / 2 ^ j ≡ a / 2 ^ suc j
shifted j a = div-div-eq-div-mul a 2 (2 ^ j) ∙ ap (λ (t : ℕ). a / t) (omega (arith, pow-suc 2 j))

bit-bit_or : (j a b : ℕ) → bit j (bit_or a b) ≡ max (bit j a) (bit j b)
unfolding bit
bit-bit_or zero a b = omega (arith, bit_or_step a b)
bit-bit_or (suc j) a b =
    let half : bit_or a b / 2 ≡ bit_or (a / 2) (b / 2) = omega (arith, bit_or_step a b) in
    rw (sym (shifted j (bit_or a b)), sym (shifted j a), sym (shifted j b), half)
      (bit-bit_or j (a / 2) (b / 2))

bit-pow_self : (k : ℕ) → bit k (2 ^ k) ≡ 1
unfolding bit
bit-pow_self zero = refl
bit-pow_self (suc k) =
    let half : 2 ^ suc k / 2 ≡ 2 ^ k = omega (arith, pow-suc 2 k) in
    rw (sym (shifted k (2 ^ suc k)), half) (bit-pow_self k)

bit-zero : (j : ℕ) → bit j 0 ≡ 0
unfolding bit
bit-zero zero = refl
bit-zero (suc j) = rw (sym (shifted j 0)) (bit-zero j)

bit-pow_ne : (j k : ℕ) → j ≢ k → bit j (2 ^ k) ≡ 0
unfolding bit
bit-pow_ne zero zero n = absurd (n refl)
bit-pow_ne zero (suc k) n = omega (arith, pow-suc 2 k)
bit-pow_ne (suc j) zero n = rw (sym (shifted j 1)) (bit-zero j)
bit-pow_ne (suc j) (suc k) n =
    let half : 2 ^ suc k / 2 ≡ 2 ^ k = omega (arith, pow-suc 2 k) in
    rw (sym (shifted j (2 ^ suc k)), half) (bit-pow_ne j k (λ e. n (ap suc e)))

bit-lt : (j a : ℕ) → bit j a < 2
unfolding bit
bit-lt j a = omega arith

set_self : (k a : ℕ) → bit k (bit_or a (2 ^ k)) ≡ 1
set_self k a = omega (arith, bit-bit_or k a (2 ^ k), bit-pow_self k, bit-lt k a)

set_other : (j k a : ℕ) → j ≢ k → bit j (bit_or a (2 ^ k)) ≡ bit j a
set_other j k a n = omega (arith, bit-bit_or j a (2 ^ k), bit-pow_ne j k n)

leaf_1 :
    (e : CpuidEntry)
    → e.function ≡ 1
    → filter_entry e
      ≡ record e { ecx = bit_or (bit_or e.ecx (2 ^ 31)) (2 ^ 21); edx = bit_or e.edx (2 ^ 9) }
unfolding filter_entry
leaf_1 e leaf = rw leaf refl

-- In an entry of leaf 1 the filter sets the hypervisor bit (31) and the x2APIC bit (21) of ECX and
-- the APIC bit (9) of EDX, and leaves every other bit of these two registers, EAX and EBX as they
-- were.
pub filter_entry-features :
    (e : CpuidEntry)
    → e.function ≡ 1
    → let f = filter_entry e in
      (bit 31 f.ecx ≡ 1)
      × (bit 21 f.ecx ≡ 1)
      × (bit 9 f.edx ≡ 1)
      × ((j : ℕ) → j ≢ 31 → j ≢ 21 → bit j f.ecx ≡ bit j e.ecx)
      × ((j : ℕ) → j ≢ 9 → bit j f.edx ≡ bit j e.edx)
      × (f.eax ≡ e.eax)
      × (f.ebx ≡ e.ebx)
filter_entry-features e leaf = rw (leaf_1 e leaf) (
  set_other 31 21 (bit_or e.ecx (2 ^ 31)) (omega arith) ∙ set_self 31 e.ecx,
  set_self 21 (bit_or e.ecx (2 ^ 31)),
  set_self 9 e.edx,
  (λ j n31 n21. set_other j 21 (bit_or e.ecx (2 ^ 31)) n21 ∙ set_other j 31 e.ecx n31),
  (λ j n9. set_other j 9 e.edx n9),
  refl,
  refl,
)

filter_entry-function : (e : CpuidEntry) → (filter_entry e).function ≡ e.function
unfolding filter_entry
filter_entry-function e =
    if_split (λ (f : CpuidEntry). f.function ≡ e.function) (e.function == 0x1) (λ _. refl)
      (λ _.
        if_split (λ (f : CpuidEntry). f.function ≡ e.function) (e.function == 0x4000_0000)
          (λ _. refl)
          (λ _.
            if_split (λ (f : CpuidEntry). f.function ≡ e.function) (e.function == 0x4000_0001)
              (λ _. refl) (λ _. refl)))

low_bit : (j a : ℕ) → bit_and (a / 2 ^ j) 1 ≡ bit j a
unfolding bit
low_bit j a = bit_and_mask 1 (a / 2 ^ j)

low_bits : (a : ℕ) → bit_and (a / 2 ^ 27) 3 ≡ bit 27 a + bit 28 a * 2
unfolding bit
low_bits a = bit_and_mask 2 (a / 2 ^ 27) ∙ omega arith

-- One entry, whatever the filter makes of it.
supports-cons :
    (e f : CpuidEntry) (rest rest' : List CpuidEntry)
    → f.function ≡ e.function
    → (e.function ≡ 1 → (j : ℕ) → j ≢ 31 → j ≢ 21 → bit j f.ecx ≡ bit j e.ecx)
    → supports_avx rest' ≡ supports_avx rest
    → supports_sse42 rest' ≡ supports_sse42 rest
    → (supports_avx (f ∷ rest') ≡ supports_avx (e ∷ rest))
      × (supports_sse42 (f ∷ rest') ≡ supports_sse42 (e ∷ rest))
unfolding supports_avx supports_sse42
supports-cons e f rest rest' same bits avx sse = elim (Bool-cases (e.function == 1)) [
  | inl one ↦
      let same_bits = bits ((==_iff e.function 1).0 one) in
      let b20 =
        low_bit 20 f.ecx ∙ (same_bits 20 (omega arith) (omega arith) ∙ sym (low_bit 20 e.ecx)) in
      let b27 =
        low_bit 27 f.ecx ∙ (same_bits 27 (omega arith) (omega arith) ∙ sym (low_bit 27 e.ecx)) in
      let both : bit_and (f.ecx / 2 ^ 27) 3 ≡ bit_and (e.ecx / 2 ^ 27) 3 = omega (
        arith,
        low_bits f.ecx,
        low_bits e.ecx,
        same_bits 27 (omega arith) (omega arith),
        same_bits 28 (omega arith) (omega arith),
      ) in
      rw (same, one, b20, b27, both) (refl, refl)
  | inr other ↦ rw (same, other) (avx, sse)
]

-- The filter changes neither what the host is found to support of AVX nor of SSE4.2.
pub supports-filter_for_android :
    (cpuid : List CpuidEntry)
    → (supports_avx (filter_for_android cpuid) ≡ supports_avx cpuid)
      × (supports_sse42 (filter_for_android cpuid) ≡ supports_sse42 cpuid)
unfolding filter_for_android
supports-filter_for_android [] = (refl, refl)
supports-filter_for_android (e ∷ rest) =
    let (avx, sse) = supports-filter_for_android rest in
    supports-cons e (filter_entry e) rest (filter_for_android rest) (filter_entry-function e)
      (λ leaf. let (_, _, _, same, _, _, _) = filter_entry-features e leaf in same) avx sse
