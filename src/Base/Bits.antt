-- ===== src/Base/Bits.antt =====
-- `|`, `&` and `^` of machine words as arithmetic: disjoint fields, one-bit masks and the complement.
-- The native operations recur on binary digits; one digit is one step here.
use Prim.Native.Nat.{
  ℕ, zero, suc, ◌+◌, ◌-◌, ◌*◌, ◌/◌, ◌%◌, ◌^◌, ◌≤◌, ◌<◌, min, max, digits, bitwise, bit_and, bit_or,
  bit_xor, bit_and-bitwise, bit_or-bitwise, bit_xor-bitwise, differ,
}
use mathlib.Core.Path.{◌≡◌, refl, sym, ap, ◌∙◌}
use native.Mathlib.Omega.{arith}
use native.Mathlib.Nat.{
  pow-suc, le_refl, div-add-mod, mul_comm, mod-lt, mod-eq_of_lt, add-mul-mod_self_left,
  div-div-eq-div-mul,
}

module _ (rest : ℕ → ℕ) (join : ℕ → ℕ → ℕ) where
  -- Any two amounts of fuel that cover the first number give the same digits.
  fuel_agree : (a b m n : ℕ) → a ≤ m → a ≤ n → digits rest join m a b ≡ digits rest join n a b
  fuel_agree zero b zero zero p q = refl
  fuel_agree zero b zero (suc n) p q = refl
  fuel_agree zero b (suc m) zero p q = refl
  fuel_agree zero b (suc m) (suc n) p q = refl
  fuel_agree (suc a) b zero n p q = absurd (omega (arith, p))
  fuel_agree (suc a) b (suc m) zero p q = absurd (omega (arith, q))
  fuel_agree (suc a) b (suc m) (suc n) p q =
      let halved = fuel_agree (suc a / 2) (b / 2) m n (omega (arith, p)) (omega (arith, q)) in
      rw halved

  -- The lowest digit of an operation that means `bitwise`, from what it does at zero.
  lowest_digit :
      (op : ℕ → ℕ → ℕ)
      → ((a b : ℕ) → op a b ≡ bitwise rest join a b)
      → ((b : ℕ) → rest b ≡ rest (b / 2) * 2 + join 0 (b % 2))
      → (a b : ℕ) → op a b ≡ op (a / 2) (b / 2) * 2 + join (a % 2) (b % 2)
  lowest_digit op means at_zero zero b =
      means 0 b ∙ (at_zero b ∙ ap (λ (t : ℕ). t * 2 + join 0 (b % 2)) (sym (means 0 (b / 2))))
  lowest_digit op means at_zero (suc a) b =
      let half = suc a / 2 in
      let same = fuel_agree half (b / 2) a half (omega arith) (le_refl _) in
      omega (arith, means (suc a) b, means half (b / 2), same)

pub bit_xor_step : (x y : ℕ) → bit_xor x y ≡ bit_xor (x / 2) (y / 2) * 2 + differ (x % 2) (y % 2)
bit_xor_step = lowest_digit (λ y. y) differ bit_xor bit_xor-bitwise (λ b. omega arith)

pub bit_or_step : (x y : ℕ) → bit_or x y ≡ bit_or (x / 2) (y / 2) * 2 + max (x % 2) (y % 2)
bit_or_step = lowest_digit (λ y. y) max bit_or bit_or-bitwise (λ b. omega arith)

pub bit_and_step : (x y : ℕ) → bit_and x y ≡ bit_and (x / 2) (y / 2) * 2 + min (x % 2) (y % 2)
bit_and_step = lowest_digit (λ y. 0) min bit_and bit_and-bitwise (λ b. omega arith)

differ-one : (x : ℕ) → x < 2 → differ x 1 ≡ 1 - x
differ-one zero h = refl
differ-one (suc zero) h = refl
differ-one (suc (suc x)) h = absurd (omega arith)

one-le-pow_two : (k : ℕ) → 1 ≤ 2 ^ k
one-le-pow_two zero = omega arith
one-le-pow_two (suc k) = omega (arith, one-le-pow_two k, pow-suc 2 k)

-- The complement of a `k`-bit word.
pub bit_xor_mask : (k a : ℕ) → a < 2 ^ k → bit_xor a (2 ^ k - 1) ≡ 2 ^ k - 1 - a
bit_xor_mask zero zero h = refl
bit_xor_mask zero (suc a) h = absurd (omega arith)
bit_xor_mask (suc k) a h =
    let half : (2 ^ suc k - 1) / 2 ≡ 2 ^ k - 1 = omega (arith, pow-suc 2 k, one-le-pow_two k) in
    let odd : (2 ^ suc k - 1) % 2 ≡ 1 = omega (arith, pow-suc 2 k, one-le-pow_two k) in
    bit_xor_step a (2 ^ suc k - 1)
    ∙ rw
        (
          half,
          odd,
          bit_xor_mask k (a / 2) (omega (arith, pow-suc 2 k)),
          differ-one (a % 2) (omega arith),
        )
        (omega (arith, pow-suc 2 k))

times_pow : (q k : ℕ) → q * 2 ^ suc k ≡ q * 2 ^ k * 2
times_pow q k = omega (arith, ap (λ (t : ℕ). q * t) (pow-suc 2 k))

pub bit_or-zero : (n a : ℕ) → a ≤ n → bit_or a 0 ≡ a
bit_or-zero n zero h = refl
bit_or-zero zero (suc a) h = absurd (omega arith)
bit_or-zero (suc n) (suc a) h =
    omega (arith, bit_or_step (suc a) 0, bit_or-zero n (suc a / 2) (omega arith))

-- A field put under bits that are clear.
pub bit_or_disjoint : (k q r : ℕ) → r < 2 ^ k → bit_or (q * 2 ^ k) r ≡ q * 2 ^ k + r
bit_or_disjoint zero q r h = ground (arith, bit_or-zero (q * 1) (q * 1))
bit_or_disjoint (suc k) q r h =
    let half : q * 2 ^ suc k / 2 ≡ q * 2 ^ k = omega (arith, times_pow q k) in
    let even : q * 2 ^ suc k % 2 ≡ 0 = omega (arith, times_pow q k) in
    bit_or_step (q * 2 ^ suc k) r
    ∙ rw (half, even, bit_or_disjoint k q (r / 2) (omega (arith, pow-suc 2 k)))
        (omega (arith, times_pow q k))

pub bit_and-zero : (bound x : ℕ) → x ≤ bound → bit_and x 0 ≡ 0
bit_and-zero bound zero h = refl
bit_and-zero zero (suc x) h = absurd (omega (arith, h))
bit_and-zero (suc bound) (suc x) h =
    let halved = bit_and-zero bound (suc x / 2) (omega (arith, h)) in
    omega (arith, halved, bit_and_step (suc x) 0)

mod_double : (a p : ℕ) → 1 ≤ p → a / 2 % p * 2 + min (a % 2) 1 ≡ a % (p * 2)
mod_double a p h =
    let r = a / 2 % p * 2 + a % 2 in
    let split : a ≡ r + p * 2 * (a / 2 / p) =
      omega (arith, div-add-mod (a / 2) p, mul_comm (p * 2) (a / 2 / p)) in
    let small : r < p * 2 = omega (arith, mod-lt (a / 2) h) in
    sym (
      ap (λ (t : ℕ). t % (p * 2)) split
      ∙ add-mul-mod_self_left r (p * 2) (a / 2 / p)
      ∙ mod-eq_of_lt small
      ∙ omega arith)

-- The low `k` bits of a word.
pub bit_and_mask : (k a : ℕ) → bit_and a (2 ^ k - 1) ≡ a % 2 ^ k
bit_and_mask zero a = bit_and-zero a a (le_refl a) ∙ omega arith
bit_and_mask (suc k) a =
    let half : (2 ^ suc k - 1) / 2 ≡ 2 ^ k - 1 = omega (arith, pow-suc 2 k, one-le-pow_two k) in
    let odd : (2 ^ suc k - 1) % 2 ≡ 1 = omega (arith, pow-suc 2 k, one-le-pow_two k) in
    bit_and_step a (2 ^ suc k - 1)
    ∙ rw (half, odd, bit_and_mask k (a / 2), pow-suc 2 k) (mod_double a (2 ^ k) (one-le-pow_two k))

one_part : (a : ℕ) → a / 1 ≡ a
one_part a = omega arith

-- The bits from `k` up, of a word whose mask has `j` ones there.
pub bit_and_high : (j k a : ℕ) → bit_and a ((2 ^ j - 1) * 2 ^ k) ≡ a / 2 ^ k % 2 ^ j * 2 ^ k
bit_and_high j zero a =
    let whole : a / 2 ^ 0 ≡ a = one_part a in
    ap (λ (t : ℕ). bit_and a t) (omega arith) ∙ bit_and_mask j a ∙ rw whole (omega arith)
bit_and_high j (suc k) a =
    let half : (2 ^ j - 1) * 2 ^ suc k / 2 ≡ (2 ^ j - 1) * 2 ^ k =
      omega (arith, times_pow (2 ^ j - 1) k) in
    let even : (2 ^ j - 1) * 2 ^ suc k % 2 ≡ 0 = omega (arith, times_pow (2 ^ j - 1) k) in
    let shift : a / 2 / 2 ^ k ≡ a / 2 ^ suc k =
      div-div-eq-div-mul a 2 (2 ^ k) ∙ ap (λ (t : ℕ). a / t) (omega (arith, pow-suc 2 k)) in
    bit_and_step a ((2 ^ j - 1) * 2 ^ suc k)
    ∙ rw (half, even, bit_and_high j k (a / 2), shift)
        (omega (arith, times_pow (a / 2 ^ suc k % 2 ^ j) k))
