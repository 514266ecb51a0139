-- ===== src/Base/Text.antt =====
-- Native texts: equality as a Boolean test, and the decimal and hexadecimal print of a number that
-- the source's `format!` makes.
use Prim.Native.Nat.{ℕ, zero, suc, ◌/◌, ◌%◌}
use Prim.Native.String.{String, ◌++◌}
use Prim.Native.Char.{code}
use mathlib.Core.Bool.{Bool, true, false}
use mathlib.Core.List.{List, [], ◌∷◌}
use litedroid.Base.Tests.{ltb, ◌==◌, if◌then◌else◌}
use text.Mathlib.Text.{◌==◌ as str_eq}

infix 50 ◌=t◌
abbrev pub ◌=t◌ : String → String → Bool
s =t t = str_eq s t

infixr 65 ◌<>◌
abbrev pub ◌<>◌ : String → String → String
s <> t = s ++ t

abbrev pub digit : ℕ → String
digit n =
    if n == 0
    then "0"
    else if n == 1
    then "1"
    else if n == 2
    then "2"
    else if n == 3
    then "3"
    else if n == 4
    then "4"
    else if n == 5
    then "5"
    else if n == 6
    then "6"
    else if n == 7
    then "7"
    else if n == 8
    then "8"
    else if n == 9
    then "9"
    else if n == 10
    then "a"
    else if n == 11
    then "b"
    else if n == 12
    then "c"
    else if n == 13
    then "d"
    else if n == 14
    then "e"
    else "f"

-- The digits of `n` in base `b`, the last one first made; the fuel bounds their number.
unfoldable pub show_base : ℕ → ℕ → ℕ → String → String
show_base zero b n out = out
show_base (suc f) b n out =
    let more = show_base f b (n / b) (digit (n % b) ++ out) in
    if ltb n b then digit n ++ out else more

-- A 64-bit number has at most 20 decimal and 16 hexadecimal digits.
unfoldable pub show : ℕ → String
unfolding show_base
show n = show_base 20 10 n ""

unfoldable pub show_hex : ℕ → String
unfolding show_base
show_hex n = "0x" ++ show_base 16 16 n ""

-- The bytes of an ASCII text.
abbrev pub codes : String → List ℕ
codes String.[] = []
codes (String.◌∷◌ c s) = code c ∷ codes s

abbrev pub is_prefix : List ℕ → List ℕ → Bool
is_prefix [] l = true
is_prefix (a ∷ p) [] = false
is_prefix (a ∷ p) (b ∷ l) = if a == b then is_prefix p l else false

-- `str::starts_with`.
abbrev pub starts_with : String → String → Bool
starts_with s p = is_prefix (codes p) (codes s)
