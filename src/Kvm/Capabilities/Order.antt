-- ===== src/Kvm/Capabilities/Order.antt =====
-- `sort` forgets the order of a list.
use Prim.Native.Char.{code}
use text.Mathlib.TextEquality.{Char-path}
use litedroid.Base.{◌≡◌, refl, String, true, false, List, [], ◌∷◌, arith}
use litedroid.Kvm.Capabilities.{str_le, insert}

str_le_total : (s t : String) → str_le s t ≡ false → str_le t s ≡ true
unfolding str_le
str_le_total String.[] t e = cc
str_le_total (String.◌∷◌ c s) String.[] e = refl
str_le_total (String.◌∷◌ c s) (String.◌∷◌ d t) e = let rest = str_le_total s t in ground arith

str_le_antisym : (s t : String) → str_le s t ≡ true → str_le t s ≡ true → s ≡ t
unfolding str_le
str_le_antisym String.[] String.[] e f = refl
str_le_antisym String.[] (String.◌∷◌ d t) e f = cc
str_le_antisym (String.◌∷◌ c s) String.[] e f = cc
str_le_antisym (String.◌∷◌ c s) (String.◌∷◌ d t) e f =
    let same : code c ≡ code d = ground arith in
    let rest : s ≡ t = str_le_antisym s t (ground arith) (ground arith) in
    rw (Char-path c d same, rest) refl

str_le_trans : (s t u : String) → str_le s t ≡ true → str_le t u ≡ true → str_le s u ≡ true
unfolding str_le
str_le_trans String.[] t u e f = refl
str_le_trans (String.◌∷◌ c s) String.[] u e f = cc
str_le_trans (String.◌∷◌ c s) (String.◌∷◌ d t) String.[] e f = cc
str_le_trans (String.◌∷◌ c s) (String.◌∷◌ d t) (String.◌∷◌ x u) e f =
    let rest = str_le_trans s t u in ground arith

pub insert-insert : (a b : String) (l : List String) → insert a (insert b l) ≡ insert b (insert a l)
unfolding insert
insert-insert a b [] = let total = str_le_total a b in let same = str_le_antisym a b in ground arith
insert-insert a b (t ∷ l) =
    let total = str_le_total a b in
    let same = str_le_antisym a b in
    let later = str_le_trans a b t in
    let later' = str_le_trans b a t in let rest = insert-insert a b l in ground arith
