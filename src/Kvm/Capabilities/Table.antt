-- ===== src/Kvm/Capabilities/Table.antt =====
-- What the table of capabilities says, whatever the order in which the map gives its entries.
use mathlib.Core.List.{Permᴰ}
use text.Mathlib.TextEquality.{eq_iff}
use litedroid.Base.{
  ◌≡◌, refl, ap, ◌∙◌, String, ◌=t◌, Bool, true, false, ◌&&◌, ◌||◌, if◌then◌else◌, Option, none,
  some, List, [], ◌∷◌, All, arith,
}
use litedroid.Kvm.Capabilities.{
  Cap, probes, probe, new, find_flag, is_available, gather, insert, sort, summary,
}
use litedroid.Kvm.Capabilities.Order.{insert-insert}

-- The names with one flag, sorted.
abbrev named : Bool → List (String × Bool) → List String
named wanted l = sort (gather wanted l)

named-cons :
    (wanted : Bool) (e : String × Bool) (l m : List (String × Bool))
    → named wanted l ≡ named wanted m
    → named wanted (e ∷ l) ≡ named wanted (e ∷ m)
unfolding gather sort
named-cons true (n, true) l m h = ap (insert n) h
named-cons true (n, false) l m h = h
named-cons false (n, true) l m h = h
named-cons false (n, false) l m h = ap (insert n) h

named-swap :
    (wanted : Bool) (e f : String × Bool) (l : List (String × Bool))
    → named wanted (e ∷ f ∷ l) ≡ named wanted (f ∷ e ∷ l)
unfolding gather sort
named-swap true (a, true) (b, true) l = insert-insert a b _
named-swap true (a, true) (b, false) l = refl
named-swap true (a, false) (b, true) l = refl
named-swap true (a, false) (b, false) l = refl
named-swap false (a, true) (b, true) l = refl
named-swap false (a, true) (b, false) l = refl
named-swap false (a, false) (b, true) l = refl
named-swap false (a, false) (b, false) l = insert-insert a b _

named-perm :
    (wanted : Bool) {l m : List (String × Bool)} → Permᴰ l m → named wanted l ≡ named wanted m
named-perm wanted Permᴰ.nil = refl
named-perm wanted (Permᴰ.cons {b = b} {l₁ = l} {l₂ = m} e d) =
    rw e (named-cons wanted b l m (named-perm wanted d))
named-perm wanted (Permᴰ.swap {a' = x} {b' = y} {l = l} e f) = rw (e, f) (named-swap wanted y x l)
named-perm wanted (Permᴰ.trans d e) = named-perm wanted d ∙ named-perm wanted e

-- The summary is the same for every order in which the map gives its entries.
pub summary-order :
    (order : List (String × Bool) → List (String × Bool)) (check : Cap → Bool)
    → ((l : List (String × Bool)) → Permᴰ (order l) l)
    → summary (new order check) ≡ summary (new (λ l. l) check)
unfolding summary new
summary-order order check permutes =
    rw
      (
        named-perm true (permutes (probe check probes)),
        named-perm false (permutes (probe check probes)),
      )
      refl

-- Whether a name is among the entries.
abbrev has : String → List (String × Bool) → Bool
has name [] = false
has name ((n, available) ∷ rest) = name =t n || has name rest

has-perm : (name : String) {l m : List (String × Bool)} → Permᴰ l m → has name l ≡ has name m
has-perm name Permᴰ.nil = refl
has-perm name (Permᴰ.cons {b = b} e d) =
    rw e (ap (λ (h : Bool). name =t b.0 || h) (has-perm name d))
has-perm name (Permᴰ.swap {a' = x} {b' = y} {l = l} e f) = rw (e, f) (ground arith)
has-perm name (Permᴰ.trans d e) = has-perm name d ∙ has-perm name e

-- The capability of a name.
abbrev cap_of : String → List (String × Cap) → Option Cap
cap_of name [] = none
cap_of name ((n, cap) ∷ rest) =
    let later = cap_of name rest in if name =t n then some cap else later

abbrev answer : (check : Cap → Bool) → Option Cap → Bool
answer check none = false
answer check (some cap) = check cap

-- What is found under a name is what the kernel said of its capability.
module _ (flag : String → Bool) where
  abbrev Tells : String × Bool → Type 0
  Tells e = e.1 ≡ flag e.0

  All-perm : {l m : List (String × Bool)} → Permᴰ l m → All Tells m → All Tells l
  All-perm Permᴰ.nil h = h
  All-perm (Permᴰ.cons e d) (t, h) = (rw e t, All-perm d h)
  All-perm (Permᴰ.swap e f) (t, (u, h)) = (rw e u, (rw f t, h))
  All-perm (Permᴰ.trans d e) h = All-perm d (All-perm e h)

  find_flag-has :
      (name : String) (l : List (String × Bool))
      → All Tells l
      → find_flag name l ≡ has name l && flag name
  unfolding find_flag
  find_flag-has name [] h = refl
  find_flag-has name ((n, available) ∷ l) (t, h) =
      let rest = find_flag-has name l h in
      let same : (name =t n) ≡ true → flag name ≡ flag n = λ e. ap flag ((eq_iff name n).0 e) in
      ground arith

module _ (check : Cap → Bool) where
  abbrev flag_of : String → Bool
  flag_of name = answer check (cap_of name probes)

  has-probe :
      (name : String) (table : List (String × Cap))
      → has name (probe check table) && answer check (cap_of name table)
        ≡ answer check (cap_of name table)
  unfolding probe
  has-probe name [] = refl
  has-probe name ((n, cap) ∷ table) = let rest = has-probe name table in ground arith

  probes-All : All (Tells flag_of) (probe check probes)
  unfolding probe probes
  probes-All = ground arith

  -- A capability is available if its name is one of the names that are probed and the kernel has
  -- it, whatever the order in which the map gives its entries.
  pub is_available-probed :
      (order : List (String × Bool) → List (String × Bool))
      → ((l : List (String × Bool)) → Permᴰ (order l) l)
      → (name : String) → is_available (new order check) name ≡ answer check (cap_of name probes)
  unfolding is_available new
  is_available-probed order permutes name =
      let shuffled = permutes (probe check probes) in
      find_flag-has flag_of name (order (probe check probes)) (All-perm flag_of shuffled probes-All)
      ∙ ap (λ (h : Bool). h && flag_of name) (has-perm name shuffled)
      ∙ has-probe name probes
