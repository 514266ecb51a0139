-- ===== src/Action.antt =====
-- A call that changes a state and may fail: the state comes back after an error too, since what
-- was written stays written. The daemon and the configuration are chains of such calls.
pub mod Rules
use litedroid.Base.{
  String, Bool, true, false, Outcome, ok, err, panic, out_of_fuel, Option, none, some,
}

abbrev pub Action : Type 0 → Type 0 → Type 0 → Type 0
Action S E A = S → Outcome E A × S

module _ {S E A : Type 0} where
  unfoldable pub pure : A → Action S E A
  pure a s = (ok a, s)

  unfoldable pub fail : E → Action S E A
  fail e s = (err e, s)

  -- An outcome that a call with no effect gave.
  unfoldable pub lift : Outcome E A → Action S E A
  lift r s = (r, s)

  -- `Option::ok_or`.
  unfoldable pub ok_or : Option A → E → Action S E A
  unfolding pure fail
  ok_or none e = fail e
  ok_or (some a) e = pure a

  unfoldable pub gets : (S → A) → Action S E A
  gets f s = (ok (f s), s)

  -- What happens after a call ended, by how it ended.
  abbrev pub resume : {B : Type 0} → (A → Action S E B) → Outcome E A → Action S E B
  resume next (ok a) s = next a s
  resume next (err e) s = (err e, s)
  resume next panic s = (panic, s)
  resume next out_of_fuel s = (out_of_fuel, s)

abbrev pub relabel : {E F A : Type 0} → (E → F) → Outcome E A → Outcome F A
relabel f (ok a) = ok a
relabel f (err e) = err (f e)
relabel f panic = panic
relabel f out_of_fuel = out_of_fuel

-- A call whose outcome the code looks at.
unfoldable pub attempt : {S E F A : Type 0} → Action S E A → Action S F (Outcome E A)
attempt m s = let (r, s) = m s in (ok r, s)

unfoldable pub modify : {S E : Type 0} → (S → S) → Action S E (Unit {0})
modify f s = (ok tt, f s)

-- `if test { return Err(e) }`.
unfoldable pub fail_if : {S E : Type 0} → Bool → E → Action S E (Unit {0})
unfolding fail pure
fail_if true e = fail e
fail_if false e = pure tt

infixl 5 ◌>>=◌ ◌>>◌
-- Opening this opens the calls above too.
unfoldable pub ◌>>=◌ : {S E A B : Type 0} → Action S E A → (A → Action S E B) → Action S E B
unfolding pure fail lift ok_or gets modify fail_if
◌>>=◌ m next s = let (r, s) = m s in resume next r s

abbrev pub ◌>>◌ : {S E B : Type 0} → Action S E (Unit {0}) → Action S E B → Action S E B
m >> k = m >>= λ _. k

unfoldable pub map_err : {S E F A : Type 0} → (E → F) → Action S E A → Action S F A
map_err f m s = let (r, s) = m s in (relabel f r, s)

abbrev pub map : {S E A B : Type 0} → (A → B) → Action S E A → Action S E B
map f m = m >>= λ a. pure (f a)

unfoldable pub when : {S E A : Type 0} → Bool → Action S E A → Action S E A → Action S E A
when true m n = m
when false m n = n
