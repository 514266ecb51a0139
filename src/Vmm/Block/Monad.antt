-- ===== src/Vmm/Block/Monad.antt =====
-- Calls that take `&mut VirtioBlock` and the guest memory: what they changed stays changed when they
-- return an error.
use litedroid.Base.{ok, err, panic, out_of_fuel}
use litedroid.Core.Error.{Result}

abbrev pub M : Type 0 → Type 0 → Type 0
M S A = S → Result A × S

module _ {S : Type 0} where
  -- What follows a call, from the outcome of the call and the state that it left.
  abbrev pub resume : {A B : Type 0} → (A → M S B) → Result A × S → Result B × S
  resume f (ok a, s) = f a s
  resume f (err e, s) = (err e, s)
  resume f (panic, s) = (panic, s)
  resume f (out_of_fuel, s) = (out_of_fuel, s)

  infixl 5 ◌>>=◌ ◌>>◌
  abbrev pub ◌>>=◌ : {A B : Type 0} → M S A → (A → M S B) → M S B
  ◌>>=◌ m f s = resume f (m s)

  abbrev pub ◌>>◌ : {B : Type 0} → M S (Unit {0}) → M S B → M S B
  m >> k = m >>= λ _. k

  abbrev pub pure : {A : Type 0} → A → M S A
  pure a s = (ok a, s)

  -- A call that only looks at the state.
  abbrev pub look : {A : Type 0} → (S → Result A) → M S A
  look f s = (f s, s)
