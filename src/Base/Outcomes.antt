-- ===== src/Base/Outcomes.antt =====
-- The outcome of a Rust call that returns a `Result`: a value, an error, or a panic (a slice out of
-- range or a remainder by zero). `out_of_fuel` is no outcome of the program: a loop of the model
-- ran out of its bound.
use mathlib.Core.Path.{◌≡◌, refl}
use mathlib.Core.Logic.{◌≢◌}

pub data Outcome {ℓ κ} (E : Type ℓ) (A : Type κ) : Type (ℓ ⊔ κ) where
  ok : A → Outcome E A
  err : E → Outcome E A
  panic : Outcome E A
  out_of_fuel : Outcome E A

infixl 5 ◌>>=◌ ◌>>◌
abbrev pub ◌>>=◌ {ℓ κ μ} :
    {E : Type ℓ} {A : Type κ} {B : Type μ} → Outcome E A → (A → Outcome E B) → Outcome E B
panic >>= next = panic
out_of_fuel >>= next = out_of_fuel
err e >>= next = err e
ok x >>= next = next x

abbrev pub ◌>>◌ {ℓ κ} : {E : Type ℓ} {B : Type κ} → Outcome E (Unit {0}) → Outcome E B → Outcome E B
m >> k = m >>= λ _. k

-- A chain of two calls succeeds only if both do.
pub >>=-eq-ok {ℓ κ μ} :
    {E : Type ℓ} {A : Type κ} {B : Type μ} (first : Outcome E A) (next : A → Outcome E B) {v : B}
    → (first >>= next) ≡ ok v
    → (x : A) × (first ≡ ok x) × (next x ≡ ok v)
>>=-eq-ok (ok x) next both = (x, refl, both)
>>=-eq-ok (err e) next both = cc
>>=-eq-ok panic next both = cc
>>=-eq-ok out_of_fuel next both = cc

-- A value or an error: no panic, and no loop that the model cut short.
pub data IsPlain {ℓ κ} {E : Type ℓ} {A : Type κ} : Outcome E A → Type (ℓ ⊔ κ) where
  value : (a : A) → IsPlain (ok a)
  error : (e : E) → IsPlain (err e)

pub IsPlain->>= {ℓ κ μ} :
    {E : Type ℓ} {A : Type κ} {B : Type μ} (m : Outcome E A) (f : A → Outcome E B)
    → IsPlain m
    → ((a : A) → IsPlain (f a))
    → IsPlain (m >>= f)
IsPlain->>= (ok a) f p h = h a
IsPlain->>= (err e) f p h = error e
IsPlain->>= panic f p h = elim p [ ]
IsPlain->>= out_of_fuel f p h = elim p [ ]

pub IsPlain-ends {ℓ κ} : {E : Type ℓ} {A : Type κ} (m : Outcome E A) → IsPlain m → m ≢ out_of_fuel
IsPlain-ends (ok a) p e = cc
IsPlain-ends (err x) p e = cc
IsPlain-ends panic p e = elim p [ ]
IsPlain-ends out_of_fuel p e = elim p [ ]

pub IsPlain-ne-panic {ℓ κ} : {E : Type ℓ} {A : Type κ} (m : Outcome E A) → IsPlain m → m ≢ panic
IsPlain-ne-panic (ok a) p e = cc
IsPlain-ne-panic (err x) p e = cc
IsPlain-ne-panic panic p e = elim p [ ]
IsPlain-ne-panic out_of_fuel p e = elim p [ ]
