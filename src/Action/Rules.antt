-- ===== src/Action/Rules.antt =====
-- Rules for what a chain of calls does to the state, however it ends, one for each way to build
-- a chain.
use litedroid.Base.{
  ◌≡◌, refl, subst, Outcome, ok, err, panic, out_of_fuel, Bool, true, false, Option, none, some,
}
use litedroid.Action.{
  Action, pure, fail, lift, ok_or, gets, resume, ◌>>=◌, map_err, fail_if, when, attempt,
}

-- From every state in `P` the call ends in a state in `Q`.
pub record Ensures {S E A : Type 0} (P Q : S → Type 0) (m : Action S E A) : Type 0 where
  pub at : (s : S) → P s → Q (m s).1

abbrev pub Keeps : {S E A : Type 0} → (S → Type 0) → Action S E A → Type 0
Keeps P m = Ensures P P m

module _ {S E A B : Type 0} {P Q : S → Type 0} (stop : (s : S) → P s → Q s) where
  resume-Ensures :
      (next : A → Action S E B) (r : Outcome E A)
      → ((a : A) → Ensures P Q (next a))
      → Ensures P Q (resume next r)
  resume-Ensures next (ok a) h = h a
  resume-Ensures next (err e) h = record { at = stop }
  resume-Ensures next panic h = record { at = stop }
  resume-Ensures next out_of_fuel h = record { at = stop }

  -- A chain whose first call keeps `P`, and which may stop at any state in `P`.
  pub >>=-Ensures :
      (m : Action S E A) (next : A → Action S E B)
      → Keeps P m
      → ((a : A) → Ensures P Q (next a))
      → Ensures P Q (m >>= next)
  unfolding ◌>>=◌
  >>=-Ensures m next keep h = record {
    at = λ s p. let (r, s') = m s in (resume-Ensures next r h).at s' (keep.at s p);
  }

module _ {S E A : Type 0} {P : S → Type 0} where
  pub Keeps-pure : (a : A) → Keeps P (pure {S = S} {E = E} a)
  unfolding pure
  Keeps-pure a = record { at = λ s h. h }

  pub Keeps-fail : (e : E) → Keeps P (fail {S = S} {A = A} e)
  unfolding fail
  Keeps-fail e = record { at = λ s h. h }

  pub Keeps-lift : (r : Outcome E A) → Keeps P (lift {S = S} r)
  unfolding lift
  Keeps-lift r = record { at = λ s h. h }

  pub Keeps-gets : (f : S → A) → Keeps P (gets {E = E} f)
  unfolding gets
  Keeps-gets f = record { at = λ s h. h }

  pub Keeps-ok_or : (o : Option A) (e : E) → Keeps P (ok_or {S = S} o e)
  unfolding ok_or
  Keeps-ok_or none e = Keeps-fail e
  Keeps-ok_or (some a) e = Keeps-pure a

  pub Keeps-when : (b : Bool) (m n : Action S E A) → Keeps P m → Keeps P n → Keeps P (when b m n)
  unfolding when
  Keeps-when true m n km kn = km
  Keeps-when false m n km kn = kn

  pub Keeps-map_err :
      {F : Type 0} (f : E → F) (m : Action S E A) → Keeps P m → Keeps P (map_err f m)
  unfolding map_err
  Keeps-map_err f m keep = record { at = keep.at }

  pub Keeps-attempt : {F : Type 0} (m : Action S E A) → Keeps P m → Keeps P (attempt {F = F} m)
  unfolding attempt
  Keeps-attempt m keep = record { at = keep.at }

  pub Keeps-bind :
      {B : Type 0} (m : Action S E A) (next : A → Action S E B)
      → Keeps P m
      → ((a : A) → Keeps P (next a))
      → Keeps P (m >>= next)
  Keeps-bind = >>=-Ensures (λ s h. h)

module _ {S E : Type 0} {P : S → Type 0} where
  pub Keeps-fail_if : (b : Bool) (e : E) → Keeps P (fail_if {S = S} b e)
  unfolding fail_if
  Keeps-fail_if true e = Keeps-fail e
  Keeps-fail_if false e = Keeps-pure tt

pub ruleset keeps_rules = (
  Keeps-pure, Keeps-fail, Keeps-lift, Keeps-gets, Keeps-ok_or, Keeps-when, Keeps-map_err,
  Keeps-fail_if, Keeps-attempt, Keeps-bind,
)

-- If the call succeeds, it ends in a state in `Q`.
pub record Leaves {S E A : Type 0} (Q : S → Type 0) (m : Action S E A) : Type 0 where
  pub at : (s s' : S) (a : A) → m s ≡ (ok a, s') → Q s'

module _ {S E A B : Type 0} {Q : S → Type 0} where
  resume-Leaves :
      (next : A → Action S E B) (r : Outcome E A)
      → ((a : A) → Leaves Q (next a))
      → Leaves Q (resume next r)
  resume-Leaves next (ok a) h = h a
  resume-Leaves next (err e) h = record { at = λ s s' b x. cc }
  resume-Leaves next panic h = record { at = λ s s' b x. cc }
  resume-Leaves next out_of_fuel h = record { at = λ s s' b x. cc }

  -- What a chain leaves is what its last call leaves.
  pub Leaves-bind :
      (m : Action S E A) (next : A → Action S E B)
      → ((a : A) → Leaves Q (next a))
      → Leaves Q (m >>= next)
  unfolding ◌>>=◌
  Leaves-bind m next h = record {
    at = λ s s' b e. (resume-Leaves next (m s).0 h).at (m s).1 s' b e;
  }

module _ {S E A B : Type 0} where
  -- A chain that succeeds: what its first call gave and left.
  pub >>=-eq-ok :
      (m : Action S E A) (next : A → Action S E B) (s s' : S) (b : B)
      → (m >>= next) s ≡ (ok b, s')
      → (a : A) × (t : S) × (m s ≡ (ok a, t)) × (next a t ≡ (ok b, s'))
  unfolding ◌>>=◌
  >>=-eq-ok m next s s' b e = resumed (m s) refl e
    where
      resumed :
          (o : Outcome E A × S)
          → m s ≡ o
          → resume next o.0 o.1 ≡ (ok b, s')
          → (a : A) × (t : S) × (m s ≡ (ok a, t)) × (next a t ≡ (ok b, s'))
      resumed (ok a, t) same e = (a, t, same, e)
      resumed (err x, t) same e = cc
      resumed (panic, t) same e = cc
      resumed (out_of_fuel, t) same e = cc

-- If the call succeeds, `Q` holds of its value and the state it ends in.
pub record Ends {S E A : Type 0} (Q : A → S → Type 0) (m : Action S E A) : Type 0 where
  pub at : (s s' : S) (a : A) → m s ≡ (ok a, s') → Q a s'

module _ {S E A B : Type 0} {Q : B → S → Type 0} where
  resume-Ends :
      (next : A → Action S E B) (r : Outcome E A)
      → ((a : A) → Ends Q (next a))
      → Ends Q (resume next r)
  resume-Ends next (ok a) h = h a
  resume-Ends next (err e) h = record { at = λ s s' b x. cc }
  resume-Ends next panic h = record { at = λ s s' b x. cc }
  resume-Ends next out_of_fuel h = record { at = λ s s' b x. cc }

  pub Ends-bind :
      (m : Action S E A) (next : A → Action S E B)
      → ((a : A) → Ends Q (next a))
      → Ends Q (m >>= next)
  unfolding ◌>>=◌
  Ends-bind m next h = record { at = λ s s' b e. (resume-Ends next (m s).0 h).at (m s).1 s' b e }

  -- A test that precedes the last call.
  pub Ends-test :
      (r : Outcome E A) (next : A → Action S E B)
      → ((a : A) → r ≡ ok a → Ends Q (next a))
      → Ends Q (lift r >>= next)
  unfolding ◌>>=◌
  Ends-test (ok a) next h = record { at = (h a refl).at }
  Ends-test (err e) next h = record { at = λ s s' b x. cc }
  Ends-test panic next h = record { at = λ s s' b x. cc }
  Ends-test out_of_fuel next h = record { at = λ s s' b x. cc }

  -- A last call, and the value that is given after it.
  pub Ends-last :
      (m : Action S E A) (b : B)
      → ((a : A) (s s' : S) → m s ≡ (ok a, s') → Q b s')
      → Ends Q (m >>= λ _. pure b)
  unfolding pure
  Ends-last m b h = record {
    at = λ s s' b' e.
        let (a, t, done, given) = >>=-eq-ok m (λ _. pure b) s s' b' e in
        let same : (b, t) ≡ (b', s') = cc in subst (λ (p : B × S). Q p.0 p.1) same (h a s t done);
  }

module _ {S E A : Type 0} {Q : A → S → Type 0} where
  pub Ends-pure : (a : A) → ((s : S) → Q a s) → Ends Q (pure {S = S} {E = E} a)
  unfolding pure
  Ends-pure a q = record {
    at = λ s s' b e. let same : a ≡ b = cc in subst (λ c. Q c s') same (q s');
  }

module _ {S E A B : Type 0} {P : A → S → Type 0} {Q : B → S → Type 0} where
  -- What is known of the first call, for the chain after it.
  pub Ends-after :
      (m : Action S E A) (next : A → Action S E B)
      → Ends P m
      → ((a : A) (t : S) → P a t → (s' : S) (b : B) → next a t ≡ (ok b, s') → Q b s')
      → Ends Q (m >>= next)
  Ends-after m next first then_next = record {
    at = λ s s' b e.
        let (a, t, done, rest) = >>=-eq-ok m next s s' b e in
        then_next a t (first.at s t a done) s' b rest;
  }

module _ {S E A B : Type 0} {P : A → Type 0} {Q : B → S → Type 0} where
  -- The same for a property of the value alone.
  pub Ends-known :
      (m : Action S E A) (next : A → Action S E B)
      → Ends (λ a s. P a) m
      → ((a : A) → P a → Ends Q (next a))
      → Ends Q (m >>= next)
  Ends-known m next first rest = Ends-after m next first (λ a t p s' b e. (rest a p).at t s' b e)
