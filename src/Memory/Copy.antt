-- ===== src/Memory/Copy.antt =====
-- `copy_nonoverlapping` between a buffer and a byte-addressed region.
use litedroid.Base.{
  ℕ, zero, suc, ◌+◌, ◌≤◌, ◌<◌, ◌≡◌, ◌⊎◌, inl, refl, ap, List, [], ◌∷◌, length, IsByte, IsBytes,
  ◌==◌, if◌then◌else◌, ◌≢◌, arith,
}

unfoldable pub update : (ℕ → ℕ) → ℕ → ℕ → ℕ → ℕ
update f a v i = if i == a then v else f i

unfoldable pub copy_in : (ℕ → ℕ) → ℕ → List ℕ → ℕ → ℕ
unfolding update
copy_in f a [] = f
copy_in f a (b ∷ bs) = copy_in (update f a b) (a + 1) bs

unfoldable pub bytes_at : (ℕ → ℕ) → ℕ → ℕ → List ℕ
bytes_at f a zero = []
bytes_at f a (suc n) = f a ∷ bytes_at f (a + 1) n

update_self : (f : ℕ → ℕ) (a v : ℕ) → update f a v a ≡ v
unfolding update
update_self f a v = ground arith

update_ne : (f : ℕ → ℕ) (a v i : ℕ) → i ≢ a → update f a v i ≡ f i
unfolding update
update_ne f a v i h = ground arith

pub copy_in_outside :
    (f : ℕ → ℕ) (a : ℕ) (bs : List ℕ) (i : ℕ)
    → (i < a) ⊎ (a + length bs ≤ i)
    → copy_in f a bs i ≡ f i
unfolding copy_in
copy_in_outside f a [] i h = refl
copy_in_outside f a (b ∷ bs) i h =
    ground (arith, copy_in_outside (update f a b) (a + 1) bs i (ground arith), update_ne f a b i)

pub length-bytes_at : (f : ℕ → ℕ) (a n : ℕ) → length (bytes_at f a n) ≡ n
unfolding bytes_at
length-bytes_at f a zero = refl
length-bytes_at f a (suc n) = ap suc (length-bytes_at f (a + 1) n)

pub bytes_at_agree :
    (f g : ℕ → ℕ) (a n : ℕ)
    → ((i : ℕ) → a ≤ i → i < a + n → f i ≡ g i)
    → bytes_at f a n ≡ bytes_at g a n
unfolding bytes_at
bytes_at_agree f g a zero h = refl
bytes_at_agree f g a (suc n) h = cc (
  h a (omega arith) (omega arith),
  bytes_at_agree f g (a + 1) n (λ i p q. h i (omega arith) (omega arith)),
)

-- What was copied in is read back.
pub bytes_at-copy_in :
    (f : ℕ → ℕ) (a : ℕ) (bs : List ℕ) → bytes_at (copy_in f a bs) a (length bs) ≡ bs
unfolding bytes_at copy_in
bytes_at-copy_in f a [] = refl
bytes_at-copy_in f a (b ∷ bs) = cc (
  copy_in_outside (update f a b) (a + 1) bs a (inl (omega arith)),
  update_self f a b,
  bytes_at-copy_in (update f a b) (a + 1) bs,
)

pub bytes_at-IsBytes : (f : ℕ → ℕ) (a n : ℕ) → ((i : ℕ) → IsByte (f i)) → IsBytes (bytes_at f a n)
unfolding bytes_at
bytes_at-IsBytes f a zero h = tt
bytes_at-IsBytes f a (suc n) h = (h a, bytes_at-IsBytes f (a + 1) n h)

update-IsByte :
    (f : ℕ → ℕ) (a v : ℕ) → ((i : ℕ) → IsByte (f i)) → IsByte v → (i : ℕ) → IsByte (update f a v i)
unfolding update
update-IsByte f a v h k i = ground (arith, h i)

pub copy_in-IsByte :
    (f : ℕ → ℕ) (a : ℕ) (bs : List ℕ)
    → ((i : ℕ) → IsByte (f i))
    → IsBytes bs
    → (i : ℕ) → IsByte (copy_in f a bs i)
unfolding copy_in
copy_in-IsByte f a [] h k i = h i
copy_in-IsByte f a (b ∷ bs) h (p, k) i =
    copy_in-IsByte (update f a b) (a + 1) bs (update-IsByte f a b h p) k i
