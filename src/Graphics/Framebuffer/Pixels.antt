-- ===== src/Graphics/Framebuffer/Pixels.antt =====
-- What a framebuffer holds after a pixel is set and after it is filled.
use litedroid.Base.{
  ℕ, ◌+◌, ◌*◌, ◌^◌, ◌≤◌, ◌<◌, ◌≡◌, ◌≢◌, ◌⊎◌, inl, inr, refl, sym, ap, ◌∙◌, List, some, length,
  get_elem?, set, false, ok, ltb, arith, Bool-cases, ltb→lt, ltb-false, lt→ltb, length-set,
  get_elem?-set_self, get_elem?-set_ne,
}
use native.Mathlib.Nat.{add-zero}
use litedroid.Graphics.Framebuffer.{
  Framebuffer, Rgba, store, fetch, pixel_index, out_of_range, store_pixel, fetch_pixel, set_pixel,
  get_pixel,
}

-- A framebuffer whose pixels fill it; a `Vec` of bytes is shorter than 2 ^ 63.
pub record IsFramebuffer (fb : Framebuffer) : Type 0 where
  pub sized : length fb.pixels ≡ fb.width * fb.height * 4
  pub fits : fb.width * fb.height * 4 < 2 ^ 63

pixel_inside : (w h x y : ℕ) → x < w → y < h → (y * w + x) * 4 + 4 ≤ w * h * 4
pixel_inside w h x y p q = grind arith

row_before : (w y y' : ℕ) → y < y' → y * w + w ≤ y' * w
row_before w y y' h = grind arith

pixel_apart : (w x y x' y' : ℕ) → x < w → x' < w → y * w + x ≡ y' * w + x' → (x ≡ x') × (y ≡ y')
pixel_apart w x y x' y' p q e = elim (Bool-cases (ltb y y')) [
  | inl l ↦ absurd (omega (arith, row_before w y y' (ltb→lt y y' l)))
  | inr nl ↦ elim (Bool-cases (ltb y' y)) [
    | inl l ↦ absurd (omega (arith, row_before w y' y (ltb→lt y' y l)))
    | inr nl' ↦
        let same : y ≡ y' = omega (arith, ltb-false y y' nl, ltb-false y' y nl') in
        (omega (arith, ap (λ (z : ℕ). z * w) same), same)
  ]
]

-- The bytes after the four stores of `set_pixel`.
abbrev stored : List ℕ → (idx : ℕ) → Rgba → List ℕ
stored p i c = set (set (set (set p i c.r) (i + 1) c.g) (i + 2) c.b) (i + 3) c.a

store-ok : (xs : List ℕ) (i v : ℕ) → i < length xs → store xs i v ≡ ok (set xs i v)
unfolding store
store-ok xs i v h = rw (lt→ltb i (length xs) h) refl

length-stored : (p : List ℕ) (i : ℕ) (c : Rgba) → length (stored p i c) ≡ length p
length-stored p i c =
    length-set _ (i + 3) c.a
    ∙ (length-set _ (i + 2) c.b ∙ (length-set _ (i + 1) c.g ∙ length-set p i c.r))

store_pixel-ok :
    (p : List ℕ) (i : ℕ) (c : Rgba) → i + 4 ≤ length p → store_pixel p i c ≡ ok (stored p i c)
unfolding store_pixel
store_pixel-ok p i c h =
    rw
      (
        store-ok p i c.r (omega arith),
        store-ok (set p i c.r) (i + 1) c.g (rw length-set (omega arith)),
        store-ok (set (set p i c.r) (i + 1) c.g) (i + 2) c.b
            (rw (length-set, length-set) (omega arith)),
      )
      (store-ok _ (i + 3) c.a (rw (length-set, length-set, length-set) (omega arith)))

past : (xs : List ℕ) (i v j : ℕ) → i ≢ j → get_elem? (set xs i v) j ≡ get_elem? xs j
past xs i v j h = get_elem?-set_ne xs v h

stored_elsewhere :
    (p : List ℕ) (i : ℕ) (c : Rgba) (j : ℕ)
    → (j < i) ⊎ (i + 4 ≤ j)
    → get_elem? (stored p i c) j ≡ get_elem? p j
stored_elsewhere p i c j h =
    past _ (i + 3) c.a j (ground arith)
    ∙ (past _ (i + 2) c.b j (ground arith)
        ∙ (past _ (i + 1) c.g j (ground arith) ∙ past p i c.r j (ground arith)))

fetch-some : (xs : List ℕ) (i v : ℕ) → get_elem? xs i ≡ some v → fetch xs i ≡ ok v
unfolding fetch
fetch-some xs i v e = rw (e, fetch) refl

fetch_same : (xs ys : List ℕ) (i : ℕ) → get_elem? xs i ≡ get_elem? ys i → fetch xs i ≡ fetch ys i
unfolding fetch
fetch_same xs ys i e = rw (e, fetch) refl

fetch_pixel-same :
    (xs ys : List ℕ) (i : ℕ)
    → ((k : ℕ) → k < 4 → get_elem? xs (i + k) ≡ get_elem? ys (i + k))
    → fetch_pixel xs i ≡ fetch_pixel ys i
unfolding fetch_pixel
fetch_pixel-same xs ys i h =
    rw
      (
        fetch_same xs ys i (rw add-zero at (h 0 (omega arith))),
        fetch_same xs ys (i + 1) (h 1 (omega arith)),
        fetch_same xs ys (i + 2) (h 2 (omega arith)),
        fetch_same xs ys (i + 3) (h 3 (omega arith)),
      )
      refl

pub fetch_pixel-some :
    (xs : List ℕ) (i : ℕ) (c : Rgba)
    → get_elem? xs i ≡ some c.r
    → get_elem? xs (i + 1) ≡ some c.g
    → get_elem? xs (i + 2) ≡ some c.b
    → get_elem? xs (i + 3) ≡ some c.a
    → fetch_pixel xs i ≡ ok c
unfolding fetch_pixel
fetch_pixel-some xs i c r g b a =
    rw
      (
        fetch-some xs i _ r,
        fetch-some xs (i + 1) _ g,
        fetch-some xs (i + 2) _ b,
        fetch-some xs (i + 3) _ a,
      )
      refl

fetch_pixel-stored :
    (p : List ℕ) (i : ℕ) (c : Rgba) → i + 4 ≤ length p → fetch_pixel (stored p i c) i ≡ ok c
fetch_pixel-stored p i c h =
    fetch_pixel-some (stored p i c) i c
      (past _ (i + 3) c.a i (ground arith)
        ∙ (past _ (i + 2) c.b i (ground arith)
            ∙ (past _ (i + 1) c.g i (ground arith) ∙ get_elem?-set_self p i c.r (omega arith))))
      (past _ (i + 3) c.a (i + 1) (ground arith)
        ∙ (past _ (i + 2) c.b (i + 1) (ground arith)
            ∙ get_elem?-set_self _ (i + 1) c.g (rw length-set (omega arith))))
      (past _ (i + 3) c.a (i + 2) (ground arith)
        ∙ get_elem?-set_self _ (i + 2) c.b (rw (length-set, length-set) (omega arith)))
      (get_elem?-set_self _ (i + 3) c.a (rw (length-set, length-set, length-set) (omega arith)))

-- The index of a pixel that is in range, which the address space holds.
pub index_inside :
    (fb : Framebuffer) (x y : ℕ)
    → IsFramebuffer fb
    → x < fb.width
    → y < fb.height
    → (pixel_index fb x y ≡ (y * fb.width + x) * 4)
      × ((y * fb.width + x) * 4 + 4 ≤ length fb.pixels)
unfolding pixel_index
index_inside fb x y f p q =
    let inside = pixel_inside fb.width fb.height x y p q in
    let sized = f.sized in let fits = f.fits in (omega arith, omega arith)

in_range : (fb : Framebuffer) (x y : ℕ) → x < fb.width → y < fb.height → out_of_range fb x y ≡ false
unfolding out_of_range
in_range fb x y p q = ground arith

set_pixel-stored :
    (fb : Framebuffer) (x y : ℕ) (c : Rgba)
    → IsFramebuffer fb
    → x < fb.width
    → y < fb.height
    → set_pixel fb x y c ≡ ok (record fb { pixels = stored fb.pixels (pixel_index fb x y) c })
unfolding set_pixel
set_pixel-stored fb x y c f p q =
    let (e, inside) = index_inside fb x y f p q in
    rw (in_range fb x y p q, store_pixel-ok fb.pixels (pixel_index fb x y) c (rw e inside)) refl

pub get_pixel-fetch :
    (fb : Framebuffer) (x y : ℕ)
    → x < fb.width
    → y < fb.height
    → get_pixel fb x y ≡ fetch_pixel fb.pixels (pixel_index fb x y)
unfolding get_pixel
get_pixel-fetch fb x y p q = rw (in_range fb x y p q) refl

clear_of :
    (fb : Framebuffer) (x y x' y' k : ℕ)
    → IsFramebuffer fb
    → x < fb.width
    → y < fb.height
    → x' < fb.width
    → y' < fb.height
    → (x ≢ x') ⊎ (y ≢ y')
    → k < 4
    → (pixel_index fb x' y' + k < pixel_index fb x y)
      ⊎ (pixel_index fb x y + 4 ≤ pixel_index fb x' y' + k)
clear_of fb x y x' y' k f p q p' q' apart h =
    let (e, _) = index_inside fb x y f p q in
    let (e', _) = index_inside fb x' y' f p' q' in
    let same = pixel_apart fb.width x y x' y' p p' in
    let a = y * fb.width + x in
    let b = y' * fb.width + x' in
    elim (Bool-cases (ltb a b)) [
      | inl l ↦ inr (omega (arith, e, e', ltb→lt a b l))
      | inr nl ↦ elim (Bool-cases (ltb b a)) [
        | inl l ↦ inl (omega (arith, e, e', h, ltb→lt b a l))
        | inr nl' ↦
            let (sx, sy) = same (omega (arith, ltb-false a b nl, ltb-false b a nl')) in
            absurd (elim apart [ inl ne ↦ ne sx | inr ne ↦ ne sy ])
      ]
    ]

-- In a framebuffer of its size, a pixel in range that is set succeeds and is read back, every other
-- pixel in range reads as before, and the framebuffer keeps its size.
pub get_pixel-set_pixel :
    (fb : Framebuffer) (x y : ℕ) (c : Rgba)
    → IsFramebuffer fb
    → x < fb.width
    → y < fb.height
    → (fb' : Framebuffer) × (set_pixel fb x y c ≡ ok fb')
      × (get_pixel fb' x y ≡ ok c)
      × ((x' y' : ℕ)
          → x' < fb.width
          → y' < fb.height
          → (x ≢ x') ⊎ (y ≢ y')
          → get_pixel fb' x' y' ≡ get_pixel fb x' y')
      × IsFramebuffer fb'
unfolding pixel_index
get_pixel-set_pixel fb x y c f p q =
    let i = pixel_index fb x y in
    let fb' : Framebuffer = record fb { pixels = stored fb.pixels i c } in
    let (e, inside) = index_inside fb x y f p q in
    (
      fb',
      set_pixel-stored fb x y c f p q,
      get_pixel-fetch fb' x y p q ∙ fetch_pixel-stored fb.pixels i c (rw e inside),
      (λ x' y' p' q' apart.
          get_pixel-fetch fb' x' y' p' q'
          ∙ (fetch_pixel-same (stored fb.pixels i c) fb.pixels (pixel_index fb x' y') (λ k h.
                stored_elsewhere fb.pixels i c (pixel_index fb x' y' + k)
                  (clear_of fb x y x' y' k f p q p' q' apart h))
              ∙ sym (get_pixel-fetch fb x' y' p' q'))),
      record { sized = length-stored fb.pixels i c ∙ f.sized; fits = f.fits },
    )
