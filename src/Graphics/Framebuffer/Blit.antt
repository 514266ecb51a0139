-- ===== src/Graphics/Framebuffer/Blit.antt =====
-- What a blit copies, and that one inside its buffers never panics.
use litedroid.Base.{
  ℕ, zero, suc, ◌+◌, ◌-◌, ◌*◌, ◌^◌, ◌≤◌, ◌<◌, ◌≡◌, refl, sym, ap, ◌∙◌, List, [], ◌∷◌, ◌++◌, true,
  false, length, take, drop, min, ok, ltb, leb, ◌==◌, ◌>>=◌, arith, wrap32, wrap64, sub64, inl, inr,
  Bool-cases, ==_iff, if_split, le→ltb, length-append, length-take, length-drop,
}
use native.Mathlib.Nat.{add-zero}
use litedroid.Core.Error.{Result}
use litedroid.Graphics.Framebuffer.{
  Framebuffer, slice, copy_from_slice, copy_row, copy_w_bytes, pixel_start, stride, blit_from_rows,
  blit_from,
}
use litedroid.Graphics.Framebuffer.Pixels.{IsFramebuffer}

-- `xs` with `bytes` written over it at `at`.
unfoldable pub overlay : (xs : List ℕ) (at : ℕ) (bytes : List ℕ) → List ℕ
overlay xs at bytes = take at xs ++ (bytes ++ drop (at + length bytes) xs)

length-overlay :
    (xs : List ℕ) (at : ℕ) (bytes : List ℕ)
    → at + length bytes ≤ length xs
    → length (overlay xs at bytes) ≡ length xs
unfolding overlay
length-overlay xs at bytes h =
    rw (length-append, length-append, length-take, length-drop) (omega arith)

take-drop : (n : ℕ) (xs : List ℕ) → take n xs ++ drop n xs ≡ xs
take-drop zero xs = refl
take-drop (suc n) [] = refl
take-drop (suc n) (x ∷ xs) = ap (λ (t : List ℕ). x ∷ t) (take-drop n xs)

overlay-nil : (xs : List ℕ) (at : ℕ) → overlay xs at [] ≡ xs
unfolding overlay
overlay-nil xs at = rw add-zero (take-drop at xs)

slice-ok :
    (xs : List ℕ) (start n : ℕ)
    → start + n ≤ length xs
    → slice xs start (start + n) ≡ ok (take n (drop start xs))
unfolding slice
slice-ok xs start n h =
    let forward : ltb (start + n) start ≡ false = le→ltb _ _ (omega arith) in
    let inside : ltb (length xs) (start + n) ≡ false = le→ltb _ _ (omega arith) in
    let size : start + n - start ≡ n = omega arith in rw (forward, inside, size) refl

copy_from_slice-ok :
    (xs : List ℕ) (start n : ℕ) (bytes : List ℕ)
    → start + n ≤ length xs
    → length bytes ≡ n
    → copy_from_slice xs start (start + n) bytes ≡ ok (overlay xs start bytes)
unfolding copy_from_slice overlay
copy_from_slice-ok xs start n bytes h e =
    let forward : ltb (start + n) start ≡ false = le→ltb _ _ (omega arith) in
    let inside : ltb (length xs) (start + n) ≡ false = le→ltb _ _ (omega arith) in
    let size : (length bytes == (start + n - start)) ≡ true = ground arith in
    rw (forward, inside, size, e) refl

-- How many of the `n` bytes of a row both buffers hold.
abbrev pub fitting : (dst src : List ℕ) (dst_start src_start n : ℕ) → ℕ
fitting dst src dst_start src_start n =
    min (min n (length src - src_start)) (length dst - dst_start)

row_copied :
    (dst src : List ℕ) (ds ss m : ℕ)
    → ds + m ≤ length dst
    → ss + m ≤ length src
    → length dst < 2 ^ 64
    → length src < 2 ^ 64
    → (slice src ss (wrap64 (ss + m)) >>= λ bytes. copy_from_slice dst ds (wrap64 (ds + m)) bytes)
      ≡ ok (overlay dst ds (take m (drop ss src)))
row_copied dst src ds ss m hd hs ld ls =
    let ws : wrap64 (ss + m) ≡ ss + m = omega arith in
    let wd : wrap64 (ds + m) ≡ ds + m = omega arith in
    rw (ws, wd, slice-ok src ss m hs)
      (copy_from_slice-ok dst ds m (take m (drop ss src)) hd
        (rw (length-take, length-drop) (omega arith)))

-- A row of a blit whose starts lie inside both buffers, with lengths below 2 ^ 63, is copied as far
-- as both buffers reach, and nothing else of the destination changes.
pub copy_row-overlay :
    (dst src : List ℕ) (ds ss n : ℕ)
    → ds ≤ length dst
    → ss ≤ length src
    → length dst < 2 ^ 63
    → length src < 2 ^ 63
    → n < 2 ^ 63
    → copy_row dst src ds ss n ≡ ok (overlay dst ds (take (fitting dst src ds ss n) (drop ss src)))
unfolding copy_row
copy_row-overlay dst src ds ss n hd hs ld ls w =
    let a = min n (length src - ss) in
    let m = fitting dst src ds ss n in
    let e1 : sub64 (min (wrap64 (ss + n)) (length src)) ss ≡ a = omega arith in
    let e2 : sub64 (min (wrap64 (ds + a)) (length dst)) ds ≡ m = omega arith in
    rw (e1, e2)
      (elim (Bool-cases (a == 0)) [
        | inl z ↦
            let none_fit : m ≡ 0 = omega (arith, (==_iff a 0).0 z) in
            rw (z, none_fit) (ap ok (sym (overlay-nil dst ds)))
        | inr nz ↦ elim (Bool-cases (m == 0)) [
          | inl z ↦ rw (nz, z, (==_iff m 0).0 z) (ap ok (sym (overlay-nil dst ds)))
          | inr nz' ↦
              rw (nz, nz')
                (row_copied dst src ds ss m (omega arith) (omega arith) (omega arith) (omega arith))
        ]
      ])

-- The size of the copied row.
copy_row-length :
    (dst src : List ℕ) (ds ss n : ℕ)
    → ds ≤ length dst
    → ss ≤ length src
    → length dst < 2 ^ 63
    → length src < 2 ^ 63
    → n < 2 ^ 63
    → (p : List ℕ) × (copy_row dst src ds ss n ≡ ok p) × (length p ≡ length dst)
copy_row-length dst src ds ss n hd hs ld ls w = (
  _,
  copy_row-overlay dst src ds ss n hd hs ld ls w,
  length-overlay dst ds _ (rw (length-take, length-drop) (omega arith)),
)

row_start-inside : (w h x sy : ℕ) → x ≤ w → sy < h → sy * (w * 4) + x * 4 ≤ w * h * 4
row_start-inside w h x sy p q = grind arith

pixel_start-inside :
    (fb : Framebuffer) (x sy : ℕ)
    → IsFramebuffer fb
    → fb.width * 4 < 2 ^ 32
    → sy * (fb.width * 4) + x * 4 ≤ fb.width * fb.height * 4
    → pixel_start fb x sy ≡ sy * (fb.width * 4) + x * 4
unfolding pixel_start stride
pixel_start-inside fb x sy f hw h =
    let fits = f.fits in
    let row : wrap32 (fb.width * 4) ≡ fb.width * 4 = omega arith in rw row (omega arith)

copy_w_bytes-small : (fb : Framebuffer) (x w : ℕ) → w < 2 ^ 32 → copy_w_bytes fb x w < 2 ^ 63
unfolding copy_w_bytes
copy_w_bytes-small fb x w h = omega arith

-- The source holds the start of each row, and `x` lies inside a framebuffer of rows that a `u32`
-- measures.
blit_from_rows-IsFramebuffer :
    (n row : ℕ) (src : List ℕ) (src_stride x y w : ℕ) (fb : Framebuffer)
    → IsFramebuffer fb
    → fb.width * 4 < 2 ^ 32
    → x ≤ fb.width
    → w < 2 ^ 32
    → length src < 2 ^ 63
    → ((i : ℕ) → i < row + n → i * src_stride ≤ length src)
    → (fb' : Framebuffer) × (blit_from_rows n row src src_stride x y w fb ≡ ok fb')
      × IsFramebuffer fb'
      × (fb'.width ≡ fb.width)
      × (fb'.height ≡ fb.height)
unfolding blit_from_rows
blit_from_rows-IsFramebuffer zero row src src_stride x y w fb f hw hx hww ls rows =
    (fb, refl, f, refl, refl)
blit_from_rows-IsFramebuffer (suc n) row src src_stride x y w fb f hw hx hww ls rows =
    if_split
      (λ (r : Result Framebuffer).
        (fb' : Framebuffer) × (r ≡ ok fb')
        × IsFramebuffer fb'
        × (fb'.width ≡ fb.width)
        × (fb'.height ≡ fb.height))
      (leb fb.height (y + row)) (λ _. (fb, refl, f, refl, refl))
      (λ inside.
        let sy = y + row in
        let below : sy < fb.height = ground arith in
        let starts = row_start-inside fb.width fb.height x sy hx below in
        let start : pixel_start fb x sy ≡ sy * (fb.width * 4) + x * 4 =
          pixel_start-inside fb x sy f hw starts in
        let sized = f.sized in
        let fits = f.fits in
        let (p, copied, len) =
          copy_row-length fb.pixels src (pixel_start fb x sy) (row * src_stride)
            (copy_w_bytes fb x w) (rw start (omega arith)) (rows row (omega arith)) (omega arith) ls
            (copy_w_bytes-small fb x w hww) in
        rw copied (
          blit_from_rows-IsFramebuffer n (row + 1) src src_stride x y w (record fb { pixels = p })
            (record { sized = len ∙ f.sized; fits = f.fits }) hw hx hww ls
            (λ i h. rows i (omega (arith, h)))))

-- A blit into a framebuffer of its size never panics and keeps its size, when `x` lies inside it, a
-- `u32` measures its rows and the width, and the source, shorter than 2 ^ 63, holds the start of
-- each row.
pub blit_from-IsFramebuffer :
    (src : List ℕ) (src_stride x y w h : ℕ) (fb : Framebuffer)
    → IsFramebuffer fb
    → fb.width * 4 < 2 ^ 32
    → x ≤ fb.width
    → w < 2 ^ 32
    → length src < 2 ^ 63
    → ((i : ℕ) → i < h → i * src_stride ≤ length src)
    → (fb' : Framebuffer) × (blit_from src src_stride x y w h fb ≡ ok fb')
      × IsFramebuffer fb'
      × (fb'.width ≡ fb.width)
      × (fb'.height ≡ fb.height)
unfolding blit_from
blit_from-IsFramebuffer src src_stride x y w h fb f hw hx hww ls rows =
    blit_from_rows-IsFramebuffer h 0 src src_stride x y w fb f hw hx hww ls
      (λ i l. rows i (omega (arith, l)))
