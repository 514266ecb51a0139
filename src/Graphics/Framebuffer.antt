-- ===== src/Graphics/Framebuffer.antt =====
-- crates/graphics/src/lib.rs: `Framebuffer`, four bytes a pixel, row by row. An index or a slice out
-- of range panics; `usize` is 64 bits wide and wraps in the release profile.
pub mod Pixels
pub mod Fill
pub mod Blit
use litedroid.Base.{
  ℕ, zero, suc, ◌+◌, ◌-◌, ◌*◌, List, [], ◌∷◌, ◌++◌, Bool, Option, none, some, length, get_elem?,
  set, take, drop, replicate, ok, panic, ltb, leb, ◌||◌, ◌==◌, not, if◌then◌else◌, min, wrap32,
  wrap64, sub64, ◌>>=◌,
}
use litedroid.Core.Error.{Result}

pub record Framebuffer : Type 0 where
  pub width : ℕ
  pub height : ℕ
  pub pixels : List ℕ

pub record Rgba : Type 0 where
  pub r : ℕ
  pub g : ℕ
  pub b : ℕ
  pub a : ℕ

unfoldable pub new : (width height : ℕ) → Framebuffer
new width height = record {
  width = width;
  height = height;
  pixels = replicate (wrap64 (width * height * 4)) 0;
}

unfoldable pub stride : Framebuffer → ℕ
stride fb = wrap32 (fb.width * 4)

-- `xs[i] = v` and `xs[i]`.
unfoldable pub store : List ℕ → (i v : ℕ) → Result (List ℕ)
store xs i v = if ltb i (length xs) then ok (set xs i v) else panic

unfoldable pub fetch : List ℕ → (i : ℕ) → Result ℕ
fetch xs i = elim (get_elem? xs i) [ some v ↦ ok v | none ↦ panic ]

unfoldable pub pixel_index : Framebuffer → (x y : ℕ) → ℕ
pixel_index fb x y = wrap64 ((y * fb.width + x) * 4)

unfoldable pub out_of_range : Framebuffer → (x y : ℕ) → Bool
out_of_range fb x y = leb fb.width x || leb fb.height y

unfoldable pub store_pixel : List ℕ → (idx : ℕ) → Rgba → Result (List ℕ)
store_pixel p idx c = do
  p ← store p idx c.r
  p ← store p (idx + 1) c.g
  p ← store p (idx + 2) c.b
  store p (idx + 3) c.a

unfoldable pub fetch_pixel : List ℕ → (idx : ℕ) → Result Rgba
fetch_pixel p idx = do
  r ← fetch p idx
  g ← fetch p (idx + 1)
  b ← fetch p (idx + 2)
  a ← fetch p (idx + 3)
  ok (record { r = r; g = g; b = b; a = a })

unfoldable pub set_pixel : Framebuffer → (x y : ℕ) → Rgba → Result Framebuffer
unfolding store_pixel
set_pixel fb x y c =
    if out_of_range fb x y
    then ok fb
    else do p ← store_pixel fb.pixels (pixel_index fb x y) c; ok (record fb { pixels = p })

unfoldable pub get_pixel : Framebuffer → (x y : ℕ) → Result Rgba
get_pixel fb x y =
    if out_of_range fb x y
    then ok (record { r = 0; g = 0; b = 0; a = 0 })
    else fetch_pixel fb.pixels (pixel_index fb x y)

-- `chunks_exact_mut(4)`: what is left behind the last whole chunk stays.
unfoldable pub fill_chunks : Rgba → List ℕ → List ℕ
fill_chunks c (r ∷ g ∷ b ∷ a ∷ rest) = c.r ∷ c.g ∷ c.b ∷ c.a ∷ fill_chunks c rest
fill_chunks c [] = []
fill_chunks c (r ∷ []) = r ∷ []
fill_chunks c (r ∷ g ∷ []) = r ∷ g ∷ []
fill_chunks c (r ∷ g ∷ b ∷ []) = r ∷ g ∷ b ∷ []

unfoldable pub fill : Rgba → Framebuffer → Framebuffer
fill color fb = record fb { pixels = fill_chunks color fb.pixels }

-- `xs[start..end]`.
unfoldable pub slice : List ℕ → (start end : ℕ) → Result (List ℕ)
slice xs start end =
    if ltb end start || ltb (length xs) end then panic else ok (take (end - start) (drop start xs))

-- `dst[start..end].copy_from_slice(src)`.
unfoldable pub copy_from_slice : List ℕ → (start end : ℕ) → List ℕ → Result (List ℕ)
copy_from_slice dst start end src =
    if ltb end start || ltb (length dst) end
    then panic
    else if not (length src == end - start)
    then panic
    else ok (take start dst ++ (src ++ drop end dst))

-- One row of a blit: `n` bytes from `src_start`, clipped to both buffers.
unfoldable pub copy_row : (dst src : List ℕ) (dst_start src_start n : ℕ) → Result (List ℕ)
copy_row dst src dst_start src_start n =
    let src_end = min (wrap64 (src_start + n)) (length src) in
    let actual = sub64 src_end src_start in
    if actual == 0
    then ok dst
    else let dst_end = min (wrap64 (dst_start + actual)) (length dst) in
      let actual = sub64 dst_end dst_start in
      if actual == 0 then ok dst else do
        bytes ← slice src src_start (wrap64 (src_start + actual))
        copy_from_slice dst dst_start (wrap64 (dst_start + actual)) bytes

-- `(w as usize).min(self.width as usize - sx_start) * 4`.
unfoldable pub copy_w_bytes : Framebuffer → (x w : ℕ) → ℕ
copy_w_bytes fb x w = wrap64 (min w (sub64 fb.width x) * 4)

unfoldable pub pixel_start : Framebuffer → (x sy : ℕ) → ℕ
pixel_start fb x sy = wrap64 (sy * stride fb + x * 4)

-- The `for` loops, from `row` on, with `n` rows to go.
unfoldable pub blit_from_rows :
    (n row : ℕ) (src : List ℕ) (src_stride x y w : ℕ) → Framebuffer → Result Framebuffer
blit_from_rows zero row src src_stride x y w fb = ok fb
blit_from_rows (suc n) row src src_stride x y w fb =
    let rest =
      copy_row fb.pixels src (pixel_start fb x (y + row)) (row * src_stride) (copy_w_bytes fb x w)
      >>= λ p. blit_from_rows n (row + 1) src src_stride x y w (record fb { pixels = p }) in
    if leb fb.height (y + row) then ok fb else rest

unfoldable pub blit_from :
    (src : List ℕ) (src_stride x y w h : ℕ) → Framebuffer → Result Framebuffer
blit_from src src_stride x y w h fb = blit_from_rows h 0 src src_stride x y w fb

unfoldable pub blit_to_rows :
    (n row : ℕ) (dst : List ℕ) (dst_stride x y w : ℕ) → Framebuffer → Result (List ℕ)
blit_to_rows zero row dst dst_stride x y w fb = ok dst
blit_to_rows (suc n) row dst dst_stride x y w fb =
    let rest =
      copy_row dst fb.pixels (row * dst_stride) (pixel_start fb x (y + row)) (copy_w_bytes fb x w)
      >>= λ dst. blit_to_rows n (row + 1) dst dst_stride x y w fb in
    if leb fb.height (y + row) then ok dst else rest

unfoldable pub blit_to : (dst : List ℕ) (dst_stride x y w h : ℕ) → Framebuffer → Result (List ℕ)
blit_to dst dst_stride x y w h fb = blit_to_rows h 0 dst dst_stride x y w fb
