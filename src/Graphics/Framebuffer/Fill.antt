-- ===== src/Graphics/Framebuffer/Fill.antt =====
-- What a framebuffer holds when it is new and after it is filled.
use litedroid.Base.{
  ℕ, zero, suc, ◌+◌, ◌*◌, ◌^◌, ◌≤◌, ◌<◌, ◌≡◌, refl, ap, ◌∙◌, List, [], ◌∷◌, some, length, get_elem?,
  ok, arith, length-replicate, get_elem?-append_left,
}
use native.Mathlib.Nat.{zero-add, add-zero}
use litedroid.Graphics.Framebuffer.{
  Framebuffer, Rgba, new, pixel_index, get_pixel, fill_chunks, fill,
}
use litedroid.Graphics.Framebuffer.Pixels.{
  IsFramebuffer, index_inside, get_pixel-fetch, fetch_pixel-some,
}

length-fill_chunks : (c : Rgba) (p : List ℕ) → length (fill_chunks c p) ≡ length p
unfolding fill_chunks
length-fill_chunks c (r ∷ g ∷ b ∷ a ∷ rest) =
    ap (λ (n : ℕ). suc (suc (suc (suc n)))) (length-fill_chunks c rest)
length-fill_chunks c [] = refl
length-fill_chunks c (r ∷ []) = refl
length-fill_chunks c (r ∷ g ∷ []) = refl
length-fill_chunks c (r ∷ g ∷ b ∷ []) = refl

next_chunk : (k i : ℕ) → suc k * 4 + i ≡ suc (suc (suc (suc (k * 4 + i))))
next_chunk k i = omega arith

filled :
    (c : Rgba) (p : List ℕ) (k i : ℕ) (v : ℕ)
    → get_elem? (c.r ∷ c.g ∷ c.b ∷ c.a ∷ []) i ≡ some v
    → i < 4
    → k * 4 + 4 ≤ length p
    → get_elem? (fill_chunks c p) (k * 4 + i) ≡ some v
unfolding fill_chunks
filled c (r ∷ g ∷ b ∷ a ∷ rest) zero i v e h q =
    rw zero-add (get_elem?-append_left (c.r ∷ c.g ∷ c.b ∷ c.a ∷ []) (fill_chunks c rest) i h ∙ e)
filled c (r ∷ g ∷ b ∷ a ∷ rest) (suc k) i v e h q =
    rw (next_chunk k i) (filled c rest k i v e h (omega (arith, q)))
filled c [] k i v e h q = absurd (omega (arith, q))
filled c (r ∷ []) k i v e h q = absurd (omega (arith, q))
filled c (r ∷ g ∷ []) k i v e h q = absurd (omega (arith, q))
filled c (r ∷ g ∷ b ∷ []) k i v e h q = absurd (omega (arith, q))

-- In a framebuffer of its size, after `fill` every pixel in range has the colour, and the
-- framebuffer keeps its size.
pub get_pixel-fill :
    (fb : Framebuffer) (c : Rgba) (x y : ℕ)
    → IsFramebuffer fb
    → x < fb.width
    → y < fb.height
    → (get_pixel (fill c fb) x y ≡ ok c) × IsFramebuffer (fill c fb)
unfolding fill pixel_index
get_pixel-fill fb c x y f p q =
    let (e, inside) = index_inside fb x y f p q in
    let k = y * fb.width + x in
    let p4 = fb.pixels in
    (
      get_pixel-fetch (fill c fb) x y p q
          ∙ rw e (
              fetch_pixel-some _ (k * 4) c
                (rw add-zero at (filled c p4 k 0 c.r refl (omega arith) inside))
                (filled c p4 k 1 c.g refl (omega arith) inside)
                (filled c p4 k 2 c.b refl (omega arith) inside)
                (filled c p4 k 3 c.a refl (omega arith) inside)),
      record { sized = length-fill_chunks c fb.pixels ∙ f.sized; fits = f.fits },
    )

-- A new framebuffer of a size that the address space holds is black and transparent everywhere.
pub new-IsFramebuffer : (w h : ℕ) → w * h * 4 < 2 ^ 63 → IsFramebuffer (new w h)
unfolding new
new-IsFramebuffer w h f = record { sized = length-replicate _ 0 ∙ (omega arith); fits = f }
