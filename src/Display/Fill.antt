-- ===== src/Display/Fill.antt =====
-- The two ways of drawing a rectangle in one colour do the same on the bus.
use robot_joint_stack.Prelude.{
  ℕ, zero, suc, ◌+◌, ◌-◌, ◌*◌, ◌≤◌, ◌<◌, ◌≡◌, inl, inr, refl, arith, Bool, true, false, ◌/◌, List,
  [], ◌∷◌, ◌++◌, take, drop, replicate, ap, sym, ◌∙◌, Bool-cases, ne→==_false,
}
use robot_joint_stack.Prelude.Word.{u8, u32}
use robot_joint_stack.Display.{
  DmaAnswer, dc, cs, spi_write_dma, pixel_bytes, is_drawable, chunk_size, blit_loop, blit,
  fill_loop, display_fill, chunk_pixels, set_window,
}
use robot_joint_stack.Display.Stream.{
  chunk_size_bounds, blit_loop-suc, u32_area, is_drawable-bounds,
}

take-replicate : (n m c : ℕ) → n ≤ m → take n (replicate m c) ≡ replicate n c
take-replicate zero m c h = refl
take-replicate (suc n) zero c h = absurd (omega arith)
take-replicate (suc n) (suc m) c h = ap (λ r. c ∷ r) (take-replicate n m c (omega arith))

drop-replicate : (n m c : ℕ) → drop n (replicate m c) ≡ replicate (m - n) c
drop-replicate zero m c = let same : m ≡ m - 0 = omega arith in ap (λ k. replicate k c) same
drop-replicate (suc n) zero c =
    let same : 0 ≡ 0 - suc n = omega arith in ap (λ k. replicate k c) same
drop-replicate (suc n) (suc m) c =
    let same : m - n ≡ suc m - suc n = omega arith in
    drop-replicate n m c ∙ ap (λ k. replicate k c) same

take-pixel_bytes :
    (n m c : ℕ) → n ≤ m → take (n * 2) (pixel_bytes (replicate m c)) ≡ pixel_bytes (replicate n c)
unfolding pixel_bytes
take-pixel_bytes zero m c h = refl
take-pixel_bytes (suc n) zero c h = absurd (omega arith)
take-pixel_bytes (suc n) (suc m) c h =
    ap (λ k. take k (pixel_bytes (replicate (suc m) c))) {x = suc n * 2} {y = suc (suc (n * 2))}
      (omega arith)
    ∙ ap (λ r. u8 (c / 256) ∷ u8 c ∷ r) (take-pixel_bytes n m c (omega arith))

fill_loop-suc :
    (fuel : ℕ) (answers : ℕ → DmaAnswer) (k remaining : ℕ) (chunk : List ℕ)
    → 0 < remaining
    → fill_loop answers (suc fuel) k remaining chunk
      ≡ spi_write_dma (answers k) (take (chunk_size remaining * 2) chunk)
        ++ fill_loop answers fuel (k + 1) (remaining - chunk_size remaining) chunk
unfolding fill_loop
fill_loop-suc fuel answers k remaining chunk h =
    rw (ne→==_false remaining 0 (λ e. omega arith)) refl

-- The bytes of a chunk are those of the pixels it stands for.
chunk_bytes :
    (remaining c : ℕ)
    → 0 < remaining
    → take (chunk_size remaining * 2) (pixel_bytes (replicate chunk_pixels c))
      ≡ pixel_bytes (take (chunk_size remaining) (replicate remaining c))
chunk_bytes remaining c h =
    let (least, most, size) = chunk_size_bounds remaining h in
    take-pixel_bytes (chunk_size remaining) chunk_pixels c size
    ∙ ap pixel_bytes (sym (take-replicate (chunk_size remaining) remaining c most))

fill_loop-blit_loop :
    (fuel : ℕ) (answers : ℕ → DmaAnswer) (k remaining c : ℕ)
    → fill_loop answers fuel k remaining (pixel_bytes (replicate chunk_pixels c))
      ≡ blit_loop answers fuel k remaining (replicate remaining c)
unfolding fill_loop blit_loop
fill_loop-blit_loop zero answers k remaining c = refl
fill_loop-blit_loop (suc fuel) answers k zero c = refl
fill_loop-blit_loop (suc fuel) answers k (suc r) c =
    rw (fill_loop-suc fuel answers k (suc r) (pixel_bytes (replicate chunk_pixels c)) (omega arith))
      rw (blit_loop-suc fuel answers k (suc r) (replicate (suc r) c) (omega arith)) rw
      (drop-replicate (chunk_size (suc r)) (suc r) c) rw (chunk_bytes (suc r) c (omega arith)) rw
      (fill_loop-blit_loop fuel answers (k + 1) (suc r - chunk_size (suc r)) c) refl

fits_lem :
    (answers : ℕ → DmaAnswer) (x y w h color : ℕ)
    → is_drawable true x y w h ≡ true
    → set_window x y w h
        ++ (dc true
            ∷ cs true
            ∷ (fill_loop answers
                  (u32 (w * h))
                  0
                  (u32 (w * h))
                  (pixel_bytes (replicate chunk_pixels color))
                ++ (cs false ∷ [])))
      ≡ set_window x y w h
        ++ (dc true
            ∷ cs true
            ∷ (blit_loop answers (u32 (w * h)) 0 (u32 (w * h)) (replicate (w * h) color)
                ++ (cs false ∷ [])))
fits_lem answers x y w h color fits =
    let (w_pos, h_pos, right, bottom) = is_drawable-bounds x y w h fits in
    rw (u32_area w h (omega arith) (omega arith)) rw
      (fill_loop-blit_loop (w * h) answers 0 (w * h) color) refl

-- A fill does on the bus exactly what a blit of as many pixels of that colour does, event by event,
-- whatever the transfers answer, and the two refuse the same rectangles.
pub display_fill-blit :
    (ready : Bool) (answers : ℕ → DmaAnswer) (x y w h color : ℕ)
    → display_fill ready answers x y w h color
      ≡ blit ready answers x y w h (replicate (w * h) color)
unfolding display_fill blit
display_fill-blit false answers x y w h color = refl
display_fill-blit true answers x y w h color = elim (Bool-cases (is_drawable true x y w h)) [
  | inl fits ↦ rw fits (fits_lem answers x y w h color fits)
  | inr not_drawable ↦ rw not_drawable refl
]
