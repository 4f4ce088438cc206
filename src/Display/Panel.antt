-- ===== src/Display/Panel.antt =====
-- The panel behind the SPI, as an interface: what the controller documents of a window write.
use robot_joint_stack.Prelude.{
  ℕ, ◌+◌, ◌-◌, ◌*◌, ◌%◌, ◌≤◌, ◌≡◌, ◌∙◌, ap, Bool, true, false, ◌&&◌, if◌then◌else◌, ltb, leb, List,
  ◌++◌, length, get_or,
}
use robot_joint_stack.Display.{DmaAnswer, pixel_bytes, is_drawable, blit, disp_width, disp_height}
use robot_joint_stack.Display.Stream.{
  Wire, tagged, wire, window_bytes, AllComplete, blit-wire, is_drawable-bounds,
}

-- Whether a pixel lies in a rectangle.
abbrev pub is_inside : ℕ → ℕ → ℕ → ℕ → ℕ → ℕ → Bool
is_inside x y w h a b = (leb x a && ltb a (x + w)) && (leb y b && ltb b (y + h))

-- A controller: it takes the bytes of a transaction, and has a colour at each column and row. Once a
-- window on the panel is open, as many pixels as it has fill it row by row, and nothing else changes.
pub record Panel (P : Type 0) : Type 0 where
  pub send : P → Wire → P
  pub pixel : P → ℕ → ℕ → ℕ
  pub pixel-send :
      (p : P) (x y w h : ℕ) (pixels : List ℕ) (a b : ℕ)
      → (1 ≤ w) × (1 ≤ h) × (x + w ≤ disp_width) × (y + h ≤ disp_height)
      → length pixels ≡ w * h
      → pixel
          (send p (window_bytes x y (x + w - 1) (y + h - 1) ++ tagged true (pixel_bytes pixels)))
          a
          b
        ≡ (if is_inside x y w h a b
            then get_or pixels ((b - y) * w + (a - x)) 0 % 65536
            else pixel p a b)

module _ {P : Type 0} (panel : Panel P) where
  open panel use {send, pixel, pixel-send}

  -- What the panel shows after a blit that the driver accepts, with all transfers complete: the pixels
  -- row by row in the rectangle, and elsewhere what it showed.
  pub blit-pixel :
      (answers : ℕ → DmaAnswer) (p : P) (x y w h : ℕ) (pixels : List ℕ) (a b : ℕ)
      → AllComplete answers
      → is_drawable true x y w h ≡ true
      → length pixels ≡ w * h
      → pixel (send p (wire false false (blit true answers x y w h pixels))) a b ≡ (
          if is_inside x y w h a b
          then get_or pixels ((b - y) * w + (a - x)) 0 % 65536
          else pixel p a b)
  blit-pixel answers p x y w h pixels a b ok fits len =
      ap (λ bytes. pixel (send p bytes) a b)
        (blit-wire answers false false x y w h pixels ok fits len)
      ∙ pixel-send p x y w h pixels a b (is_drawable-bounds x y w h fits) len
