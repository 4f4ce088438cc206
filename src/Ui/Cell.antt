-- ===== src/Ui/Cell.antt =====
-- app/joint_node/ui.c: `draw_cell`, down to the pixels of the panel, and the canvas that it makes.
use robot_joint_stack.Prelude.{
  ℕ, ◌+◌, ◌-◌, ◌*◌, ◌%◌, ◌<◌, ◌≡◌, inl, inr, refl, arith, ap, ap₂, ◌∙◌, Bool, true, false,
  if◌then◌else◌, List, Bool-cases,
}
use robot_joint_stack.Prelude.Word.{u16}
use robot_joint_stack.Screen.{Draw, rows, cols, render_cell}
use robot_joint_stack.Screen.Font.{font8x16}
use robot_joint_stack.Screen.Glyph.{is_lit, render_cell-pixel, length-render_cell}
use robot_joint_stack.Screen.Drawn.{InScreen, SamePlace}
use robot_joint_stack.Screen.Shows.{Canvas}
use robot_joint_stack.Display.{BusEvent, DmaAnswer, blit, is_drawable}
use robot_joint_stack.Display.Stream.{AllComplete, wire}
use robot_joint_stack.Display.Panel.{Panel, is_inside, blit-pixel}

unfoldable pub draw_cell : Bool → (ℕ → DmaAnswer) → Draw → List BusEvent
draw_cell ready answers d =
    blit ready answers (u16 (d.col * 8)) (u16 (d.row * 16)) 8 16
      (render_cell font8x16 d.char d.fg d.bg)

-- The colour of a pixel of a cell.
abbrev pub cell_pixel : Draw → ℕ → ℕ → ℕ
cell_pixel d down right = (if is_lit font8x16 d.char down right then d.fg else d.bg) % 65536

cell_is_drawable :
    (r c : ℕ)
    → r < rows
    → c < cols
    → (u16 (c * 8) ≡ c * 8)
      × (u16 (r * 16) ≡ r * 16)
      × (is_drawable true (c * 8) (r * 16) 8 16 ≡ true)
unfolding is_drawable
cell_is_drawable r c low left = (omega arith, omega arith, ground arith)

draw_cell-blit :
    (answers : ℕ → DmaAnswer) (d : Draw)
    → InScreen d
    → draw_cell true answers d
      ≡ blit true answers (d.col * 8) (d.row * 16) 8 16 (render_cell font8x16 d.char d.fg d.bg)
unfolding draw_cell
draw_cell-blit answers d (low, left) =
    let (x_kept, y_kept, fits) = cell_is_drawable d.row d.col low left in
    ap₂ (λ x y. blit true answers x y 8 16 (render_cell font8x16 d.char d.fg d.bg)) x_kept y_kept

-- What is inside a cell has coordinates in it.
inside_cell : (x y a b : ℕ) → is_inside x y 8 16 a b ≡ true → (b - y < 16) × (a - x < 8)
inside_cell x y a b h = ground arith

inside_own :
    (x y down right : ℕ) → down < 16 → right < 8 → is_inside x y 8 16 (x + right) (y + down) ≡ true
inside_own x y down right low left = ground arith

outside_other :
    (r c r' c' down right : ℕ)
    → down < 16
    → right < 8
    → ¬ ((r ≡ r') × (c ≡ c'))
    → is_inside (c * 8) (r * 16) 8 16 (c' * 8 + right) (r' * 16 + down) ≡ false
outside_other r c r' c' down right low left other = ground arith

offset : (x i : ℕ) → x + i - x ≡ i
offset x i = omega arith

module _ {P : Type 0} (panel : Panel P) (answers : ℕ → DmaAnswer) (ok : AllComplete answers) where
  open panel use {send, pixel}

  abbrev pub draw_on : P → Draw → P
  draw_on p d = send p (wire false false (draw_cell true answers d))

  -- After the draw callback with a cell of the screen, all transfers complete, each pixel of the panel
  -- in the cell's place has the foreground colour or the background colour, as the font's glyph says,
  -- and each pixel elsewhere is what it was.
  pub draw_cell-pixel :
      (p : P) (d : Draw) (a b : ℕ)
      → InScreen d
      → pixel (draw_on p d) a b ≡ (
          if is_inside (d.col * 8) (d.row * 16) 8 16 a b
          then cell_pixel d (b - d.row * 16) (a - d.col * 8)
          else pixel p a b)
  draw_cell-pixel p d a b h =
      let (x_kept, y_kept, fits) = cell_is_drawable d.row d.col h.0 h.1 in
      ap (λ es. pixel (send p (wire false false es)) a b) (draw_cell-blit answers d h)
      ∙ (blit-pixel panel answers p (d.col * 8) (d.row * 16) 8 16
            (render_cell font8x16 d.char d.fg d.bg) a b ok fits
            (length-render_cell d.char d.fg d.bg)
          ∙ elim (Bool-cases (is_inside (d.col * 8) (d.row * 16) 8 16 a b)) [
            | inl inside ↦
                let (down, right) = inside_cell (d.col * 8) (d.row * 16) a b inside in
                rw inside (
                  ap (λ n. n % 65536)
                    (render_cell-pixel d.char d.fg d.bg (b - d.row * 16) (a - d.col * 8) down
                      right))
            | inr outside ↦ rw outside refl
          ])

  -- The cell is on the panel, pixel by pixel.
  abbrev pub IsShown : P → Draw → Type 0
  IsShown p d =
      (down right : ℕ)
      → down < 16
      → right < 8
      → pixel p (d.col * 8 + right) (d.row * 16 + down) ≡ cell_pixel d down right

  pub draw_on-IsShown : (p : P) (d : Draw) → InScreen d → IsShown (draw_on p d) d
  draw_on-IsShown p d h down right low left =
      draw_cell-pixel p d (d.col * 8 + right) (d.row * 16 + down) h
      ∙ (rw (inside_own (d.col * 8) (d.row * 16) down right low left)
          (ap₂ (cell_pixel d) (offset (d.row * 16) down) (offset (d.col * 8) right)))

  pub draw_on-IsShown_other :
      (p : P) (d e : Draw)
      → InScreen d
      → InScreen e
      → ¬ SamePlace d e
      → IsShown p e
      → IsShown (draw_on p d) e
  draw_on-IsShown_other p d e h k other shown down right low left =
      draw_cell-pixel p d (e.col * 8 + right) (e.row * 16 + down) h
      ∙ (rw (outside_other d.row d.col e.row e.col down right low left other)
          (shown down right low left))

  -- The canvas that the callback and the driver make of a panel.
  abbrev pub panel_canvas : Canvas P
  panel_canvas = record {
    draw = draw_on;
    Showing = IsShown;
    draw-Showing = draw_on-IsShown;
    draw-Showing_other = draw_on-IsShown_other;
  }
