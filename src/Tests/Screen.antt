-- ===== src/Tests/Screen.antt =====
-- text_screen.c on concrete screens.
use robot_joint_stack.Prelude.{
  ℕ, ◌^◌, ◌≤◌, ◌<◌, ◌≡◌, ◌⊎◌, refl, arith, if◌then◌else◌, ◌==◌, ltb, length, get_or, ◌&&◌, true,
  false, ap, ◌∙◌, ◌*◌, ◌+◌,
}
use robot_joint_stack.Screen.Flush.{marked_cells, flush-marked_cells}
use robot_joint_stack.Screen.Glyph.{is_lit, render_cell-pixel}
use robot_joint_stack.Screen.Drawn.{InScreen, SamePlace}
use robot_joint_stack.Screen.Shows.{
  Canvas, Shows, Agrees, draw_all, flush-Shows, screen_init-Agrees,
}
use robot_joint_stack.Screen.{
  Draw, screen_init, TextScreen, rows, cols, put_char, flush, dirty_count, render_cell,
}
use robot_joint_stack.Screen.Font.{font8x16}
use robot_joint_stack.Screen.Write.{Holds, SameCell, bit_at, put_char-Holds}

-- Only the cells (0, 1) and (0, 4) are marked.
abbrev two_marks : TextScreen
two_marks = record {
  ch = λ r c. 32;
  fg = λ r c. 65535;
  bg = λ r c. 0;
  dirty = λ r. if r == 0 then 18 else 0;
  cur_fg = 65535;
  cur_bg = 0;
}

two_marks-word : (q : ℕ) → two_marks.dirty q < 2 ^ 32
two_marks-word q = ground arith

abbrev row_2 : ℕ
row_2 = 2

abbrev col_3 : ℕ
col_3 = 3

flush-marked_cells_example :
    let (k, draws, drawn) = flush two_marks in
    (draws ≡ marked_cells two_marks 0 rows)
    × (drawn ≡ dirty_count two_marks)
    × ((k.ch ≡ two_marks.ch) × (k.fg ≡ two_marks.fg) × (k.bg ≡ two_marks.bg))
    × ((q : ℕ) → k.dirty q ≡ (if ltb q rows then 0 else two_marks.dirty q))
flush-marked_cells_example = flush-marked_cells two_marks two_marks-word

put_char-Holds_example :
    let k = put_char two_marks row_2 3 65 in
    (((row_2 < rows)
        × (3 < cols)
        × Holds k row_2 3 65
        × ((bit_at (k.dirty row_2) 3 ≡ 1) ⊎ (Holds two_marks row_2 3 65 × (k ≡ two_marks))))
      ⊎ (((rows ≤ row_2) ⊎ (cols ≤ 3)) × (k ≡ two_marks)))
    × (((row_2 ≡ row_2) × (col_3 ≡ 7)) ⊎ SameCell two_marks k row_2 7)
put_char-Holds_example = put_char-Holds two_marks row_2 3 65 row_2 7

rendered : length (render_cell font8x16 65 65535 0) ≡ 128
unfolding render_cell
rendered = refl

-- The top of the letter I.
render_cell-pixel_example :
    get_or (render_cell font8x16 73 0xffff 0x8410) (2 * 8 + 3) 0
    ≡ (if is_lit font8x16 73 2 3 then 0xffff else 0x8410)
render_cell-pixel_example = render_cell-pixel 73 0xffff 0x8410 2 3 (omega arith) (omega arith)

==_refl : (n : ℕ) → (n == n) ≡ true
==_refl n = ground arith

not_same : (r c r' c' : ℕ) → ¬ ((r ≡ r') × (c ≡ c')) → ((r' == r) && (c' == c)) ≡ false
not_same r c r' c' h = ground arith

-- A panel that keeps the last draw of each cell.
abbrev remember : (ℕ → ℕ → Draw) → Draw → (ℕ → ℕ → Draw)
remember p d = λ r c. if (r == d.row) && (c == d.col) then d else p r c

remember-shown : (p : ℕ → ℕ → Draw) (d : Draw) → InScreen d → remember p d d.row d.col ≡ d
remember-shown p d h = rw (==_refl d.row, ==_refl d.col) refl

remember-shown_other :
    (p : ℕ → ℕ → Draw) (d e : Draw)
    → InScreen d
    → InScreen e
    → ¬ SamePlace d e
    → p e.row e.col ≡ e
    → remember p d e.row e.col ≡ e
remember-shown_other p d e h k other shown =
    ap (λ b. if b then d else p e.row e.col) (not_same d.row d.col e.row e.col other) ∙ shown

abbrev memory : Canvas (ℕ → ℕ → Draw)
memory = record {
  draw = remember;
  Showing = λ p d. p d.row d.col ≡ d;
  draw-Showing = remember-shown;
  draw-Showing_other = remember-shown_other;
}

-- The panel as it is before anything was drawn.
abbrev noise : ℕ → ℕ → Draw
noise r c = record { row = c; col = r; char = 0; fg = 0; bg = 0 }

flush-Shows_example :
    let (k, draws, drawn) = flush (screen_init 0xffff 0) in
    Shows memory (draw_all memory noise draws) k × Agrees memory (draw_all memory noise draws) k
flush-Shows_example =
    flush-Shows memory noise (screen_init 0xffff 0) (screen_init-Agrees memory noise 0xffff 0)
