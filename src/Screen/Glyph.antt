-- ===== src/Screen/Glyph.antt =====
-- common/ui/src/text_screen.c: the pixels of a cell, one at a time.
use robot_joint_stack.Prelude.{
  ℕ, zero, suc, ◌+◌, ◌-◌, ◌*◌, ◌/◌, ◌%◌, ◌^◌, ◌<◌, ◌≡◌, inl, inr, refl, arith, Bool, true, false,
  not, ◌||◌, if◌then◌else◌, ltb, ◌==◌, List, [], ◌∷◌, ◌++◌, length, get_or, replicate, ap, ◌∙◌,
  all_below, of_all_below, ==_iff, Bool-cases,
}
use robot_joint_stack.Screen.{font_first, font_last, row_pixels, glyph_pixels, render_cell}
use robot_joint_stack.Screen.Font.{font8x16}

-- Whether a pixel of a character is in the foreground: a character without a glyph is a solid box, and
-- the leftmost pixel of a row is bit 7 of its byte.
abbrev pub is_lit : List (List ℕ) → ℕ → ℕ → ℕ → Bool
is_lit font ch down right =
    (ltb ch font_first || ltb font_last ch)
    || not (get_or (get_or font (ch - font_first) []) down 0 / 2 ^ (7 - right) % 2 == 0)

get_or-row_pixels :
    (fg bg bits n i : ℕ) (rest : List ℕ)
    → i < n
    → get_or (row_pixels fg bg bits n ++ rest) i 0
      ≡ (if bits / 2 ^ (n - 1 - i) % 2 == 0 then bg else fg)
unfolding row_pixels
get_or-row_pixels fg bg bits zero i rest h = absurd (omega arith)
get_or-row_pixels fg bg bits (suc n) zero rest h =
    let same : n ≡ suc n - 1 - 0 = omega arith in
    ap (λ k. if bits / 2 ^ k % 2 == 0 then bg else fg) same
get_or-row_pixels fg bg bits (suc n) (suc i) rest h =
    let same : n - 1 - i ≡ suc n - 1 - suc i = omega arith in
    get_or-row_pixels fg bg bits n i rest (omega arith)
    ∙ ap (λ k. if bits / 2 ^ k % 2 == 0 then bg else fg) same

get_or-glyph_pixels :
    (fg bg : ℕ) (glyph : List ℕ) (down right : ℕ)
    → down < length glyph
    → right < 8
    → get_or (glyph_pixels fg bg glyph) (down * 8 + right) 0
      ≡ (if get_or glyph down 0 / 2 ^ (7 - right) % 2 == 0 then bg else fg)
unfolding glyph_pixels row_pixels
get_or-glyph_pixels fg bg [] down right h k = absurd (omega arith)
get_or-glyph_pixels fg bg (bits ∷ glyph) zero right h k =
    let first : 0 * 8 + right ≡ right = omega arith in
    ap (λ i. get_or (row_pixels fg bg bits 8 ++ glyph_pixels fg bg glyph) i 0) first
    ∙ get_or-row_pixels fg bg bits 8 right (glyph_pixels fg bg glyph) k
get_or-glyph_pixels fg bg (bits ∷ glyph) (suc down) right h k =
    let next : suc down * 8 + right
        ≡ suc (suc (suc (suc (suc (suc (suc (suc (down * 8 + right)))))))) =
      omega arith in
    ap (λ i. get_or (row_pixels fg bg bits 8 ++ glyph_pixels fg bg glyph) i 0) next
    ∙ get_or-glyph_pixels fg bg glyph down right (omega arith) k

glyph_rows : (k : ℕ) → k < 95 → length (get_or font8x16 k []) ≡ 16
unfolding all_below
glyph_rows k h =
    (==_iff (length (get_or font8x16 k [])) 16).0
      (of_all_below 95 (λ k. length (get_or font8x16 k []) == 16) k refl h)

get_or-replicate_lt : (n i a : ℕ) → i < n → get_or (replicate n a) i 0 ≡ a
get_or-replicate_lt zero i a h = absurd (omega arith)
get_or-replicate_lt (suc n) zero a h = refl
get_or-replicate_lt (suc n) (suc i) a h = get_or-replicate_lt n i a (omega arith)

if-not : (b : Bool) (x y : ℕ) → (if b then y else x) ≡ (if not b then x else y)
if-not true x y = refl
if-not false x y = refl

known_glyph : (ch : ℕ) → (ltb ch font_first || ltb font_last ch) ≡ false → ch - font_first < 95
known_glyph ch h = ground arith

pixel_of_font :
    (font : List (List ℕ)) (ch fg bg down right : ℕ)
    → ((k : ℕ) → k < 95 → length (get_or font k []) ≡ 16)
    → down < 16
    → right < 8
    → get_or (render_cell font ch fg bg) (down * 8 + right) 0
      ≡ (if is_lit font ch down right then fg else bg)
unfolding render_cell
pixel_of_font font ch fg bg down right rows h k =
    elim (Bool-cases (ltb ch font_first || ltb font_last ch)) [
      | inl box ↦ rw box (get_or-replicate_lt 128 (down * 8 + right) fg (omega arith))
      | inr known ↦ rw known (
          get_or-glyph_pixels fg bg (get_or font (ch - font_first) []) down right
            (rw (rows (ch - font_first) (known_glyph ch known)) h) k
          ∙ if-not (get_or (get_or font (ch - font_first) []) down 0 / 2 ^ (7 - right) % 2 == 0) fg
              bg)
    ]

-- The pixel of a rendered cell in a row and a column of it is in the foreground colour or in the
-- background colour, as the bit of the glyph in the font says; a character without a glyph is a
-- solid box.
pub render_cell-pixel :
    (ch fg bg down right : ℕ)
    → down < 16
    → right < 8
    → get_or (render_cell font8x16 ch fg bg) (down * 8 + right) 0
      ≡ (if is_lit font8x16 ch down right then fg else bg)
render_cell-pixel ch fg bg down right h k =
    pixel_of_font font8x16 ch fg bg down right glyph_rows h k

length-glyph_pixels :
    (fg bg : ℕ) (glyph : List ℕ) → length (glyph_pixels fg bg glyph) ≡ 8 * length glyph
unfolding glyph_pixels row_pixels
length-glyph_pixels fg bg [] = refl
length-glyph_pixels fg bg (bits ∷ glyph) = omega (arith, length-glyph_pixels fg bg glyph)

length-cell_of_font :
    (font : List (List ℕ)) (ch fg bg : ℕ)
    → ((k : ℕ) → k < 95 → length (get_or font k []) ≡ 16)
    → length (render_cell font ch fg bg) ≡ 128
unfolding render_cell
length-cell_of_font font ch fg bg rows = elim (Bool-cases (ltb ch font_first || ltb font_last ch)) [
  | inl box ↦ rw box refl
  | inr known ↦ rw known (
      length-glyph_pixels fg bg (get_or font (ch - font_first) [])
      ∙ ap (λ n. 8 * n) (rows (ch - font_first) (known_glyph ch known)))
]

pub length-render_cell : (ch fg bg : ℕ) → length (render_cell font8x16 ch fg bg) ≡ 128
length-render_cell ch fg bg = length-cell_of_font font8x16 ch fg bg glyph_rows
