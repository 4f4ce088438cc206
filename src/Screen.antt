-- ===== src/Screen.antt =====
-- common/ui/include/rjs/text_screen.h and common/ui/src/text_screen.c: the character screen with
-- change tracking. An array of 20 rows and 30 columns is a function of the row and the column; the
-- code reads and writes it only inside. What `vsnprintf` makes of a format is a parameter.
pub mod Font
pub mod Flush
pub mod Write
pub mod Tracks
pub mod Drawn
pub mod Shows
pub mod Glyph
use robot_joint_stack.Prelude.{
  ℕ, zero, suc, ◌+◌, ◌-◌, ◌*◌, ◌/◌, ◌%◌, ◌^◌, Bool, true, false, ◌&&◌, ◌||◌, if◌then◌else◌, ltb,
  leb, ◌==◌, bit_and, bit_or, Option, none, some, List, [], ◌∷◌, ◌++◌, map, take, get_or, replicate,
}
use robot_joint_stack.Prelude.Word.{u8, u16, u32, ◌<<<◌, ◌>>>◌}
use Font.{font_first, font_last}

abbrev pub cols : ℕ
cols = 30

abbrev pub rows : ℕ
rows = 20

abbrev pub Grid : Type 0
Grid = ℕ → ℕ → ℕ

-- `rjs_text_screen_t`; a character is its code from 0 to 255, and 32 is the space.
pub record TextScreen : Type 0 where
  pub ch : Grid
  pub fg : Grid
  pub bg : Grid
  pub dirty : ℕ → ℕ  -- uint32_t, one bit for each column
  pub cur_fg : ℕ  -- uint16_t
  pub cur_bg : ℕ  -- uint16_t

-- `grid[row][col] = v` and `dirty[row] = v`.
abbrev pub write_cell : Grid → ℕ → ℕ → ℕ → Grid
write_cell grid row col v = λ r c. if (row == r) && (col == c) then v else grid r c

abbrev pub write_row : (ℕ → ℕ) → ℕ → ℕ → ℕ → ℕ
write_row rows row v = λ r. if row == r then v else rows r

-- `(uint32_t)1u << col`.
abbrev pub column_bit : ℕ → ℕ
column_bit col = u32 (2 ^ col)

unfoldable pub put_char : TextScreen → ℕ → ℕ → ℕ → TextScreen
put_char s row col ch =
    if leb rows row || leb cols col
    then s
    else if (s.ch row col == ch) && ((s.fg row col == s.cur_fg) && (s.bg row col == s.cur_bg))
    then s
    else record s {
      ch = write_cell s.ch row col ch;
      fg = write_cell s.fg row col s.cur_fg;
      bg = write_cell s.bg row col s.cur_bg;
      dirty = write_row s.dirty row (bit_or (s.dirty row) (column_bit col));
    }

-- The loop of `rjs_ts_mark_all_dirty`, over the rows below `n`.
abbrev all_columns : ℕ
all_columns = 2 ^ 30 - 1

unfoldable pub mark_rows : ℕ → (ℕ → ℕ) → ℕ → ℕ
mark_rows zero dirty = dirty
mark_rows (suc n) dirty = write_row (mark_rows n dirty) n all_columns

unfoldable pub mark_all_dirty : TextScreen → TextScreen
unfolding mark_rows
mark_all_dirty s = record s { dirty = mark_rows rows s.dirty }

-- The loops of `rjs_ts_init` reach each cell of the 20 rows and 30 columns once.
unfoldable pub fill : ℕ → Grid → Grid
fill v grid = λ r c. if ltb r rows && ltb c cols then v else grid r c

unfoldable pub screen_init : ℕ → ℕ → TextScreen
unfolding fill mark_all_dirty
screen_init fg bg = mark_all_dirty (record {
  ch = fill 32 (λ r c. 0);
  fg = fill fg (λ r c. 0);
  bg = fill bg (λ r c. 0);
  dirty = λ r. 0;
  cur_fg = fg;
  cur_bg = bg;
})

unfoldable pub set_colors : TextScreen → ℕ → ℕ → TextScreen
set_colors s fg bg = record s { cur_fg = fg; cur_bg = bg }

-- The first loop of `print_v`: the text up to its end or the right edge. The result is the screen
-- and the column behind the text. The characters of the text are not 0.
unfoldable pub put_text : TextScreen → ℕ → ℕ → List ℕ → TextScreen × ℕ
unfolding put_char
put_text s row c [] = (s, c)
put_text s row c (x ∷ xs) =
    let rest = put_text (put_char s row c x) row (c + 1) xs in if ltb c cols then rest else (s, c)

-- `n` spaces from a column on; the second loop of `print_v`.
unfoldable pub put_spaces : TextScreen → ℕ → ℕ → ℕ → TextScreen
unfolding put_char
put_spaces s row c zero = s
put_spaces s row c (suc n) = put_spaces (put_char s row c 32) row (c + 1) n

-- `formatted` is what `vsnprintf` makes of the format and its arguments: none for an error, else
-- the whole text, of which the buffer takes the first 30 characters.
unfoldable pub print_v : TextScreen → ℕ → ℕ → Bool → Option (List ℕ) → TextScreen
unfolding put_text put_spaces
print_v s row col pad none = s
print_v s row col pad (some text) =
    let (printed, c) = put_text s row col (take cols text) in
    if pad then put_spaces printed row c (cols - c) else printed

unfoldable pub print : TextScreen → ℕ → ℕ → Option (List ℕ) → TextScreen
unfolding print_v
print s row col formatted = print_v s row col false formatted

unfoldable pub print_line : TextScreen → ℕ → ℕ → Option (List ℕ) → TextScreen
unfolding print_v
print_line s row col formatted = print_v s row col true formatted

-- The loop of `rjs_ts_bar` over the columns below `n`; '#' is 35 and '.' is 46.
unfoldable pub put_bar : TextScreen → ℕ → ℕ → ℕ → ℕ → TextScreen
unfolding put_char
put_bar s row col filled zero = s
put_bar s row col filled (suc i) =
    put_char (put_bar s row col filled i) row (u8 (col + i)) (if ltb i filled then 35 else 46)

unfoldable pub bar : TextScreen → ℕ → ℕ → ℕ → ℕ → TextScreen
unfolding put_bar
bar s row col width permille =
    let capped = if ltb 1000 permille then 1000 else permille in
    put_bar s row col (u16 ((width * capped + 500) / 1000)) width

unfoldable pub clear_row : TextScreen → ℕ → TextScreen
unfolding put_spaces
clear_row s row = put_spaces s row 0 cols

-- `__builtin_ctz` on a number of at most `n` binary digits that is not 0.
unfoldable pub ctz : ℕ → ℕ → ℕ
ctz zero bits = 0
ctz (suc n) bits = if bits % 2 == 0 then suc (ctz n (bits / 2)) else 0

-- The inner loop of `rjs_ts_flush`, with fuel: the columns in the order in which they are drawn.
unfoldable pub flush_columns : ℕ → ℕ → List ℕ
unfolding ctz
flush_columns zero bits = []
flush_columns (suc fuel) bits =
    let rest = flush_columns fuel (bit_and bits (bits - 1)) in
    if bits == 0 then [] else ctz 32 bits ∷ rest

-- What the callback is given, less `user`.
pub record Draw : Type 0 where
  pub row : ℕ
  pub col : ℕ
  pub char : ℕ
  pub fg : ℕ
  pub bg : ℕ

abbrev pub cell_at : TextScreen → ℕ → ℕ → Draw
cell_at s r c = record { row = r; col = c; char = s.ch r c; fg = s.fg r c; bg = s.bg r c }

-- The rows from `r` on, `n` of them: the screen afterwards and the draws.
unfoldable pub flush_rows : TextScreen → ℕ → ℕ → TextScreen × List Draw
unfolding flush_columns
flush_rows s r zero = (s, [])
flush_rows s r (suc n) =
    let cleared = record s { dirty = write_row s.dirty r 0 } in
    let (flushed, draws) = flush_rows cleared (r + 1) n in
    (flushed, map (cell_at cleared r) (flush_columns 32 (s.dirty r)) ++ draws)

-- The counter `drawn` is a uint16_t.
abbrev count_draws : ℕ → List Draw → ℕ
count_draws drawn [] = drawn
count_draws drawn (d ∷ ds) = count_draws (u16 (drawn + 1)) ds

-- With a callback that is not NULL: the screen, the calls and the return value.
unfoldable pub flush : TextScreen → TextScreen × List Draw × ℕ
unfolding flush_rows
flush s = let (flushed, draws) = flush_rows s 0 rows in (flushed, draws, count_draws 0 draws)

-- `__builtin_popcount` on at most `n` binary digits.
unfoldable pub popcount : ℕ → ℕ → ℕ
popcount zero bits = 0
popcount (suc n) bits = bits % 2 + popcount n (bits / 2)

unfoldable pub count_rows : (ℕ → ℕ) → ℕ → ℕ
unfolding popcount
count_rows dirty zero = 0
count_rows dirty (suc n) = u16 (count_rows dirty n + popcount 32 (dirty n))

unfoldable pub dirty_count : TextScreen → ℕ
unfolding count_rows
dirty_count s = count_rows s.dirty rows

-- The pixels of one row of a glyph, from the left: `bits & (0x80u >> x)`.
unfoldable pub row_pixels : ℕ → ℕ → ℕ → ℕ → List ℕ
row_pixels fg bg bits zero = []
row_pixels fg bg bits (suc n) = (if bits / 2 ^ n % 2 == 0 then bg else fg) ∷ row_pixels fg bg bits n

unfoldable pub glyph_pixels : ℕ → ℕ → List ℕ → List ℕ
unfolding row_pixels
glyph_pixels fg bg [] = []
glyph_pixels fg bg (bits ∷ glyph) = row_pixels fg bg bits 8 ++ glyph_pixels fg bg glyph

-- The 128 pixels that are written to `out`, from a font of rows of 16 bytes.
unfoldable pub render_cell : List (List ℕ) → ℕ → ℕ → ℕ → List ℕ
unfolding glyph_pixels
render_cell font ch fg bg =
    if ltb ch font_first || ltb font_last ch
    then replicate 128 fg
    else glyph_pixels fg bg (get_or font (ch - font_first) [])
