-- ===== src/Screen/Flush.antt =====
-- A flush of the screen against the list of the marked cells: the loop that takes the lowest bit of
-- a row's marks until none is left, and the loops over the rows.
use robot_joint_stack.Prelude.{
  ℕ, zero, suc, ◌+◌, ◌-◌, ◌*◌, ◌/◌, ◌%◌, ◌^◌, ◌≤◌, ◌<◌, ◌≡◌, refl, arith, if◌then◌else◌, ltb, leb,
  ◌==◌, false, ◌&&◌, ne→==_false, bit_and, List, [], ◌∷◌, ◌++◌, map, length, length-append,
  length-map, ap, ap₂, ◌∙◌, sym, ◌⊎◌, inl, inr,
}
use robot_joint_stack.Prelude.Bits.{bit_and_digit, bit_and-le, bit_and_idem}
use robot_joint_stack.Prelude.Word.{u16}
use native.Mathlib.Nat.{pow-suc, pow-le-pow_right}
use robot_joint_stack.Screen.{
  TextScreen, Draw, rows, write_row, cell_at, ctz, flush_columns, flush_rows, count_draws, flush,
  popcount, count_rows, dirty_count,
}

ctz_wider : (n b : ℕ) → b < 2 ^ n → 0 < b → ctz (suc n) b ≡ ctz n b
unfolding ctz
ctz_wider zero b small some_bit = absurd (omega arith)
ctz_wider (suc n) b small some_bit = ground (arith, ctz_wider n (b / 2), pow-suc 2 n)

ctz_even : (n b : ℕ) → ctz (suc n) (b * 2) ≡ suc (ctz n b)
unfolding ctz
ctz_even n b =
    let even : b * 2 % 2 ≡ 0 = omega arith in
    let half : b * 2 / 2 ≡ b = omega arith in rw (even, half) refl

ctz_odd : (n b : ℕ) → ctz (suc n) (b * 2 + 1) ≡ 0
unfolding ctz
ctz_odd n b = let odd : (b * 2 + 1) % 2 ≡ 1 = omega arith in rw odd refl

ctz_double : (b : ℕ) → b < 2 ^ 31 → 0 < b → ctz 32 (b * 2) ≡ suc (ctz 32 b)
ctz_double b small some_bit = ctz_even 31 b ∙ ap suc (sym (ctz_wider 31 b small some_bit))

clear_lowest_double : (b : ℕ) → 0 < b → bit_and (b * 2) (b * 2 - 1) ≡ bit_and b (b - 1) * 2
clear_lowest_double b some_bit =
    let half : b * 2 / 2 ≡ b = omega arith in
    let half' : (b * 2 - 1) / 2 ≡ b - 1 = omega arith in
    rw (bit_and_digit (b * 2) (b * 2 - 1), half, half') (omega arith)

clear_lowest_odd : (b : ℕ) → bit_and (b * 2 + 1) (b * 2) ≡ b * 2
clear_lowest_odd b =
    let half : (b * 2 + 1) / 2 ≡ b = omega arith in
    let half' : b * 2 / 2 ≡ b = omega arith in
    rw (bit_and_digit (b * 2 + 1) (b * 2), half, half', bit_and_idem b) (omega arith)

columns_step :
    (fuel b : ℕ)
    → 0 < b
    → flush_columns (suc fuel) b ≡ ctz 32 b ∷ flush_columns fuel (bit_and b (b - 1))
unfolding flush_columns
columns_step fuel b some_bit =
    let not_done : (b == 0) ≡ false = ne→==_false b 0 (λ e. omega arith) in rw not_done refl

columns_none : (b : ℕ) → flush_columns 0 b ≡ []
unfolding flush_columns
columns_none b = refl

columns_zero : (fuel : ℕ) → flush_columns fuel 0 ≡ []
unfolding flush_columns
columns_zero zero = refl
columns_zero (suc fuel) = refl

columns_double :
    (fuel b : ℕ) → b < 2 ^ 31 → flush_columns fuel (b * 2) ≡ map suc (flush_columns fuel b)
columns_double zero b small = columns_none (b * 2) ∙ ap (map suc) (sym (columns_none b))
columns_double (suc fuel) zero small =
    columns_zero (suc fuel) ∙ ap (map suc) (sym (columns_zero (suc fuel)))
columns_double (suc fuel) (suc b) small =
    let rest : flush_columns fuel (bit_and (suc b * 2) (suc b * 2 - 1))
        ≡ map suc (flush_columns fuel (bit_and (suc b) (suc b - 1))) =
      ap (flush_columns fuel) (clear_lowest_double (suc b) (omega arith))
      ∙ columns_double fuel (bit_and (suc b) (suc b - 1))
          (omega (arith, bit_and-le (suc b) (suc b - 1))) in
    columns_step fuel (suc b * 2) (omega arith)
    ∙ ap₂ (λ c cs. c ∷ cs) (ctz_double (suc b) small (omega arith)) rest
    ∙ sym (ap (map suc) (columns_step fuel (suc b) (omega arith)))

columns_odd : (fuel b : ℕ) → flush_columns (suc fuel) (b * 2 + 1) ≡ 0 ∷ flush_columns fuel (b * 2)
columns_odd fuel b =
    let pred : b * 2 + 1 - 1 ≡ b * 2 = omega arith in
    columns_step fuel (b * 2 + 1) (omega arith) ∙ rw (ctz_odd 31 b, pred, clear_lowest_odd b) refl

-- The columns whose bit is set, from the left, among the first `n`.
abbrev pub marked : ℕ → ℕ → List ℕ
marked zero bits = []
marked (suc n) bits =
    let rest = map suc (marked n (bits / 2)) in if bits % 2 == 0 then rest else 0 ∷ rest

digit_cases : (b : ℕ) → ((b ≡ b / 2 * 2) × (b % 2 ≡ 0)) ⊎ ((b ≡ b / 2 * 2 + 1) × (b % 2 ≡ 1))
digit_cases b = omega arith

columns_marked : (w fuel b : ℕ) → w ≤ fuel → w ≤ 32 → b < 2 ^ w → flush_columns fuel b ≡ marked w b
columns_marked zero fuel b enough word small =
    let none_set : b ≡ 0 = omega arith in rw none_set (columns_zero fuel)
columns_marked (suc w) zero b enough word small = elim enough [ ]
columns_marked (suc w) (suc fuel) b enough word small =
    let half_small : b / 2 < 2 ^ w = omega (arith, pow-suc 2 w) in
    let half_word : b / 2 < 2 ^ 31 =
      omega (
        arith,
        half_small,
        pow-le-pow_right {n = 2} (omega arith) {i = w} {j = 31} (omega arith),
      ) in
    elim (digit_cases b) [
      | inl (even, digit) ↦
          ap (flush_columns (suc fuel)) even
          ∙ columns_double (suc fuel) (b / 2) half_word
          ∙ rw (digit, columns_marked w (suc fuel) (b / 2) (omega arith) (omega arith) half_small)
              refl
      | inr (odd, digit) ↦
          ap (flush_columns (suc fuel)) odd
          ∙ columns_odd fuel (b / 2)
          ∙ rw
              (
                digit,
                columns_double fuel (b / 2) half_word,
                columns_marked w fuel (b / 2) (omega arith) (omega arith) half_small,
              )
              refl
    ]

length-marked : (n b : ℕ) → length (marked n b) ≡ popcount n b
unfolding popcount
length-marked zero b = refl
length-marked (suc n) b = ground (arith, length-marked n (b / 2), length-map (marked n (b / 2)) suc)

-- The marked cells of `n` rows from row `r` on, row by row and from the left.
abbrev pub marked_cells : TextScreen → ℕ → ℕ → List Draw
marked_cells s r zero = []
marked_cells s r (suc n) = map (cell_at s r) (marked 32 (s.dirty r)) ++ marked_cells s (r + 1) n

abbrev clear_marks : TextScreen → ℕ → TextScreen
clear_marks s r = record s { dirty = write_row s.dirty r 0 }

-- Clearing the marks of an earlier row changes nothing.
marked_cells-clear_marks :
    (s : TextScreen) (r q n : ℕ) → r < q → marked_cells (clear_marks s r) q n ≡ marked_cells s q n
marked_cells-clear_marks s r q zero h = refl
marked_cells-clear_marks s r q (suc n) h =
    let other : (r == q) ≡ false = ne→==_false r q (omega arith) in
    rw (other, marked_cells-clear_marks s r (q + 1) n (omega arith)) refl

clear_marks_word :
    (s : TextScreen) (r : ℕ)
    → ((q : ℕ) → s.dirty q < 2 ^ 32)
    → (q : ℕ) → (clear_marks s r).dirty q < 2 ^ 32
clear_marks_word s r words q = ground (arith, words q)

-- A flush of rows: what it draws, what it clears, and what it leaves alone.
flush_rows-eq :
    (s : TextScreen) (r n : ℕ)
    → ((q : ℕ) → s.dirty q < 2 ^ 32)
    → let f = flush_rows s r n in
      (f.1 ≡ marked_cells s r n)
      × (f.0.ch ≡ s.ch)
      × (f.0.fg ≡ s.fg)
      × (f.0.bg ≡ s.bg)
      × ((q : ℕ) → f.0.dirty q ≡ (if leb r q && ltb q (r + n) then 0 else s.dirty q))
unfolding flush_rows
flush_rows-eq s r zero words = (refl, refl, refl, refl, λ q. ground arith)
flush_rows-eq s r (suc n) words =
    let rest = flush_rows-eq (clear_marks s r) (r + 1) n (clear_marks_word s r words) in
    (
      rw
          (
            rest.0,
            columns_marked 32 32 (s.dirty r) (omega arith) (omega arith) (words r),
            marked_cells-clear_marks s r (r + 1) n (omega arith),
          )
          refl,
      rest.1,
      rest.2,
      rest.3,
      λ q. rest.4 q ∙ ground arith,
    )

-- How many cells of the first `n` rows are marked.
abbrev marks_below : (ℕ → ℕ) → ℕ → ℕ
marks_below dirty zero = 0
marks_below dirty (suc n) = marks_below dirty n + popcount 32 (dirty n)

length-marked_cells :
    (s : TextScreen) (r n : ℕ)
    → marks_below s.dirty r + length (marked_cells s r n) ≡ marks_below s.dirty (r + n)
length-marked_cells s r zero = rw (plus_none r) (omega arith)
  where
    plus_none : (r : ℕ) → r + 0 ≡ r
    plus_none r = omega arith
length-marked_cells s r (suc n) =
    let later : r + suc n ≡ r + 1 + n = omega arith in
    let next : r + 1 ≡ suc r = omega arith in
    let bits = marked 32 (s.dirty r) in
    let here = length-append (map (cell_at s r) bits) (marked_cells s (r + 1) n) in
    let rest = length-marked_cells s (r + 1) n in
    rw later (
      omega (
        arith,
        here,
        length-map bits (cell_at s r),
        length-marked 32 (s.dirty r),
        rest,
        ap (marks_below s.dirty) next,
      ))

count_draws-eq : (ds : List Draw) (n : ℕ) → n < 65536 → count_draws n ds ≡ u16 (n + length ds)
count_draws-eq [] n h = omega arith
count_draws-eq (d ∷ ds) n h = omega (arith, count_draws-eq ds (u16 (n + 1)) (omega arith))

count_rows-eq : (dirty : ℕ → ℕ) (n : ℕ) → count_rows dirty n ≡ u16 (marks_below dirty n)
unfolding count_rows
count_rows-eq dirty zero = omega arith
count_rows-eq dirty (suc n) = omega (arith, count_rows-eq dirty n)

draws-count : (s : TextScreen) (n : ℕ) → count_draws 0 (marked_cells s 0 n) ≡ count_rows s.dirty n
draws-count s n =
    let none_before : 0 + n ≡ n = omega arith in
    count_draws-eq (marked_cells s 0 n) 0 (omega arith)
    ∙ ap u16 (length-marked_cells s 0 n)
    ∙ ap (λ k. u16 (marks_below s.dirty k)) none_before
    ∙ sym (count_rows-eq s.dirty n)

within_rows : (q n x : ℕ) → (if leb 0 q && ltb q (0 + n) then 0 else x) ≡ (if ltb q n then 0 else x)
within_rows q n x = ground arith

-- A flush of a screen whose marks are 32-bit words calls back once for every marked cell, row by row
-- and from left to right, with the cell's character and colours; it returns the number that
-- `rjs_ts_dirty_count` gave before it; it clears the marks of all 20 rows and changes no cell.
pub flush-marked_cells :
    (s : TextScreen)
    → ((q : ℕ) → s.dirty q < 2 ^ 32)
    → let (k, draws, drawn) = flush s in
      (draws ≡ marked_cells s 0 rows)
      × (drawn ≡ dirty_count s)
      × ((k.ch ≡ s.ch) × (k.fg ≡ s.fg) × (k.bg ≡ s.bg))
      × ((q : ℕ) → k.dirty q ≡ (if ltb q rows then 0 else s.dirty q))
unfolding flush dirty_count
flush-marked_cells s words =
    let f = flush_rows-eq s 0 rows words in
    (
      f.0,
      ap (count_draws 0) f.0 ∙ draws-count s rows,
      (f.1, f.2, f.3),
      λ q. f.4 q ∙ within_rows q rows (s.dirty q),
    )
