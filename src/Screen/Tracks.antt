-- ===== src/Screen/Tracks.antt =====
-- The change tracking over whole operations: whatever is written, a cell that is not marked is as it
-- was.
use robot_joint_stack.Prelude.{
  ℕ, zero, suc, ◌+◌, ◌-◌, ◌/◌, ◌^◌, ◌≤◌, ◌<◌, ◌≡◌, ◌⊎◌, inl, inr, refl, arith, Bool, true, false,
  if◌then◌else◌, ltb, bit_or, List, [], ◌∷◌, Option, none, some, take, ap, ◌∙◌, Bool-cases,
  of_all_below, all_below, ltb→lt,
}
use robot_joint_stack.Prelude.Bits.{bit_or_digit}
use robot_joint_stack.Prelude.Word.{u8}
use native.Mathlib.Nat.{pow-suc}
use robot_joint_stack.Screen.{
  TextScreen, rows, cols, column_bit, cell_at, put_char, put_text, put_spaces, print_v, print,
  print_line, put_bar, bar, clear_row, set_colors,
}
use robot_joint_stack.Screen.Write.{bit_at, Holds, SameCell, put_char-Holds}

-- The marks of a row are those of its 30 columns.
abbrev pub AreMarks : TextScreen → Type 0
AreMarks s = (r : ℕ) → s.dirty r < 2 ^ 30

abbrev pub Marked : TextScreen → TextScreen → ℕ → ℕ → Type 0
Marked s k r c =
    (bit_at (k.dirty r) c ≡ 1)
    ⊎ ((cell_at k r c ≡ cell_at s r c) × (bit_at (k.dirty r) c ≡ bit_at (s.dirty r) c))

-- From `s` to `k` a cell has been marked, or it is as it was, and so is its mark.
pub record Tracks (s k : TextScreen) : Type 0 where
  pub words : AreMarks s → AreMarks k
  pub cells : (r c : ℕ) → Marked s k r c

pub Tracks-refl : (s : TextScreen) → Tracks s s
Tracks-refl s = record { words = λ h. h; cells = λ r c. inr (refl, refl) }

pub Tracks-trans : {s k m : TextScreen} → Tracks s k → Tracks k m → Tracks s m
Tracks-trans {s} {k} {m} f g = record {
  words = λ h. g.words (f.words h);
  cells = λ r c. two_steps r c (f.cells r c) (g.cells r c);
}
  where
    two_steps : (r c : ℕ) → Marked s k r c → Marked k m r c → Marked s m r c
    two_steps r c first (inl marked) = inl marked
    two_steps r c (inl marked) (inr (same, mark)) = inl (mark ∙ marked)
    two_steps r c (inr (before, mark)) (inr (same, mark')) = inr (same ∙ before, mark' ∙ mark)

bit_or-lt-pow : (k a b : ℕ) → a < 2 ^ k → b < 2 ^ k → bit_or a b < 2 ^ k
bit_or-lt-pow zero a b h g =
    let none_a : a ≡ 0 = omega arith in
    let none_b : b ≡ 0 = omega arith in rw (none_a, none_b) (omega arith)
bit_or-lt-pow (suc k) a b h g = omega (
  arith,
  bit_or_digit a b,
  pow-suc 2 k,
  bit_or-lt-pow k (a / 2) (b / 2) (omega (arith, pow-suc 2 k)) (omega (arith, pow-suc 2 k)),
)

column_bit-lt : (col : ℕ) → col < cols → column_bit col < 2 ^ 30
unfolding all_below
column_bit-lt col h =
    ltb→lt (column_bit col) 1073741824
      (of_all_below 30 (λ c. ltb (column_bit c) 1073741824) col table h)
  where
    table : all_below 30 (λ c. ltb (column_bit c) 1073741824) ≡ true
    table = refl

cell_at-SameCell :
    (s k : TextScreen) (r c : ℕ)
    → (k.ch r c ≡ s.ch r c) × (k.fg r c ≡ s.fg r c) × (k.bg r c ≡ s.bg r c)
    → cell_at k r c ≡ cell_at s r c
cell_at-SameCell s k r c h = ground arith

put_char-words : (s : TextScreen) (row col ch : ℕ) → AreMarks s → AreMarks (put_char s row col ch)
unfolding put_char
put_char-words s row col ch h r =
    ground (arith, bit_or-lt-pow 30 (s.dirty row) (column_bit col), column_bit-lt col, h r, h row)

put_char-Tracks : (s : TextScreen) (row col ch : ℕ) → Tracks s (put_char s row col ch)
put_char-Tracks s row col ch = record {
  words = put_char-words s row col ch;
  cells = λ r c. by_cell r c (put_char-Holds s row col ch r c);
}
  where
    unchanged : (r c : ℕ) → put_char s row col ch ≡ s → Marked s (put_char s row col ch) r c
    unchanged r c e =
        inr (
          ap (λ (k : TextScreen). cell_at k r c) e,
          ap (λ (k : TextScreen). bit_at (k.dirty r) c) e,
        )

    by_cell :
        (r c : ℕ)
        → (((row < rows)
              × (col < cols)
              × Holds (put_char s row col ch) row col ch
              × ((bit_at ((put_char s row col ch).dirty row) col ≡ 1)
                  ⊎ (Holds s row col ch × (put_char s row col ch ≡ s))))
            ⊎ (((rows ≤ row) ⊎ (cols ≤ col)) × (put_char s row col ch ≡ s)))
          × (((row ≡ r) × (col ≡ c)) ⊎ SameCell s (put_char s row col ch) r c)
        → Marked s (put_char s row col ch) r c
    by_cell r c (h, inr same) =
        inr (cell_at-SameCell s (put_char s row col ch) r c (same.0, same.1, same.2), same.3)
    by_cell r c (inl (low, left, holds, inl marked), inl (er, ec)) = inl (rw (← er, ← ec) marked)
    by_cell r c (inl (low, left, holds, inr (old, e)), inl here) = unchanged r c e
    by_cell r c (inr (out, e), inl here) = unchanged r c e

put_text-Tracks : (xs : List ℕ) (s : TextScreen) (row c : ℕ) → Tracks s (put_text s row c xs).0
unfolding put_text
put_text-Tracks [] s row c = Tracks-refl s
put_text-Tracks (x ∷ xs) s row c = elim (Bool-cases (ltb c cols)) [
  | inl inside ↦ rw inside (
      Tracks-trans (put_char-Tracks s row c x)
        (put_text-Tracks xs (put_char s row c x) row (c + 1)))
  | inr out ↦ rw out (Tracks-refl s)
]

pub put_spaces-Tracks : (n : ℕ) (s : TextScreen) (row c : ℕ) → Tracks s (put_spaces s row c n)
unfolding put_spaces
put_spaces-Tracks zero s row c = Tracks-refl s
put_spaces-Tracks (suc n) s row c =
    Tracks-trans (put_char-Tracks s row c 32)
      (put_spaces-Tracks n (put_char s row c 32) row (c + 1))

print_v-Tracks :
    (s : TextScreen) (row col : ℕ) (pad : Bool) (formatted : Option (List ℕ))
    → Tracks s (print_v s row col pad formatted)
unfolding print_v
print_v-Tracks s row col pad none = Tracks-refl s
print_v-Tracks s row col false (some text) = put_text-Tracks (take cols text) s row col
print_v-Tracks s row col true (some text) =
    let (printed, c) = put_text s row col (take cols text) in
    Tracks-trans (put_text-Tracks (take cols text) s row col)
      (put_spaces-Tracks (cols - c) printed row c)

pub print-Tracks :
    (s : TextScreen) (row col : ℕ) (formatted : Option (List ℕ))
    → Tracks s (print s row col formatted)
unfolding print
print-Tracks s row col formatted = print_v-Tracks s row col false formatted

pub print_line-Tracks :
    (s : TextScreen) (row col : ℕ) (formatted : Option (List ℕ))
    → Tracks s (print_line s row col formatted)
unfolding print_line
print_line-Tracks s row col formatted = print_v-Tracks s row col true formatted

put_bar-Tracks :
    (i : ℕ) (s : TextScreen) (row col filled : ℕ) → Tracks s (put_bar s row col filled i)
unfolding put_bar
put_bar-Tracks zero s row col filled = Tracks-refl s
put_bar-Tracks (suc i) s row col filled = Tracks-trans (put_bar-Tracks i s row col filled) (
    put_char-Tracks (put_bar s row col filled i) row (u8 (col + i))
      (if ltb i filled then 35 else 46))

pub bar-Tracks :
    (s : TextScreen) (row col width permille : ℕ) → Tracks s (bar s row col width permille)
unfolding bar
bar-Tracks s row col width permille = put_bar-Tracks width s row col _

pub clear_row-Tracks : (s : TextScreen) (row : ℕ) → Tracks s (clear_row s row)
unfolding clear_row
clear_row-Tracks s row = put_spaces-Tracks cols s row 0

pub set_colors-Tracks : (s : TextScreen) (fg bg : ℕ) → Tracks s (set_colors s fg bg)
unfolding set_colors
set_colors-Tracks s fg bg = record { words = λ h. h; cells = λ r c. inr (refl, refl) }
