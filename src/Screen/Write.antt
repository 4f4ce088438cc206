-- ===== src/Screen/Write.antt =====
-- Writing to the screen: what is marked, and that the panel can be brought up to date from the marks.
use robot_joint_stack.Prelude.{
  ℕ, zero, suc, ◌/◌, ◌%◌, ◌^◌, ◌≤◌, ◌<◌, ◌≡◌, ◌⊎◌, refl, arith, true, if◌then◌else◌, ◌==◌, bit_or,
  ap, of_all_below, all_below, ==_iff,
}
use robot_joint_stack.Prelude.Bits.{bit_or_digit, bit_or-zero}
use native.Mathlib.Nat.{pow-suc}
use robot_joint_stack.Screen.{TextScreen, rows, cols, column_bit, put_char}

-- Bit `c` of a number.
abbrev pub bit_at : ℕ → ℕ → ℕ
bit_at bits zero = bits % 2
bit_at bits (suc c) = bit_at (bits / 2) c

bit_at-or_pow :
    (col c bits : ℕ) → bit_at (bit_or bits (2 ^ col)) c ≡ (if col == c then 1 else bit_at bits c)
bit_at-or_pow zero zero bits = omega (arith, bit_or_digit bits 1)
bit_at-or_pow zero (suc c) bits =
    let half : bit_or bits 1 / 2 ≡ bits / 2 =
      omega (arith, bit_or_digit bits 1, bit_or-zero (bits / 2)) in
    rw half (ground arith)
bit_at-or_pow (suc col) zero bits =
    let even : 2 ^ suc col % 2 ≡ 0 = omega (arith, pow-suc 2 col) in
    ground (arith, bit_or_digit bits (2 ^ suc col))
bit_at-or_pow (suc col) (suc c) bits =
    let half : 2 ^ suc col / 2 ≡ 2 ^ col = omega (arith, pow-suc 2 col) in
    let halves : bit_or bits (2 ^ suc col) / 2 ≡ bit_or (bits / 2) (2 ^ col) =
      omega (arith, bit_or_digit bits (2 ^ suc col), ap (bit_or (bits / 2)) half) in
    rw (halves, bit_at-or_pow col c (bits / 2)) (ground arith)

pub column_bit-eq : (col : ℕ) → col < cols → column_bit col ≡ 2 ^ col
unfolding all_below
column_bit-eq col h =
    (==_iff (column_bit col) (2 ^ col)).0 (of_all_below 30 (λ c. column_bit c == 2 ^ c) col table h)
  where
    table : all_below 30 (λ c. column_bit c == 2 ^ c) ≡ true
    table = refl

-- The screen holds at (row, col) the character `ch` in the current colours.
abbrev pub Holds : TextScreen → ℕ → ℕ → ℕ → Type 0
Holds s row col ch = (s.ch row col ≡ ch) × (s.fg row col ≡ s.cur_fg) × (s.bg row col ≡ s.cur_bg)

-- Two screens show the same in a cell, and mark it alike.
abbrev pub SameCell : TextScreen → TextScreen → ℕ → ℕ → Type 0
SameCell s k r c =
    (k.ch r c ≡ s.ch r c)
    × (k.fg r c ≡ s.fg r c)
    × (k.bg r c ≡ s.bg r c)
    × (bit_at (k.dirty r) c ≡ bit_at (s.dirty r) c)

-- Inside the screen `put_char` leaves the character in the current colours in its cell, and either
-- the cell is marked or it held this before and nothing has changed. Every other cell and its mark
-- stay, and outside the screen nothing changes.
pub put_char-Holds :
    (s : TextScreen) (row col ch r c : ℕ)
    → let k = put_char s row col ch in
      (((row < rows)
          × (col < cols)
          × Holds k row col ch
          × ((bit_at (k.dirty row) col ≡ 1) ⊎ (Holds s row col ch × (k ≡ s))))
        ⊎ (((rows ≤ row) ⊎ (cols ≤ col)) × (k ≡ s)))
      × (((row ≡ r) × (col ≡ c)) ⊎ SameCell s k r c)
unfolding put_char
put_char-Holds s row col ch r c = ground (
  arith,
  column_bit-eq col,
  bit_at-or_pow col col (s.dirty row),
  bit_at-or_pow col c (s.dirty row),
)
