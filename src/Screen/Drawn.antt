-- ===== src/Screen/Drawn.antt =====
-- The list of draws of a flush, cell by cell.
use robot_joint_stack.Prelude.{
  ℕ, zero, suc, ◌+◌, ◌/◌, ◌%◌, ◌^◌, ◌≤◌, ◌<◌, ◌≡◌, ◌⊎◌, inl, inr, refl, arith, if◌then◌else◌, ltb,
  ◌==◌, List, [], ◌∷◌, ◌++◌, map, ap, all_below, of_all_below, ==_iff, Bool-cases,
}
use native.Mathlib.Decide.{ℕ_discrete}
use native.Mathlib.Nat.{pow-suc}
use robot_joint_stack.Screen.{TextScreen, Draw, rows, cols, cell_at, mark_rows}
use robot_joint_stack.Screen.Flush.{marked, marked_cells}
use robot_joint_stack.Screen.Write.{bit_at}
use robot_joint_stack.Screen.Tracks.{AreMarks}

abbrev pub InScreen : Draw → Type 0
InScreen d = (d.row < rows) × (d.col < cols)

abbrev pub SamePlace : Draw → Draw → Type 0
SamePlace d e = (d.row ≡ e.row) × (d.col ≡ e.col)

abbrev pub Among : Draw → List Draw → Type 0
Among e [] = ⊥
Among e (d ∷ ds) = (d ≡ e) ⊎ Among e ds

Among-append_left : (e : Draw) (ds es : List Draw) → Among e ds → Among e (ds ++ es)
Among-append_left e [] es h = absurd h
Among-append_left e (d ∷ ds) es (inl here) = inl here
Among-append_left e (d ∷ ds) es (inr later) = inr (Among-append_left e ds es later)

Among-append_right : (e : Draw) (ds es : List Draw) → Among e es → Among e (ds ++ es)
Among-append_right e [] es h = h
Among-append_right e (d ∷ ds) es h = inr (Among-append_right e ds es h)

-- Every draw is of a cell of the screen.
abbrev pub AreCells : TextScreen → List Draw → Type 0
AreCells s [] = Unit {0}
AreCells s (d ∷ ds) = (InScreen d × (d ≡ cell_at s d.row d.col)) × AreCells s ds

AreCells-append :
    (s : TextScreen) (ds es : List Draw) → AreCells s ds → AreCells s es → AreCells s (ds ++ es)
AreCells-append s [] es h k = k
AreCells-append s (d ∷ ds) es h k = (h.0, AreCells-append s ds es h.1 k)

-- The columns of a row, `q` columns further right.
abbrev IsColumn : ℕ → List ℕ → Type 0
IsColumn n [] = Unit {0}
IsColumn n (c ∷ cs) = (c < n) × IsColumn n cs

IsColumn-map-suc : (n : ℕ) (cs : List ℕ) → IsColumn n cs → IsColumn (suc n) (map suc cs)
IsColumn-map-suc n [] h = tt
IsColumn-map-suc n (c ∷ cs) h = (omega (arith, h.0), IsColumn-map-suc n cs h.1)

marked-zero : (n : ℕ) → marked n 0 ≡ []
marked-zero zero = refl
marked-zero (suc n) = ap (map suc) (marked-zero n)

-- A number below 2 ^ k has no bit from k on.
marked-IsColumn : (n k bits : ℕ) → bits < 2 ^ k → IsColumn k (marked n bits)
marked-IsColumn zero k bits h = tt
marked-IsColumn (suc n) zero bits h =
    let none_set : bits ≡ 0 = omega arith in rw (none_set, marked-zero (suc n)) tt
marked-IsColumn (suc n) (suc k) bits h =
    let rest =
      IsColumn-map-suc k (marked n (bits / 2))
        (marked-IsColumn n k (bits / 2) (omega (arith, pow-suc 2 k))) in
    elim (Bool-cases (bits % 2 == 0)) [
      | inl even ↦ rw even rest
      | inr odd ↦ rw odd (omega arith, rest)
    ]

AreCells-map :
    (s : TextScreen) (r : ℕ) (cs : List ℕ)
    → r < rows
    → IsColumn cols cs
    → AreCells s (map (cell_at s r) cs)
AreCells-map s r [] low h = tt
AreCells-map s r (c ∷ cs) low h = (((low, h.0), refl), AreCells-map s r cs low h.1)

pub marked_cells-AreCells :
    (s : TextScreen) (r n : ℕ) → r + n ≤ rows → AreMarks s → AreCells s (marked_cells s r n)
marked_cells-AreCells s r zero low words = tt
marked_cells-AreCells s r (suc n) low words =
    AreCells-append s (map (cell_at s r) (marked 32 (s.dirty r))) (marked_cells s (r + 1) n)
      (AreCells-map s r (marked 32 (s.dirty r)) (omega arith)
        (marked-IsColumn 32 30 (s.dirty r) (words r)))
      (marked_cells-AreCells s (r + 1) n (omega arith) words)

abbrev AmongColumns : ℕ → List ℕ → Type 0
AmongColumns c [] = ⊥
AmongColumns c (d ∷ ds) = (d ≡ c) ⊎ AmongColumns c ds

AmongColumns-map-suc : (c : ℕ) (cs : List ℕ) → AmongColumns c cs → AmongColumns (suc c) (map suc cs)
AmongColumns-map-suc c [] h = absurd h
AmongColumns-map-suc c (d ∷ ds) (inl here) = inl (ap suc here)
AmongColumns-map-suc c (d ∷ ds) (inr later) = inr (AmongColumns-map-suc c ds later)

marked-AmongColumns : (n c bits : ℕ) → c < n → bit_at bits c ≡ 1 → AmongColumns c (marked n bits)
marked-AmongColumns zero c bits h bit = absurd (omega arith)
marked-AmongColumns (suc n) zero bits h bit = rw bit (inl refl)
marked-AmongColumns (suc n) (suc c) bits h bit =
    let rest =
      AmongColumns-map-suc c (marked n (bits / 2))
        (marked-AmongColumns n c (bits / 2) (omega arith) bit) in
    elim (Bool-cases (bits % 2 == 0)) [ inl even ↦ rw even rest | inr odd ↦ rw odd (inr rest) ]

Among-map :
    (s : TextScreen) (r c : ℕ) (cs : List ℕ)
    → AmongColumns c cs
    → Among (cell_at s r c) (map (cell_at s r) cs)
Among-map s r c [] h = absurd h
Among-map s r c (d ∷ ds) (inl here) = inl (ap (cell_at s r) here)
Among-map s r c (d ∷ ds) (inr later) = inr (Among-map s r c ds later)

pub Among-marked_cells :
    (s : TextScreen) (n first r c : ℕ)
    → first ≤ r
    → r < first + n
    → c < 32
    → bit_at (s.dirty r) c ≡ 1
    → Among (cell_at s r c) (marked_cells s first n)
Among-marked_cells s zero first r c low high col bit = absurd (omega arith)
Among-marked_cells s (suc n) first r c low high col bit = elim (ℕ_discrete first r) [
  | yes here ↦
      Among-append_left (cell_at s r c) (map (cell_at s first) (marked 32 (s.dirty first)))
        (marked_cells s (first + 1) n)
        (rw here
          (Among-map s r c (marked 32 (s.dirty r)) (marked-AmongColumns 32 c (s.dirty r) col bit)))
  | no later ↦
      Among-append_right (cell_at s r c) (map (cell_at s first) (marked 32 (s.dirty first)))
        (marked_cells s (first + 1) n)
        (Among-marked_cells s n (first + 1) r c (omega arith) (omega arith) col bit)
]

pub mark_rows-eq :
    (n : ℕ) (dirty : ℕ → ℕ) (q : ℕ)
    → mark_rows n dirty q ≡ (if ltb q n then 1073741823 else dirty q)
unfolding mark_rows
mark_rows-eq zero dirty q = ground arith
mark_rows-eq (suc n) dirty q = ground (arith, mark_rows-eq n dirty q)

pub all_marked : (c : ℕ) → c < cols → bit_at 1073741823 c ≡ 1
unfolding all_below
all_marked c h =
    (==_iff (bit_at 1073741823 c) 1).0 (of_all_below 30 (λ c. bit_at 1073741823 c == 1) c refl h)

-- A write leaves the cells alone when only the marks have changed.
pub cell_at-eq :
    (s k : TextScreen) (r c : ℕ)
    → (k.ch ≡ s.ch) × (k.fg ≡ s.fg) × (k.bg ≡ s.bg)
    → cell_at k r c ≡ cell_at s r c
cell_at-eq s k r c (e, f, g) =
    let e' = ap (λ (h : ℕ → ℕ → ℕ). h r c) e in
    let f' = ap (λ (h : ℕ → ℕ → ℕ). h r c) f in
    let g' = ap (λ (h : ℕ → ℕ → ℕ). h r c) g in rw (e', f', g') refl

pub flush_words : (s : TextScreen) → AreMarks s → (q : ℕ) → s.dirty q < 2 ^ 32
flush_words s words q = omega (arith, words q)

pub cleared_word : (q n x : ℕ) → x < 2 ^ 30 → (if ltb q n then 0 else x) < 2 ^ 30
cleared_word q n x h = ground arith
