-- ===== src/Screen/Shows.antt =====
-- What a panel shows after a flush: the draw callback as an interface, and the whole screen through it.
use robot_joint_stack.Prelude.{
  ℕ, ◌<◌, ◌≡◌, ◌⊎◌, inl, inr, refl, arith, List, [], ◌∷◌, ap, sym, ◌∙◌, lt→ltb,
}
use mathlib.Core.Path.{subst}
use native.Mathlib.Decide.{ℕ_discrete}
use robot_joint_stack.Screen.{
  TextScreen, Draw, rows, cols, cell_at, flush, screen_init, mark_all_dirty,
}
use robot_joint_stack.Screen.Flush.{marked, marked_cells, flush-marked_cells}
use robot_joint_stack.Screen.Write.{bit_at}
use robot_joint_stack.Screen.Tracks.{AreMarks, Marked, Tracks}
use robot_joint_stack.Screen.Drawn.{
  InScreen, SamePlace, Among, AreCells, marked_cells-AreCells, Among-marked_cells, mark_rows-eq,
  all_marked, cell_at-eq, flush_words, cleared_word,
}

-- A panel that the callback draws on: the cell that is drawn is shown, and no other cell changes.
pub record Canvas (P : Type 0) : Type 1 where
  pub draw : P → Draw → P
  pub Showing : P → Draw → Type 0
  pub draw-Showing : (p : P) (d : Draw) → InScreen d → Showing (draw p d) d
  pub draw-Showing_other :
      (p : P) (d e : Draw)
      → InScreen d
      → InScreen e
      → ¬ SamePlace d e
      → Showing p e
      → Showing (draw p d) e

module _ {P : Type 0} (canvas : Canvas P) where
  open canvas use {draw, Showing, draw-Showing, draw-Showing_other}

  abbrev pub draw_all : P → List Draw → P
  draw_all p [] = p
  draw_all p (d ∷ ds) = draw_all (draw p d) ds

  -- Every cell of the screen is shown.
  abbrev pub Shows : P → TextScreen → Type 0
  Shows p s = (r c : ℕ) → r < rows → c < cols → Showing p (cell_at s r c)

  -- Every cell of the screen is marked or shown.
  pub record Agrees (p : P) (s : TextScreen) : Type 0 where
    pub words : AreMarks s
    pub cells :
        (r c : ℕ) → r < rows → c < cols → (bit_at (s.dirty r) c ≡ 1) ⊎ Showing p (cell_at s r c)

  draw_all-keeps :
      (ds : List Draw) (p : P) (s : TextScreen) (r c : ℕ)
      → r < rows
      → c < cols
      → AreCells s ds
      → Showing p (cell_at s r c)
      → Showing (draw_all p ds) (cell_at s r c)
  draw_all-keeps [] p s r c low left ok shown = shown
  draw_all-keeps (d ∷ ds) p s r c low left ok shown =
      draw_all-keeps ds (draw p d) s r c low left ok.1
        (by_place (ℕ_discrete d.row r) (ℕ_discrete d.col c))
    where
      by_place : Dec (d.row ≡ r) → Dec (d.col ≡ c) → Showing (draw p d) (cell_at s r c)
      by_place (no other) b =
          draw-Showing_other p d (cell_at s r c) ok.0.0 (low, left) (λ h. other h.0) shown
      by_place (yes a) (no other) =
          draw-Showing_other p d (cell_at s r c) ok.0.0 (low, left) (λ h. other h.1) shown
      by_place (yes a) (yes b) =
          let same : d ≡ cell_at s r c =
            ok.0.1 ∙ ap (λ r'. cell_at s r' d.col) a ∙ ap (cell_at s r) b in
          subst (Showing (draw p d)) same (draw-Showing p d ok.0.0)

  draw_all-Showing :
      (ds : List Draw) (p : P) (s : TextScreen) (r c : ℕ)
      → r < rows
      → c < cols
      → AreCells s ds
      → Among (cell_at s r c) ds
      → Showing (draw_all p ds) (cell_at s r c)
  draw_all-Showing [] p s r c low left ok h = absurd h
  draw_all-Showing (d ∷ ds) p s r c low left ok (inl here) =
      draw_all-keeps ds (draw p d) s r c low left ok.1
        (subst (Showing (draw p d)) here (draw-Showing p d ok.0.0))
  draw_all-Showing (d ∷ ds) p s r c low left ok (inr later) =
      draw_all-Showing ds (draw p d) s r c low left ok.1 later

  marked_cells-Showing :
      (p : P) (s : TextScreen) (r c : ℕ)
      → Agrees p s
      → r < rows
      → c < cols
      → Showing (draw_all p (marked_cells s 0 rows)) (cell_at s r c)
  marked_cells-Showing p s r c h low left = by_mark (h.cells r c low left)
    where
      cells : AreCells s (marked_cells s 0 rows)
      cells = marked_cells-AreCells s 0 rows (omega arith) h.words

      by_mark :
          (bit_at (s.dirty r) c ≡ 1) ⊎ Showing p (cell_at s r c)
          → Showing (draw_all p (marked_cells s 0 rows)) (cell_at s r c)
      by_mark (inl bit) =
          draw_all-Showing (marked_cells s 0 rows) p s r c low left cells
            (Among-marked_cells s rows 0 r c (omega arith) (omega arith) (omega arith) bit)
      by_mark (inr shown) = draw_all-keeps (marked_cells s 0 rows) p s r c low left cells shown

  -- After a flush the panel shows every cell of the screen as it is, if before it every cell was
  -- marked or shown; so it is again afterwards.
  pub flush-Shows :
      (p : P) (s : TextScreen)
      → Agrees p s
      → let (k, draws, drawn) = flush s in Shows (draw_all p draws) k × Agrees (draw_all p draws) k
  flush-Shows p s h =
      let facts = flush-marked_cells s (flush_words s h.words) in
      let k = (flush s).0 in
      let shows : Shows (draw_all p (flush s).1) k = λ r c low left.
        subst (Showing (draw_all p (flush s).1)) (sym (cell_at-eq s k r c facts.2)) (
          subst (λ ds. Showing (draw_all p ds) (cell_at s r c)) (sym facts.0)
            (marked_cells-Showing p s r c h low left)) in
      (
        shows,
        record {
          words = λ q. rw (facts.3 q) (cleared_word q rows (s.dirty q) (h.words q));
          cells = λ r c low left. inr (shows r c low left);
        },
      )

  pub Tracks-Agrees : (p : P) (s k : TextScreen) → Tracks s k → Agrees p s → Agrees p k
  Tracks-Agrees p s k t h = record {
    words = t.words h.words;
    cells = λ r c low left. by_mark r c (t.cells r c) (h.cells r c low left);
  }
    where
      by_mark :
          (r c : ℕ)
          → Marked s k r c
          → (bit_at (s.dirty r) c ≡ 1) ⊎ Showing p (cell_at s r c)
          → (bit_at (k.dirty r) c ≡ 1) ⊎ Showing p (cell_at k r c)
      by_mark r c (inl marked) old = inl marked
      by_mark r c (inr (same, mark)) (inl bit) = inl (mark ∙ bit)
      by_mark r c (inr (same, mark)) (inr shown) = inr (subst (Showing p) (sym same) shown)

  pub screen_init-Agrees : (p : P) (fg bg : ℕ) → Agrees p (screen_init fg bg)
  unfolding screen_init mark_all_dirty
  screen_init-Agrees p fg bg = record {
    words = λ q. ground (arith, mark_rows-eq rows (λ r. 0) q);
    cells = λ r c low left. inl (
        ap (λ bits. bit_at bits c) (mark_rows-eq rows (λ r. 0) r ∙ rw (lt→ltb r rows low) refl)
        ∙ all_marked c left);
  }
