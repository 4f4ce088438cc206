-- ===== src/App/Send/Alone.antt =====
-- `can_send` by one task alone: access by access it counts as the model of the tasks does.
use robot_joint_stack.Prelude.{ℕ, ◌+◌, ◌<◌, ◌≡◌, ◌∙◌, arith, refl, sym, ap, List, [], ◌∷◌}
use mathlib.Core.Path.{subst}
use robot_joint_stack.Prelude.Word.{u32}
use robot_joint_stack.Hal.{CanResult}
use robot_joint_stack.Mutex.{Mutex}
use robot_joint_stack.App.{AppStats, count_send}
use robot_joint_stack.App.Send.{
  is_ok, counter, write_counter, Caller, Place, outside, waiting, inside, answered, released,
  counting, Line, Move, call, take, send, give, read, write,
}

-- The counters after answers, the latest first.
abbrev pub after_sends : AppStats → List CanResult → AppStats
after_sends s [] = s
after_sends s (r ∷ rs) = count_send (after_sends s rs) r

-- How many of the answers are RJS_CAN_OK, and how many are errors.
abbrev pub successes : List CanResult → ℕ
successes [] = 0
successes (CanResult.ok ∷ rs) = successes rs + 1
successes (CanResult.err_param ∷ rs) = successes rs
successes (CanResult.err_busy ∷ rs) = successes rs
successes (CanResult.err_hw ∷ rs) = successes rs

abbrev pub errors : List CanResult → ℕ
errors [] = 0
errors (CanResult.ok ∷ rs) = errors rs
errors (CanResult.err_param ∷ rs) = errors rs + 1
errors (CanResult.err_busy ∷ rs) = errors rs + 1
errors (CanResult.err_hw ∷ rs) = errors rs + 1

after_sends-successes :
    (s : AppStats) (rs : List CanResult)
    → s.tx_frames < 4294967296
    → (after_sends s rs).tx_frames ≡ u32 (s.tx_frames + successes rs)
unfolding count_send
after_sends-successes s [] word = omega arith
after_sends-successes s (CanResult.ok ∷ rs) word =
    let before = after_sends-successes s rs word in omega arith
after_sends-successes s (CanResult.err_param ∷ rs) word = after_sends-successes s rs word
after_sends-successes s (CanResult.err_busy ∷ rs) word = after_sends-successes s rs word
after_sends-successes s (CanResult.err_hw ∷ rs) word = after_sends-successes s rs word

after_sends-errors :
    (s : AppStats) (rs : List CanResult)
    → s.tx_busy < 4294967296
    → (after_sends s rs).tx_busy ≡ u32 (s.tx_busy + errors rs)
unfolding count_send
after_sends-errors s [] word = omega arith
after_sends-errors s (CanResult.ok ∷ rs) word = after_sends-errors s rs word
after_sends-errors s (CanResult.err_param ∷ rs) word =
    let before = after_sends-errors s rs word in omega arith
after_sends-errors s (CanResult.err_busy ∷ rs) word =
    let before = after_sends-errors s rs word in omega arith
after_sends-errors s (CanResult.err_hw ∷ rs) word =
    let before = after_sends-errors s rs word in omega arith

module _ {M : Type 0} (lock : Mutex M Caller) (t : Caller) (s : AppStats) where
  -- What the task reaches while no other one moves.
  pub data Alone : Line M → Place → Type 0 where
    start :
        (m : M)
        → Alone
            (record { mutex = m; tx_frames = s.tx_frames; tx_busy = s.tx_busy; answers = [] })
            outside
    moves : {l k : Line M} {p q : Place} → Alone l p → Move lock t l p k q → Alone k q

  -- The counters are those of the answers.
  record Counts (l : Line M) (rs : List CanResult) : Type 0 where
    sent : l.tx_frames ≡ (after_sends s rs).tx_frames
    refused : l.tx_busy ≡ (after_sends s rs).tx_busy

  -- The latest answer is `r`, and has not been counted.
  record Pending (l : Line M) (r : CanResult) : Type 0 where
    rest : List CanResult
    latest : l.answers ≡ r ∷ rest
    counts : Counts l rest

  abbrev Agrees : Line M → Place → Type 0
  Agrees l outside = Counts l l.answers
  Agrees l (waiting f) = Counts l l.answers
  Agrees l (inside f) = Counts l l.answers
  Agrees l (answered r) = Pending l r
  Agrees l (released r) = Pending l r
  Agrees l (counting r v) = Pending l r × (v ≡ counter (is_ok r) l)

  write-Counts :
      (l : Line M) (r : CanResult) (rs : List CanResult)
      → Counts l rs
      → Counts (write_counter (is_ok r) l (u32 (counter (is_ok r) l + 1))) (r ∷ rs)
  unfolding count_send
  write-Counts l CanResult.ok rs h = record {
    sent = ap (λ n. u32 (n + 1)) h.sent;
    refused = h.refused;
  }
  write-Counts l CanResult.err_param rs h = record {
    sent = h.sent;
    refused = ap (λ n. u32 (n + 1)) h.refused;
  }
  write-Counts l CanResult.err_busy rs h = record {
    sent = h.sent;
    refused = ap (λ n. u32 (n + 1)) h.refused;
  }
  write-Counts l CanResult.err_hw rs h = record {
    sent = h.sent;
    refused = ap (λ n. u32 (n + 1)) h.refused;
  }

  Move-Agrees : {l k : Line M} {p q : Place} → Move lock t l p k q → Agrees l p → Agrees k q
  Move-Agrees (call l f) h = h
  Move-Agrees (take l f m e) h = record { sent = h.sent; refused = h.refused }
  Move-Agrees (send l f r) h = record {
    rest = l.answers;
    latest = refl;
    counts = record { sent = h.sent; refused = h.refused };
  }
  Move-Agrees (give l r) h = record {
    rest = h.rest;
    latest = h.latest;
    counts = record { sent = h.counts.sent; refused = h.counts.refused };
  }
  Move-Agrees (read l r) h = (h, refl)
  Move-Agrees (write l r v) (h, same) =
      subst (λ n. Counts (write_counter (is_ok r) l (u32 (n + 1))) l.answers) (sym same)
        (subst (Counts (write_counter (is_ok r) l (u32 (counter (is_ok r) l + 1)))) (sym h.latest)
          (write-Counts l r h.rest h.counts))

  Alone-Agrees : {l : Line M} {p : Place} → Alone l p → Agrees l p
  Alone-Agrees (start m) = record { sent = refl; refused = refl }
  Alone-Agrees (moves a m) = Move-Agrees m (Alone-Agrees a)

  -- The accesses count as `count_send` does in one go.
  Alone-count_send :
      {l : Line M}
      → Alone l outside
      → (l.tx_frames ≡ (after_sends s l.answers).tx_frames)
        × (l.tx_busy ≡ (after_sends s l.answers).tx_busy)
  Alone-count_send a = let counts = Alone-Agrees a in (counts.sent, counts.refused)

  -- While only one task sends, no count is lost: whenever the task is not in `can_send`, the counter of sent
  -- frames has grown by the number of times that `rjs_can_send` has returned OK, and the counter of refused
  -- frames by the number of times that it has returned an error, both modulo 2 ^ 32, from any 32-bit values.
  pub Alone-counts :
      {l : Line M}
      → s.tx_frames < 4294967296
      → s.tx_busy < 4294967296
      → Alone l outside
      → (l.tx_frames ≡ u32 (s.tx_frames + successes l.answers))
        × (l.tx_busy ≡ u32 (s.tx_busy + errors l.answers))
  Alone-counts {l} word word' a =
      let (sent, refused) = Alone-count_send a in
      (
        sent ∙ after_sends-successes s l.answers word,
        refused ∙ after_sends-errors s l.answers word',
      )
