-- ===== src/App/Send/Count.antt =====
-- What the two counters of sent and of refused frames say.
use robot_joint_stack.Prelude.{
  ℕ, ◌+◌, ◌*◌, ◌≤◌, arith, Bool, true, false, if◌then◌else◌, List, [], ◌∷◌,
}
use robot_joint_stack.Prelude.Word.{u32}
use robot_joint_stack.Hal.{CanResult}
use robot_joint_stack.Mutex.{Mutex}
use robot_joint_stack.App.Send.{
  is_ok, counter, Caller, control, comms, Place, outside, waiting, inside, answered, released,
  counting, Line, Move, call, take, send, give, read, write, Senders, begin, control_moves,
  comms_moves,
}

-- 1 for an answer of the class `b`.
abbrev one_if : Bool → Bool → ℕ
one_if true true = 1
one_if true false = 0
one_if false true = 0
one_if false false = 1

-- How many answers count in a counter.
abbrev pub count_answers : Bool → List CanResult → ℕ
count_answers b [] = 0
count_answers b (r ∷ rs) = one_if b (is_ok r) + count_answers b rs

-- 1 for a task whose answer has not been counted yet.
abbrev pending : Bool → Place → ℕ
pending b outside = 0
pending b (waiting f) = 0
pending b (inside f) = 0
pending b (answered r) = one_if b (is_ok r)
pending b (released r) = one_if b (is_ok r)
pending b (counting r v) = one_if b (is_ok r)

-- What a task has read of the counter.
abbrev copy : Bool → Place → ℕ
copy b outside = 0
copy b (waiting f) = 0
copy b (inside f) = 0
copy b (answered r) = 0
copy b (released r) = 0
copy b (counting r v) = one_if b (is_ok r) * v

-- A task that reads a counter reads no more than it holds.
read_room :
    (b c : Bool) (ok busy n most : ℕ)
    → (if b then ok else busy) + n ≤ most
    → one_if b c * (if c then ok else busy) + n ≤ most
read_room true true ok busy n most h = omega (arith, h)
read_room true false ok busy n most h = omega (arith, h)
read_room false true ok busy n most h = omega (arith, h)
read_room false false ok busy n most h = omega (arith, h)

-- A write puts in what was read and one more.
write_room :
    (b c : Bool) (ok busy v n most : ℕ)
    → (if b then ok else busy) + (one_if b c + n) ≤ most
    → one_if b c * v + (one_if b c + n) ≤ most
    → (if b then (if c then u32 (v + 1) else ok) else (if c then busy else u32 (v + 1))) + (0 + n)
      ≤ most
write_room true true ok busy v n most h k = omega (arith, h, k)
write_room true false ok busy v n most h k = omega (arith, h, k)
write_room false true ok busy v n most h k = omega (arith, h, k)
write_room false false ok busy v n most h k = omega (arith, h, k)

module _ {M : Type 0} (lock : Mutex M Caller) where
  -- The counter and what has been read of it leave room for what is not counted yet.
  record Fits (b : Bool) (l : Line M) (p q : Place) : Type 0 where
    shared : counter b l + (pending b p + pending b q) ≤ count_answers b l.answers
    mine : copy b p + (pending b p + pending b q) ≤ count_answers b l.answers
    other : copy b q + (pending b p + pending b q) ≤ count_answers b l.answers

  Fits-swap : (b : Bool) (l : Line M) (p q : Place) → Fits b l p q → Fits b l q p
  Fits-swap b l p q h = record {
    shared = omega (arith, h.shared);
    mine = omega (arith, h.other);
    other = omega (arith, h.mine);
  }

  Move-Fits :
      (b : Bool) (t : Caller) {l k : Line M} {p s : Place} (q : Place)
      → Move lock t l p k s
      → Fits b l p q
      → Fits b k s q
  Move-Fits b t q (call l f) h = record { shared = h.shared; mine = h.mine; other = h.other }
  Move-Fits b t q (take l f m e) h = record { shared = h.shared; mine = h.mine; other = h.other }
  Move-Fits b t q (send l f r) h = record {
    shared = omega (arith, h.shared);
    mine = omega (arith, h.shared);
    other = omega (arith, h.other);
  }
  Move-Fits b t q (give l r) h = record { shared = h.shared; mine = h.mine; other = h.other }
  Move-Fits b t q (read l r) h = record {
    shared = h.shared;
    mine =
        read_room b (is_ok r) l.tx_frames l.tx_busy (one_if b (is_ok r) + pending b q)
          (count_answers b l.answers) h.shared;
    other = h.other;
  }
  Move-Fits b t q (write l r v) h = record {
    shared =
        write_room b (is_ok r) l.tx_frames l.tx_busy v (pending b q) (count_answers b l.answers)
          h.shared h.mine;
    mine = omega (arith, h.other);
    other = omega (arith, h.other);
  }

  Senders-Fits : (b : Bool) {l : Line M} {p q : Place} → Senders lock l p q → Fits b l p q
  Senders-Fits true (begin m free) = record {
    shared = omega arith;
    mine = omega arith;
    other = omega arith;
  }
  Senders-Fits false (begin m free) = record {
    shared = omega arith;
    mine = omega arith;
    other = omega arith;
  }
  Senders-Fits b (control_moves {q = q} s m) = Move-Fits b control q m (Senders-Fits b s)
  Senders-Fits b (comms_moves {k = k} {p = p} {q = q} {s = t} s m) =
      Fits-swap b k t p (Move-Fits b comms p m (Fits-swap b _ p q (Senders-Fits b s)))

  -- Whatever the interleaving of the two tasks, the counter of sent frames is at most the number of
  -- times that `rjs_can_send` has returned OK, and the counter of refused frames at most the number of
  -- times that it has returned an error.
  pub Senders-count :
      {l : Line M} {p q : Place}
      → Senders lock l p q
      → (l.tx_frames ≤ count_answers true l.answers) × (l.tx_busy ≤ count_answers false l.answers)
  Senders-count s =
      let sent = Senders-Fits true s in
      let refused = Senders-Fits false s in
      (omega (arith, sent.shared), omega (arith, refused.shared))
