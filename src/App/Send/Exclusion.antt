-- ===== src/App/Send/Exclusion.antt =====
-- The driver is entered by one task at a time.
use robot_joint_stack.Prelude.{◌≡◌, sym, ◌∙◌, some}
use robot_joint_stack.Mutex.{Mutex}
use robot_joint_stack.App.Send.{
  Caller, control, comms, Place, outside, waiting, inside, answered, released, counting, Line, Move,
  call, take, send, give, read, write, Senders, begin, control_moves, comms_moves,
}

-- The task is in the driver, or still holds the mutex.
abbrev pub IsInside : Place → Type 0
IsInside outside = ⊥
IsInside (waiting f) = ⊥
IsInside (inside f) = Unit {0}
IsInside (answered r) = Unit {0}
IsInside (released r) = ⊥
IsInside (counting r v) = ⊥

two_holders : some control ≡ some comms → ⊥
two_holders e = cc

module _ {M : Type 0} (lock : Mutex M Caller) where
  abbrev pub Holds : Caller → Line M → Place → Type 0
  Holds t l p = IsInside p → lock.holder l.mutex ≡ some t

  -- What a task does keeps what holds of it and of the other.
  Move-Holds :
      (t : Caller) {l k : Line M} {p s : Place} → Move lock t l p k s → Holds t l p → Holds t k s
  Move-Holds t (call l f) h = λ i. absurd i
  Move-Holds t (take l f m e) h = λ i. (lock.take-holder l.mutex m t e).1
  Move-Holds t (send l f r) h = λ i. h tt
  Move-Holds t (give l r) h = λ i. absurd i
  Move-Holds t (read l r) h = λ i. absurd i
  Move-Holds t (write l r v) h = λ i. absurd i

  Move-Holds_other :
      (t u : Caller) {l k : Line M} {p s : Place} (q : Place)
      → ¬ (t ≡ u)
      → Move lock t l p k s
      → Holds t l p
      → Holds u l q
      → Holds u k q
  Move-Holds_other t u q other (call l f) h g = g
  Move-Holds_other t u q other (take l f m e) h g =
      λ i. let free = (lock.take-holder l.mutex m t e).0 in let held = g i in absurd cc
  Move-Holds_other t u q other (send l f r) h g = g
  Move-Holds_other t u q other (give l r) h g =
      λ i. let mine = h tt in let held = g i in absurd (other cc)
  Move-Holds_other t u q other (read l r) h g = g
  Move-Holds_other t u q other (write l r v) h g = g

  -- Both tasks' places fit the mutex.
  pub Senders-Holds :
      {l : Line M} {p q : Place} → Senders lock l p q → Holds control l p × Holds comms l q
  Senders-Holds (begin m free) = (λ i. absurd i, λ i. absurd i)
  Senders-Holds (control_moves {p = p} {q = q} s m) =
      let (h, g) = Senders-Holds s in
      (Move-Holds control m h, Move-Holds_other control comms q (λ e. cc) m h g)
  Senders-Holds (comms_moves {p = p} {q = q} s m) =
      let (h, g) = Senders-Holds s in
      (Move-Holds_other comms control p (λ e. cc) m g h, Move-Holds comms m g)

  -- Whatever the interleaving of the control task and the communication task, and wherever each is
  -- preempted, the two are never in `rjs_can_send` at the same time, nor one of them in it while the
  -- other has not yet given the mutex back.
  pub Senders-exclude :
      {l : Line M} {p q : Place} → Senders lock l p q → ¬ (IsInside p × IsInside q)
  Senders-exclude s (i, j) =
      let (h, g) = Senders-Holds s in
      let mine = h i in let other = g j in two_holders (sym mine ∙ other)
