-- ===== src/Queue/Drain.antt =====
-- The loop that receives until a queue is empty.
use robot_joint_stack.Prelude.{
  ℕ, zero, suc, ◌≡◌, ◌≤◌, arith, refl, ap, sym, ◌∙◌, Option, none, some, List, [], ◌∷◌, length,
}
use mathlib.Core.Path.{subst}
use robot_joint_stack.Queue.{Fifo}

module _ {Q A : Type 0} (fifo : Fifo Q A) where
  open fifo use {items, receive, receive-items, receive-items_none}

  -- A run of the loop: from a queue, with the items that it gives, to a queue.
  pub data Drains : Q → List A → Q → Type 0 where
    stop : {q : Q} → receive q ≡ none → Drains q [] q
    next :
        {q k r : Q} {a : A} {xs : List A}
        → receive q ≡ some (a, k)
        → Drains k xs r
        → Drains q (a ∷ xs) r

  drains_within :
      (n : ℕ) (q : Q) (r : Option (A × Q))
      → receive q ≡ r
      → length (items q) ≤ n
      → (k : Q) × Drains q (items q) k × (items k ≡ [])
  drains_within n q none e h =
      let empty = receive-items_none q e in
      (q, subst (λ xs. Drains q xs q) (sym empty) (stop e), empty)
  drains_within zero q (some (a, k)) e h =
      let size = ap length (receive-items q k a e) in absurd (omega arith)
  drains_within (suc n) q (some (a, k)) e h =
      let first = receive-items q k a e in
      let size = ap length first in
      let (r, run, empty) = drains_within n k (receive k) refl (omega arith) in
      (r, subst (λ xs. Drains q xs r) (sym first) (next e run), empty)

  -- The loop ends: there is a run of it, which gives all items in order and leaves the queue empty.
  pub drains_all : (q : Q) → (k : Q) × Drains q (items q) k × (items k ≡ [])
  drains_all q = drains_within (length (items q)) q (receive q) refl (omega arith)

  -- Every run does.
  pub Drains-items : {q k : Q} {xs : List A} → Drains q xs k → (xs ≡ items q) × (items k ≡ [])
  Drains-items (stop {q = q} e) = let empty = receive-items_none q e in (sym empty, empty)
  Drains-items (next {q = q} {k = k} {a = a} e d) =
      let (same, empty) = Drains-items d in
      (ap (λ xs. a ∷ xs) same ∙ sym (receive-items q k a e), empty)
