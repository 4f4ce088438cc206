-- ===== src/App/Obey.antt =====
-- app/joint_node/app.c: the loop of `control_task` over its queue of commands.
use robot_joint_stack.Prelude.{
  ℕ, zero, suc, ◌<◌, ◌≡◌, refl, sym, ap, arith, Option, none, some, [], length,
}
use mathlib.Core.Path.{subst}
use robot_joint_stack.Protocol.{Command}
use robot_joint_stack.Joint.{Joint, joint_command}
use robot_joint_stack.Queue.{Fifo}
use robot_joint_stack.App.{obey}

module _ {Q : Type 0} (fifo : Fifo Q Command) where
  open fifo use {items, receive, receive-items, receive-items_none}

  -- What a round does with the answer of `xQueueReceive`.
  abbrev next_command :
      Joint → Q → Option (Command × Q) → (Q → Command → Option (Joint × Q)) → Option (Joint × Q)
  next_command j q none next = some (j, q)
  next_command j q (some (c, k)) next = next k c

  -- The loop, for less than `fuel` commands; none when it has not ended.
  unfoldable pub obey_loop : ℕ → Joint → Q → Option (Joint × Q)
  obey_loop zero j q = none
  obey_loop (suc fuel) j q =
      next_command j q (receive q) (λ k c. obey_loop fuel (joint_command j c) k)

  -- It ends, with this joint and a queue that is empty.
  abbrev pub EndsWith : Joint → Option (Joint × Q) → Type 0
  EndsWith j r = (k : Q) × (r ≡ some (j, k)) × (items k ≡ [])

  next_command-EndsWith :
      (fuel : ℕ) (j : Joint) (q : Q) (r : Option (Command × Q))
      → receive q ≡ r
      → length (items q) < suc fuel
      → ((i : Joint) (k : Q)
          → length (items k) < fuel
          → EndsWith (obey i (items k)) (obey_loop fuel i k))
      → EndsWith
          (obey j (items q))
          (next_command j q r (λ k c. obey_loop fuel (joint_command j c) k))
  unfolding obey
  next_command-EndsWith fuel j q none e room ends =
      let empty = receive-items_none q e in
      subst (λ xs. EndsWith (obey j xs) (some (j, q))) (sym empty) (q, refl, empty)
  next_command-EndsWith fuel j q (some (c, k)) e room ends =
      let first = receive-items q k c e in
      let size = ap length first in
      subst (λ xs. EndsWith (obey j xs) (obey_loop fuel (joint_command j c) k)) (sym first)
        (ends (joint_command j c) k (omega arith))

  -- The loop of `control_task` over its queue ends: after as many rounds as there are commands in the queue,
  -- and one more that finds none, it has given the joint every command in the order in which they were queued, and leaves
  -- the queue empty.
  pub obey_loop-ends :
      (fuel : ℕ) (j : Joint) (q : Q)
      → length (items q) < fuel
      → EndsWith (obey j (items q)) (obey_loop fuel j q)
  unfolding obey_loop
  obey_loop-ends zero j q room = absurd (omega arith)
  obey_loop-ends (suc fuel) j q room =
      next_command-EndsWith fuel j q (receive q) refl room (obey_loop-ends fuel)
