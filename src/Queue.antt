-- ===== src/Queue.antt =====
-- The queues of FreeRTOS, as an interface: what its documentation says of `xQueueSend` and
-- `xQueueReceive` without waiting.
pub mod Drain
use robot_joint_stack.Prelude.{◌≡◌, Option, none, some, List, [], ◌∷◌, ◌++◌}

-- A queue with items of type `A`: a send is refused or puts the item last, and a receive takes the
-- first item, or says that there is none.
pub record Fifo (Q A : Type 0) : Type 0 where
  pub items : Q → List A
  pub send : Q → A → Option Q
  pub receive : Q → Option (A × Q)
  pub send-items : (q k : Q) (a : A) → send q a ≡ some k → items k ≡ items q ++ (a ∷ [])
  pub receive-items : (q k : Q) (a : A) → receive q ≡ some (a, k) → items q ≡ a ∷ items k
  pub receive-items_none : (q : Q) → receive q ≡ none → items q ≡ []
