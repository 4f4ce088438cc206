-- ===== src/Mutex.antt =====
-- A mutex of FreeRTOS, as an interface: what its documentation says of `xSemaphoreTake` and
-- `xSemaphoreGive` on it.
use robot_joint_stack.Prelude.{◌≡◌, Option, none, some}

-- A mutex between tasks of type `T`: it is taken just when no task holds it, and then the taker does;
-- once its holder has given it back, no task does.
pub record Mutex (M T : Type 0) : Type 0 where
  pub holder : M → Option T
  pub take : M → T → Option M
  pub give : M → T → M
  pub take-holder : (m k : M) (t : T) → take m t ≡ some k → (holder m ≡ none) × (holder k ≡ some t)
  pub give-holder : (m : M) (t : T) → holder m ≡ some t → holder (give m t) ≡ none
  pub take-free : (m : M) (t : T) → holder m ≡ none → (k : M) × (take m t ≡ some k)
