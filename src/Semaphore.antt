-- ===== src/Semaphore.antt =====
-- A binary semaphore of FreeRTOS, as an interface: what its documentation says of it.
use robot_joint_stack.Prelude.{◌≡◌, Bool, true, false, Option, none, some}

-- A take succeeds just when the semaphore has been given, and then it has not any more; a give leaves
-- it given, whether it was or not.
pub record Semaphore (S : Type 0) : Type 0 where
  pub is_given : S → Bool
  pub take : S → Option S
  pub give : S → S
  pub take-is_given : (s k : S) → take s ≡ some k → (is_given s ≡ true) × (is_given k ≡ false)
  pub take-is_given_none : (s : S) → take s ≡ none → is_given s ≡ false
  pub give-is_given : (s : S) → is_given (give s) ≡ true
