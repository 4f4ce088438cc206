-- ===== src/Fdcan/Msp.antt =====
-- boards/nucleo_h7s3l8/src/hal_can_fdcan.c: `HAL_FDCAN_MspInit`, which `HAL_FDCAN_Init` calls.
use robot_joint_stack.Prelude.{ℕ, Bool, not, if◌then◌else◌, List, [], ◌∷◌}

pub data MspCall : Type 0 where
  select_pll2p enable_fdcan enable_port_d enable_irq : MspCall
  alternate_pins : List ℕ → ℕ → MspCall
  set_priority : ℕ → MspCall

abbrev pub fdcan_irq_priority : ℕ
fdcan_irq_priority = 6

-- `is_fdcan1` says whether the instance is the one of the board.
unfoldable pub fdcan_msp_init : Bool → List MspCall
fdcan_msp_init is_fdcan1 =
    if not is_fdcan1
    then []
    else select_pll2p
      ∷ enable_fdcan
      ∷ enable_port_d
      ∷ alternate_pins (0 ∷ 1 ∷ []) 9
      ∷ set_priority fdcan_irq_priority
      ∷ enable_irq
      ∷ []
