-- ===== src/Hal.antt =====
-- common/hal/include/rjs/hal_can.h: the frame, the bus configuration, the controller status and
-- the results of the CAN interface.
use robot_joint_stack.Prelude.{ℕ, Bool, false, List, replicate, get_or}

abbrev pub can_max_payload : ℕ
can_max_payload = 64

-- `rjs_can_frame_t`; `payload` is the array `data`, of 64 bytes.
pub record CanFrame : Type 0 where
  pub id : ℕ  -- uint16_t
  pub len : ℕ  -- uint8_t
  pub fd : Bool
  pub brs : Bool
  pub payload : List ℕ

-- `memset(frame, 0, sizeof *frame)`.
abbrev pub zero_frame : CanFrame
zero_frame = record {
  id = 0;
  len = 0;
  fd = false;
  brs = false;
  payload = replicate can_max_payload 0;
}

-- `data[i]`; the array has 64 elements, and the program reads none past the end.
abbrev pub byte_at : List ℕ → ℕ → ℕ
byte_at payload i = get_or payload i 0

-- `rjs_can_config_t`.
pub record CanConfig : Type 0 where
  pub nominal_bitrate : ℕ  -- uint32_t
  pub data_bitrate : ℕ  -- uint32_t

-- `rjs_can_status_t`.
pub record CanStatus : Type 0 where
  pub tx_error_count : ℕ  -- uint8_t
  pub rx_error_count : ℕ  -- uint8_t
  pub error_passive : Bool
  pub bus_off : Bool
  pub tx_dropped : ℕ  -- uint32_t
  pub rx_overrun : ℕ  -- uint32_t

-- `rjs_can_result_t`.
pub data CanResult : Type 0 where
  ok err_param err_busy err_hw : CanResult
