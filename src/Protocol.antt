-- ===== src/Protocol.antt =====
-- common/protocol/include/rjs/protocol.h: message types, results, node states, error flags and the
-- four messages. The children model protocol.c.
pub mod Ident
pub mod Dlc
pub mod Bytes
pub mod Messages
use robot_joint_stack.Prelude.{ℕ}
use robot_joint_stack.Prelude.Int.{ℤ}

abbrev pub protocol_version : ℕ
protocol_version = 1

abbrev pub node_broadcast : ℕ
node_broadcast = 0

abbrev pub node_id_max : ℕ
node_id_max = 127

-- `rjs_msg_type_t`.
pub data MsgType : Type 0 where
  emergency command joint_state sensor heartbeat : MsgType

-- The value of the enumerator.
abbrev pub msg_code : MsgType → ℕ
msg_code emergency = 0
msg_code command = 1
msg_code joint_state = 2
msg_code sensor = 3
msg_code heartbeat = 7

-- `rjs_proto_result_t`.
pub data ProtoResult : Type 0 where
  ok err_param err_length err_version err_type : ProtoResult

-- `rjs_node_state_t`.
abbrev pub state_boot : ℕ
state_boot = 0

abbrev pub state_preop : ℕ
state_preop = 1

abbrev pub state_operational : ℕ
state_operational = 2

abbrev pub state_fault : ℕ
state_fault = 3

-- The error flags of heartbeats, RJS_ERR_*.
abbrev pub err_can_passive : ℕ
err_can_passive = 0x0001

abbrev pub err_can_bus_off : ℕ
err_can_bus_off = 0x0002

abbrev pub err_tx_dropped : ℕ
err_tx_dropped = 0x0004

abbrev pub err_peer_lost : ℕ
err_peer_lost = 0x0008

abbrev pub err_limit_reached : ℕ
err_limit_reached = 0x0020

-- `rjs_joint_mode_t`.
abbrev pub mode_disabled : ℕ
mode_disabled = 0

abbrev pub mode_position : ℕ
mode_position = 1

-- `rjs_heartbeat_t`.
pub record Heartbeat : Type 0 where
  pub state : ℕ  -- uint8_t
  pub error_flags : ℕ  -- uint16_t
  pub uptime_ms : ℕ  -- uint32_t
  pub fw_major : ℕ  -- uint8_t
  pub fw_minor : ℕ  -- uint8_t
  pub fw_patch : ℕ  -- uint8_t

-- `rjs_command_t`.
pub record Command : Type 0 where
  pub mode : ℕ  -- uint8_t
  pub target_mdeg : ℤ  -- int32_t
  pub max_velocity_mdeg_s : ℤ  -- int32_t
  pub sequence : ℕ  -- uint16_t

-- `rjs_joint_state_t`.
pub record JointState : Type 0 where
  pub position_mdeg : ℤ  -- int32_t
  pub velocity_mdeg_s : ℤ  -- int32_t
  pub current_ma : ℤ  -- int16_t
  pub temperature_c10 : ℤ  -- int16_t
  pub last_command_seq : ℕ  -- uint16_t
  pub mode : ℕ  -- uint8_t

-- `rjs_emergency_t`.
pub record Emergency : Type 0 where
  pub code : ℕ  -- uint16_t
  pub detail : ℕ  -- uint32_t
