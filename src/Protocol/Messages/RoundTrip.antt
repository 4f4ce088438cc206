-- ===== src/Protocol/Messages/RoundTrip.antt =====
-- Every message that an encoder accepts is decoded to itself.
use robot_joint_stack.Prelude.{ℕ, ◌≤◌, ◌<◌, ◌≡◌, arith, ◌⊎◌, some, ◌==◌, true}
use robot_joint_stack.Prelude.Int.{pos, ◌≤ℤ◌}
use robot_joint_stack.Prelude.Word.{IsI32, IsI16}
use robot_joint_stack.Hal.{CanFrame}
use robot_joint_stack.Protocol.{
  MsgType, ok, Heartbeat, Command, JointState, Emergency, mode_position, mode_disabled, node_id_max,
  msg_code,
}
use robot_joint_stack.Protocol.Ident.{id_node, make_id, id_type, id_fields-make_id}
use robot_joint_stack.Protocol.Bytes.{
  put_u16, put_u32, get_u16, get_u32, u16_of_bytes, u32_of_bytes, i16_of_bytes, i32_of_bytes,
}
use robot_joint_stack.Protocol.Messages.{
  encode_heartbeat, decode_heartbeat, encode_command, decode_command, encode_joint_state,
  decode_joint_state, encode_emergency, decode_emergency, frame_check, frame_start, heartbeat_frame,
  heartbeat_fields, command_frame, joint_state_frame, emergency_frame, decode_into, command_into,
  joint_state_fields, emergency_fields,
}

-- The values that the fields of the C structure can hold.
abbrev pub IsHeartbeat : Heartbeat → Type 0
IsHeartbeat m =
    (m.state < 256)
    × (m.error_flags < 65536)
    × (m.uptime_ms < 4294967296)
    × (m.fw_major < 256)
    × (m.fw_minor < 256)
    × (m.fw_patch < 256)

abbrev pub IsCommand : Command → Type 0
IsCommand m =
    (m.mode < 256) × IsI32 m.target_mdeg × IsI32 m.max_velocity_mdeg_s × (m.sequence < 65536)

abbrev pub IsJointState : JointState → Type 0
IsJointState m =
    (m.mode < 256)
    × IsI32 m.position_mdeg
    × IsI32 m.velocity_mdeg_s
    × IsI16 m.current_ma
    × IsI16 m.temperature_c10
    × (m.last_command_seq < 65536)

abbrev pub IsEmergency : Emergency → Type 0
IsEmergency m = (m.code < 65536) × (m.detail < 4294967296)

abbrev pub IsNode : ℕ → Type 0
IsNode node = (1 ≤ node) × (node ≤ node_id_max)

type_matches : (type : MsgType) (node : ℕ) → (id_type (make_id type node) == msg_code type) ≡ true
type_matches type node = ground (arith, id_fields-make_id type node)

-- A heartbeat of a valid node with a known state is encoded, whatever frame was in the buffer; the
-- identifier names the node, and decoding the frame gives the heartbeat back.
pub heartbeat_roundtrip :
    (node : ℕ) (m : Heartbeat) (old : CanFrame) (before : Heartbeat)
    → IsNode node
    → IsHeartbeat m
    → m.state ≤ 3
    → (f : CanFrame) × (encode_heartbeat node (some m) (some old) ≡ (ok, some f))
      × (id_node f.id ≡ node)
      × (decode_heartbeat (some f) (some before) ≡ (ok, some m))
unfolding encode_heartbeat decode_heartbeat frame_check frame_start put_u16 put_u32 get_u16 get_u32
    heartbeat_fields heartbeat_frame decode_into
heartbeat_roundtrip node m old before valid range known = (
  heartbeat_frame node m,
  ground arith,
  ground (arith, id_fields-make_id MsgType.heartbeat node),
  rw (type_matches MsgType.heartbeat node, decode_into, heartbeat_fields)
      (ground (arith, u16_of_bytes m.error_flags, u32_of_bytes m.uptime_ms)),
)

-- A command to a node or to all nodes that a joint may execute (disabled, or position mode with a
-- positive velocity limit) is encoded and decoded to itself.
pub command_roundtrip :
    (node : ℕ) (m : Command) (old : CanFrame) (before : Command)
    → node ≤ node_id_max
    → IsCommand m
    → (m.mode ≡ mode_disabled) ⊎ ((m.mode ≡ mode_position) × (pos 1 ≤ℤ m.max_velocity_mdeg_s))
    → (f : CanFrame) × (encode_command node (some m) (some old) ≡ (ok, some f))
      × (id_node f.id ≡ node)
      × (decode_command (some f) (some before) ≡ (ok, some m))
unfolding encode_command decode_command frame_check frame_start put_u16 put_u32 get_u16 get_u32
    command_frame command_into
command_roundtrip node m old before valid range known = (
  command_frame node m,
  ground arith,
  ground (arith, id_fields-make_id MsgType.command node),
  rw (type_matches MsgType.command node, command_into)
      (ground (
        arith,
        u16_of_bytes m.sequence,
        i32_of_bytes m.target_mdeg,
        i32_of_bytes m.max_velocity_mdeg_s,
      )),
)

-- A joint state of a valid node is encoded and decoded to itself, negative positions, velocities,
-- currents and temperatures included.
pub joint_state_roundtrip :
    (node : ℕ) (m : JointState) (old : CanFrame) (before : JointState)
    → IsNode node
    → IsJointState m
    → (f : CanFrame) × (encode_joint_state node (some m) (some old) ≡ (ok, some f))
      × (id_node f.id ≡ node)
      × (decode_joint_state (some f) (some before) ≡ (ok, some m))
unfolding encode_joint_state decode_joint_state frame_check frame_start put_u16 put_u32 get_u16
    get_u32 joint_state_fields joint_state_frame decode_into
joint_state_roundtrip node m old before valid range = (
  joint_state_frame node m,
  ground arith,
  ground (arith, id_fields-make_id MsgType.joint_state node),
  rw (type_matches MsgType.joint_state node, decode_into, joint_state_fields)
      (cc (
        i32_of_bytes m.position_mdeg range.1,
        i32_of_bytes m.velocity_mdeg_s range.2,
        i16_of_bytes m.current_ma range.3,
        i16_of_bytes m.temperature_c10 range.4,
        u16_of_bytes m.last_command_seq range.5,
      )),
)

-- An emergency message of a valid node is encoded and decoded to itself.
pub emergency_roundtrip :
    (node : ℕ) (m : Emergency) (old : CanFrame) (before : Emergency)
    → IsNode node
    → IsEmergency m
    → (f : CanFrame) × (encode_emergency node (some m) (some old) ≡ (ok, some f))
      × (id_node f.id ≡ node)
      × (decode_emergency (some f) (some before) ≡ (ok, some m))
unfolding encode_emergency decode_emergency frame_check frame_start put_u16 put_u32 get_u16 get_u32
    emergency_fields emergency_frame decode_into
emergency_roundtrip node m old before valid range = (
  emergency_frame node m,
  ground arith,
  ground (arith, id_fields-make_id MsgType.emergency node),
  rw (type_matches MsgType.emergency node, decode_into, emergency_fields)
      (ground (arith, u16_of_bytes m.code, u32_of_bytes m.detail)),
)
