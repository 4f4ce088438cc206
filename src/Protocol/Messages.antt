-- ===== src/Protocol/Messages.antt =====
-- Encoding and decoding of protocol.c. A pointer is an `Option`, `none` being NULL; a function
-- returns its result and what the output pointer refers to afterwards.
pub mod RoundTrip
pub mod Decode
pub mod Order
use robot_joint_stack.Prelude.{
  ℕ, ◌+◌, ◌≤◌, ◌<◌, Bool, true, false, not, ◌&&◌, ◌||◌, if◌then◌else◌, ltb, leb, ◌==◌, Option, none,
  some, set,
}
use robot_joint_stack.Prelude.Int.{pos, leb_ℤ}
use robot_joint_stack.Prelude.Word.{i32_to_u32, u32_to_i32, i16_to_u16, u16_to_i16}
use robot_joint_stack.Hal.{CanFrame, zero_frame, byte_at, can_max_payload}
use robot_joint_stack.Protocol.{
  MsgType, msg_code, ProtoResult, ok, err_param, err_length, err_version, err_type, Heartbeat,
  Command, JointState, Emergency, protocol_version, node_id_max, state_fault, mode_position,
}
use robot_joint_stack.Protocol.Ident.{make_id, id_type}
use robot_joint_stack.Protocol.Bytes.{put_u16, put_u32, get_u16, get_u32}

abbrev pub heartbeat_len : ℕ
heartbeat_len = 12

abbrev pub command_len : ℕ
command_len = 12

abbrev pub joint_state_len : ℕ
joint_state_len = 16

abbrev pub emergency_len : ℕ
emergency_len = 8

-- The frame is cleared first, so nothing of its former contents stays.
unfoldable pub frame_start : MsgType → ℕ → ℕ → CanFrame
frame_start type node len = record zero_frame {
  id = make_id type node;
  len = len;
  fd = true;
  brs = true;
  payload = set zero_frame.payload 0 protocol_version;
}

unfoldable pub frame_check : Option CanFrame → MsgType → ℕ → ProtoResult
frame_check none type min_len = err_param
frame_check (some f) type min_len =
    if not (id_type f.id == msg_code type)
    then err_type
    else if ltb f.len min_len || ltb can_max_payload f.len
    then err_length
    else if not (byte_at f.payload 0 == protocol_version)
    then err_version
    else ok

unfoldable pub node_valid : ℕ → Bool
node_valid node = leb 1 node && leb node node_id_max

heartbeat_frame : ℕ → Heartbeat → CanFrame
heartbeat_frame node m =
    let f = frame_start MsgType.heartbeat node heartbeat_len in
    let p1 = set f.payload 1 m.state in
    let p2 = put_u16 p1 2 m.error_flags in
    let p3 = put_u32 p2 4 m.uptime_ms in
    let p4 = set p3 8 m.fw_major in
    let p5 = set p4 9 m.fw_minor in record f { payload = set p5 10 m.fw_patch }

unfoldable pub encode_heartbeat :
    ℕ → Option Heartbeat → Option CanFrame → ProtoResult × Option CanFrame
unfolding heartbeat_frame node_valid
encode_heartbeat node none out = (err_param, out)
encode_heartbeat node (some m) none = (err_param, none)
encode_heartbeat node (some m) (some old) =
    if not (node_valid node) || ltb state_fault m.state
    then (err_param, some old)
    else (ok, some (heartbeat_frame node m))

-- The assignments of a decoder, once the frame has been accepted.
heartbeat_fields : CanFrame → Heartbeat
heartbeat_fields f = record {
  state = byte_at f.payload 1;
  error_flags = get_u16 f.payload 2;
  uptime_ms = get_u32 f.payload 4;
  fw_major = byte_at f.payload 8;
  fw_minor = byte_at f.payload 9;
  fw_patch = byte_at f.payload 10;
}

-- The decoders look at `in` only after `frame_check` has found that it is not NULL.
module _ {M : Type 0} (fields : CanFrame → M) where
  decode_into : ProtoResult → Option CanFrame → Option M → ProtoResult × Option M
  decode_into ok (some f) (some old) = (ok, some (fields f))
  decode_into ok (some f) none = (err_param, none)
  decode_into r f out = (r, out)

unfoldable pub decode_heartbeat :
    Option CanFrame → Option Heartbeat → ProtoResult × Option Heartbeat
unfolding decode_into heartbeat_fields
decode_heartbeat f out =
    decode_into heartbeat_fields (frame_check f MsgType.heartbeat heartbeat_len) f out

command_frame : ℕ → Command → CanFrame
command_frame node m =
    let f = frame_start MsgType.command node command_len in
    let p1 = set f.payload 1 m.mode in
    let p2 = put_u32 p1 2 (i32_to_u32 m.target_mdeg) in
    let p3 = put_u32 p2 6 (i32_to_u32 m.max_velocity_mdeg_s) in
    record f { payload = put_u16 p3 10 m.sequence }

unfoldable pub encode_command : ℕ → Option Command → Option CanFrame → ProtoResult × Option CanFrame
unfolding command_frame
encode_command node none out = (err_param, out)
encode_command node (some m) none = (err_param, none)
encode_command node (some m) (some old) =
    if ltb node_id_max node || ltb mode_position m.mode
    then (err_param, some old)
    else if (m.mode == mode_position) && leb_ℤ m.max_velocity_mdeg_s (pos 0)
    then (err_param, some old)
    else (ok, some (command_frame node m))

command_fields : CanFrame → Command
command_fields f = record {
  mode = byte_at f.payload 1;
  target_mdeg = u32_to_i32 (get_u32 f.payload 2);
  max_velocity_mdeg_s = u32_to_i32 (get_u32 f.payload 6);
  sequence = get_u16 f.payload 10;
}

-- The message is built aside and copied to `out` only if a joint may execute it.
command_into : ProtoResult → Option CanFrame → Option Command → ProtoResult × Option Command
command_into ok (some f) (some old) =
    let tmp = command_fields f in
    if ltb mode_position tmp.mode
      || ((tmp.mode == mode_position) && leb_ℤ tmp.max_velocity_mdeg_s (pos 0))
    then (err_param, some old)
    else (ok, some tmp)
command_into ok (some f) none = (err_param, none)
command_into r f out = (r, out)

unfoldable pub decode_command : Option CanFrame → Option Command → ProtoResult × Option Command
unfolding command_into command_fields
decode_command f out = command_into (frame_check f MsgType.command command_len) f out

joint_state_frame : ℕ → JointState → CanFrame
joint_state_frame node m =
    let f = frame_start MsgType.joint_state node joint_state_len in
    let p1 = set f.payload 1 m.mode in
    let p2 = put_u32 p1 2 (i32_to_u32 m.position_mdeg) in
    let p3 = put_u32 p2 6 (i32_to_u32 m.velocity_mdeg_s) in
    let p4 = put_u16 p3 10 (i16_to_u16 m.current_ma) in
    let p5 = put_u16 p4 12 (i16_to_u16 m.temperature_c10) in
    record f { payload = put_u16 p5 14 m.last_command_seq }

unfoldable pub encode_joint_state :
    ℕ → Option JointState → Option CanFrame → ProtoResult × Option CanFrame
unfolding joint_state_frame node_valid
encode_joint_state node none out = (err_param, out)
encode_joint_state node (some m) none = (err_param, none)
encode_joint_state node (some m) (some old) =
    if not (node_valid node) then (err_param, some old) else (ok, some (joint_state_frame node m))

joint_state_fields : CanFrame → JointState
joint_state_fields f = record {
  position_mdeg = u32_to_i32 (get_u32 f.payload 2);
  velocity_mdeg_s = u32_to_i32 (get_u32 f.payload 6);
  current_ma = u16_to_i16 (get_u16 f.payload 10);
  temperature_c10 = u16_to_i16 (get_u16 f.payload 12);
  last_command_seq = get_u16 f.payload 14;
  mode = byte_at f.payload 1;
}

unfoldable pub decode_joint_state :
    Option CanFrame → Option JointState → ProtoResult × Option JointState
unfolding decode_into joint_state_fields
decode_joint_state f out =
    decode_into joint_state_fields (frame_check f MsgType.joint_state joint_state_len) f out

emergency_frame : ℕ → Emergency → CanFrame
emergency_frame node m =
    let f = frame_start MsgType.emergency node emergency_len in
    let p2 = put_u16 f.payload 2 m.code in record f { payload = put_u32 p2 4 m.detail }

unfoldable pub encode_emergency :
    ℕ → Option Emergency → Option CanFrame → ProtoResult × Option CanFrame
unfolding emergency_frame node_valid
encode_emergency node none out = (err_param, out)
encode_emergency node (some m) none = (err_param, none)
encode_emergency node (some m) (some old) =
    if not (node_valid node) then (err_param, some old) else (ok, some (emergency_frame node m))

emergency_fields : CanFrame → Emergency
emergency_fields f = record { code = get_u16 f.payload 2; detail = get_u32 f.payload 4 }

unfoldable pub decode_emergency :
    Option CanFrame → Option Emergency → ProtoResult × Option Emergency
unfolding decode_into emergency_fields
decode_emergency f out =
    decode_into emergency_fields (frame_check f MsgType.emergency emergency_len) f out
