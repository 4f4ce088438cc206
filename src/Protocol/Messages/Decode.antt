-- ===== src/Protocol/Messages/Decode.antt =====
-- What the decoders accept, and what they leave alone.
use robot_joint_stack.Prelude.{ℕ, ◌+◌, ◌≤◌, ◌<◌, ◌≡◌, ◌↔◌, arith, ◌⊎◌, Option, some, ◌/◌, ◌%◌, ◌*◌}
use robot_joint_stack.Hal.{CanFrame, byte_at}
use robot_joint_stack.Protocol.{
  MsgType, ProtoResult, ok, Heartbeat, Command, JointState, Emergency, mode_position, mode_disabled,
  msg_code, protocol_version,
}
use robot_joint_stack.Protocol.Ident.{id_type-eq}
use robot_joint_stack.Protocol.Bytes.{get_u32, get_u32-eq}
use robot_joint_stack.Protocol.Messages.{
  decode_heartbeat, decode_command, decode_joint_state, decode_emergency, frame_check,
  command_fields, command_into,
}

-- A frame that carries a message of the type: its identifier's type bits, its length and its first
-- byte are right.
abbrev pub Carries : MsgType → ℕ → CanFrame → Type 0
Carries type min_len f =
    (f.id / 128 % 16 ≡ msg_code type)
    × (min_len ≤ f.len)
    × (f.len ≤ 64)
    × (byte_at f.payload 0 ≡ protocol_version)

frame_check_iff :
    (type : MsgType) (min_len : ℕ) (f : CanFrame)
    → (frame_check (some f) type min_len ≡ ok) ↔ Carries type min_len f
unfolding frame_check
frame_check_iff type min_len f =
    (λ h. ground (arith, id_type-eq f.id), λ h. ground (arith, id_type-eq f.id))

-- Each of the four decoders either succeeds or leaves the message that the output pointer refers to
-- as it was, NULL pointers included.
pub decode_error_unchanged :
    (f : Option CanFrame) (h : Option Heartbeat) (c : Option Command) (s : Option JointState)
    (e : Option Emergency)
    → (((decode_heartbeat f h).0 ≡ ok) ⊎ ((decode_heartbeat f h).1 ≡ h))
      × (((decode_command f c).0 ≡ ok) ⊎ ((decode_command f c).1 ≡ c))
      × (((decode_joint_state f s).0 ≡ ok) ⊎ ((decode_joint_state f s).1 ≡ s))
      × (((decode_emergency f e).0 ≡ ok) ⊎ ((decode_emergency f e).1 ≡ e))
unfolding decode_heartbeat decode_command decode_joint_state decode_emergency
decode_error_unchanged f h c s e = (ground arith, ground arith, ground arith, ground arith)

abbrev pub velocity_bytes : CanFrame → ℕ
velocity_bytes f =
    byte_at f.payload 6
    + byte_at f.payload 7 * 256
    + byte_at f.payload 8 * 65536
    + byte_at f.payload 9 * 16777216

abbrev pub Executes : CanFrame → Type 0
Executes f =
    (byte_at f.payload 1 ≡ mode_disabled)
    ⊎ ((byte_at f.payload 1 ≡ mode_position)
        × (0 < velocity_bytes f)
        × (velocity_bytes f < 2147483648))

command_into_ok :
    (r : ProtoResult) (f : CanFrame) (old : Command)
    → (command_into r (some f) (some old)).0 ≡ ok
    → r ≡ ok
unfolding command_into
command_into_ok r f old h = ground arith

-- The test of the decoder once the frame has been checked.
command_into_iff :
    (f : CanFrame) (old : Command)
    → get_u32 f.payload 6 ≡ velocity_bytes f
    → velocity_bytes f < 4294967296
    → ((command_into ok (some f) (some old)).0 ≡ ok) ↔ Executes f
unfolding command_into command_fields
command_into_iff f old value small = (λ h. ground arith, λ h. ground arith)

-- `rjs_decode_command` accepts a frame exactly when it carries a command of at least 12 and at most
-- 64 bytes and version 1 that a joint may execute: mode 0, or mode 1 with a positive velocity limit
-- in bytes 6 to 9 (little-endian, two's complement). The bytes of the frame are below 256.
pub decode_command_iff :
    (f : CanFrame) (old : Command)
    → ((i : ℕ) → byte_at f.payload i < 256)
    → ((decode_command (some f) (some old)).0 ≡ ok) ↔ (Carries MsgType.command 12 f × Executes f)
unfolding decode_command
decode_command_iff f old bytes = (λ h. forwards h, λ h. rw (checked.1 h.0) (executes.1 h.1))
  where
    checked : (frame_check (some f) MsgType.command 12 ≡ ok) ↔ Carries MsgType.command 12 f
    checked = frame_check_iff MsgType.command 12 f

    executes : ((command_into ok (some f) (some old)).0 ≡ ok) ↔ Executes f
    executes =
        command_into_iff f old (get_u32-eq f.payload 6 bytes)
          (omega (arith, bytes 6, bytes 7, bytes 8, bytes 9))

    forwards :
        (decode_command (some f) (some old)).0 ≡ ok → Carries MsgType.command 12 f × Executes f
    forwards h =
        let passed = command_into_ok (frame_check (some f) MsgType.command 12) f old h in
        (checked.0 passed, executes.0 (rw passed at h))
