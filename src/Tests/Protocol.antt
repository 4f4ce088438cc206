-- ===== src/Tests/Protocol.antt =====
-- protocol.c and protocol.h on concrete messages and frames.
use robot_joint_stack.Prelude.{
  ℕ, ◌<◌, ◌≡◌, ◌↔◌, ◌⊎◌, inr, refl, arith, Option, none, some, get_or-replicate,
}
use robot_joint_stack.Prelude.Int.{pos, negsuc}
use robot_joint_stack.Hal.{CanFrame, zero_frame, byte_at}
use robot_joint_stack.Protocol.{MsgType, ProtoResult, ok, Heartbeat, Command, JointState, Emergency}
use robot_joint_stack.Protocol.Ident.{id_node}
use robot_joint_stack.Protocol.Messages.{
  encode_heartbeat, decode_heartbeat, encode_command, decode_command, encode_joint_state,
  decode_joint_state, encode_emergency, decode_emergency,
}
use robot_joint_stack.Protocol.Messages.RoundTrip.{
  heartbeat_roundtrip, command_roundtrip, joint_state_roundtrip, emergency_roundtrip,
}
use robot_joint_stack.Protocol.Messages.Order.{GivesOrder, decode_command-GivesOrder}
use robot_joint_stack.Protocol.Messages.Decode.{
  decode_command_iff, decode_error_unchanged, Carries, Executes,
}

abbrev beat : Heartbeat
beat = record {
  state = 2;
  error_flags = 0x8001;
  uptime_ms = 0xdeadbeef;
  fw_major = 0;
  fw_minor = 1;
  fw_patch = 0;
}

abbrev blank_beat : Heartbeat
blank_beat = record beat { state = 0; error_flags = 0; uptime_ms = 0; fw_minor = 0 }

abbrev sweep : Command
sweep = record {
  mode = 1;
  target_mdeg = negsuc 89999;
  max_velocity_mdeg_s = pos 90000;
  sequence = 7;
}

abbrev moving : JointState
moving = record {
  position_mdeg = negsuc 45299;
  velocity_mdeg_s = negsuc 89999;
  current_ma = pos 140;
  temperature_c10 = negsuc 99;
  last_command_seq = 1234;
  mode = 1;
}

abbrev hot : Emergency
hot = record { code = 0x10; detail = 0x12345678 }

heartbeat_roundtrip_example :
    (f : CanFrame) × (encode_heartbeat 5 (some beat) (some zero_frame) ≡ (ok, some f))
    × (id_node f.id ≡ 5)
    × (decode_heartbeat (some f) (some blank_beat) ≡ (ok, some beat))
heartbeat_roundtrip_example =
    heartbeat_roundtrip 5 beat zero_frame blank_beat (omega arith) (omega arith) (omega arith)

command_roundtrip_example :
    (f : CanFrame) × (encode_command 0 (some sweep) (some zero_frame) ≡ (ok, some f))
    × (id_node f.id ≡ 0)
    × (decode_command (some f) (some sweep) ≡ (ok, some sweep))
command_roundtrip_example =
    command_roundtrip 0 sweep zero_frame sweep (omega arith) (omega arith) (inr (refl, omega arith))

joint_state_roundtrip_example :
    (f : CanFrame) × (encode_joint_state 127 (some moving) (some zero_frame) ≡ (ok, some f))
    × (id_node f.id ≡ 127)
    × (decode_joint_state (some f) (some moving) ≡ (ok, some moving))
joint_state_roundtrip_example =
    joint_state_roundtrip 127 moving zero_frame moving (omega arith) (omega arith)

emergency_roundtrip_example :
    (f : CanFrame) × (encode_emergency 9 (some hot) (some zero_frame) ≡ (ok, some f))
    × (id_node f.id ≡ 9)
    × (decode_emergency (some f) (some hot) ≡ (ok, some hot))
emergency_roundtrip_example = emergency_roundtrip 9 hot zero_frame hot (omega arith) (omega arith)

abbrev cleared : CanFrame
cleared = record zero_frame { id = 0x80; len = 12 }

zero_bytes : (i : ℕ) → byte_at cleared.payload i < 256
zero_bytes i = rw (get_or-replicate {A = ℕ} 64 i 0) (omega arith)

decode_command_iff_example :
    ((decode_command (some cleared) (some sweep)).0 ≡ ok)
    ↔ (Carries MsgType.command 12 cleared × Executes cleared)
decode_command_iff_example = decode_command_iff cleared sweep zero_bytes

decode_error_unchanged_example :
    (((decode_heartbeat (some cleared) (some beat)).0 ≡ ok)
      ⊎ ((decode_heartbeat (some cleared) (some beat)).1 ≡ some beat))
    × (((decode_command (some cleared) (some sweep)).0 ≡ ok)
        ⊎ ((decode_command (some cleared) (some sweep)).1 ≡ some sweep))
    × (((decode_joint_state (some cleared) none).0 ≡ ok)
        ⊎ ((decode_joint_state (some cleared) none).1 ≡ none))
    × (((decode_emergency (some cleared) (some hot)).0 ≡ ok)
        ⊎ ((decode_emergency (some cleared) (some hot)).1 ≡ some hot))
decode_error_unchanged_example =
    decode_error_unchanged (some cleared) (some beat) (some sweep) none (some hot)

-- tests/test_protocol.c: a heartbeat frame is the same whatever was in the buffer.
heartbeat_bytes :
    (encode_heartbeat 5 (some beat) (some cleared)).1
    ≡ (encode_heartbeat 5 (some beat) (some zero_frame)).1
unfolding encode_heartbeat
heartbeat_bytes = refl

rejects_node_zero : (encode_heartbeat 0 (some beat) (some zero_frame)).1 ≡ some zero_frame
unfolding encode_heartbeat
rejects_node_zero = refl

abbrev filled : ProtoResult × Option CanFrame → CanFrame
filled (r, some f) = f
filled (r, none) = zero_frame

-- The frame of a command to move.
abbrev sweep_frame : CanFrame
sweep_frame = filled (encode_command 5 (some sweep) (some zero_frame))

decode_command-GivesOrder_example : GivesOrder (decode_command (some sweep_frame) (some sweep))
decode_command-GivesOrder_example = decode_command-GivesOrder sweep_frame sweep
