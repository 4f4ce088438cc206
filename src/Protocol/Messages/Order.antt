-- ===== src/Protocol/Messages/Order.antt =====
-- What a command is that the decoder lets through.
use robot_joint_stack.Prelude.{
  ℕ, ◌≤◌, ◌≡◌, ◌⊎◌, arith, false, ◌&&◌, ◌||◌, ltb, ◌==◌, Option, none, some, Bool-cases, inl, inr,
}
use robot_joint_stack.Prelude.Int.{pos, leb_ℤ, ◌≤ℤ◌}
use robot_joint_stack.Prelude.Word.{IsI32, u32_to_i32}
use robot_joint_stack.Hal.{CanFrame}
use robot_joint_stack.Protocol.{ProtoResult, Command, MsgType, mode_position}
use robot_joint_stack.Protocol.Bytes.{get_u32}
use robot_joint_stack.Protocol.Messages.{
  decode_command, command_fields, command_into, frame_check, command_len,
}

-- A command of a known mode, with a speed of its type, and a positive one in position mode.
abbrev pub IsOrder : Command → Type 0
IsOrder c =
    (c.mode ≤ mode_position)
    × ((¬ (c.mode ≡ mode_position)) ⊎ (pos 1 ≤ℤ c.max_velocity_mdeg_s))
    × IsI32 c.max_velocity_mdeg_s

-- The same of what a decoder answers, if it accepts.
abbrev pub GivesOrder : ProtoResult × Option Command → Type 0
GivesOrder (ProtoResult.ok, some c) = IsOrder c
GivesOrder (ProtoResult.ok, none) = Unit {0}
GivesOrder (ProtoResult.err_param, c) = Unit {0}
GivesOrder (ProtoResult.err_length, c) = Unit {0}
GivesOrder (ProtoResult.err_version, c) = Unit {0}
GivesOrder (ProtoResult.err_type, c) = Unit {0}

any_u32-IsI32 : (p : ℕ) → IsI32 (u32_to_i32 p)
any_u32-IsI32 p = ground arith

speed_or_not :
    (c : Command)
    → ((c.mode == mode_position) && leb_ℤ c.max_velocity_mdeg_s (pos 0)) ≡ false
    → (¬ (c.mode ≡ mode_position)) ⊎ (pos 1 ≤ℤ c.max_velocity_mdeg_s)
speed_or_not c h = elim (Bool-cases (c.mode == mode_position)) [
  | inl moving ↦ inr (ground (arith, moving, h))
  | inr other ↦ inl (λ e. ground (arith, other, e))
]

fields-IsOrder :
    (f : CanFrame)
    → (ltb mode_position (command_fields f).mode
        || (((command_fields f).mode == mode_position)
            && leb_ℤ (command_fields f).max_velocity_mdeg_s (pos 0)))
      ≡ false
    → IsOrder (command_fields f)
unfolding command_fields
fields-IsOrder f h = (
  ground arith,
  speed_or_not (command_fields f) (ground (arith, h)),
  any_u32-IsI32 (get_u32 f.payload 6),
)

command_into-GivesOrder :
    (r : ProtoResult) (f : CanFrame) (old : Command)
    → GivesOrder (command_into r (some f) (some old))
unfolding command_into
command_into-GivesOrder ProtoResult.ok f old =
    elim (Bool-cases (
      ltb mode_position (command_fields f).mode
      || (((command_fields f).mode == mode_position)
          && leb_ℤ (command_fields f).max_velocity_mdeg_s (pos 0)))) [
            | inl bad ↦ rw bad tt
            | inr good ↦ rw good (fields-IsOrder f good)
          ]
command_into-GivesOrder ProtoResult.err_param f old = tt
command_into-GivesOrder ProtoResult.err_length f old = tt
command_into-GivesOrder ProtoResult.err_version f old = tt
command_into-GivesOrder ProtoResult.err_type f old = tt

-- A command that `rjs_decode_command` accepts, whatever the frame and whatever the command held before, has a
-- known mode and a maximum velocity of its type, and a positive one if it is a command to move.
pub decode_command-GivesOrder :
    (f : CanFrame) (old : Command) → GivesOrder (decode_command (some f) (some old))
unfolding decode_command
decode_command-GivesOrder f old =
    command_into-GivesOrder (frame_check (some f) MsgType.command command_len) f old
