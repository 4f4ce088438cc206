-- ===== src/Joint/Timeout.antt =====
-- The command timeout: a joint that no longer hears from its controller is disabled.
use robot_joint_stack.Prelude.{
  ℕ, ◌+◌, ◌/◌, ◌%◌, ◌≤◌, ◌<◌, ◌≡◌, ◌≢◌, refl, arith, ◌⊎◌, List, [], ◌∷◌, inl, inr, bit_or, sym, ◌∙◌,
}
use native.Mathlib.Decide.{dec_lt}
use robot_joint_stack.Prelude.Bits.{bit_or_digit}
use robot_joint_stack.Prelude.Word.{u32}
use robot_joint_stack.Protocol.{mode_position, mode_disabled}
use robot_joint_stack.Joint.{Joint, step_timeout, step_brake, step_move, joint_step}

-- Bit 3 of the error flags.
abbrev pub peer_lost : Joint → ℕ
peer_lost j = j.error_flags / 8 % 2

bit_or-peer_lost : (flags : ℕ) → bit_or flags 8 / 8 % 2 ≡ 1
bit_or-peer_lost flags = omega (
  arith,
  bit_or_digit flags 8,
  bit_or_digit (flags / 2) 4,
  bit_or_digit (flags / 2 / 2) 2,
  bit_or_digit (flags / 2 / 2 / 2) 1,
)

-- What the two branches of a step leave alone.
abbrev watch : Joint → ℕ × ℕ × ℕ × ℕ × ℕ
watch j = (j.mode, j.cfg.command_timeout_ms, j.since_command_ms, j.error_flags, j.timeouts)

joint_step-watch :
    (j : Joint) (dt : ℕ) → 0 < dt → watch (joint_step j dt) ≡ watch (step_timeout j dt)
unfolding joint_step step_brake step_move
joint_step-watch j dt h = ground arith

-- Steps of the given lengths, with no command between them.
abbrev pub steps : Joint → List ℕ → Joint
steps j [] = j
steps j (dt ∷ dts) = steps (joint_step j dt) dts

abbrev pub total : List ℕ → ℕ
total [] = 0
total (dt ∷ dts) = dt + total dts

-- Every step has a length, and is short enough that the waiting time does not wrap.
abbrev pub AreSteps : ℕ → List ℕ → Type 0
AreSteps timeout [] = Unit {0}
AreSteps timeout (dt ∷ dts) = (0 < dt) × (timeout + dt < 4294967296) × AreSteps timeout dts

-- A joint that waits for its next command.
abbrev pub Waits : Joint → Type 0
Waits j =
    (j.mode ≡ mode_position)
    × (j.cfg.command_timeout_ms ≢ 0)
    × (j.since_command_ms ≤ j.cfg.command_timeout_ms)

-- A joint that its timeout has disabled, the timeout counted once.
abbrev pub HasTimedOut : ℕ → Joint → Type 0
HasTimedOut before j =
    (j.mode ≡ mode_disabled) × (peer_lost j ≡ 1) × (j.timeouts ≡ u32 (before + 1))

-- A joint that still follows its target.
abbrev pub StillFollows : ℕ → ℕ → Joint → Type 0
StillFollows before waited j =
    (j.mode ≡ mode_position) × (j.since_command_ms ≡ waited) × (j.timeouts ≡ before)

step-Waits :
    (j : Joint) (dt : ℕ)
    → 0 < dt
    → j.cfg.command_timeout_ms + dt < 4294967296
    → Waits j
    → j.since_command_ms + dt ≤ j.cfg.command_timeout_ms
    → ((joint_step j dt).cfg.command_timeout_ms ≡ j.cfg.command_timeout_ms)
      × StillFollows j.timeouts (j.since_command_ms + dt) (joint_step j dt)
unfolding step_timeout
step-Waits j dt pos small w early = ground (arith, joint_step-watch j dt pos)

step_expires :
    (j : Joint) (dt : ℕ)
    → 0 < dt
    → j.cfg.command_timeout_ms + dt < 4294967296
    → Waits j
    → j.cfg.command_timeout_ms < j.since_command_ms + dt
    → HasTimedOut j.timeouts (joint_step j dt)
unfolding step_timeout
step_expires j dt pos small w late =
    ground (arith, joint_step-watch j dt pos, bit_or-peer_lost j.error_flags)

step_disabled :
    (j : Joint) (dt before : ℕ) → HasTimedOut before j → HasTimedOut before (joint_step j dt)
unfolding joint_step step_timeout step_brake step_move
step_disabled j dt before h = ground arith

steps_disabled :
    (j : Joint) (dts : List ℕ) (before : ℕ)
    → HasTimedOut before j
    → HasTimedOut before (steps j dts)
steps_disabled j [] before h = h
steps_disabled j (dt ∷ dts) before h =
    steps_disabled (joint_step j dt) dts before (step_disabled j dt before h)

-- A joint in position mode with a command timeout stays in position mode as long as the time since
-- its last command, in steps of any lengths, is not above the timeout; once it is above, the joint
-- is disabled, its peer-lost flag is set and its timeouts have been counted up by exactly one. The
-- steps have a length and, with the timeout added, fit 32 bits.
pub steps-timeout :
    (j : Joint) (dts : List ℕ)
    → Waits j
    → AreSteps j.cfg.command_timeout_ms dts
    → ((j.since_command_ms + total dts ≤ j.cfg.command_timeout_ms)
        × (StillFollows j.timeouts (j.since_command_ms + total dts) (steps j dts)))
      ⊎ ((j.cfg.command_timeout_ms < j.since_command_ms + total dts)
          × HasTimedOut j.timeouts (steps j dts))
steps-timeout j [] w ok = inl (omega arith, (w.0, omega arith, refl))
steps-timeout j (dt ∷ dts) w ok = elim (dec_lt j.cfg.command_timeout_ms (j.since_command_ms + dt)) [
  | yes late ↦ inr (
    omega arith,
    steps_disabled (joint_step j dt) dts j.timeouts (step_expires j dt ok.0 ok.1 w late),
  )
  | no early ↦
      let (same, s) = step-Waits j dt ok.0 ok.1 w (omega arith) in
      let waits : Waits (joint_step j dt) = (s.0, λ e. w.1 (sym same ∙ e), omega arith) in
      let rest = steps-timeout (joint_step j dt) dts waits (rw same ok.2) in ground (arith, rest)
]
