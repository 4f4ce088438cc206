-- ===== src/Joint/Safe.antt =====
-- The soft limits hold after any sequence of commands and steps.
use robot_joint_stack.Prelude.{ℕ, ◌≡◌, arith, List, [], ◌∷◌, ◌==◌, Bool-cases, inl, inr}
use robot_joint_stack.Prelude.Int.{ℤ, pos, ◌≤ℤ◌}
use robot_joint_stack.Prelude.Word.{IsI32, to_i32_id}
use robot_joint_stack.Protocol.{Command, mode_position}
use robot_joint_stack.Joint.{
  Joint, JointConfig, clamp32, joint_init, joint_command, step_timeout, step_brake, step_move,
  joint_step,
}

-- A configuration of int32_t values whose soft limits are in order.
pub record IsConfig (c : JointConfig) : Type 0 where
  pub ordered : c.min_mdeg ≤ℤ c.max_mdeg
  pub min_i32 : IsI32 c.min_mdeg
  pub max_i32 : IsI32 c.max_mdeg

abbrev pub Within : ℤ → ℤ → ℤ → Type 0
Within lo hi v = (lo ≤ℤ v) × (v ≤ℤ hi)

pub clamp32-Within : (v lo hi : ℤ) → lo ≤ℤ hi → IsI32 lo → IsI32 hi → Within lo hi (clamp32 v lo hi)
unfolding clamp32
clamp32-Within v lo hi h lo32 hi32 = ground (arith, to_i32_id v)

pub clamp32_inside : (v lo hi : ℤ) → IsI32 lo → IsI32 hi → Within lo hi v → clamp32 v lo hi ≡ v
unfolding clamp32
clamp32_inside v lo hi lo32 hi32 h = ground (arith, to_i32_id v)

-- What a joint keeps: its configuration, and the position and the target between the soft limits.
pub record IsSafe (cfg : JointConfig) (j : Joint) : Type 0 where
  pub same_min : j.cfg.min_mdeg ≡ cfg.min_mdeg
  pub same_max : j.cfg.max_mdeg ≡ cfg.max_mdeg
  pub position : Within cfg.min_mdeg cfg.max_mdeg j.position_mdeg
  pub target : Within cfg.min_mdeg cfg.max_mdeg j.target_mdeg

pub joint_init-IsSafe :
    (cfg : JointConfig) → Within cfg.min_mdeg cfg.max_mdeg (pos 0) → IsSafe cfg (joint_init cfg)
unfolding joint_init
joint_init-IsSafe cfg h = ground arith

pub joint_command-IsSafe :
    (cfg : JointConfig) (j : Joint) (c : Command)
    → IsConfig cfg
    → IsSafe cfg j
    → IsSafe cfg (joint_command j c)
unfolding joint_command
joint_command-IsSafe cfg j c ok h =
    ground (arith, clamp32-Within c.target_mdeg j.cfg.min_mdeg j.cfg.max_mdeg)

pub step_timeout-IsSafe :
    (cfg : JointConfig) (j : Joint) (dt : ℕ) → IsSafe cfg j → IsSafe cfg (step_timeout j dt)
unfolding step_timeout
step_timeout-IsSafe cfg j dt h = ground arith

clamped :
    (cfg : JointConfig) (j : Joint) (v : ℤ)
    → IsConfig cfg
    → IsSafe cfg j
    → Within cfg.min_mdeg cfg.max_mdeg (clamp32 v j.cfg.min_mdeg j.cfg.max_mdeg)
clamped cfg j v ok h =
    rw (h.same_min, h.same_max)
      (clamp32-Within v cfg.min_mdeg cfg.max_mdeg ok.ordered ok.min_i32 ok.max_i32)

step_brake-IsSafe :
    (cfg : JointConfig) (j : Joint) (dt : ℕ)
    → IsConfig cfg
    → IsSafe cfg j
    → IsSafe cfg (step_brake j dt)
unfolding step_brake
step_brake-IsSafe cfg j dt ok h = record {
  same_min = h.same_min;
  same_max = h.same_max;
  position = clamped cfg j _ ok h;
  target = h.target;
}

step_move-IsSafe :
    (cfg : JointConfig) (j : Joint) (dt : ℕ)
    → IsConfig cfg
    → IsSafe cfg j
    → IsSafe cfg (step_move j dt)
unfolding step_move
step_move-IsSafe cfg j dt ok h = record {
  same_min = h.same_min;
  same_max = h.same_max;
  position = clamped cfg j _ ok h;
  target = h.target;
}

pub joint_step-IsSafe :
    (cfg : JointConfig) (j : Joint) (dt : ℕ)
    → IsConfig cfg
    → IsSafe cfg j
    → IsSafe cfg (joint_step j dt)
unfolding joint_step
joint_step-IsSafe cfg j dt ok h =
    let t = step_timeout-IsSafe cfg j dt h in
    elim (Bool-cases (dt == 0)) [
      | inl nothing ↦ rw nothing h
      | inr some_time ↦
          rw some_time (elim (Bool-cases ((step_timeout j dt).mode == mode_position)) [
            | inl moving ↦ rw moving (step_move-IsSafe cfg (step_timeout j dt) dt ok t)
            | inr off ↦ rw off (step_brake-IsSafe cfg (step_timeout j dt) dt ok t)
          ])
    ]

-- What the control task does to its joint.
pub data JointOp : Type 0 where
  apply : Command → JointOp
  advance : ℕ → JointOp

abbrev pub perform : Joint → JointOp → Joint
perform j (apply c) = joint_command j c
perform j (advance dt) = joint_step j dt

abbrev pub run : Joint → List JointOp → Joint
run j [] = j
run j (op ∷ ops) = run (perform j op) ops

run-IsSafe_from :
    (cfg : JointConfig) (j : Joint) (ops : List JointOp)
    → IsConfig cfg
    → IsSafe cfg j
    → IsSafe cfg (run j ops)
run-IsSafe_from cfg j [] ok h = h
run-IsSafe_from cfg j (apply c ∷ ops) ok h =
    run-IsSafe_from cfg (joint_command j c) ops ok (joint_command-IsSafe cfg j c ok h)
run-IsSafe_from cfg j (advance dt ∷ ops) ok h =
    run-IsSafe_from cfg (joint_step j dt) ops ok (joint_step-IsSafe cfg j dt ok h)

-- From start-up, any sequence of commands (with any target, speed and mode) and steps (of any
-- length) keeps the position and the target between the soft limits, and the limits as they were
-- configured. The configured limits are int32_t values in order with 0 between them.
pub run-IsSafe :
    (cfg : JointConfig) (ops : List JointOp)
    → IsConfig cfg
    → Within cfg.min_mdeg cfg.max_mdeg (pos 0)
    → IsSafe cfg (run (joint_init cfg) ops)
run-IsSafe cfg ops ok zero_inside =
    run-IsSafe_from cfg (joint_init cfg) ops ok (joint_init-IsSafe cfg zero_inside)
