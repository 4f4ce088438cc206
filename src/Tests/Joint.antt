-- ===== src/Tests/Joint.antt =====
-- joint.c on concrete joints.
use robot_joint_stack.Prelude.{
  ◌+◌, ◌-◌, ◌*◌, ◌/◌, ◌≤◌, ◌<◌, ◌≡◌, ◌⊎◌, inl, inr, refl, arith, [], ◌∷◌,
}
use robot_joint_stack.Prelude.Int.{pos, negsuc, magnitude}
use robot_joint_stack.Prelude.Int.{◌-ℤ◌}
use robot_joint_stack.Protocol.{Command, mode_position, mode_disabled}
use robot_joint_stack.Joint.{JointConfig, Joint, joint_init}
use robot_joint_stack.Joint.Sqrt.{isqrt_u64, isqrt_run}
use robot_joint_stack.Joint.Sqrt.Exact.{isqrt_u64-exact}
use robot_joint_stack.Joint.Safe.{apply, advance, run, IsConfig, IsSafe, run-IsSafe}
use robot_joint_stack.Joint.Timeout.{
  Waits, AreSteps, HasTimedOut, StillFollows, steps, total, steps-timeout,
}
use robot_joint_stack.Joint.Brake.{IsDisabled, repeat, repeat-speed}
use robot_joint_stack.Joint.Motion.Step.{IsReady}
use robot_joint_stack.Joint.Motion.Arrive.{IsOnWay, Follows}
use robot_joint_stack.Joint.Motion.Passage.{IsBetween, repeat-passage}

-- The configuration of app.c.
abbrev node_config : JointConfig
node_config = record {
  min_mdeg = negsuc 169999;
  max_mdeg = pos 170000;
  accel_mdeg_s2 = pos 360000;
  command_timeout_ms = 500;
}

abbrev too_far : Command
too_far = record {
  mode = mode_position;
  target_mdeg = pos 500000;
  max_velocity_mdeg_s = pos 90000;
  sequence = 3;
}

abbrev start : Joint
start = record {
  cfg = node_config;
  mode = mode_disabled;
  position_mdeg = pos 0;
  velocity_mdeg_s = pos 0;
  target_mdeg = pos 0;
  max_velocity_mdeg_s = pos 0;
  last_seq = 0;
  since_command_ms = 0;
  error_flags = 0;
  timeouts = 0;
}

starts : joint_init node_config ≡ start
unfolding joint_init
starts = refl

abbrev driven : Joint
driven = record start { mode = mode_position; target_mdeg = pos 3; max_velocity_mdeg_s = pos 90000 }

node_config-IsConfig : IsConfig node_config
node_config-IsConfig = record {
  ordered = omega arith;
  min_i32 = omega arith;
  max_i32 = omega arith;
}

run-IsSafe_example :
    IsSafe node_config (run (joint_init node_config) (apply too_far ∷ advance 5 ∷ advance 700 ∷ []))
run-IsSafe_example =
    run-IsSafe node_config (apply too_far ∷ advance 5 ∷ advance 700 ∷ []) node_config-IsConfig
      (omega arith, omega arith)

isqrt_u64-exact_example :
    ((isqrt_run 99).bit ≡ 0)
    × (isqrt_u64 99 * isqrt_u64 99 ≤ 99)
    × (99 < (isqrt_u64 99 + 1) * (isqrt_u64 99 + 1))
isqrt_u64-exact_example = isqrt_u64-exact 99 (omega arith)

steps-timeout_example :
    ((driven.since_command_ms + total (300 ∷ 201 ∷ []) ≤ 500)
      × (StillFollows driven.timeouts
          (driven.since_command_ms + total (300 ∷ 201 ∷ []))
          (steps driven (300 ∷ 201 ∷ []))))
    ⊎ ((500 < driven.since_command_ms + total (300 ∷ 201 ∷ []))
        × HasTimedOut driven.timeouts (steps driven (300 ∷ 201 ∷ [])))
steps-timeout_example = steps-timeout driven (300 ∷ 201 ∷ []) waits fits
  where
    waits : Waits driven
    waits = (refl, λ h. ground arith, omega arith)

    fits : AreSteps 500 (300 ∷ 201 ∷ [])
    fits = ground arith

abbrev coasting : Joint
coasting = record start { velocity_mdeg_s = negsuc 4999 }

coasting-IsDisabled : IsDisabled 360000 coasting
coasting-IsDisabled = (λ h. ground arith, refl, (omega arith, omega arith))

repeat-speed_example :
    IsDisabled 360000 (repeat 4 5 coasting)
    × (magnitude (repeat 4 5 coasting).velocity_mdeg_s
        ≡ magnitude coasting.velocity_mdeg_s - 4 * (360000 * 5 / 1000))
repeat-speed_example = repeat-speed 4 5 360000 coasting (omega arith) coasting-IsDisabled

driven-IsReady : IsReady driven
driven-IsReady = record {
  config = node_config-IsConfig;
  position = (omega arith, omega arith);
  target = (omega arith, omega arith);
  speed_limit = omega arith;
  limit_i32 = (omega arith, omega arith);
  slow = omega arith;
  slow_back = omega arith;
}

driven-IsOnWay : IsOnWay driven
driven-IsOnWay = record {
  ready = driven-IsReady;
  direction = inl (omega arith, omega arith);
  stands = λ h. refl;
}

repeat-passage_example :
    let i = repeat 1 5 driven in
    let k = repeat 3 5 driven in
    IsBetween driven.position_mdeg i.position_mdeg driven.target_mdeg
    × (i.target_mdeg ≡ driven.target_mdeg)
    × (k.position_mdeg ≡ k.target_mdeg)
    × (k.velocity_mdeg_s ≡ pos 0)
    × Follows 0 5 k
unfolding ◌-ℤ◌
repeat-passage_example =
    repeat-passage 1 3 5 driven (omega arith) follows driven-IsOnWay (omega arith) (omega arith)
  where
    follows : Follows 3 5 driven
    follows = (refl, inr (omega arith, omega arith))

driven-IsSafe : IsSafe node_config driven
driven-IsSafe = record {
  same_min = refl;
  same_max = refl;
  position = (omega arith, omega arith);
  target = (omega arith, omega arith);
}
