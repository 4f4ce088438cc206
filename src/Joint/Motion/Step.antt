-- ===== src/Joint/Motion/Step.antt =====
-- A step in position mode: it stays within the speed limit and does not overshoot.
use robot_joint_stack.Prelude.{ℕ, ◌≡◌, arith, if◌then◌else◌, inl, inr}
use robot_joint_stack.Prelude.Int.{
  ℤ, pos, negsuc, ◌≤ℤ◌, ◌+ℤ◌, ◌-ℤ◌, ◌*ℤ◌, ◌/ℤ◌, neg_ℤ, ltb_ℤ, -ℤ_parts, +ℤ_parts,
}
use robot_joint_stack.Prelude.Word.{IsI32, to_i32, to_i32_id}
use robot_joint_stack.Joint.Safe.{IsConfig, Within}
use robot_joint_stack.Joint.{Joint, approach, settle, wanted_velocity, step_move, clamp32}
use robot_joint_stack.Joint.Motion.{
  wanted_velocity_sign, settle_up, settle_down, way_sign, between-IsI32, approach_up, approach_down,
  clamp32_way, way_whole, neg_IsI32,
}

-- A joint whose limits, position, target and speeds are as they should be.
pub record IsReady (j : Joint) : Type 0 where
  pub config : IsConfig j.cfg
  pub position : Within j.cfg.min_mdeg j.cfg.max_mdeg j.position_mdeg
  pub target : Within j.cfg.min_mdeg j.cfg.max_mdeg j.target_mdeg
  pub speed_limit : pos 0 ≤ℤ j.max_velocity_mdeg_s
  pub limit_i32 : IsI32 j.max_velocity_mdeg_s
  pub slow : j.velocity_mdeg_s ≤ℤ j.max_velocity_mdeg_s
  pub slow_back : neg_ℤ j.max_velocity_mdeg_s ≤ℤ j.velocity_mdeg_s

-- What a step of `rjs_joint_step` in position mode changes and keeps.
abbrev SameTask : Joint → Joint → Type 0
SameTask j k =
    (k.cfg ≡ j.cfg)
    × (k.mode ≡ j.mode)
    × (k.target_mdeg ≡ j.target_mdeg)
    × (k.max_velocity_mdeg_s ≡ j.max_velocity_mdeg_s)
    × (k.since_command_ms ≡ j.since_command_ms)

module _ (j : Joint) (dt : ℕ) (ready : IsReady j) where
  abbrev gap : ℤ
  gap = j.target_mdeg -ℤ j.position_mdeg

  abbrev pub limit_dv : ℤ
  limit_dv =
      let dv = j.cfg.accel_mdeg_s2 *ℤ pos dt /ℤ 1000 in if ltb_ℤ dv (pos 1) then pos 1 else dv

  abbrev speed : ℤ
  speed = approach j.velocity_mdeg_s (wanted_velocity j gap) limit_dv

  abbrev outcome : ℤ × ℤ
  outcome = settle gap speed (speed *ℤ pos dt /ℤ 1000)

  pub limit_dv_pos : pos 1 ≤ℤ limit_dv
  limit_dv_pos = ground arith

  -- Towards a target ahead, from a standstill or moving forward.
  pub step_move-up :
      j.position_mdeg +ℤ pos 1 ≤ℤ j.target_mdeg
      → pos 0 ≤ℤ j.velocity_mdeg_s
      → let k = step_move j dt in
        (j.position_mdeg +ℤ pos 1 ≤ℤ k.position_mdeg)
        × (k.position_mdeg ≤ℤ j.target_mdeg)
        × Within (pos 0) j.max_velocity_mdeg_s k.velocity_mdeg_s
        × (k.position_mdeg ≡ j.target_mdeg → k.velocity_mdeg_s ≡ pos 0)
  unfolding step_move
  step_move-up ahead forward =
      let gap_parts = -ℤ_parts j.target_mdeg j.position_mdeg in
      let next_parts = +ℤ_parts j.position_mdeg (pos 1) in
      let far : pos 1 ≤ℤ gap = omega arith in
      let want = wanted_velocity_sign j gap ready.speed_limit in
      let fast : Within (pos 0) j.max_velocity_mdeg_s speed =
        approach_up j.velocity_mdeg_s (wanted_velocity j gap) limit_dv j.max_velocity_mdeg_s
          limit_dv_pos (forward, ready.slow) (want.0 far, want.2) in
      let end =
        settle_up gap speed (speed *ℤ pos dt /ℤ 1000) far fast.0 ((way_sign speed dt).0 fast.0) in
      let sum_parts = +ℤ_parts j.position_mdeg outcome.0 in
      let uncut : clamp32 (j.position_mdeg +ℤ outcome.0) j.cfg.min_mdeg j.cfg.max_mdeg
          ≡ j.position_mdeg +ℤ outcome.0 =
        clamp32_way j.position_mdeg j.target_mdeg j.cfg.min_mdeg j.cfg.max_mdeg outcome.0
          ready.config.min_i32 ready.config.max_i32 ready.position ready.target
          (inl (omega (arith, end), end.1)) in
      let limited : Within (pos 0) j.max_velocity_mdeg_s outcome.1 =
        (end.2, omega (arith, end, fast)) in
      let v32 : to_i32 outcome.1 ≡ outcome.1 = to_i32_id outcome.1 (
        between-IsI32 (pos 0) outcome.1 j.max_velocity_mdeg_s limited.0 limited.1 (omega arith)
          ready.limit_i32) in
      rw (uncut, v32)
        (
          omega (arith, end),
          omega (arith, end),
          limited,
          λ e. end.4 (way_whole j.position_mdeg j.target_mdeg outcome.0 e),
        )

  -- Towards a target behind, from a standstill or moving backward.
  pub step_move-down :
      j.target_mdeg +ℤ pos 1 ≤ℤ j.position_mdeg
      → j.velocity_mdeg_s ≤ℤ pos 0
      → let k = step_move j dt in
        (k.position_mdeg +ℤ pos 1 ≤ℤ j.position_mdeg)
        × (j.target_mdeg ≤ℤ k.position_mdeg)
        × Within (neg_ℤ j.max_velocity_mdeg_s) (pos 0) k.velocity_mdeg_s
        × (k.position_mdeg ≡ j.target_mdeg → k.velocity_mdeg_s ≡ pos 0)
  unfolding step_move
  step_move-down behind backward =
      let gap_parts = -ℤ_parts j.target_mdeg j.position_mdeg in
      let next_parts = +ℤ_parts j.target_mdeg (pos 1) in
      let far : gap ≤ℤ negsuc 0 = omega arith in
      let want = wanted_velocity_sign j gap ready.speed_limit in
      let fast : Within (neg_ℤ j.max_velocity_mdeg_s) (pos 0) speed =
        approach_down j.velocity_mdeg_s (wanted_velocity j gap) limit_dv
          (neg_ℤ j.max_velocity_mdeg_s) limit_dv_pos (ready.slow_back, backward)
          (want.3, want.1 (omega arith)) in
      let end =
        settle_down gap speed (speed *ℤ pos dt /ℤ 1000) far fast.1 ((way_sign speed dt).1 fast.1) in
      let sum_parts = +ℤ_parts j.position_mdeg outcome.0 in
      let uncut : clamp32 (j.position_mdeg +ℤ outcome.0) j.cfg.min_mdeg j.cfg.max_mdeg
          ≡ j.position_mdeg +ℤ outcome.0 =
        clamp32_way j.position_mdeg j.target_mdeg j.cfg.min_mdeg j.cfg.max_mdeg outcome.0
          ready.config.min_i32 ready.config.max_i32 ready.position ready.target
          (inr (end.1, omega (arith, end))) in
      let limited : Within (neg_ℤ j.max_velocity_mdeg_s) (pos 0) outcome.1 =
        (omega (arith, end, fast), end.2) in
      let v32 : to_i32 outcome.1 ≡ outcome.1 = to_i32_id outcome.1 (
        between-IsI32 (neg_ℤ j.max_velocity_mdeg_s) outcome.1 (pos 0) limited.0 limited.1
          (neg_IsI32 j.max_velocity_mdeg_s ready.speed_limit ready.limit_i32) (omega arith)) in
      let end_parts = +ℤ_parts (j.position_mdeg +ℤ outcome.0) (pos 1) in
      rw (uncut, v32)
        (
          omega (arith, end),
          omega (arith, end),
          limited,
          λ e. end.4 (way_whole j.position_mdeg j.target_mdeg outcome.0 e),
        )
