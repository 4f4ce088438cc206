-- ===== src/Joint.antt =====
-- common/joint/include/rjs/joint.h and common/joint/src/joint.c: the joint model. The int64_t
-- intermediate values are integers without a bound; Joint/Bounds is about their range.
pub mod Sqrt
pub mod Effects
pub mod Bounds
pub mod Safe
pub mod Motion
pub mod Brake
pub mod Timeout
use robot_joint_stack.Prelude.{
  ℕ, ◌+◌, ◌*◌, ◌/◌, ◌<◌, Bool, ◌&&◌, ◌||◌, not, if◌then◌else◌, ltb, leb, ◌==◌, bit_and, bit_or,
}
use robot_joint_stack.Prelude.Int.{
  ℤ, pos, negsuc, ◌+ℤ◌, ◌-ℤ◌, ◌*ℤ◌, ◌/ℤ◌, neg_ℤ, ltb_ℤ, leb_ℤ, eqb_ℤ,
}
use robot_joint_stack.Prelude.Word.{u32, to_i32, to_i16, to_pattern}
use robot_joint_stack.Protocol.{
  Command, JointState, mode_disabled, mode_position, err_peer_lost, err_limit_reached,
}
use Sqrt.{isqrt_u64}

-- `rjs_joint_config_t`.
pub record JointConfig : Type 0 where
  pub min_mdeg : ℤ  -- int32_t
  pub max_mdeg : ℤ  -- int32_t
  pub accel_mdeg_s2 : ℤ  -- int32_t
  pub command_timeout_ms : ℕ  -- uint32_t

-- `rjs_joint_t`.
pub record Joint : Type 0 where
  pub cfg : JointConfig
  pub mode : ℕ  -- uint8_t
  pub position_mdeg : ℤ  -- int32_t
  pub velocity_mdeg_s : ℤ  -- int32_t
  pub target_mdeg : ℤ  -- int32_t
  pub max_velocity_mdeg_s : ℤ  -- int32_t
  pub last_seq : ℕ  -- uint16_t
  pub since_command_ms : ℕ  -- uint32_t
  pub error_flags : ℕ  -- uint16_t
  pub timeouts : ℕ  -- uint32_t

unfoldable pub clamp32 : ℤ → ℤ → ℤ → ℤ
clamp32 v lo hi = if ltb_ℤ v lo then lo else if ltb_ℤ hi v then hi else to_i32 v

unfoldable pub abs64 : ℤ → ℤ
abs64 v = if ltb_ℤ v (pos 0) then neg_ℤ v else v

unfoldable pub joint_init : JointConfig → Joint
joint_init cfg = record {
  cfg = if leb_ℤ cfg.accel_mdeg_s2 (pos 0) then record cfg { accel_mdeg_s2 = pos 1 } else cfg;
  mode = mode_disabled;
  position_mdeg = pos 0;
  velocity_mdeg_s = pos 0;
  target_mdeg = pos 0;
  max_velocity_mdeg_s = pos 0;
  last_seq = 0;
  since_command_ms = 0;
  error_flags = 0;
  timeouts = 0;
}

-- `flags & (uint16_t)~RJS_ERR_PEER_LOST` and its like; the masks are ~0x0008 and ~0x0020.
unfoldable pub clear_peer_lost : ℕ → ℕ
clear_peer_lost flags = bit_and flags 0xfff7

unfoldable pub clear_limit_reached : ℕ → ℕ
clear_limit_reached flags = bit_and flags 0xffdf

unfoldable pub joint_command : Joint → Command → Joint
joint_command j cmd =
    let received = record j {
      last_seq = cmd.sequence;
      since_command_ms = 0;
      mode = cmd.mode;
      error_flags = clear_peer_lost j.error_flags;
    } in
    if not (cmd.mode == mode_position) then received else record received {
      max_velocity_mdeg_s = cmd.max_velocity_mdeg_s;
      error_flags =
          if ltb_ℤ cmd.target_mdeg j.cfg.min_mdeg || ltb_ℤ j.cfg.max_mdeg cmd.target_mdeg
          then bit_or received.error_flags err_limit_reached
          else clear_limit_reached received.error_flags;
      target_mdeg = clamp32 cmd.target_mdeg j.cfg.min_mdeg j.cfg.max_mdeg;
    }

-- The command timeout at the head of `rjs_joint_step`.
unfoldable pub step_timeout : Joint → ℕ → Joint
step_timeout j dt_ms =
    let waited = u32 (j.since_command_ms + dt_ms) in
    if (j.mode == mode_position) && not (j.cfg.command_timeout_ms == 0)
    then if ltb j.cfg.command_timeout_ms waited
      then record j {
        since_command_ms = waited;
        mode = mode_disabled;
        error_flags = bit_or j.error_flags err_peer_lost;
        timeouts = u32 (j.timeouts + 1);
      }
      else record j { since_command_ms = waited }
    else j

-- The velocity of a disabled joint after a step.
unfoldable pub brake_velocity : ℤ → ℤ → ℤ
brake_velocity v dv =
    if leb_ℤ (abs64 v) dv then pos 0 else if ltb_ℤ (pos 0) v then v -ℤ dv else v +ℤ dv

-- The branch of a disabled joint.
unfoldable pub step_brake : Joint → ℕ → Joint
step_brake j dt_ms =
    let dv = j.cfg.accel_mdeg_s2 *ℤ pos dt_ms /ℤ 1000 in
    let v = brake_velocity j.velocity_mdeg_s dv in
    record j {
      velocity_mdeg_s = to_i32 v;
      position_mdeg =
          clamp32 (j.position_mdeg +ℤ (v *ℤ pos dt_ms /ℤ 1000)) j.cfg.min_mdeg j.cfg.max_mdeg;
    }

-- The speed from which the joint can still stop at the target.
unfoldable pub stop_velocity : ℤ → ℤ → ℤ
stop_velocity a err = pos (isqrt_u64 (to_pattern 18446744073709551616 (pos 2 *ℤ a *ℤ abs64 err)))

-- The velocity that the joint should have.
unfoldable pub wanted_velocity : Joint → ℤ → ℤ
wanted_velocity j err =
    let v_stop = stop_velocity j.cfg.accel_mdeg_s2 err in
    let v_limit = if ltb_ℤ v_stop j.max_velocity_mdeg_s then v_stop else j.max_velocity_mdeg_s in
    if ltb_ℤ (pos 0) err then v_limit else neg_ℤ v_limit

-- The velocity moves towards `v_want` by at most `dv_max`.
unfoldable pub approach : ℤ → ℤ → ℤ → ℤ
approach v v_want dv_max =
    if ltb_ℤ v v_want
    then if ltb_ℤ dv_max (v_want -ℤ v) then v +ℤ dv_max else v_want
    else if ltb_ℤ dv_max (v -ℤ v_want)
    then v -ℤ dv_max
    else v_want

-- The end of the step: no overshoot, no rounding to zero. The result is the way and the velocity.
unfoldable pub settle : ℤ → ℤ → ℤ → ℤ × ℤ
settle err v step =
    let over = (ltb_ℤ (pos 0) err && ltb_ℤ err step) || (ltb_ℤ err (pos 0) && ltb_ℤ step err) in
    let capped = if over then err else step in
    let v1 = if over then pos 0 else v in
    let way =
      if eqb_ℤ capped (pos 0) && not (eqb_ℤ err (pos 0))
      then if ltb_ℤ (pos 0) err then pos 1 else negsuc 0
      else capped in
    (way, if eqb_ℤ way err then pos 0 else v1)

-- The branch of a joint in position mode.
unfoldable pub step_move : Joint → ℕ → Joint
step_move j dt_ms =
    let err = j.target_mdeg -ℤ j.position_mdeg in
    let v_want = wanted_velocity j err in
    let dv = j.cfg.accel_mdeg_s2 *ℤ pos dt_ms /ℤ 1000 in
    let dv_max = if ltb_ℤ dv (pos 1) then pos 1 else dv in
    let v = approach j.velocity_mdeg_s v_want dv_max in
    let (way, v') = settle err v (v *ℤ pos dt_ms /ℤ 1000) in
    record j {
      velocity_mdeg_s = to_i32 v';
      position_mdeg = clamp32 (j.position_mdeg +ℤ way) j.cfg.min_mdeg j.cfg.max_mdeg;
    }

unfoldable pub joint_step : Joint → ℕ → Joint
joint_step j dt_ms =
    if dt_ms == 0
    then j
    else let t = step_timeout j dt_ms in
      if not (t.mode == mode_position) then step_brake t dt_ms else step_move t dt_ms

unfoldable pub joint_get_state : Joint → JointState
joint_get_state j =
    let v =
      if ltb_ℤ j.velocity_mdeg_s (pos 0) then neg_ℤ j.velocity_mdeg_s else j.velocity_mdeg_s in
    record {
      position_mdeg = j.position_mdeg;
      velocity_mdeg_s = j.velocity_mdeg_s;
      current_ma = to_i16 (if j.mode == mode_position then pos 50 +ℤ (to_i32 v /ℤ 1000) else pos 0);
      temperature_c10 = pos 250;
      last_command_seq = j.last_seq;
      mode = j.mode;
    }
