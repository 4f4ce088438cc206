-- ===== src/Joint/Motion/Arrive.antt =====
-- A joint in position mode that does not move away from its target arrives there and stands still.
use robot_joint_stack.Prelude.{
  ℕ, zero, suc, ◌+◌, ◌-◌, ◌*◌, ◌≤◌, ◌<◌, ◌≡◌, refl, arith, ◌⊎◌, ◌∙◌, ap, inl, inr, sym,
}
use robot_joint_stack.Prelude.Int.{
  ℤ, pos, pos_part, neg_part, ◌≤ℤ◌, ◌+ℤ◌, ◌-ℤ◌, ◌*ℤ◌, ◌/ℤ◌, neg_ℤ, magnitude, eq_of_parts, -ℤ_parts,
  +ℤ_parts,
}
use robot_joint_stack.Prelude.Word.{to_i32_id}
use robot_joint_stack.Protocol.{mode_position}
use robot_joint_stack.Joint.{
  Joint, abs64, approach, settle, wanted_velocity, stop_velocity, step_timeout, step_move,
  joint_step,
}
use robot_joint_stack.Joint.Sqrt.{isqrt_u64}
use robot_joint_stack.Joint.Sqrt.Exact.{isqrt_u64-exact}
use robot_joint_stack.Joint.Safe.{Within, clamp32_inside}
use robot_joint_stack.Joint.Brake.{repeat}
use robot_joint_stack.Joint.Motion.Step.{
  IsReady, limit_dv, limit_dv_pos, step_move-up, step_move-down,
}

neg_ℤ_le : (m : ℤ) → pos 0 ≤ℤ m → neg_ℤ m ≤ℤ pos 0
neg_ℤ_le m h = ground arith

isqrt_zero : isqrt_u64 0 ≡ 0
isqrt_zero = grind (arith, isqrt_u64-exact 0 (omega arith))

stop_velocity_zero : (a : ℤ) → stop_velocity a (pos 0) ≡ pos 0
unfolding stop_velocity abs64 ◌*ℤ◌
stop_velocity_zero a = ground (arith, isqrt_zero)

wanted_velocity_zero :
    (j : Joint) → pos 0 ≤ℤ j.max_velocity_mdeg_s → wanted_velocity j (pos 0) ≡ pos 0
unfolding wanted_velocity
wanted_velocity_zero j h = rw (stop_velocity_zero j.cfg.accel_mdeg_s2) (ground arith)

approach_zero : (d : ℤ) → pos 1 ≤ℤ d → approach (pos 0) (pos 0) d ≡ pos 0
unfolding approach ◌-ℤ◌ ◌+ℤ◌
approach_zero d h = ground arith

no_way : (dt : ℕ) → pos 0 *ℤ pos dt /ℤ 1000 ≡ pos 0
unfolding ◌*ℤ◌ ◌/ℤ◌
no_way dt = ground arith

settle_zero : settle (pos 0) (pos 0) (pos 0) ≡ (pos 0, pos 0)
unfolding settle
settle_zero = refl

-- At its target, standing still, the joint stays.
pub step_move-rest :
    (j : Joint) (dt : ℕ)
    → IsReady j
    → j.position_mdeg ≡ j.target_mdeg
    → j.velocity_mdeg_s ≡ pos 0
    → ((step_move j dt).position_mdeg ≡ j.target_mdeg) × ((step_move j dt).velocity_mdeg_s ≡ pos 0)
unfolding step_move
step_move-rest j dt ready here still =
    let no_gap : j.target_mdeg -ℤ j.position_mdeg ≡ pos 0 =
      eq_of_parts (j.target_mdeg -ℤ j.position_mdeg) (pos 0) (
        omega
          (arith, -ℤ_parts j.target_mdeg j.position_mdeg, ap pos_part here, ap neg_part here)) in
    let same : j.position_mdeg +ℤ pos 0 ≡ j.position_mdeg =
      eq_of_parts (j.position_mdeg +ℤ pos 0) j.position_mdeg
        (omega (arith, +ℤ_parts j.position_mdeg (pos 0))) in
    rw
      (
        no_gap,
        wanted_velocity_zero j ready.speed_limit,
        still,
        approach_zero (limit_dv j dt ready) (limit_dv_pos j dt ready),
        no_way dt,
        settle_zero,
        same,
        clamp32_inside j.position_mdeg j.cfg.min_mdeg j.cfg.max_mdeg ready.config.min_i32
            ready.config.max_i32 ready.position,
      )
      (here, to_i32_id (pos 0) (omega arith))

-- On its way: the target is ahead or behind, the joint does not move the other way, and it stands
-- still if it has arrived.
pub record IsOnWay (j : Joint) : Type 0 where
  pub ready : IsReady j
  pub direction :
      ((j.position_mdeg ≤ℤ j.target_mdeg) × (pos 0 ≤ℤ j.velocity_mdeg_s))
      ⊎ ((j.target_mdeg ≤ℤ j.position_mdeg) × (j.velocity_mdeg_s ≤ℤ pos 0))
  pub stands : j.position_mdeg ≡ j.target_mdeg → j.velocity_mdeg_s ≡ pos 0

abbrev pub distance : Joint → ℕ
distance j = magnitude (j.target_mdeg -ℤ j.position_mdeg)

step_move-IsReady :
    (j : Joint) (dt : ℕ)
    → IsReady j
    → Within j.cfg.min_mdeg j.cfg.max_mdeg (step_move j dt).position_mdeg
    → Within (neg_ℤ j.max_velocity_mdeg_s) j.max_velocity_mdeg_s (step_move j dt).velocity_mdeg_s
    → IsReady (step_move j dt)
unfolding step_move
step_move-IsReady j dt r inside slow = record {
  config = r.config;
  position = inside;
  target = r.target;
  speed_limit = r.speed_limit;
  limit_i32 = r.limit_i32;
  slow = slow.1;
  slow_back = slow.0;
}

pub step_move-target : (j : Joint) (dt : ℕ) → (step_move j dt).target_mdeg ≡ j.target_mdeg
unfolding step_move
step_move-target j dt = refl

pub three_cases : (p t : ℤ) → (p +ℤ pos 1 ≤ℤ t) ⊎ ((p ≡ t) ⊎ (t +ℤ pos 1 ≤ℤ p))
unfolding ◌+ℤ◌
three_cases p t = ground arith

nearer_up : (p q t : ℤ) → p +ℤ pos 1 ≤ℤ q → q ≤ℤ t → magnitude (t -ℤ q) ≤ magnitude (t -ℤ p) - 1
unfolding ◌+ℤ◌ ◌-ℤ◌
nearer_up p q t h k = ground arith

nearer_down : (p q t : ℤ) → q +ℤ pos 1 ≤ℤ p → t ≤ℤ q → magnitude (t -ℤ q) ≤ magnitude (t -ℤ p) - 1
unfolding ◌+ℤ◌ ◌-ℤ◌
nearer_down p q t h k = ground arith

no_distance : (p t : ℤ) → p ≡ t → magnitude (t -ℤ p) ≡ 0
unfolding ◌-ℤ◌
no_distance p t e = ground arith

ahead-IsOnWay :
    (j : Joint) (dt : ℕ)
    → IsOnWay j
    → j.position_mdeg +ℤ pos 1 ≤ℤ j.target_mdeg
    → IsOnWay (step_move j dt) × (distance (step_move j dt) ≤ distance j - 1)
ahead-IsOnWay j dt h ahead =
    let r = h.ready in
    let one = +ℤ_parts j.position_mdeg (pos 1) in
    let forward : pos 0 ≤ℤ j.velocity_mdeg_s = omega (arith, h.direction) in
    let step = step_move-up j dt r ahead forward in
    let same = step_move-target j dt in
    (
      record {
        ready =
            step_move-IsReady j dt r (omega (arith, step, r.position, r.target))
              (omega (arith, step, r.speed_limit, neg_ℤ_le j.max_velocity_mdeg_s));
        direction = inl (rw same step.1, step.2.0);
        stands = λ e. step.3 (e ∙ same);
      },
      rw same
          (nearer_up j.position_mdeg (step_move j dt).position_mdeg j.target_mdeg step.0 step.1),
    )

behind-IsOnWay :
    (j : Joint) (dt : ℕ)
    → IsOnWay j
    → j.target_mdeg +ℤ pos 1 ≤ℤ j.position_mdeg
    → IsOnWay (step_move j dt) × (distance (step_move j dt) ≤ distance j - 1)
behind-IsOnWay j dt h behind =
    let r = h.ready in
    let one = +ℤ_parts j.target_mdeg (pos 1) in
    let backward : j.velocity_mdeg_s ≤ℤ pos 0 = omega (arith, h.direction) in
    let step = step_move-down j dt r behind backward in
    let next = +ℤ_parts (step_move j dt).position_mdeg (pos 1) in
    let same = step_move-target j dt in
    (
      record {
        ready =
            step_move-IsReady j dt r (omega (arith, step, r.position, r.target))
              (omega (arith, step, r.speed_limit));
        direction = inr (rw same step.1, step.2.1);
        stands = λ e. step.3 (e ∙ same);
      },
      rw same
          (nearer_down j.position_mdeg (step_move j dt).position_mdeg j.target_mdeg step.0 step.1),
    )

arrived-IsOnWay :
    (j : Joint) (dt : ℕ)
    → IsOnWay j
    → j.position_mdeg ≡ j.target_mdeg
    → IsOnWay (step_move j dt) × (distance (step_move j dt) ≤ distance j - 1)
arrived-IsOnWay j dt h here =
    let r = h.ready in
    let step = step_move-rest j dt r here (h.stands here) in
    let same = step_move-target j dt in
    (
      record {
        ready =
            step_move-IsReady j dt r (rw step.0 r.target)
              (rw step.1 (omega (arith, r.speed_limit, neg_ℤ_le j.max_velocity_mdeg_s)));
        direction = inl (rw (step.0, same) (omega arith), rw step.1 (omega arith));
        stands = λ _. step.1;
      },
      rw
          (no_distance (step_move j dt).position_mdeg (step_move j dt).target_mdeg
            (step.0 ∙ sym same))
          (omega arith),
    )

-- One step: still on the way, and nearer by 1 mdeg at least.
step_move-IsOnWay :
    (j : Joint) (dt : ℕ)
    → IsOnWay j
    → IsOnWay (step_move j dt) × (distance (step_move j dt) ≤ distance j - 1)
step_move-IsOnWay j dt h = elim (three_cases j.position_mdeg j.target_mdeg) [
  | inl ahead ↦ ahead-IsOnWay j dt h ahead
  | inr (inl here) ↦ arrived-IsOnWay j dt h here
  | inr (inr behind) ↦ behind-IsOnWay j dt h behind
]

-- The joint stays in position mode for `n` steps: it has no command timeout, or has time left.
abbrev pub Follows : ℕ → ℕ → Joint → Type 0
Follows n dt j =
    (j.mode ≡ mode_position)
    × ((j.cfg.command_timeout_ms ≡ 0)
        ⊎ ((j.since_command_ms + n * dt ≤ j.cfg.command_timeout_ms)
            × (j.cfg.command_timeout_ms < 4294967296)))

step_timeout-keeps :
    (n dt : ℕ) (j : Joint) → Follows (suc n) dt j → Follows n dt (step_timeout j dt)
unfolding step_timeout
step_timeout-keeps n dt j h = ground arith

pub step_timeout-IsOnWay : (dt : ℕ) (j : Joint) → IsOnWay j → IsOnWay (step_timeout j dt)
unfolding step_timeout
step_timeout-IsOnWay dt j h = ground arith

step_timeout-distance : (dt : ℕ) (j : Joint) → distance (step_timeout j dt) ≡ distance j
unfolding step_timeout
step_timeout-distance dt j = ground arith

pub joint_step-Follows :
    (n dt : ℕ) (j : Joint)
    → 0 < dt
    → Follows (suc n) dt j
    → joint_step j dt ≡ step_move (step_timeout j dt) dt
unfolding joint_step
joint_step-Follows n dt j some_time h = ground (arith, step_timeout-keeps n dt j h)

step_move-Follows : (n dt : ℕ) (j : Joint) → Follows n dt j → Follows n dt (step_move j dt)
unfolding step_move
step_move-Follows n dt j h = h

pub joint_step-IsOnWay :
    (n dt : ℕ) (j : Joint)
    → 0 < dt
    → Follows (suc n) dt j
    → IsOnWay j
    → Follows n dt (joint_step j dt)
      × IsOnWay (joint_step j dt)
      × (distance (joint_step j dt) ≤ distance j - 1)
joint_step-IsOnWay n dt j some_time f h =
    let waits = step_timeout j dt in
    let moved = step_move-IsOnWay waits dt (step_timeout-IsOnWay dt j h) in
    rw (joint_step-Follows n dt j some_time f) (
      step_move-Follows n dt waits (step_timeout-keeps n dt j f),
      moved.0,
      omega (arith, moved.1, step_timeout-distance dt j),
    )

no_gap_left : (p t : ℤ) → magnitude (t -ℤ p) ≤ 0 → p ≡ t
unfolding ◌-ℤ◌
no_gap_left p t h = ground arith

-- A joint in position mode that is within its speed limit and does not move away from its target
-- has reached it after as many steps of equal positive length as it is millidegrees away, and
-- stands still there. It has no command timeout, or its timeout does not
-- run out before; its limits are in order, with the position and the target between them.
pub repeat-arrives :
    (n dt : ℕ) (j : Joint)
    → 0 < dt
    → Follows n dt j
    → IsOnWay j
    → distance j ≤ n
    → let k = repeat n dt j in
      (k.position_mdeg ≡ k.target_mdeg) × (k.velocity_mdeg_s ≡ pos 0) × Follows 0 dt k
repeat-arrives zero dt j some_time f h near =
    let here = no_gap_left j.position_mdeg j.target_mdeg near in (here, h.stands here, f)
repeat-arrives (suc n) dt j some_time f h near =
    let next = joint_step-IsOnWay n dt j some_time f h in
    repeat-arrives n dt (joint_step j dt) some_time next.0 next.1 (omega (arith, next.2))
