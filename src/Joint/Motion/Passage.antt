-- ===== src/Joint/Motion/Passage.antt =====
-- The way of a joint to its target, step by step.
use robot_joint_stack.Prelude.{
  ℕ, zero, suc, ◌+◌, ◌-◌, ◌≤◌, ◌<◌, ◌≡◌, refl, arith, ◌⊎◌, ◌∙◌, ap, inl, inr,
}
use robot_joint_stack.Prelude.Int.{ℤ, pos, pos_part, neg_part, ◌≤ℤ◌, +ℤ_parts}
use mathlib.Core.Path.{subst}
use robot_joint_stack.Joint.{Joint, step_timeout, step_move, joint_step}
use robot_joint_stack.Joint.Brake.{repeat}
use robot_joint_stack.Joint.Motion.Step.{step_move-up, step_move-down}
use robot_joint_stack.Joint.Motion.Arrive.{
  IsOnWay, Follows, distance, three_cases, step_move-target, step_move-rest, joint_step-Follows,
  step_timeout-IsOnWay, joint_step-IsOnWay, repeat-arrives,
}

-- The second position lies between the first and the third.
abbrev pub IsBetween : ℤ → ℤ → ℤ → Type 0
IsBetween p q t = ((p ≤ℤ q) × (q ≤ℤ t)) ⊎ ((t ≤ℤ q) × (q ≤ℤ p))

IsBetween-trans : (p q r t : ℤ) → IsBetween p q t → IsBetween q r t → IsBetween p r t
IsBetween-trans p q r t h k = omega arith

rest-IsBetween : (p q t : ℤ) → p ≡ t → q ≡ t → (p ≤ℤ q) × (q ≤ℤ t)
rest-IsBetween p q t here stays =
    let near = ap pos_part here in
    let near' = ap neg_part here in
    let same = ap pos_part stays in let same' = ap neg_part stays in (omega arith, omega arith)

IsOnWay-IsBetween :
    (j : Joint) → IsOnWay j → IsBetween j.position_mdeg j.position_mdeg j.target_mdeg
IsOnWay-IsBetween j h = omega (arith, h.direction)

step_move-IsBetween :
    (j : Joint) (dt : ℕ)
    → IsOnWay j
    → IsBetween j.position_mdeg (step_move j dt).position_mdeg j.target_mdeg
step_move-IsBetween j dt h = elim (three_cases j.position_mdeg j.target_mdeg) [
  | inl ahead ↦
      let one = +ℤ_parts j.position_mdeg (pos 1) in
      let step = step_move-up j dt h.ready ahead (omega (arith, h.direction)) in
      inl (omega (arith, step.0), step.1)
  | inr (inl here) ↦
      let step = step_move-rest j dt h.ready here (h.stands here) in
      inl (rest-IsBetween j.position_mdeg (step_move j dt).position_mdeg j.target_mdeg here step.0)
  | inr (inr behind) ↦
      let one = +ℤ_parts j.target_mdeg (pos 1) in
      let next = +ℤ_parts (step_move j dt).position_mdeg (pos 1) in
      let step = step_move-down j dt h.ready behind (omega (arith, h.direction)) in
      inr (step.1, omega (arith, step.0))
]

step_timeout_still :
    (j : Joint) (dt : ℕ)
    → ((step_timeout j dt).position_mdeg ≡ j.position_mdeg)
      × ((step_timeout j dt).target_mdeg ≡ j.target_mdeg)
unfolding step_timeout
step_timeout_still j dt = ground arith

joint_step-IsBetween :
    (n dt : ℕ) (j : Joint)
    → 0 < dt
    → Follows (suc n) dt j
    → IsOnWay j
    → IsBetween j.position_mdeg (joint_step j dt).position_mdeg j.target_mdeg
      × ((joint_step j dt).target_mdeg ≡ j.target_mdeg)
joint_step-IsBetween n dt j some_time f h =
    let waits = step_timeout j dt in
    let still = step_timeout_still j dt in
    let between = step_move-IsBetween waits dt (step_timeout-IsOnWay dt j h) in
    rw (joint_step-Follows n dt j some_time f) (
      subst (λ p. IsBetween p (step_move waits dt).position_mdeg j.target_mdeg) still.0
          (subst (λ t. IsBetween waits.position_mdeg (step_move waits dt).position_mdeg t) still.1
            between),
      step_move-target waits dt ∙ still.1,
    )

repeat-IsBetween :
    (m rest dt : ℕ) (j : Joint)
    → 0 < dt
    → Follows (m + rest) dt j
    → IsOnWay j
    → IsBetween j.position_mdeg (repeat m dt j).position_mdeg j.target_mdeg
      × ((repeat m dt j).target_mdeg ≡ j.target_mdeg)
repeat-IsBetween zero rest dt j some_time f h = (IsOnWay-IsBetween j h, refl)
repeat-IsBetween (suc m) rest dt j some_time f h =
    let count : suc m + rest ≡ suc (m + rest) = omega arith in
    let follows = subst (λ x. Follows x dt j) count f in
    let next = joint_step-IsOnWay (m + rest) dt j some_time follows h in
    let (near, same) = joint_step-IsBetween (m + rest) dt j some_time follows h in
    let (later, kept) = repeat-IsBetween m rest dt (joint_step j dt) some_time next.0 next.1 in
    (
      IsBetween-trans j.position_mdeg (joint_step j dt).position_mdeg
          (repeat m dt (joint_step j dt)).position_mdeg j.target_mdeg near
          (subst
            (IsBetween (joint_step j dt).position_mdeg
              (repeat m dt (joint_step j dt)).position_mdeg)
            same later),
      kept ∙ same,
    )

-- A joint in position mode that is within its speed limit and does not move away from its target
-- has reached it after as many steps of equal positive length as it is millidegrees away, and
-- stands still there; and after any smaller number of steps it is between where it started and the target, which
-- stays the same: it never passes the target, nor goes back beyond its start. It has no command timeout, or
-- its timeout does not run out before; its limits are in order, with the position and the target between them.
pub repeat-passage :
    (m n dt : ℕ) (j : Joint)
    → 0 < dt
    → Follows n dt j
    → IsOnWay j
    → distance j ≤ n
    → m ≤ n
    → let i = repeat m dt j in
      let k = repeat n dt j in
      IsBetween j.position_mdeg i.position_mdeg j.target_mdeg
      × (i.target_mdeg ≡ j.target_mdeg)
      × (k.position_mdeg ≡ k.target_mdeg)
      × (k.velocity_mdeg_s ≡ pos 0)
      × Follows 0 dt k
repeat-passage m n dt j some_time f h near within =
    let whole : n ≡ m + (n - m) = omega arith in
    let way = repeat-IsBetween m (n - m) dt j some_time (subst (λ x. Follows x dt j) whole f) h in
    let end = repeat-arrives n dt j some_time f h near in (way.0, way.1, end.0, end.1, end.2)
