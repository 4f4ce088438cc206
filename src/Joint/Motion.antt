-- ===== src/Joint/Motion.antt =====
-- The parts of a step in position mode: the wanted velocity, the change of velocity, the way.
pub mod Step
pub mod Arrive
pub mod Passage
use robot_joint_stack.Prelude.{
  ℕ, zero, suc, ◌+◌, ◌-◌, ◌*◌, ◌/◌, ◌%◌, ◌≤◌, ◌<◌, ◌≡◌, ◌≢◌, refl, arith, ◌⊎◌, ◌∙◌, ap,
  if◌then◌else◌, inl, inr,
}
use robot_joint_stack.Prelude.Int.{
  ℤ, pos, negsuc, pos_part, neg_part, ◌≤ℤ◌, ◌+ℤ◌, ◌-ℤ◌, ◌*ℤ◌, ◌/ℤ◌, neg_ℤ, magnitude, ltb_ℤ,
  ≤ℤ_total, eq_of_parts, -ℤ_parts, +ℤ_parts,
}
use robot_joint_stack.Prelude.Word.{IsI32, to_i32, to_i32_id}
use robot_joint_stack.Protocol.{mode_position}
use robot_joint_stack.Joint.Safe.{IsConfig, Within, clamp32_inside}
use robot_joint_stack.Joint.{
  Joint, approach, settle, wanted_velocity, stop_velocity, step_move, clamp32,
}

-- The velocity after `approach` lies between the old one and the wanted one.
pub approach_between :
    (v want d : ℤ)
    → pos 1 ≤ℤ d
    → (v ≤ℤ want → (v ≤ℤ approach v want d) × (approach v want d ≤ℤ want))
      × (want ≤ℤ v → (want ≤ℤ approach v want d) × (approach v want d ≤ℤ v))
unfolding approach
approach_between v want d h = (
  λ up. ground (arith, -ℤ_parts want v, -ℤ_parts v want, +ℤ_parts v d, -ℤ_parts v d),
  λ down. ground (arith, -ℤ_parts want v, -ℤ_parts v want, +ℤ_parts v d, -ℤ_parts v d),
)

-- The wanted velocity has the direction of the target, and is within the speed limit.
pub wanted_velocity_sign :
    (j : Joint) (err : ℤ)
    → pos 0 ≤ℤ j.max_velocity_mdeg_s
    → (pos 1 ≤ℤ err → pos 0 ≤ℤ wanted_velocity j err)
      × (err ≤ℤ pos 0 → wanted_velocity j err ≤ℤ pos 0)
      × (wanted_velocity j err ≤ℤ j.max_velocity_mdeg_s)
      × (neg_ℤ j.max_velocity_mdeg_s ≤ℤ wanted_velocity j err)
unfolding wanted_velocity stop_velocity
wanted_velocity_sign j err h = (λ e. ground arith, λ e. ground arith, ground arith, ground arith)

-- The end of a step towards a target ahead: at least 1 mdeg is gone and the target is not passed.
pub settle_up :
    (err v step : ℤ)
    → pos 1 ≤ℤ err
    → pos 0 ≤ℤ v
    → pos 0 ≤ℤ step
    → let (way, v') = settle err v step in
      (pos 1 ≤ℤ way) × (way ≤ℤ err) × (pos 0 ≤ℤ v') × (v' ≤ℤ v) × (way ≡ err → v' ≡ pos 0)
unfolding settle
settle_up err v step he hv hs =
    (ground arith, ground arith, ground arith, ground arith, λ e. ground arith)

pub settle_down :
    (err v step : ℤ)
    → err ≤ℤ negsuc 0
    → v ≤ℤ pos 0
    → step ≤ℤ pos 0
    → let (way, v') = settle err v step in
      (way ≤ℤ negsuc 0) × (err ≤ℤ way) × (v' ≤ℤ pos 0) × (v ≤ℤ v') × (way ≡ err → v' ≡ pos 0)
unfolding settle
settle_down err v step he hv hs =
    (ground arith, ground arith, ground arith, ground arith, λ e. ground arith)

pub way_sign :
    (v : ℤ) (dt : ℕ)
    → (pos 0 ≤ℤ v → pos 0 ≤ℤ v *ℤ pos dt /ℤ 1000) × (v ≤ℤ pos 0 → v *ℤ pos dt /ℤ 1000 ≤ℤ pos 0)
unfolding ◌*ℤ◌ ◌/ℤ◌
way_sign (pos n) dt = (λ h. ground arith, λ h. ground arith)
way_sign (negsuc n) dt = (λ h. ground arith, λ h. ground arith)

pub between-IsI32 : (lo v hi : ℤ) → lo ≤ℤ v → v ≤ℤ hi → IsI32 lo → IsI32 hi → IsI32 v
between-IsI32 lo (pos n) hi h k p q = omega arith
between-IsI32 lo (negsuc n) hi h k p q = omega arith

pub approach_up :
    (v want d m : ℤ)
    → pos 1 ≤ℤ d
    → Within (pos 0) m v
    → Within (pos 0) m want
    → Within (pos 0) m (approach v want d)
approach_up v want d m h hv hw =
    let between = approach_between v want d h in
    elim (≤ℤ_total v want) [
      | inl up ↦ omega (arith, between.0 up)
      | inr down ↦ omega (arith, between.1 down)
    ]

pub approach_down :
    (v want d m : ℤ)
    → pos 1 ≤ℤ d
    → Within m (pos 0) v
    → Within m (pos 0) want
    → Within m (pos 0) (approach v want d)
approach_down v want d m h hv hw =
    let between = approach_between v want d h in
    elim (≤ℤ_total v want) [
      | inl up ↦ omega (arith, between.0 up)
      | inr down ↦ omega (arith, between.1 down)
    ]

-- A way that ends between the position and a target within the limits is not cut by them.
pub clamp32_way :
    (position target lo hi way : ℤ)
    → IsI32 lo
    → IsI32 hi
    → Within lo hi position
    → Within lo hi target
    → Within (pos 0) (target -ℤ position) way ⊎ Within (target -ℤ position) (pos 0) way
    → clamp32 (position +ℤ way) lo hi ≡ position +ℤ way
clamp32_way position target lo hi way lo32 hi32 hp ht h =
    let gap_parts = -ℤ_parts target position in
    let sum_parts = +ℤ_parts position way in
    clamp32_inside (position +ℤ way) lo hi lo32 hi32 (omega arith)

-- A way that reaches the target is the whole gap.
pub way_whole : (position target way : ℤ) → position +ℤ way ≡ target → way ≡ target -ℤ position
way_whole position target way e =
    eq_of_parts way (target -ℤ position)
      (omega (arith, -ℤ_parts target position, +ℤ_parts position way, ap pos_part e, ap neg_part e))

pub neg_IsI32 : (v : ℤ) → pos 0 ≤ℤ v → IsI32 v → IsI32 (neg_ℤ v)
neg_IsI32 v h k = ground arith
