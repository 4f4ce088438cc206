-- ===== src/Joint/Bounds.antt =====
-- The int64_t intermediate values of a step stay in range.
use robot_joint_stack.Prelude.{ℕ, suc, ◌*◌, ◌≤◌, ◌<◌, ◌≡◌, arith}
use native.Mathlib.Nat.{mul-le-mul}
use robot_joint_stack.Prelude.Int.{
  ℤ, pos, negsuc, pos_part, neg_part, ◌+ℤ◌, ◌-ℤ◌, ◌*ℤ◌, ◌/ℤ◌, magnitude, ◌≤ℤ◌,
}
use robot_joint_stack.Prelude.Word.{IsI32, IsI64}
use robot_joint_stack.Joint.Safe.{Within, IsSafe}
use robot_joint_stack.Joint.{
  brake_velocity, Joint, JointConfig, abs64, stop_velocity, wanted_velocity, approach,
}

-- At most 2 ^ 31 from 0.
abbrev pub IsSmall : ℤ → Type 0
IsSmall v = (pos_part v ≤ 2147483648) × (neg_part v ≤ 2147483648)

product_bound : (m n a b : ℕ) → m ≤ a → n ≤ b → m * n ≤ a * b
product_bound m n a b h k = mul-le-mul h k

mul-IsI64 : (v : ℤ) (n : ℕ) → IsSmall v → n < 4294967296 → IsI64 (v *ℤ pos n)
unfolding ◌*ℤ◌
mul-IsI64 (pos m) n h k =
    let n_max : n ≤ 4294967295 = omega arith in
    let p = product_bound m n 2147483648 4294967295 h.0 n_max in ground arith
mul-IsI64 (negsuc m) n h k =
    let n_max : n ≤ 4294967295 = omega arith in
    let p = product_bound (suc m) n 2147483648 4294967295 h.1 n_max in ground arith

approach-IsSmall :
    (v want dv : ℤ) → IsSmall v → IsSmall want → pos 1 ≤ℤ dv → IsSmall (approach v want dv)
unfolding approach ◌-ℤ◌ ◌+ℤ◌
approach-IsSmall v want dv h k d = ground arith

wanted-IsSmall :
    (j : Joint) (err : ℤ) → IsI32 j.max_velocity_mdeg_s → IsSmall (wanted_velocity j err)
unfolding wanted_velocity stop_velocity
wanted-IsSmall j err h = ground arith

mul_pos : (m n : ℕ) → pos m *ℤ pos n ≡ pos (m * n)
unfolding ◌*ℤ◌
mul_pos m n = ground arith

abs64-magnitude : (err : ℤ) → abs64 err ≡ pos (magnitude err)
unfolding abs64
abs64-magnitude (pos e) = ground arith
abs64-magnitude (negsuc e) = ground arith

twice-eq : (a : ℕ) (err : ℤ) → pos 2 *ℤ pos a *ℤ abs64 err ≡ pos (2 * a * magnitude err)
twice-eq a err = rw (mul_pos 2 a, abs64-magnitude err) (mul_pos (2 * a) (magnitude err))

stop-IsI64 : (a : ℕ) (err : ℤ) → a < 2147483648 → IsSmall err → IsI64 (pos 2 *ℤ pos a *ℤ abs64 err)
stop-IsI64 a err h k =
    let a_max : 2 * a ≤ 4294967294 = omega arith in
    let e_max : magnitude err ≤ 2147483648 = ground arith in
    let p = product_bound (2 * a) (magnitude err) 4294967294 2147483648 a_max e_max in
    rw (twice-eq a err) (omega arith, omega arith)

brake-IsSmall : (v dv : ℤ) → IsSmall v → pos 0 ≤ℤ dv → IsSmall (brake_velocity v dv)
unfolding brake_velocity abs64 ◌-ℤ◌ ◌+ℤ◌
brake-IsSmall v dv h k = ground arith

quotient-positive : (n : ℕ) → pos 0 ≤ℤ (pos n /ℤ 1000)
unfolding ◌/ℤ◌
quotient-positive n = ground arith

-- The way of a joint that brakes.
pub brake-IsI64 :
    (v : ℤ) (a dt_ms : ℕ) (accel : ℤ)
    → accel ≡ pos a
    → IsI32 v
    → dt_ms < 4294967296
    → IsI64 (brake_velocity v (accel *ℤ pos dt_ms /ℤ 1000) *ℤ pos dt_ms)
brake-IsI64 v a dt_ms accel e h step =
    let small : IsSmall v = (omega (arith, h.0), omega (arith, h.1)) in
    rw (e, mul_pos a dt_ms)
      (mul-IsI64 (brake_velocity v (pos (a * dt_ms) /ℤ 1000)) dt_ms
        (brake-IsSmall v (pos (a * dt_ms) /ℤ 1000) small (quotient-positive (a * dt_ms))) step)

-- The int64_t values that a step in position mode multiplies: the acceleration in a step, the square of
-- the stopping speed, and the way in a step.
pub record AreInRange (j : Joint) (dt_ms : ℕ) : Type 0 where
  pub acceleration : IsI64 (j.cfg.accel_mdeg_s2 *ℤ pos dt_ms)
  pub square : IsI64 (pos 2 *ℤ j.cfg.accel_mdeg_s2 *ℤ abs64 (j.target_mdeg -ℤ j.position_mdeg))
  pub way :
      (dv_max : ℤ)
      → pos 1 ≤ℤ dv_max
      → IsI64 (
          approach j.velocity_mdeg_s (wanted_velocity j (j.target_mdeg -ℤ j.position_mdeg)) dv_max
          *ℤ pos dt_ms)

error-IsSmall :
    (lo hi target position : ℤ)
    → Within lo hi target
    → Within lo hi position
    → neg_part lo ≤ 1073741824
    → pos_part hi ≤ 1073741824
    → IsSmall (target -ℤ position)
unfolding ◌-ℤ◌
error-IsSmall lo hi target position t p low high = ground arith

-- With soft limits within 2 ^ 30 of 0, an acceleration that is not negative, and values of their
-- types for it, for the velocities and for the step length, and with the position and the target
-- between the limits, no product of a step in position mode leaves the range of int64_t.
pub step_move-AreInRange :
    (cfg : JointConfig) (j : Joint) (a dt_ms : ℕ)
    → IsSafe cfg j
    → neg_part cfg.min_mdeg ≤ 1073741824
    → pos_part cfg.max_mdeg ≤ 1073741824
    → j.cfg.accel_mdeg_s2 ≡ pos a
    → a < 2147483648
    → IsI32 j.velocity_mdeg_s
    → IsI32 j.max_velocity_mdeg_s
    → dt_ms < 4294967296
    → AreInRange j dt_ms
step_move-AreInRange cfg j a dt_ms safe low high accel a_max v v_max step =
    let err = j.target_mdeg -ℤ j.position_mdeg in
    let small =
      error-IsSmall cfg.min_mdeg cfg.max_mdeg j.target_mdeg j.position_mdeg safe.target
        safe.position low high in
    record {
      acceleration = rw accel (mul-IsI64 (pos a) dt_ms (omega arith, omega arith) step);
      square = rw accel (stop-IsI64 a err a_max small);
      way = λ dv_max least.
          mul-IsI64 (approach j.velocity_mdeg_s (wanted_velocity j err) dv_max) dt_ms
            (approach-IsSmall j.velocity_mdeg_s (wanted_velocity j err) dv_max
              (omega (arith, v.0), omega (arith, v.1)) (wanted-IsSmall j err v_max) least)
            step;
    }
