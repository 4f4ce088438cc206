-- ===== src/Joint/Brake.antt =====
-- A disabled joint brakes to a standstill.
use robot_joint_stack.Prelude.{ℕ, zero, suc, ◌-◌, ◌*◌, ◌/◌, ◌≤◌, ◌<◌, ◌≡◌, ◌≢◌, refl, arith, ◌∙◌}
use robot_joint_stack.Prelude.Int.{ℤ, pos, pos_part, neg_part, ◌+ℤ◌, ◌-ℤ◌, ◌*ℤ◌, ◌/ℤ◌, magnitude}
use robot_joint_stack.Prelude.Word.{IsI32, to_i32_id}
use robot_joint_stack.Protocol.{mode_position}
use robot_joint_stack.Joint.{Joint, abs64, brake_velocity, step_timeout, step_brake, joint_step}

brake_velocity-magnitude :
    (v : ℤ) (d : ℕ)
    → (magnitude (brake_velocity v (pos d)) ≡ magnitude v - d)
      × (pos_part (brake_velocity v (pos d)) ≤ pos_part v)
      × (neg_part (brake_velocity v (pos d)) ≤ neg_part v)
unfolding brake_velocity abs64 ◌-ℤ◌ ◌+ℤ◌
brake_velocity-magnitude v d = ground arith

-- A joint that is disabled, with the acceleration limit `a`.
abbrev pub IsDisabled : ℕ → Joint → Type 0
IsDisabled a j = (j.mode ≢ mode_position) × (j.cfg.accel_mdeg_s2 ≡ pos a) × IsI32 j.velocity_mdeg_s

accel_step : (a dt : ℕ) → pos a *ℤ pos dt /ℤ 1000 ≡ pos (a * dt / 1000)
unfolding ◌*ℤ◌ ◌/ℤ◌
accel_step a dt = ground arith

step_timeout_disabled : (j : Joint) (dt : ℕ) → j.mode ≢ mode_position → step_timeout j dt ≡ j
unfolding step_timeout
step_timeout_disabled j dt h = ground arith

joint_step_disabled :
    (j : Joint) (dt : ℕ) → 0 < dt → j.mode ≢ mode_position → joint_step j dt ≡ step_brake j dt
unfolding joint_step
joint_step_disabled j dt some_time h = rw (step_timeout_disabled j dt h) (ground arith)

step_brake-IsDisabled :
    (j : Joint) (a dt : ℕ)
    → IsDisabled a j
    → IsDisabled a (step_brake j dt)
      × (magnitude (step_brake j dt).velocity_mdeg_s ≡ magnitude j.velocity_mdeg_s - a * dt / 1000)
unfolding step_brake
step_brake-IsDisabled j a dt h =
    rw (h.1, accel_step a dt)
      (let b = brake_velocity-magnitude j.velocity_mdeg_s (a * dt / 1000) in
        let fits : IsI32 (brake_velocity j.velocity_mdeg_s (pos (a * dt / 1000))) =
          omega (arith, b, h.2) in
        rw (to_i32_id (brake_velocity j.velocity_mdeg_s (pos (a * dt / 1000))) fits)
          ((h.0, refl, fits), b.0))

joint_step-IsDisabled :
    (j : Joint) (a dt : ℕ)
    → 0 < dt
    → IsDisabled a j
    → IsDisabled a (joint_step j dt)
      × (magnitude (joint_step j dt).velocity_mdeg_s ≡ magnitude j.velocity_mdeg_s - a * dt / 1000)
joint_step-IsDisabled j a dt some_time h =
    rw (joint_step_disabled j dt some_time h.0) (step_brake-IsDisabled j a dt h)

abbrev pub repeat : ℕ → ℕ → Joint → Joint
repeat zero dt j = j
repeat (suc n) dt j = repeat n dt (joint_step j dt)

-- After `n` steps of equal positive length a disabled joint is still disabled and its speed has
-- fallen by `n` times the acceleration limit's share of a step (in whole mdeg/s), down to 0. So it
-- stands still after finitely many steps, unless that share is less than 1 mdeg/s: then its speed
-- does not fall at all.
pub repeat-speed :
    (n dt a : ℕ) (j : Joint)
    → 0 < dt
    → IsDisabled a j
    → IsDisabled a (repeat n dt j)
      × (magnitude (repeat n dt j).velocity_mdeg_s
          ≡ magnitude j.velocity_mdeg_s - n * (a * dt / 1000))
repeat-speed zero dt a j some_time h = (h, omega arith)
repeat-speed (suc n) dt a j some_time h =
    let b = joint_step-IsDisabled j a dt some_time h in
    let rest = repeat-speed n dt a (joint_step j dt) some_time b.0 in
    (rest.0, omega (arith, rest.1, b.1))

-- A disabled joint whose acceleration limit is below 1000 / dt mdeg/s^2 keeps the speed that it had
-- for ever: the branch of a disabled joint has no lower bound of 1 mdeg/s on the change of velocity,
-- as the branch in position mode has.
pub repeat-never_stops :
    (n dt a : ℕ) (j : Joint)
    → 0 < dt
    → a * dt < 1000
    → IsDisabled a j
    → magnitude (repeat n dt j).velocity_mdeg_s ≡ magnitude j.velocity_mdeg_s
repeat-never_stops n dt a j some_time small h =
    let none_at_all : a * dt / 1000 ≡ 0 = omega arith in
    let r = (repeat-speed n dt a j some_time h).1 in rw none_at_all at r ∙ omega arith
