-- ===== src/Joint/Sqrt.antt =====
-- `isqrt_u64` of joint.c, the bitwise integer square root.
pub mod Exact
use robot_joint_stack.Prelude.{
  ℕ, zero, suc, ◌+◌, ◌-◌, ◌*◌, ◌/◌, ◌%◌, ◌^◌, ◌≤◌, ◌<◌, ◌≡◌, refl, arith, Bool, true, false,
  if◌then◌else◌, ltb, leb, ◌==◌, ap, Bool-cases, inl, inr,
}
use robot_joint_stack.Prelude.Word.{u64, ◌>>>◌}

-- The variables of the function.
pub record Root : Type 0 where
  pub x : ℕ
  pub r : ℕ
  pub bit : ℕ

-- `while (bit > x) bit >>= 2;` with fuel.
skip_loop : ℕ → Root → Root
skip_loop zero s = s
skip_loop (suc fuel) s =
    let rest = skip_loop fuel (record s { bit = s.bit >>> 2 }) in if ltb s.x s.bit then rest else s

-- The body of the second loop.
root_step : Root → Root
root_step s =
    let t = u64 (s.r + s.bit) in
    if leb t s.x
    then record { x = s.x - t; r = u64 ((s.r >>> 1) + s.bit); bit = s.bit >>> 2 }
    else record { x = s.x; r = s.r >>> 1; bit = s.bit >>> 2 }

root_loop : ℕ → Root → Root
root_loop zero s = s
root_loop (suc fuel) s = let rest = root_loop fuel (root_step s) in if s.bit == 0 then s else rest

-- Both loops shift `bit` down from 2 ^ 62, so 32 rounds are enough.
abbrev rounds : ℕ
rounds = 32

unfoldable pub isqrt_run : ℕ → Root
unfolding skip_loop root_loop root_step
isqrt_run x = root_loop rounds (skip_loop rounds (record { x = x; r = 0; bit = 2 ^ 62 }))

unfoldable pub isqrt_u64 : ℕ → ℕ
unfolding isqrt_run
isqrt_u64 x = (isqrt_run x).r

sqrt_runs : (isqrt_u64 99 ≡ 9) × (isqrt_u64 (2 ^ 64 - 1) ≡ 2 ^ 32 - 1) × (isqrt_u64 0 ≡ 0)
unfolding isqrt_u64
sqrt_runs = (refl, refl, refl)
