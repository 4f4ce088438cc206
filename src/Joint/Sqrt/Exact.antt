-- ===== src/Joint/Sqrt/Exact.antt =====
-- The square root is exact, and both of its loops end by their own tests.
use native.Mathlib.Nat.{pow-suc, one-le-pow, mul-le-mul, mul-pos}
use robot_joint_stack.Prelude.{
  ℕ, zero, suc, ◌+◌, ◌*◌, ◌/◌, ◌^◌, ◌≤◌, ◌<◌, ◌≡◌, refl, arith, true, false, ltb, leb, ◌==◌,
  Bool-cases, inl, inr, ◌⊎◌, ltb→lt,
}
use mathlib.Core.Path.{subst}
use robot_joint_stack.Prelude.Word.{u64}
use robot_joint_stack.Joint.Sqrt.{
  Root, skip_loop, root_step, root_loop, isqrt_run, isqrt_u64, rounds,
}

-- `n` lies from the square of `s` up to that of `s + p + p`, and the variables are those of the
-- loop with `bit` the square of `p`: the root so far is `s`, and `r` is twice its product with `p`.
record IsPartial (n s p : ℕ) (v : Root) : Type 0 where
  rest : v.x + s * s ≡ n
  scaled : v.r ≡ s * (p + p)
  square : v.bit ≡ p * p
  above : n < (s + p + p) * (s + p + p)
  word : s + p + p ≤ 2 ^ 32

-- The loop has ended: `bit` is 0 and `r` is the root.
abbrev Done : ℕ → Root → Type 0
Done n v = (v.bit ≡ 0) × (v.r * v.r ≤ n) × (n < (v.r + 1) * (v.r + 1))

pow_le : (k m : ℕ) → k ≤ m → 2 ^ k ≤ 2 ^ m
pow_le k zero h = let e : k ≡ 0 = omega arith in rw e (omega arith)
pow_le zero (suc m) h = one-le-pow (suc m) 2 (omega arith)
pow_le (suc k) (suc m) h = omega (arith, pow-suc 2 k, pow-suc 2 m, pow_le k m (omega arith))

no_wrap : (s p : ℕ) → 0 < p → s + p + p ≤ 2 ^ 32 → s * (p + p) + p * p < 2 ^ 64
no_wrap s p pos h = omega (arith, mul-le-mul h h, mul-pos pos pos)

-- A round with a bit left: the next digit of the root is decided.
root_step-half :
    (n s q : ℕ) (v : Root)
    → 0 < q
    → IsPartial n s (q + q) v
    → (t : ℕ) × IsPartial n t q (root_step v)
unfolding root_step
root_step-half n s q v pos h =
    let small = no_wrap s (q + q) (omega arith) h.word in
    elim (Bool-cases (leb (u64 (v.r + v.bit)) v.x)) [
      | inl fits ↦
          let below : v.r + v.bit ≤ v.x = ground arith in
          (
            s + (q + q),
            rw fits (record {
              rest = omega arith;
              scaled = omega arith;
              square = omega arith;
              above = omega arith;
              word = omega arith;
            }),
          )
      | inr misses ↦
          let above : v.x < v.r + v.bit = ground arith in
          (
            s,
            rw misses (record {
              rest = omega arith;
              scaled = omega arith;
              square = omega arith;
              above = omega arith;
              word = omega arith;
            }),
          )
    ]

-- The round at the lowest bit leaves the root in `r`.
root_step-last : (n s : ℕ) (v : Root) → IsPartial n s 1 v → Done n (root_step v)
unfolding root_step
root_step-last n s v h =
    let small = no_wrap s 1 (omega arith) h.word in
    elim (Bool-cases (leb (u64 (v.r + v.bit)) v.x)) [
      | inl fits ↦
          let below : v.r + v.bit ≤ v.x = ground arith in
          let root : u64 (v.r / 2 + v.bit) ≡ s + 1 = omega arith in
          rw (fits, root) (omega arith, omega arith, omega arith)
      | inr misses ↦
          let above : v.x < v.r + v.bit = ground arith in
          let root : v.r / 2 ≡ s = omega arith in
          rw (misses, root) (omega arith, omega arith, omega arith)
    ]

root_loop-stops : (n fuel : ℕ) (v : Root) → Done n v → Done n (root_loop fuel v)
unfolding root_loop
root_loop-stops n zero v h = h
root_loop-stops n (suc fuel) v h = let stop : (v.bit == 0) ≡ true = ground arith in rw stop h

-- With one round more than the exponent of `bit`, the loop reaches its end.
root_loop-Done :
    (k n s fuel : ℕ) (v : Root) → k < fuel → IsPartial n s (2 ^ k) v → Done n (root_loop fuel v)
unfolding root_loop
root_loop-Done k n s zero v enough h = elim enough [ ]
root_loop-Done zero n s (suc fuel) v enough h =
    let running : (v.bit == 0) ≡ false = ground (arith, h.square) in
    rw running (root_loop-stops n fuel (root_step v) (root_step-last n s v h))
root_loop-Done (suc k) n s (suc fuel) v enough h =
    let double : 2 ^ suc k ≡ 2 ^ k + 2 ^ k = omega (arith, pow-suc 2 k) in
    let wide : 0 < 2 ^ k = one-le-pow k 2 (omega arith) in
    let h' = subst (λ p. IsPartial n s p v) double h in
    let (t, next) = root_step-half n s (2 ^ k) v wide h' in
    let running : (v.bit == 0) ≡ false = ground (arith, h'.square, mul-pos wide wide) in
    rw running (root_loop-Done k n t fuel (root_step v) (omega arith) next)

abbrev start : ℕ → ℕ → Root
start n bit = record { x = n; r = 0; bit = bit }

skip_loop-zero : (n fuel : ℕ) → skip_loop fuel (start n 0) ≡ start n 0
unfolding skip_loop
skip_loop-zero n zero = refl
skip_loop-zero n (suc fuel) = let stop : ltb n 0 ≡ false = ground arith in rw stop

-- The first loop stops at a bit from which the second one can start, or has found n to be 0.
skip_loop-ready :
    (k n fuel : ℕ)
    → k < fuel
    → k ≤ 31
    → n < (2 ^ k + 2 ^ k) * (2 ^ k + 2 ^ k)
    → let v = skip_loop fuel (start n (2 ^ k * 2 ^ k)) in
      ((j : ℕ) × (j ≤ k) × IsPartial n 0 (2 ^ j) v) ⊎ Done n v
unfolding skip_loop
skip_loop-ready k n zero enough word h = elim enough [ ]
skip_loop-ready zero n (suc fuel) enough word h = elim (Bool-cases (ltb n 1)) [
  | inl skip ↦
      let nought : n ≡ 0 = ground arith in
      rw (skip, skip_loop-zero n fuel) (inr (omega arith, omega arith, omega arith))
  | inr stop ↦ rw stop (
      inl (
        0,
        omega arith,
        record {
          rest = omega arith;
          scaled = omega arith;
          square = omega arith;
          above = omega arith;
          word = omega arith;
        },
      ))
]
skip_loop-ready (suc k) n (suc fuel) enough word h =
    let double : 2 ^ suc k ≡ 2 ^ k + 2 ^ k = omega (arith, pow-suc 2 k) in
    let quarter : 2 ^ suc k * 2 ^ suc k / 4 ≡ 2 ^ k * 2 ^ k = rw double (omega arith) in
    elim (Bool-cases (ltb n (2 ^ suc k * 2 ^ suc k))) [
      | inl skip ↦
          let below : n < (2 ^ k + 2 ^ k) * (2 ^ k + 2 ^ k) = rw (← double) (ltb→lt _ _ skip) in
          rw (skip, quarter) (widen (skip_loop-ready k n fuel (omega arith) (omega arith) below))
      | inr stop ↦ rw stop (
          inl (
            suc k,
            omega arith,
            record {
              rest = omega arith;
              scaled = omega arith;
              square = refl;
              above = omega (arith, h);
              word = omega (arith, pow_le (suc k) 31 word);
            },
          ))
    ]
  where
    widen :
        {v : Root}
        → ((j : ℕ) × (j ≤ k) × IsPartial n 0 (2 ^ j) v) ⊎ Done n v
        → ((j : ℕ) × (j ≤ suc k) × IsPartial n 0 (2 ^ j) v) ⊎ Done n v
    widen (inl (j, le, p)) = inl (j, omega arith, p)
    widen (inr d) = inr d

isqrt_run-Done : (n : ℕ) → n < 2 ^ 64 → Done n (isqrt_run n)
unfolding isqrt_run
isqrt_run-Done n h = finish (skip_loop-ready 31 n rounds (omega arith) (omega arith) h)
  where
    finish :
        ((j : ℕ) × (j ≤ 31) × IsPartial n 0 (2 ^ j) (skip_loop rounds (start n (2 ^ 62))))
          ⊎ Done n (skip_loop rounds (start n (2 ^ 62)))
        → Done n (root_loop rounds (skip_loop rounds (start n (2 ^ 62))))
    finish (inl (j, le, p)) = root_loop-Done j n 0 rounds _ (omega arith) p
    finish (inr d) = root_loop-stops n rounds _ d

-- For every 64-bit number the loops end by their own tests (the trial bit has been shifted out), and
-- the result is the exact integer square root: its square is not above the number, and the square
-- of its successor is.
pub isqrt_u64-exact :
    (n : ℕ)
    → n < 2 ^ 64
    → ((isqrt_run n).bit ≡ 0)
      × (isqrt_u64 n * isqrt_u64 n ≤ n)
      × (n < (isqrt_u64 n + 1) * (isqrt_u64 n + 1))
unfolding isqrt_u64
isqrt_u64-exact n h = isqrt_run-Done n h
