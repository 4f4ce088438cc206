-- ===== src/CanTiming/Laws.antt =====
-- A timing that is found is exact and within the limits.
use robot_joint_stack.Prelude.{
  ℕ, ◌+◌, ◌-◌, ◌*◌, ◌/◌, ◌%◌, ◌≤◌, ◌<◌, ◌≡◌, arith, ◌==◌, Bool-cases, inl, inr, ap, ==_iff,
}
use native.Mathlib.Nat.{mul-le-mul_left, div-le_self, div-add-mod}
use robot_joint_stack.CanTiming.{
  TimingLimits, CanTiming, found, tseg2_for, try_quanta, try_prescaler,
}

-- The values of the arguments that the function accepts.
abbrev pub IsRequest : ℕ → ℕ → ℕ → Type 0
IsRequest clock_hz bitrate sample_point =
    (clock_hz < 4294967296)
    × (0 < bitrate)
    × (bitrate ≤ clock_hz)
    × (500 ≤ sample_point)
    × (sample_point ≤ 950)

-- The number of quanta is split into the sync quantum and the two segments.
pub record Splits (total sample_point : ℕ) (limits : TimingLimits) (t : CanTiming) : Type 0 where
  pub whole : 1 + t.tseg1 + t.tseg2 ≡ total
  pub enough : 4 ≤ total
  pub tseg1_low : 1 ≤ t.tseg1
  pub tseg1_high : t.tseg1 ≤ limits.tseg1_max
  pub tseg2_low : 1 ≤ t.tseg2
  pub tseg2_high : t.tseg2 ≤ limits.tseg2_max
  pub sjw_tseg2 : t.sjw ≤ t.tseg2
  pub sjw_high : t.sjw ≤ limits.sjw_max
  pub not_late : 1000 * (1 + t.tseg1) ≤ sample_point * total + 500
  pub not_early : sample_point * total ≤ 1000 * (1 + t.tseg1) + 800

tseg2_bounds :
    (total sample_point : ℕ)
    → total < 4294967296
    → 4 ≤ total
    → 500 ≤ sample_point
    → sample_point ≤ 950
    → let q = tseg2_for total sample_point in
      (1 ≤ q)
      × (2 * q ≤ total + 1)
      × (1000 * q + sample_point * total ≤ 1000 * total + 800)
      × (1000 * total ≤ 1000 * q + sample_point * total + 500)
unfolding tseg2_for
tseg2_bounds total sample_point word enough low high =
    let rest : sample_point + (1000 - sample_point) ≡ 1000 = omega arith in
    let whole = ap (λ (t : ℕ). total * t) rest in
    let upper : total * (1000 - sample_point) ≤ total * 500 = mul-le-mul_left total (omega arith) in
    let lower : total * 50 ≤ total * (1000 - sample_point) = mul-le-mul_left total (omega arith) in
    ground arith

try_quanta-Splits :
    (total sample_point presc : ℕ) (limits : TimingLimits) (t : CanTiming)
    → total < 4294967296
    → 500 ≤ sample_point
    → sample_point ≤ 950
    → try_quanta sample_point presc limits total ≡ found t
    → Splits total sample_point limits t × (t.prescaler ≡ presc)
unfolding try_quanta
try_quanta-Splits total sample_point presc limits t word low high h =
    ground (arith, tseg2_bounds total sample_point)

-- What one prescaler gives: nothing to go on with, the end of the search, or a timing.
pub try_prescaler-found :
    (clock_hz bitrate sample_point presc : ℕ) (limits : TimingLimits) (t : CanTiming)
    → IsRequest clock_hz bitrate sample_point
    → 0 < presc
    → try_prescaler clock_hz bitrate sample_point limits presc ≡ found t
    → (t.prescaler ≡ presc)
      × (presc * bitrate * (clock_hz / (presc * bitrate)) ≡ clock_hz)
      × Splits (clock_hz / (presc * bitrate)) sample_point limits t
unfolding try_prescaler
try_prescaler-found clock_hz bitrate sample_point presc limits t request some_presc h =
    elim (Bool-cases (clock_hz % (presc * bitrate) == 0)) [
      | inl exact ↦
          let total = clock_hz / (presc * bitrate) in
          let small : total ≤ clock_hz = div-le_self clock_hz (presc * bitrate) in
          let word : total % 4294967296 ≡ total = omega arith in
          let inner : try_quanta sample_point presc limits total ≡ found t =
            rw (exact, word) at h in
          let good =
            try_quanta-Splits total sample_point presc limits t (omega arith) request.3 request.4
              inner in
          (
            good.1,
            omega (arith, div-add-mod clock_hz (presc * bitrate), (==_iff _ _).0 exact),
            good.0,
          )
      | inr inexact ↦ cc (rw inexact at h)
    ]
