-- ===== src/CanTiming.antt =====
-- common/hal/include/rjs/can_timing.h and common/hal/src/can_timing.c: the CAN bit timing.
pub mod Laws
pub mod Search
use robot_joint_stack.Prelude.{
  ℕ, zero, suc, ◌+◌, ◌-◌, ◌*◌, ◌/◌, ◌%◌, ◌≤◌, ◌<◌, Bool, true, false, not, ◌&&◌, ◌||◌,
  if◌then◌else◌, ltb, leb, ◌==◌, Option, none, some,
}
use robot_joint_stack.Prelude.Word.{u16, u32, sub32}

-- `rjs_can_timing_limits_t`.
pub record TimingLimits : Type 0 where
  pub prescaler_max : ℕ  -- uint32_t
  pub tseg1_max : ℕ  -- uint32_t
  pub tseg2_max : ℕ  -- uint32_t
  pub sjw_max : ℕ  -- uint32_t

-- `rjs_can_timing_t`.
pub record CanTiming : Type 0 where
  pub prescaler : ℕ  -- uint32_t
  pub tseg1 : ℕ  -- uint32_t
  pub tseg2 : ℕ  -- uint32_t
  pub sjw : ℕ  -- uint32_t
  pub sample_point_permille : ℕ  -- uint16_t

-- What the body of the loop does for one prescaler: `continue`, `break`, or `return true`.
pub data Trial : Type 0 where
  next_prescaler : Trial
  give_up : Trial
  found : CanTiming → Trial

-- The second segment, rounded to the nearest quantum and at least 1.
unfoldable pub tseg2_for : ℕ → ℕ → ℕ
tseg2_for total sample_point =
    let rounded = u32 ((total * (1000 - sample_point) + 500) / 1000) in
    if ltb rounded 1 then 1 else rounded

-- The segments for a number of quanta in a bit.
unfoldable pub try_quanta : ℕ → ℕ → TimingLimits → ℕ → Trial
try_quanta sample_point presc limits total =
    let tseg2 = tseg2_for total sample_point in
    let tseg1 = sub32 (sub32 total 1) tseg2 in
    if ltb total 4
    then give_up
    else if ltb tseg1 1 || (ltb limits.tseg1_max tseg1 || ltb limits.tseg2_max tseg2)
    then next_prescaler
    else found (record {
      prescaler = presc;
      tseg1 = tseg1;
      tseg2 = tseg2;
      sjw = if ltb tseg2 limits.sjw_max then tseg2 else limits.sjw_max;
      sample_point_permille = u16 (u32 (1000 * u32 (1 + tseg1)) / total);
    })

unfoldable pub try_prescaler : ℕ → ℕ → ℕ → TimingLimits → ℕ → Trial
unfolding try_quanta
try_prescaler clock_hz bitrate sample_point limits presc =
    let denom = presc * bitrate in
    if not (clock_hz % denom == 0)
    then next_prescaler
    else try_quanta sample_point presc limits (u32 (clock_hz / denom))

-- The loop from `presc` on, with `left` rounds to go.
search_loop : ℕ → ℕ → ℕ → TimingLimits → ℕ → ℕ → Option CanTiming
search_loop clock_hz bitrate sample_point limits zero presc = none
search_loop clock_hz bitrate sample_point limits (suc left) presc =
    let rest = search_loop clock_hz bitrate sample_point limits left (presc + 1) in
    elim (try_prescaler clock_hz bitrate sample_point limits presc) [
      | next_prescaler ↦ rest
      | give_up ↦ none
      | found t ↦ some t
    ]

written : CanTiming → Option CanTiming → Bool × Option CanTiming
written old none = (false, some old)
written old (some t) = (true, some t)

-- `limits` and `out` are pointers, `none` being NULL; the result is the return value and `*out`.
unfoldable pub can_calc_timing :
    ℕ → ℕ → ℕ → Option TimingLimits → Option CanTiming → Bool × Option CanTiming
unfolding search_loop written
can_calc_timing clock_hz bitrate sample_point none out = (false, out)
can_calc_timing clock_hz bitrate sample_point (some limits) none = (false, none)
can_calc_timing clock_hz bitrate sample_point (some limits) (some old) =
    if (bitrate == 0) || (ltb clock_hz bitrate || (ltb sample_point 500 || ltb 950 sample_point))
    then (false, some old)
    else written old (search_loop clock_hz bitrate sample_point limits limits.prescaler_max 1)
