-- ===== src/Tests/CanTiming.antt =====
-- can_timing.c on concrete requests.
use robot_joint_stack.Prelude.{◌≡◌, refl, arith, true, false, some}
use robot_joint_stack.CanTiming.{TimingLimits, CanTiming, can_calc_timing, try_prescaler, tseg2_for}
use robot_joint_stack.CanTiming.Search.{Reports, can_calc_timing-Reports}

-- The nominal limits of an FDCAN, less a prescaler limit of 16 in place of 512.
abbrev limits : TimingLimits
limits = record { prescaler_max = 16; tseg1_max = 256; tseg2_max = 128; sjw_max = 128 }

abbrev blank : CanTiming
blank = record { prescaler = 0; tseg1 = 0; tseg2 = 0; sjw = 0; sample_point_permille = 0 }

can_calc_timing-Reports_example :
    Reports 48000000 500000 875 limits blank
      (can_calc_timing 48000000 500000 875 (some limits) (some blank))
can_calc_timing-Reports_example =
    can_calc_timing-Reports 48000000 500000 875 limits blank
      (omega arith, omega arith, omega arith, omega arith, omega arith) (omega arith)

found_500k : can_calc_timing 48000000 500000 875 (some limits) (some blank) ≡ (
  true,
  some (record { prescaler = 1; tseg1 = 83; tseg2 = 12; sjw = 12; sample_point_permille = 875 }),
)
unfolding can_calc_timing try_prescaler tseg2_for
found_500k = refl

-- 47 quanta split as 1 + 32 + 14 would be within these limits, but the rounded split is 1 + 37 + 9.
abbrev narrow : TimingLimits
narrow = record { prescaler_max = 32; tseg1_max = 32; tseg2_max = 16; sjw_max = 16 }

not_found_47 : can_calc_timing 47000000 1000000 800 (some narrow) (some blank) ≡ (false, some blank)
unfolding can_calc_timing try_prescaler tseg2_for
not_found_47 = refl
