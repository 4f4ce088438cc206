-- ===== src/Tests/Fdcan.antt =====
-- hal_can_fdcan.c on a concrete frame.
use robot_joint_stack.Prelude.{ℕ, ◌≡◌, refl, arith, true, some}
use robot_joint_stack.CanTiming.{CanTiming, can_calc_timing, try_prescaler, tseg2_for}
use robot_joint_stack.Fdcan.Setup.{HalAnswers, can_init}
use robot_joint_stack.Fdcan.Start.{StartsUp, can_init-StartsUp}
use robot_joint_stack.Hal.{CanConfig, CanFrame, zero_frame, ok}
use robot_joint_stack.Fdcan.{Driver}

abbrev idle : Driver
idle = record { tx_dropped = 0; rx_overrun = 0; bus_off_count = 0 }

abbrev beat_frame : CanFrame
beat_frame = record zero_frame { id = 0x385; len = 12; fd = true; brs = true }

abbrev three_free : ℕ
three_free = 3

-- The application's bitrates on a clock of 80 MHz, with a HAL that accepts everything.
abbrev app_bitrates : CanConfig
app_bitrates = record { nominal_bitrate = 1000000; data_bitrate = 2000000 }

abbrev healthy : HalAnswers
healthy = record {
  clock_selected = true;
  clock_hz = 80000000;
  initialised = true;
  filter_set = true;
  delay_set = true;
  delay_enabled = true;
  interrupts_on = true;
  started = true;
}

abbrev unset : CanTiming
unset = record { prescaler = 0; tseg1 = 0; tseg2 = 0; sjw = 0; sample_point_permille = 0 }

can_init-StartsUp_example :
    StartsUp healthy app_bitrates (can_init (some app_bitrates) true healthy unset unset)
can_init-StartsUp_example =
    can_init-StartsUp app_bitrates healthy unset unset
      (omega arith, omega arith, omega arith, omega arith, omega arith)
      (omega arith, omega arith, omega arith, omega arith, omega arith)

starts : (can_init (some app_bitrates) true healthy unset unset).0 ≡ ok
unfolding can_init can_calc_timing try_prescaler tseg2_for
starts = refl
