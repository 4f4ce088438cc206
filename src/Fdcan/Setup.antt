-- ===== src/Fdcan/Setup.antt =====
-- boards/nucleo_h7s3l8/src/hal_can_fdcan.c: `rjs_can_init`. The answers of the vendor HAL are an
-- argument; what it is asked to do, with the settings that depend on the bus configuration, is a list.
use robot_joint_stack.Prelude.{
  ℕ, ◌*◌, Bool, true, false, not, if◌then◌else◌, Option, none, some, List, [], ◌∷◌,
}
use robot_joint_stack.Prelude.Word.{u32}
use robot_joint_stack.Hal.{CanConfig, CanResult, ok, err_param, err_hw}
use robot_joint_stack.CanTiming.{TimingLimits, CanTiming, can_calc_timing}

abbrev pub nominal_limits : TimingLimits
nominal_limits = record { prescaler_max = 512; tseg1_max = 256; tseg2_max = 128; sjw_max = 128 }

abbrev pub data_limits : TimingLimits
data_limits = record { prescaler_max = 32; tseg1_max = 32; tseg2_max = 16; sjw_max = 16 }

-- Which calls the HAL answers with HAL_OK, and the frequency that it gives for the clock.
pub record HalAnswers : Type 0 where
  pub clock_selected : Bool
  pub clock_hz : ℕ
  pub initialised : Bool
  pub filter_set : Bool
  pub delay_set : Bool
  pub delay_enabled : Bool
  pub interrupts_on : Bool
  pub started : Bool

-- The calls of the HAL.
pub data HalCall : Type 0 where
  select_clock : HalCall
  init_controller : CanTiming → CanTiming → HalCall
  accept_standard : HalCall
  set_delay : ℕ → HalCall
  enable_delay : HalCall
  enable_interrupts : HalCall
  start : HalCall

-- From `HAL_FDCAN_Init` on.
unfoldable pub set_up : HalAnswers → CanTiming → CanTiming → CanResult × List HalCall
set_up hal nt dt =
    let offset = u32 (dt.prescaler * dt.tseg1) in
    if not hal.initialised
    then (err_hw, select_clock ∷ init_controller nt dt ∷ [])
    else if not hal.filter_set
    then (err_hw, select_clock ∷ init_controller nt dt ∷ accept_standard ∷ [])
    else if not hal.delay_set
    then (err_hw, select_clock ∷ init_controller nt dt ∷ accept_standard ∷ set_delay offset ∷ [])
    else if not hal.delay_enabled
    then (
      err_hw,
      select_clock ∷ init_controller nt dt ∷ accept_standard ∷ set_delay offset ∷ enable_delay ∷ [],
    )
    else if not hal.interrupts_on
    then (
      err_hw,
      select_clock
          ∷ init_controller nt dt
          ∷ accept_standard
          ∷ set_delay offset
          ∷ enable_delay
          ∷ enable_interrupts
          ∷ [],
    )
    else (
      if hal.started then ok else err_hw,
      select_clock
          ∷ init_controller nt dt
          ∷ accept_standard
          ∷ set_delay offset
          ∷ enable_delay
          ∷ enable_interrupts
          ∷ start
          ∷ [],
    )

-- The results of the two searches.
unfoldable pub with_timings :
    HalAnswers → Bool × Option CanTiming → Bool × Option CanTiming → CanResult × List HalCall
unfolding set_up
with_timings hal (true, some nt) (true, some dt) = set_up hal nt dt
with_timings hal (true, some nt) (true, none) = (err_param, select_clock ∷ [])
with_timings hal (true, some nt) (false, d) = (err_param, select_clock ∷ [])
with_timings hal (true, none) d = (err_param, select_clock ∷ [])
with_timings hal (false, n) d = (err_param, select_clock ∷ [])

-- `rjs_can_init`: the configuration is a pointer; `has_callback` says whether the callback is not
-- NULL; `nt` and `dt` are the values of the two variables before the search.
unfoldable pub can_init :
    Option CanConfig → Bool → HalAnswers → CanTiming → CanTiming → CanResult × List HalCall
unfolding with_timings
can_init none has_callback hal nt dt = (err_param, [])
can_init (some cfg) has_callback hal nt dt =
    if not has_callback
    then (err_param, [])
    else if not hal.clock_selected
    then (err_hw, select_clock ∷ [])
    else with_timings hal
        (can_calc_timing hal.clock_hz cfg.nominal_bitrate 800 (some nominal_limits) (some nt))
        (can_calc_timing hal.clock_hz cfg.data_bitrate 800 (some data_limits) (some dt))
