-- ===== src/Board/Clock.antt =====
-- The frequencies that the PLLs of the chip make of the settings in board.c, M, N and P dividing and
-- multiplying the crystal's 24 MHz as the manual of the chip and the comment above `clock_config` say, and what
-- the CAN driver makes of the one it gets.
use robot_joint_stack.Prelude.{
  ℕ, ◌*◌, ◌/◌, ◌≡◌, ◌⊎◌, refl, sym, Bool, true, false, some, List, inl, inr,
}
use mathlib.Core.Path.{subst}
use robot_joint_stack.Hal.{CanResult, ok, err_hw}
use robot_joint_stack.CanTiming.{CanTiming, can_calc_timing, try_prescaler, tseg2_for}
use robot_joint_stack.Fdcan.Setup.{
  HalAnswers, HalCall, can_init, with_timings, set_up, nominal_limits, data_limits,
}
use robot_joint_stack.Fdcan.Start.{is_healthy, whole_set_up}
use robot_joint_stack.Board.Init.{Pll, pll1, pll2, dividers}
use robot_joint_stack.App.Start.{bus_config}

-- HSE, the crystal oscillator of the board.
abbrev pub hse_hz : ℕ
hse_hz = 24000000

-- The output P of a PLL.
unfoldable pub pll_hz : Pll → ℕ
pll_hz p = hse_hz / p.pll_m * p.pll_n / p.pll_p

unfoldable pub cpu_hz : ℕ
unfolding pll_hz
cpu_hz = pll_hz pll1 / dividers.sysclk

-- The clock of the FDCAN peripheral.
unfoldable pub fdcan_hz : ℕ
unfolding pll_hz
fdcan_hz = pll_hz pll2

-- `board_cycles_per_us`, from `SystemCoreClock`.
unfoldable pub cycles_per_us : ℕ → ℕ
cycles_per_us core_hz = core_hz / 1000000

abbrev pub nominal_timing : CanTiming
nominal_timing = record {
  prescaler = 1;
  tseg1 = 159;
  tseg2 = 40;
  sjw = 40;
  sample_point_permille = 800;
}

abbrev pub data_timing : CanTiming
data_timing = record { prescaler = 4; tseg1 = 19; tseg2 = 5; sjw = 5; sample_point_permille = 800 }

nominal_timing-can_calc_timing :
    (old : CanTiming)
    → can_calc_timing 200000000 1000000 800 (some nominal_limits) (some old)
      ≡ (true, some nominal_timing)
unfolding can_calc_timing try_prescaler tseg2_for
nominal_timing-can_calc_timing old = refl

data_timing-can_calc_timing :
    (old : CanTiming)
    → can_calc_timing 200000000 2000000 800 (some data_limits) (some old) ≡ (true, some data_timing)
unfolding can_calc_timing try_prescaler tseg2_for
data_timing-can_calc_timing old = refl

-- What the start of the CAN driver comes to on this board.
abbrev pub Brings : HalAnswers → CanResult × List HalCall → Type 0
Brings hal r =
    ((r ≡ (ok, whole_set_up nominal_timing data_timing)) × (is_healthy hal ≡ true))
    ⊎ ((r.0 ≡ err_hw) × (is_healthy hal ≡ false))

abbrev hal_at : ℕ → Bool → Bool → Bool → Bool → Bool → Bool → Bool → HalAnswers
hal_at hz c i f d e n s = record {
  clock_selected = c;
  clock_hz = hz;
  initialised = i;
  filter_set = f;
  delay_set = d;
  delay_enabled = e;
  interrupts_on = n;
  started = s;
}

set_up-Brings :
    (hz : ℕ) (i f d e n s : Bool)
    → Brings
        (hal_at hz true i f d e n s)
        (set_up (hal_at hz true i f d e n s) nominal_timing data_timing)
unfolding set_up
set_up-Brings hz false f d e n s = inr (refl, refl)
set_up-Brings hz true false d e n s = inr (refl, refl)
set_up-Brings hz true true false e n s = inr (refl, refl)
set_up-Brings hz true true true false n s = inr (refl, refl)
set_up-Brings hz true true true true false s = inr (refl, refl)
set_up-Brings hz true true true true true false = inr (refl, refl)
set_up-Brings hz true true true true true true = inl (refl, refl)

can_init-Brings_cases :
    (c i f d e n s : Bool) (nt dt : CanTiming)
    → let hal = hal_at fdcan_hz c i f d e n s in
      Brings hal (can_init (some bus_config) true hal nt dt)
unfolding can_init fdcan_hz with_timings
can_init-Brings_cases false i f d e n s nt dt = inr (refl, refl)
can_init-Brings_cases true i f d e n s nt dt =
    rw (nominal_timing-can_calc_timing nt, data_timing-can_calc_timing dt)
      (set_up-Brings 200000000 i f d e n s)

-- With the clock that the board's PLL gives it, `rjs_can_init` finds the timings of both bitrates of the bus: 200
-- quanta of one clock cycle for 1 Mbit/s and 25 quanta of four for 2 Mbit/s, both sampled at 80.0 %. It
-- returns OK when every call of the HAL whose result it looks at succeeds, and else a hardware error, never a parameter error.
pub can_init-Brings :
    (hal : HalAnswers) (nt dt : CanTiming)
    → hal.clock_hz ≡ fdcan_hz
    → Brings hal (can_init (some bus_config) true hal nt dt)
can_init-Brings hal nt dt clock =
    subst
      (λ hz.
        let h = record hal { clock_hz = hz } in Brings h (can_init (some bus_config) true h nt dt))
      (sym clock)
      (can_init-Brings_cases hal.clock_selected hal.initialised hal.filter_set hal.delay_set
        hal.delay_enabled hal.interrupts_on hal.started nt dt)
