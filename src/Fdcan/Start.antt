-- ===== src/Fdcan/Start.antt =====
-- boards/nucleo_h7s3l8/src/hal_can_fdcan.c: what the start of the controller comes to.
use robot_joint_stack.Prelude.{
  ℕ, ◌*◌, ◌≤◌, ◌<◌, ◌≡◌, ◌⊎◌, inl, inr, refl, arith, ap, sym, Bool, true, false, not, ◌&&◌,
  if◌then◌else◌, Option, some, List, [], ◌∷◌, Bool-cases,
}
use mathlib.Core.Path.{subst}
use native.Mathlib.Nat.{mul-le-mul}
use robot_joint_stack.Prelude.Word.{u32}
use robot_joint_stack.Hal.{CanConfig, CanResult, ok, err_param, err_hw}
use robot_joint_stack.CanTiming.{TimingLimits, CanTiming, can_calc_timing}
use robot_joint_stack.CanTiming.Laws.{IsRequest}
use robot_joint_stack.CanTiming.Search.{IsBest, Reports, Admits, can_calc_timing-Reports}
use robot_joint_stack.Fdcan.Setup.{
  nominal_limits, data_limits, HalAnswers, HalCall, select_clock, init_controller, accept_standard,
  set_delay, enable_delay, enable_interrupts, start, set_up, with_timings, can_init,
}

-- Every call that the HAL can refuse succeeds.
abbrev pub is_healthy : HalAnswers → Bool
is_healthy hal =
    hal.clock_selected
    && (hal.initialised
        && (hal.filter_set
            && (hal.delay_set && (hal.delay_enabled && (hal.interrupts_on && hal.started)))))

-- No prescaler gives the bitrate exactly with its rounded split of the bit within the limits.
abbrev pub NoTiming : ℕ → ℕ → TimingLimits → Type 0
NoTiming clock_hz bitrate limits =
    ¬ ((p : ℕ) × (1 ≤ p) × (p ≤ limits.prescaler_max) × Admits clock_hz bitrate 800 limits p)

-- The whole set-up with two timings.
abbrev pub whole_set_up : CanTiming → CanTiming → List HalCall
whole_set_up nt dt =
    select_clock
    ∷ init_controller nt dt
    ∷ accept_standard
    ∷ set_delay (dt.prescaler * dt.tseg1)
    ∷ enable_delay
    ∷ enable_interrupts
    ∷ start
    ∷ []

-- What a start of the controller comes to.
abbrev pub StartsUp : HalAnswers → CanConfig → CanResult × List HalCall → Type 0
StartsUp hal cfg (r, calls) =
    ((r ≡ ok)
      × (is_healthy hal ≡ true)
      × ((nt : CanTiming) × (dt : CanTiming) × IsBest hal.clock_hz cfg.nominal_bitrate 800
            nominal_limits nt
          × IsBest hal.clock_hz cfg.data_bitrate 800 data_limits dt
          × (calls ≡ whole_set_up nt dt)))
    ⊎ (((r ≡ err_hw) × (is_healthy hal ≡ false))
        ⊎ ((r ≡ err_param)
            × (NoTiming hal.clock_hz cfg.nominal_bitrate nominal_limits
                ⊎ NoTiming hal.clock_hz cfg.data_bitrate data_limits)))

set_up-cases :
    (hal : HalAnswers) (nt dt : CanTiming)
    → dt.prescaler * dt.tseg1 < 4294967296
    → hal.clock_selected ≡ true
    → (((set_up hal nt dt).0 ≡ ok)
        × (is_healthy hal ≡ true)
        × ((set_up hal nt dt).1 ≡ whole_set_up nt dt))
      ⊎ (((set_up hal nt dt).0 ≡ err_hw) × (is_healthy hal ≡ false))
unfolding set_up
set_up-cases hal nt dt small selected =
    let offset : u32 (dt.prescaler * dt.tseg1) ≡ dt.prescaler * dt.tseg1 = omega arith in
    ground arith

-- The delay of the compensation is a product of two values of at most 32.
small_offset :
    (clock_hz bitrate : ℕ) (dt : CanTiming)
    → IsBest clock_hz bitrate 800 data_limits dt
    → dt.prescaler * dt.tseg1 < 4294967296
small_offset clock_hz bitrate dt (low, high, exact, splits, least) =
    let product : dt.prescaler * dt.tseg1 ≤ 32 * 32 = mul-le-mul high splits.tseg1_high in
    omega arith

with_timings-StartsUp :
    (hal : HalAnswers) (cfg : CanConfig) (n d : Bool × Option CanTiming) (nt dt : CanTiming)
    → hal.clock_selected ≡ true
    → Reports hal.clock_hz cfg.nominal_bitrate 800 nominal_limits nt n
    → Reports hal.clock_hz cfg.data_bitrate 800 data_limits dt d
    → StartsUp hal cfg (with_timings hal n d)
unfolding with_timings
with_timings-StartsUp hal cfg (a, n) (b, d) nt dt selected (inr (e, kept, no_timing)) g =
    rw e (inr (inr (refl, inl no_timing)))
with_timings-StartsUp hal cfg (a, n) (b, d) nt dt selected (inl (e, (t, f, best)))
      (inr (e', kept, no_timing)) =
    rw (e, f, e') (inr (inr (refl, inr no_timing)))
with_timings-StartsUp hal cfg (a, n) (b, d) nt dt selected (inl (e, (t, f, best)))
      (inl (e', (u, f', best'))) =
    rw (e, f, e', f')
      (elim (set_up-cases hal t u (small_offset hal.clock_hz cfg.data_bitrate u best') selected) [
        | inl (started, healthy, calls) ↦ inl (started, healthy, (t, u, best, best', calls))
        | inr failed ↦ inr (inl failed)
      ])

can_init-clock :
    (cfg : CanConfig) (hal : HalAnswers) (nt dt : CanTiming) (selected : Bool)
    → hal.clock_selected ≡ selected
    → can_init (some cfg) true hal nt dt ≡ (
        if not selected
        then (err_hw, select_clock ∷ [])
        else with_timings hal
            (can_calc_timing hal.clock_hz cfg.nominal_bitrate 800 (some nominal_limits) (some nt))
            (can_calc_timing hal.clock_hz cfg.data_bitrate 800 (some data_limits) (some dt)))
unfolding can_init
can_init-clock cfg hal nt dt selected e =
    ap
      (λ b.
        if not b
        then (err_hw, select_clock ∷ [])
        else with_timings hal
            (can_calc_timing hal.clock_hz cfg.nominal_bitrate 800 (some nominal_limits) (some nt))
            (can_calc_timing hal.clock_hz cfg.data_bitrate 800 (some data_limits) (some dt)))
      e

-- For a configuration and a callback that are not NULL, and a 32-bit clock that is not below either of the
-- two bitrates, neither of them 0: `rjs_can_init` returns OK, and all calls of the HAL whose results it looks
-- at have been made in order and have succeeded, with the smallest prescalers that are exact for the two
-- bitrates and whose split at 80.0 %, rounded to whole quanta, is within the controller's limits, and a
-- delay compensation that no cast cuts; or it returns a hardware error, and some such call fails; or it
-- returns a parameter error, and no prescaler is exact for one of the bitrates with its rounded split
-- within the limits.
pub can_init-StartsUp :
    (cfg : CanConfig) (hal : HalAnswers) (nt dt : CanTiming)
    → IsRequest hal.clock_hz cfg.nominal_bitrate 800
    → IsRequest hal.clock_hz cfg.data_bitrate 800
    → StartsUp hal cfg (can_init (some cfg) true hal nt dt)
can_init-StartsUp cfg hal nt dt in_nominal in_data = elim (Bool-cases hal.clock_selected) [
  | inl selected ↦ subst (StartsUp hal cfg) (sym (can_init-clock cfg hal nt dt true selected)) (
      with_timings-StartsUp hal cfg
        (can_calc_timing hal.clock_hz cfg.nominal_bitrate 800 (some nominal_limits) (some nt))
        (can_calc_timing hal.clock_hz cfg.data_bitrate 800 (some data_limits) (some dt)) nt dt
        selected
        (can_calc_timing-Reports hal.clock_hz cfg.nominal_bitrate 800 nominal_limits nt in_nominal
          (omega arith))
        (can_calc_timing-Reports hal.clock_hz cfg.data_bitrate 800 data_limits dt in_data
          (omega arith)))
  | inr not_selected ↦
      subst (StartsUp hal cfg) (sym (can_init-clock cfg hal nt dt false not_selected))
        (inr (inl (refl, ground arith)))
]
