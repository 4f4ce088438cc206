-- ===== src/CanTiming/Search.antt =====
-- The search finds the smallest prescaler that fits with its rounded split of a bit, and skips none.
use robot_joint_stack.Prelude.{
  ℕ, zero, suc, ◌+◌, ◌-◌, ◌*◌, ◌/◌, ◌%◌, ◌≤◌, ◌<◌, ◌≡◌, ◌≢◌, ◌⊎◌, refl, arith, Bool, true, false,
  ltb, ◌==◌, Option, none, some, inl, inr, sym, ==_iff, ◌||◌,
}
use native.Mathlib.Nat.{
  div-le_self, mul-pos, mul-div_cancel_left, mul-mod_right, mul-le-mul, mul-le-mul_left, le_refl,
  le-div_iff_mul-le,
}
use native.Mathlib.Decide.{ℕ_discrete}
use robot_joint_stack.CanTiming.{
  TimingLimits, CanTiming, Trial, next_prescaler, give_up, found, tseg2_for, try_quanta,
  try_prescaler, search_loop, written, can_calc_timing,
}
use mathlib.Core.Path.{subst}
use robot_joint_stack.CanTiming.Laws.{IsRequest, Splits, try_prescaler-found}

-- The quanta after the sample point, rounded to the nearest number (a half upwards), and at least 1.
abbrev pub IsRounded : ℕ → ℕ → ℕ → Type 0
IsRounded total sample_point tseg2 =
    (1 ≤ tseg2)
    × ((tseg2 ≡ 1) ⊎ (1000 * tseg2 ≤ total * (1000 - sample_point) + 500))
    × (total * (1000 - sample_point) + 500 < 1000 * tseg2 + 1000)

-- A prescaler that gives the exact bitrate with at least 4 quanta in a bit, and both segments within the
-- limits when the second one is the rounded one. No other split is considered.
abbrev pub Admits : ℕ → ℕ → ℕ → TimingLimits → ℕ → Type 0
Admits clock_hz bitrate sample_point limits presc =
    (total : ℕ) × (tseg1 : ℕ) × (tseg2 : ℕ) × (presc * bitrate * total ≡ clock_hz)
    × (4 ≤ total)
    × (1 + tseg1 + tseg2 ≡ total)
    × IsRounded total sample_point tseg2
    × (1 ≤ tseg1)
    × (tseg1 ≤ limits.tseg1_max)
    × (tseg2 ≤ limits.tseg2_max)

tseg2_for-IsRounded :
    (total sample_point tseg2 : ℕ)
    → total < 4294967296
    → 500 ≤ sample_point
    → sample_point ≤ 950
    → IsRounded total sample_point tseg2
    → tseg2_for total sample_point ≡ tseg2
unfolding tseg2_for
tseg2_for-IsRounded total sample_point tseg2 word low high h =
    let upper : total * (1000 - sample_point) ≤ total * 500 = mul-le-mul_left total (omega arith) in
    ground arith

module _ (clock_hz bitrate sample_point : ℕ) (limits : TimingLimits)
    (request : IsRequest clock_hz bitrate sample_point) where
  abbrev try : ℕ → Trial
  try presc = try_prescaler clock_hz bitrate sample_point limits presc

  abbrev Fits : ℕ → Type 0
  Fits presc = Admits clock_hz bitrate sample_point limits presc

  total_of :
      (presc total : ℕ)
      → 0 < presc
      → presc * bitrate * total ≡ clock_hz
      → (clock_hz / (presc * bitrate) ≡ total)
        × (clock_hz % (presc * bitrate) ≡ 0)
        × (total ≤ clock_hz)
  total_of presc total some_presc e =
      let denom : 0 < presc * bitrate = mul-pos some_presc request.1 in
      (
        rw (← e) (mul-div_cancel_left total denom),
        rw (← e) (mul-mod_right (presc * bitrate) total),
        rw (← e) (grind (arith, denom)),
      )

  -- A prescaler that fits with its rounded split is not skipped.
  Admits-next : (presc : ℕ) → 0 < presc → Fits presc → try presc ≢ next_prescaler
  unfolding try_prescaler try_quanta
  Admits-next presc some_presc
        (total, tseg1, tseg2, exact, enough, split, rounded, tseg1_low, tseg1_high, q_high)
        skipped =
      let of = total_of presc total some_presc exact in
      let word : total % 4294967296 ≡ total = omega (arith, request.0) in
      let divides : (clock_hz % (presc * bitrate) == 0) ≡ true = (==_iff _ _).1 of.1 in
      let second =
        tseg2_for-IsRounded total sample_point tseg2 (omega (arith, request.0)) request.3 request.4
          rounded in
      let skipped' = rw (divides, of.0, word, second) at skipped in ground arith

  -- Nothing fits from the prescaler on at which the search stops.
  give_up_last : (presc later : ℕ) → 0 < presc → presc ≤ later → try presc ≡ give_up → ¬ Fits later
  unfolding try_prescaler try_quanta
  give_up_last presc later some_presc after stop
        (total, tseg1, tseg2, exact, enough, split, rounded, low, high, q_high) =
      let denom : 0 < presc * bitrate = mul-pos some_presc request.1 in
      let four : presc * bitrate * 4 ≤ later * bitrate * total =
        mul-le-mul (mul-le-mul after (le_refl bitrate)) enough in
      let quanta : 4 ≤ clock_hz / (presc * bitrate) =
        (le-div_iff_mul-le denom).1 (omega (arith, exact)) in
      let small : clock_hz / (presc * bitrate) ≤ clock_hz =
        div-le_self clock_hz (presc * bitrate) in
      let word : clock_hz / (presc * bitrate) % 4294967296 ≡ clock_hz / (presc * bitrate) =
        omega (arith, request.0) in
      let stop' = rw word at stop in ground arith

  try_prescaler-of_found :
      (presc : ℕ) (t : CanTiming) → 0 < presc → try presc ≡ found t → t.prescaler ≡ presc
  try_prescaler-of_found presc t some_presc h =
      (try_prescaler-found clock_hz bitrate sample_point presc limits t request some_presc h).0

  -- What the loop returns, over the prescalers that are left.
  abbrev Returns : ℕ → ℕ → Option CanTiming → Type 0
  Returns left presc none = (p : ℕ) → presc ≤ p → p < presc + left → ¬ Fits p
  Returns left presc (some t) =
      (presc ≤ t.prescaler)
      × (t.prescaler < presc + left)
      × (try t.prescaler ≡ found t)
      × ((p : ℕ) → presc ≤ p → p < t.prescaler → ¬ Fits p)

  later-Returns :
      (left presc : ℕ) (r : Option CanTiming)
      → ¬ Fits presc
      → Returns left (presc + 1) r
      → Returns (suc left) presc r
  later-Returns left presc none here h = λ p low high fits. elim (ℕ_discrete p presc) [
    | yes same ↦ here (rw same at fits)
    | no other ↦ h p (omega arith) (omega arith) fits
  ]
  later-Returns left presc (some t) here h = (
    omega (arith, h.0),
    omega (arith, h.1),
    h.2,
    λ p low high fits. elim (ℕ_discrete p presc) [
      | yes same ↦ here (rw same at fits)
      | no other ↦ h.3 p (omega arith) high fits
    ],
  )

  search_loop-Returns :
      (left presc : ℕ)
      → 0 < presc
      → Returns left presc (search_loop clock_hz bitrate sample_point limits left presc)
  unfolding search_loop
  search_loop-Returns zero presc some_presc = λ p low high. absurd (omega arith)
  search_loop-Returns (suc left) presc some_presc =
      by_trial (try presc) refl (search_loop-Returns left (presc + 1) (omega arith))
    where
      by_trial :
          (trial : Trial)
          → try presc ≡ trial
          → Returns left
              (presc + 1)
              (search_loop clock_hz bitrate sample_point limits left (presc + 1))
          → Returns (suc left) presc (elim trial [
            | next_prescaler ↦ search_loop clock_hz bitrate sample_point limits left (presc + 1)
            | give_up ↦ none
            | found t ↦ some t
          ])
      by_trial next_prescaler e h =
          later-Returns left presc
            (search_loop clock_hz bitrate sample_point limits left (presc + 1))
            (λ fits. Admits-next presc some_presc fits e) h
      by_trial give_up e h = λ p low high. give_up_last presc p some_presc low e
      by_trial (found t) e h =
          let same = try_prescaler-of_found presc t some_presc e in
          (
            omega arith,
            omega arith,
            subst (λ p. try p ≡ found t) (sym same) e,
            λ p low high. absurd (omega arith),
          )

-- What a successful search has written: the smallest prescaler that fits with its rounded split, an exact division of the
-- clock, and segments within the limits.
abbrev pub IsBest : ℕ → ℕ → ℕ → TimingLimits → CanTiming → Type 0
IsBest clock_hz bitrate sample_point limits t =
    (1 ≤ t.prescaler)
    × (t.prescaler ≤ limits.prescaler_max)
    × (t.prescaler * bitrate * (clock_hz / (t.prescaler * bitrate)) ≡ clock_hz)
    × Splits (clock_hz / (t.prescaler * bitrate)) sample_point limits t
    × ¬ ((p : ℕ) × (1 ≤ p) × (p < t.prescaler) × Admits clock_hz bitrate sample_point limits p)

-- The report of a search: a timing, or that there is none.
abbrev pub Reports : ℕ → ℕ → ℕ → TimingLimits → CanTiming → Bool × Option CanTiming → Type 0
Reports clock_hz bitrate sample_point limits old r =
    ((r.0 ≡ true)
      × ((t : CanTiming) × (r.1 ≡ some t) × IsBest clock_hz bitrate sample_point limits t))
    ⊎ ((r.0 ≡ false)
        × (r.1 ≡ some old)
        × ¬ (
            (p : ℕ) × (1 ≤ p)
            × (p ≤ limits.prescaler_max)
            × Admits clock_hz bitrate sample_point limits p))

search-Reports :
    (clock_hz bitrate sample_point : ℕ) (limits : TimingLimits) (old : CanTiming)
    (request : IsRequest clock_hz bitrate sample_point) (r : Option CanTiming)
    → Returns clock_hz bitrate sample_point limits request limits.prescaler_max 1 r
    → Reports clock_hz bitrate sample_point limits old (written old r)
unfolding written
search-Reports clock_hz bitrate sample_point limits old request none h =
    inr (refl, refl, λ (p, low, high, fits). h p low (omega arith) fits)
search-Reports clock_hz bitrate sample_point limits old request (some t) h =
    let facts =
      try_prescaler-found clock_hz bitrate sample_point t.prescaler limits t request h.0 h.2 in
    inl (
      refl,
      (
        t,
        refl,
        (h.0, omega (arith, h.1), facts.1, facts.2, λ (p, low, high, fits). h.3 p low high fits),
      ),
    )

-- For a request in range (a bitrate above 0 and at most the 32-bit clock, a sample point from 50.0 %
-- to 95.0 %) and a prescaler limit below the largest uint32_t value, `rjs_can_calc_timing` either returns true and writes the timing with the smallest
-- prescaler that fits with its rounded split: the clock is exactly the prescaler times the bitrate times the quanta, the
-- quanta are the sync quantum and the two segments, all limits are kept, and the sample point is at
-- most 0.5 quanta late and 0.8 quanta early. Or it returns false and writes nothing, and no prescaler
-- within the limit gives the exact bitrate with at least 4 quanta and both segments within the limits when
-- the second one is the number of quanta after the sample point, rounded to the nearest and at least 1. Whether another
-- split would be within the limits is not said.
pub can_calc_timing-Reports :
    (clock_hz bitrate sample_point : ℕ) (limits : TimingLimits) (old : CanTiming)
    → IsRequest clock_hz bitrate sample_point
    → limits.prescaler_max < 4294967295
    → Reports clock_hz bitrate sample_point limits old
        (can_calc_timing clock_hz bitrate sample_point (some limits) (some old))
unfolding can_calc_timing
can_calc_timing-Reports clock_hz bitrate sample_point limits old request no_wrap = rw in_range (
    search-Reports clock_hz bitrate sample_point limits old request
      (search_loop clock_hz bitrate sample_point limits limits.prescaler_max 1)
      (search_loop-Returns clock_hz bitrate sample_point limits request limits.prescaler_max 1
        (omega arith)))
  where
    in_range :
        ((bitrate == 0) || (ltb clock_hz bitrate || (ltb sample_point 500 || ltb 950 sample_point)))
        ≡ false
    in_range = ground arith
