-- ===== src/Tests/Transfer.antt =====
-- display_st7789.c: runs of a transfer by DMA.
use robot_joint_stack.Prelude.{◌≡◌, refl, Bool, true, false, Option, none, some}
use robot_joint_stack.Semaphore.{Semaphore}
use robot_joint_stack.Display.Transfer.{
  Transfer, free, waiting, timed_out, starts, ends, takes, times_out, aborts, Runs, created, moves,
  Runs-idle,
}

abbrev take_given : Bool → Option Bool
take_given true = some false
take_given false = none

take_given-given : (s k : Bool) → take_given s ≡ some k → (s ≡ true) × (k ≡ false)
take_given-given true k e = (refl, cc)
take_given-given false k e = absurd cc

take_given-none : (s : Bool) → take_given s ≡ none → s ≡ false
take_given-none true e = absurd cc
take_given-none false e = refl

-- A semaphore that is its state.
abbrev simple : Semaphore Bool
simple = record {
  is_given = λ s. s;
  take = take_given;
  give = λ s. true;
  take-is_given = take_given-given;
  take-is_given_none = take_given-none;
  give-is_given = λ s. refl;
}

abbrev idle : Transfer Bool
idle = record { phase = free; in_flight = false; done = false }

-- One transfer that completes, and one that times out.
two_transfers : Runs simple 0 idle
two_transfers =
    let sent =
      moves (moves (moves (created false refl) (starts false)) (ends waiting false))
        (takes false true false refl) in
    moves (moves (moves sent (starts false)) (times_out true false refl)) (aborts true false)

Runs-idle_example : (idle.in_flight ≡ false) × (idle.done ≡ false)
Runs-idle_example = Runs-idle simple two_transfers refl

-- An interrupt between the timeout and the abort leaves the semaphore given, and the next transfer
-- returns while the DMA reads.
unfinished : Runs simple 1 (record { phase = free; in_flight = true; done = false })
unfinished =
    let late =
      moves (moves (moves (created false refl) (starts false)) (times_out true false refl))
        (ends timed_out false) in
    moves (moves (moves late (aborts false true)) (starts true)) (takes true true false refl)
