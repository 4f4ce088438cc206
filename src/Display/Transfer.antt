-- ===== src/Display/Transfer.antt =====
-- boards/nucleo_h7s3l8/src/display_st7789.c: a transfer by DMA, step by step, with the interrupts that end it.
use robot_joint_stack.Prelude.{
  ℕ, ◌+◌, ◌≡◌, ◌⊎◌, inl, inr, refl, arith, Bool, true, false, if◌then◌else◌, none, some, not,
}
use mathlib.Core.Path.{subst}
use robot_joint_stack.Semaphore.{Semaphore}

-- Where `spi_write_dma` stands: not called, at `xSemaphoreTake`, or after its timeout and before
-- `HAL_SPI_Abort`.
pub data Phase : Type 0 where
  free waiting timed_out : Phase

-- The phase, whether the DMA is reading `s_chunk`, and `s_done`.
pub record Transfer (S : Type 0) : Type 0 where
  pub phase : Phase
  pub in_flight : Bool
  pub done : S

-- An interrupt that comes after the timeout counts as late.
abbrev pub lateness : Phase → ℕ
lateness free = 0
lateness waiting = 0
lateness timed_out = 1

module _ {S : Type 0} (semaphore : Semaphore S) where
  open semaphore use {is_given, take, give, take-is_given, take-is_given_none, give-is_given}

  -- `HAL_SPI_TxCpltCallback` and `HAL_SPI_ErrorCallback`, which do the same.
  abbrev pub spi_callback : Bool → S → S
  spi_callback is_display s = if not is_display then s else give s

  -- A step, with its number of late interrupts and failed aborts. The result of `HAL_SPI_Abort` is not looked at. The HAL refuses a transfer while one is in flight.
  pub data Move : Transfer S → ℕ → Transfer S → Type 0 where
    starts :
        (s : S)
        → Move
            (record { phase = free; in_flight = false; done = s })
            0
            (record { phase = waiting; in_flight = true; done = s })
    refuses : (t : Transfer S) → t.phase ≡ free → Move t 0 t
    ends :
        (p : Phase) (s : S)
        → Move
            (record { phase = p; in_flight = true; done = s })
            (lateness p)
            (record { phase = p; in_flight = false; done = spi_callback true s })
    takes :
        (b : Bool) (s k : S)
        → take s ≡ some k
        → Move
            (record { phase = waiting; in_flight = b; done = s })
            0
            (record { phase = free; in_flight = b; done = k })
    times_out :
        (b : Bool) (s : S)
        → take s ≡ none
        → Move
            (record { phase = waiting; in_flight = b; done = s })
            0
            (record { phase = timed_out; in_flight = b; done = s })
    abort_fails :
        (b : Bool) (s : S)
        → Move
            (record { phase = timed_out; in_flight = b; done = s })
            1
            (record { phase = free; in_flight = b; done = s })
    aborts :
        (b : Bool) (s : S)
        → Move
            (record { phase = timed_out; in_flight = b; done = s })
            0
            (record { phase = free; in_flight = false; done = s })

  -- What is reached from the start, with the number of late interrupts and failed aborts; the semaphore is created empty.
  pub data Runs : ℕ → Transfer S → Type 0 where
    created :
        (s : S) → is_given s ≡ false → Runs 0 (record { phase = free; in_flight = false; done = s })
    moves : {a b : ℕ} {t u : Transfer S} → Runs a t → Move t b u → Runs (a + b) u

  -- Who is to be waited for.
  abbrev Fits : Phase → Bool → Bool → Type 0
  Fits free flight given = (flight ≡ false) × (given ≡ false)
  Fits waiting flight given =
      ((flight ≡ true) × (given ≡ false)) ⊎ ((flight ≡ false) × (given ≡ true))
  Fits timed_out flight given = (flight ≡ true) × (given ≡ false)

  abbrev IsPaired : Transfer S → Type 0
  IsPaired t = Fits t.phase t.in_flight (is_given t.done)

  Move-IsPaired : {b : ℕ} {t u : Transfer S} → Move t b u → b ≡ 0 → IsPaired t → IsPaired u
  Move-IsPaired (starts s) z (idle, empty) = inl (refl, empty)
  Move-IsPaired (refuses t e) z h = h
  Move-IsPaired (ends free s) z (idle, empty) = absurd cc
  Move-IsPaired (ends waiting s) z h = inr (refl, give-is_given s)
  Move-IsPaired (ends timed_out s) z h = absurd (omega arith)
  Move-IsPaired (takes b s k e) z (inl (flight, empty)) =
      let facts = take-is_given s k e in absurd cc
  Move-IsPaired (takes b s k e) z (inr (idle, given)) = (idle, (take-is_given s k e).1)
  Move-IsPaired (times_out b s e) z (inl h) = h
  Move-IsPaired (times_out b s e) z (inr (idle, given)) =
      let empty = take-is_given_none s e in absurd cc
  Move-IsPaired (abort_fails b s) z h = absurd (omega arith)
  Move-IsPaired (aborts b s) z (flight, empty) = (refl, empty)

  Runs-IsPaired : {n : ℕ} {t : Transfer S} → Runs n t → n ≡ 0 → IsPaired t
  Runs-IsPaired (created s empty) z = (refl, empty)
  Runs-IsPaired (moves r m) z = Move-IsPaired m (omega arith) (Runs-IsPaired r (omega arith))

  -- As long as no interrupt falls between the timeout of a transfer and its abort, and no abort fails, `spi_write_dma` never
  -- returns while the DMA still reads the buffer, and leaves the semaphore empty: so the next chunk
  -- is never written over one that is being sent, whether the transfers complete, fail, are refused or time out.
  pub Runs-idle :
      {t : Transfer S}
      → Runs 0 t
      → t.phase ≡ free
      → (t.in_flight ≡ false) × (is_given t.done ≡ false)
  Runs-idle {t} r e = subst (λ p. Fits p t.in_flight (is_given t.done)) e (Runs-IsPaired r refl)
