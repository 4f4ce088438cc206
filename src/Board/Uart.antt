-- ===== src/Board/Uart.antt =====
-- boards/nucleo_h7s3l8/src/board.c: `board_uart_write`, a loop that polls. What the reads of the status
-- register answer is a function of their number, since the hardware is not in the repository.
use robot_joint_stack.Prelude.{
  ℕ, zero, suc, ◌+◌, ◌<◌, ◌≤◌, ◌≡◌, refl, ap, arith, Bool, true, false, if◌then◌else◌, Option, none,
  some, List, [], ◌∷◌, map, Bool-cases, inl, inr,
}
use mathlib.Core.Path.{subst}
use robot_joint_stack.Prelude.Word.{u8}

-- The inner loop, from read `k` on, for at most `fuel` reads: the number of the read that says that the
-- transmitter is free.
unfoldable pub wait_free : (ℕ → Bool) → ℕ → ℕ → Option ℕ
wait_free free zero k = none
wait_free free (suc fuel) k =
    let later = wait_free free fuel (k + 1) in if free k then some k else later

-- The bytes written to the transmit register, each with the number of the read before it, and the
-- number of reads; none when the loop has not ended.
abbrev pub Written : Type 0
Written = List (ℕ × ℕ) × Option ℕ

abbrev pub and_then : ℕ → ℕ → Written → Written
and_then i byte (ws, end) = ((i, byte) ∷ ws, end)

-- The write of a byte after the inner loop, and what comes next.
abbrev next_byte : ℕ → Option ℕ → (ℕ → Written) → Written
next_byte c none next = ([], none)
next_byte c (some i) next = and_then i (u8 c) (next i)

-- `board_uart_write`, with `fuel` reads for each byte.
unfoldable pub uart_write : (ℕ → Bool) → ℕ → List ℕ → ℕ → Written
unfolding wait_free
uart_write free fuel [] k = ([], some k)
uart_write free fuel (c ∷ bytes) k =
    next_byte c (wait_free free fuel k) (λ i. uart_write free fuel bytes (i + 1))

-- Within `n` reads from any on, the transmitter is free.
abbrev pub IsServed : (ℕ → Bool) → ℕ → Type 0
IsServed free n = (k : ℕ) → (i : ℕ) × (i < n) × (free (k + i) ≡ true)

-- Each byte is written after a read that says the transmitter is free, one read or more after the last byte.
abbrev pub IsPaced : (ℕ → Bool) → ℕ → List (ℕ × ℕ) → ℕ → Type 0
IsPaced free k [] end = k ≡ end
IsPaced free k ((i, byte) ∷ ws) end = (k ≤ i) × (free i ≡ true) × IsPaced free (i + 1) ws end

wait_free-free :
    (free : ℕ → Bool) (fuel k i : ℕ)
    → i < fuel
    → free (k + i) ≡ true
    → (j : ℕ) × (wait_free free fuel k ≡ some j) × (k ≤ j) × (free j ≡ true)
unfolding wait_free
wait_free-free free zero k i low at_i = absurd (omega arith)
wait_free-free free (suc fuel) k zero low at_i =
    let same : k + 0 ≡ k = omega arith in
    let now = subst (λ m. free m ≡ true) same at_i in (k, rw now refl, omega arith, now)
wait_free-free free (suc fuel) k (suc i) low at_i = elim (Bool-cases (free k)) [
  | inl now ↦ (k, rw now refl, omega arith, now)
  | inr not_now ↦
      let same : k + suc i ≡ k + 1 + i = omega arith in
      let (j, found, after, now) =
        wait_free-free free fuel (k + 1) i (omega arith) (subst (λ m. free m ≡ true) same at_i) in
      (j, rw not_now found, omega arith, now)
]

wait_free-never :
    (free : ℕ → Bool) (fuel k : ℕ) → ((i : ℕ) → free i ≡ false) → wait_free free fuel k ≡ none
unfolding wait_free
wait_free-never free zero k never = refl
wait_free-never free (suc fuel) k never = rw (never k) (wait_free-never free fuel (k + 1) never)

-- If within any `n` reads of the status register there is one that says that the transmitter is free,
-- `board_uart_write` returns, after at most `n` reads for each byte, and has written exactly the bytes
-- of the data in order, each just after a read that said so.
pub uart_write-writes :
    (free : ℕ → Bool) (n : ℕ) (bytes : List ℕ) (k : ℕ)
    → IsServed free n
    → let (ws, end) = uart_write free n bytes k in
      (map (λ w. w.1) ws ≡ map u8 bytes) × ((last : ℕ) × (end ≡ some last) × IsPaced free k ws last)
unfolding uart_write
uart_write-writes free n [] k served = (refl, (k, refl, refl))
uart_write-writes free n (c ∷ bytes) k served =
    let (i, low, at_i) = served k in
    let (j, found, after, now) = wait_free-free free n k i low at_i in
    let (same, (last, ended, paced)) = uart_write-writes free n bytes (j + 1) served in
    rw (uart_write, found) (ap (λ bs. u8 c ∷ bs) same, (last, ended, (after, now, paced)))

-- If the transmitter is never free, `board_uart_write` does not return and writes nothing, however long it
-- reads, unless there is nothing to write.
pub uart_write-blocks :
    (free : ℕ → Bool) (n c : ℕ) (bytes : List ℕ) (k : ℕ)
    → ((i : ℕ) → free i ≡ false)
    → uart_write free n (c ∷ bytes) k ≡ ([], none)
unfolding uart_write
uart_write-blocks free n c bytes k never = rw (uart_write, wait_free-never free n k never) refl
