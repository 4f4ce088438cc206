-- ===== src/Log/Uart.antt =====
-- The log down to the wire: what the calls of `board_uart_write` by `log_task` put into the transmit register.
use mathlib.Core.List.{Sublistᴰ, map-append}
use mathlib.Core.Path.{subst}
use robot_joint_stack.Prelude.{
  ℕ, ◌+◌, ◌≡◌, refl, sym, ◌∙◌, Bool, none, some, List, [], ◌∷◌, ◌++◌, map, concat, length,
}
use robot_joint_stack.Prelude.Word.{u8, u32}
use robot_joint_stack.Queue.{Fifo}
use robot_joint_stack.Log.{LogLine, Logger}
use robot_joint_stack.Log.Order.{LogEvent, AreArrays, said, log_run, waiting, log_run-in_order}
use robot_joint_stack.Board.Uart.{Written, uart_write, IsServed, IsPaced, uart_write-writes}

-- What is written before what a later call writes, if the call returns.
abbrev followed : List (ℕ × ℕ) → Written → Written
followed ws (vs, end) = (ws ++ vs, end)

abbrev next_call : Written → (ℕ → Written) → Written
next_call (ws, none) next = (ws, none)
next_call (ws, some k) next = followed ws (next k)

-- The calls one after the other, from read `k` of the status register on.
unfoldable pub uart_calls : (ℕ → Bool) → ℕ → List (List ℕ) → ℕ → Written
uart_calls free n [] k = ([], some k)
uart_calls free n (bytes ∷ calls) k =
    next_call (uart_write free n bytes k) (λ i. uart_calls free n calls i)

IsPaced-append :
    (free : ℕ → Bool) (ws vs : List (ℕ × ℕ)) (k m e : ℕ)
    → IsPaced free k ws m
    → IsPaced free m vs e
    → IsPaced free k (ws ++ vs) e
IsPaced-append free [] vs k m e at_m paced = subst (λ i. IsPaced free i vs e) (sym at_m) paced
IsPaced-append free ((i, byte) ∷ ws) vs k m e (after, now, rest) paced =
    (after, now, IsPaced-append free ws vs (i + 1) m e rest paced)

-- What it means that calls have all returned, with these bytes written.
abbrev pub Sends : (ℕ → Bool) → ℕ → List ℕ → Written → Type 0
Sends free k bytes (ws, end) =
    (map (λ w. w.1) ws ≡ bytes) × ((last : ℕ) × (end ≡ some last) × IsPaced free k ws last)

next_call-Sends :
    (free : ℕ → Bool) (k : ℕ) (bytes more : List ℕ) (r : Written) (next : ℕ → Written)
    → Sends free k bytes r
    → ((i : ℕ) → Sends free i more (next i))
    → Sends free k (bytes ++ more) (next_call r next)
next_call-Sends free k bytes more (ws, none) next (same, (last, ended, paced)) sends = absurd cc
next_call-Sends free k bytes more (ws, some j) next (same, (last, ended, paced)) sends =
    let (later, (m, ends, spaced)) = sends j in
    let here : last ≡ j = cc in
    (
      map-append (λ w. w.1) ws (next j).0 ∙ cc (same, later),
      (
        m,
        ends,
        IsPaced-append free ws (next j).0 k j m (subst (IsPaced free k ws) here paced) spaced,
      ),
    )

uart_calls-Sends :
    (free : ℕ → Bool) (n : ℕ) (calls : List (List ℕ)) (k : ℕ)
    → IsServed free n
    → Sends free k (concat (map (map u8) calls)) (uart_calls free n calls k)
unfolding uart_calls
uart_calls-Sends free n [] k served = (refl, (k, refl, refl))
uart_calls-Sends free n (bytes ∷ calls) k served =
    next_call-Sends free k (map u8 bytes) (concat (map (map u8) calls)) (uart_write free n bytes k)
      (λ i. uart_calls free n calls i) (uart_write-writes free n bytes k served)
      (λ i. uart_calls-Sends free n calls i served)

-- From an empty queue of the log, over any sequence of messages and iterations of its task, and with a
-- UART whose transmitter is free at least once in any `n` reads of its status: every call of `board_uart_write` returns, and
-- the bytes put into the transmit register, each when the transmitter is free, are lines of messages in the
-- order of the calls of `rjs_log`; the messages whose lines are neither among them nor still in the queue
-- are counted as dropped, modulo 2 ^ 32.
pub log_run-Sends :
    {Q : Type 0} (fifo : Fifo Q LogLine) (g : Logger Q) (es : List LogEvent) (free : ℕ → Bool)
    (n first : ℕ)
    → waiting fifo g ≡ []
    → g.dropped ≡ 0
    → AreArrays es
    → IsServed free n
    → let (k, calls) = log_run fifo g es in
      Sends free first (concat (map (map u8) calls)) (uart_calls free n calls first)
      × Sublistᴰ (calls ++ waiting fifo k) (said es)
      × (u32 (length calls + length (waiting fifo k) + k.dropped) ≡ u32 (length (said es)))
log_run-Sends fifo g es free n first empty none_dropped ok served =
    let (kept, counted) = log_run-in_order fifo g es empty none_dropped ok in
    (uart_calls-Sends free n (log_run fifo g es).1 first served, kept, counted)
