-- ===== src/Log.antt =====
-- app/joint_node/log.h and log.c: the log. A line is the array of 120 bytes; the queue of FreeRTOS
-- is any that keeps the interface; what `vsnprintf` makes of the format is an argument.
pub mod Lines
pub mod Order
pub mod Uart
use robot_joint_stack.Prelude.{
  ℕ, zero, suc, ◌+◌, ◌<◌, ◌≡◌, Bool, true, false, if◌then◌else◌, ltb, Option, none, some, List, [],
  ◌∷◌, ◌++◌, take, drop, set, length,
}
use robot_joint_stack.Prelude.Word.{u32}
use robot_joint_stack.Queue.{Fifo}

abbrev pub log_line_max : ℕ
log_line_max = 120

-- `log_line_t`, its array as a list.
abbrev pub LogLine : Type 0
LogLine = List ℕ

-- The number of bytes before the first NUL, at most `max`.
unfoldable pub bounded_len : LogLine → ℕ → ℕ
bounded_len s zero = 0
bounded_len [] (suc max) = 0
bounded_len (zero ∷ s) (suc max) = 0
bounded_len (suc c ∷ s) (suc max) = suc (bounded_len s max)

-- What `vsnprintf` writes over an array: at most `size` - 1 bytes of the text, and a NUL.
abbrev pub print_into : LogLine → ℕ → List ℕ → LogLine
print_into old size text =
    let printed = take size text in printed ++ (0 ∷ drop (length printed + 1) old)

-- The end that `rjs_log` gives a line.
unfoldable pub end_line : LogLine → ℕ → LogLine
end_line line len =
    let ended = set (set line len 13) (len + 1) 10 in
    if ltb (len + 2) log_line_max then set ended (len + 2) 0 else ended

-- The line of `rjs_log`, from the array as it was and the text.
unfoldable pub finished_line : LogLine → List ℕ → LogLine
unfolding bounded_len end_line
finished_line old text = let line = print_into old 117 text in end_line line (bounded_len line 118)

-- What `log_task` hands to `board_uart_write`.
unfoldable pub line_bytes : LogLine → List ℕ
unfolding bounded_len
line_bytes l = take (bounded_len l log_line_max) l

-- `s_queue`, none being NULL, and `s_dropped`.
pub record Logger (Q : Type 0) : Type 0 where
  pub queue : Option Q
  pub dropped : ℕ  -- uint32_t

module _ {Q : Type 0} (fifo : Fifo Q LogLine) where
  open fifo use {send, receive}

  abbrev drop_line : Logger Q → Logger Q
  drop_line g = record g { dropped = u32 (g.dropped + 1) }

  -- The line goes to the queue, or is counted as dropped.
  abbrev pub offer : Logger Q → Option Q → Logger Q
  offer g none = drop_line g
  offer g (some k) = record g { queue = some k }

  abbrev pub send_to : Option Q → LogLine → Option Q
  send_to none l = none
  send_to (some q) l = send q l

  -- `rjs_log`: the array on the stack as it was, and the text, none for an error of `vsnprintf`.
  unfoldable pub log_message : Logger Q → LogLine → Option (List ℕ) → Logger Q
  unfolding finished_line
  log_message g old none = g
  log_message g old (some text) = offer g (send_to g.queue (finished_line old text))

  -- What an iteration of `log_task` does with what it receives.
  unfoldable pub written_out : Logger Q → Option (LogLine × Q) → Logger Q × List (List ℕ)
  unfolding line_bytes
  written_out g none = (g, [])
  written_out g (some (l, k)) = (record g { queue = some k }, line_bytes l ∷ [])

  -- An iteration of `log_task`: the calls of `board_uart_write`.
  unfoldable pub log_task_iteration : Logger Q → Q → Logger Q × List (List ℕ)
  unfolding written_out
  log_task_iteration g q = written_out g (receive q)

-- `rjs_log_dropped`.
abbrev pub log_dropped : {Q : Type 0} → Logger Q → ℕ
log_dropped g = g.dropped
