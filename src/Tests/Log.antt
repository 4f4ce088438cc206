-- ===== src/Tests/Log.antt =====
-- log.c on a queue of 16 lines and concrete messages.
use mathlib.Core.List.{Sublistᴰ}
use robot_joint_stack.Prelude.{
  ℕ, ◌+◌, ◌%◌, ◌≡◌, arith, Bool, ◌==◌, Bool-cases, inl, inr, concat, map, refl, none, some, List,
  [], ◌∷◌, ◌++◌, length, replicate,
}
use robot_joint_stack.Prelude.Word.{u8, u32}
use robot_joint_stack.Log.{LogLine, Logger, finished_line, line_bytes}
use robot_joint_stack.Queue.{Fifo}
use robot_joint_stack.Tests.Queue.{bounded}
use robot_joint_stack.Log.Lines.{message_bytes, line_bytes-finished_line}
use robot_joint_stack.Board.Uart.{IsServed}
use robot_joint_stack.Log.Uart.{Sends, uart_calls, log_run-Sends}
use robot_joint_stack.Log.Order.{LogEvent, message, task_turn, said, log_run, waiting}

abbrev array : LogLine
array = replicate 120 0xcc

abbrev fault_text : List ℕ
fault_text = 70 ∷ 65 ∷ 85 ∷ 76 ∷ 84 ∷ []

line_bytes-finished_line_example :
    line_bytes (finished_line array fault_text) ≡ message_bytes fault_text
line_bytes-finished_line_example = line_bytes-finished_line array fault_text refl

abbrev sixteen : Fifo (List LogLine) LogLine
sixteen = bounded 16

abbrev empty_log : Logger (List LogLine)
empty_log = record { queue = some []; dropped = 0 }

-- Two messages, one that cannot be formatted, and the task in between.
abbrev events : List LogEvent
events =
    message array (some fault_text)
    ∷ task_turn
    ∷ message array none
    ∷ message array (some fault_text)
    ∷ task_turn
    ∷ task_turn
    ∷ []

-- Every second read finds the transmitter free.
abbrev served : ℕ → Bool
served k = k % 2 == 1

served-IsServed : IsServed served 2
served-IsServed k = elim (Bool-cases (k % 2 == 1)) [
  | inl odd ↦ (0, omega arith, ground (arith, odd))
  | inr even ↦ (1, omega arith, ground (arith, even))
]

log_run-Sends_example :
    let (k, calls) = log_run sixteen empty_log events in
    Sends served 0 (concat (map (map u8) calls)) (uart_calls served 2 calls 0)
    × Sublistᴰ (calls ++ waiting sixteen k) (said events)
    × (u32 (length calls + length (waiting sixteen k) + k.dropped) ≡ u32 (length (said events)))
log_run-Sends_example =
    log_run-Sends sixteen empty_log events served 2 0 refl refl (refl, (refl, (refl, tt)))
      served-IsServed
