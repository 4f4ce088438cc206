-- ===== src/Tests/Send.antt =====
-- app.c: `can_send` by two tasks, on concrete interleavings.
use robot_joint_stack.Prelude.{◌+◌, arith, ◌≤◌, ◌≡◌, refl, true, false, Option, none, some, [], ◌∷◌}
use robot_joint_stack.Prelude.Word.{u32}
use robot_joint_stack.Hal.{CanResult, zero_frame}
use robot_joint_stack.Mutex.{Mutex}
use robot_joint_stack.App.Send.{
  Caller, control, comms, outside, inside, waiting, counting, Line, call, take, send, give, read,
  write, Senders, begin, control_moves, comms_moves,
}
use robot_joint_stack.App.Send.Exclusion.{IsInside, Senders-exclude}
use robot_joint_stack.App.Send.Progress.{Proceeds, Senders-Proceeds}
use robot_joint_stack.App.{AppStats}
use robot_joint_stack.App.Send.Alone.{Alone, start, moves, successes, errors, Alone-counts}
use robot_joint_stack.App.Send.Count.{count_answers, Senders-count}

abbrev take_if_free : Option Caller → Caller → Option (Option Caller)
take_if_free none t = some (some t)
take_if_free (some u) t = none

take_if_free-taker :
    (m k : Option Caller) (t : Caller) → take_if_free m t ≡ some k → (m ≡ none) × (k ≡ some t)
take_if_free-taker none k t e = (refl, cc)
take_if_free-taker (some u) k t e = absurd cc

take_if_free-free :
    (m : Option Caller) (t : Caller) → m ≡ none → (k : Option Caller) × (take_if_free m t ≡ some k)
take_if_free-free none t e = (some t, refl)
take_if_free-free (some u) t e = absurd cc

-- A mutex that is its holder.
abbrev simple : Mutex (Option Caller) Caller
simple = record {
  holder = λ m. m;
  take = take_if_free;
  give = λ m t. none;
  take-holder = take_if_free-taker;
  give-holder = λ m t e. refl;
  take-free = take_if_free-free;
}

abbrev line : Option Caller → Line (Option Caller)
line m = record { mutex = m; tx_frames = 0; tx_busy = 0; answers = [] }

abbrev sent_one : Line (Option Caller)
sent_one = record { mutex = none; tx_frames = 0; tx_busy = 0; answers = CanResult.ok ∷ [] }

abbrev sent_two : Line (Option Caller)
sent_two = record {
  mutex = none;
  tx_frames = 0;
  tx_busy = 0;
  answers = CanResult.ok ∷ CanResult.ok ∷ [];
}

-- The control task is in the driver and the communication task waits for it.
one_inside : Senders simple (line (some control)) (inside zero_frame) (waiting zero_frame)
one_inside =
    comms_moves
      (control_moves (control_moves (begin none refl) (call _ zero_frame))
        (take _ zero_frame (some control) refl))
      (call _ zero_frame)

Senders-exclude_example : ¬ (IsInside (inside zero_frame) × IsInside (waiting zero_frame))
Senders-exclude_example = Senders-exclude simple one_inside

-- Both have sent a frame and read the counter, before one of them writes it.
both_counting : Senders simple sent_two (counting CanResult.ok 0) (counting CanResult.ok 0)
both_counting =
    let asked = control_moves (begin none refl) (call _ zero_frame) in
    let first =
      control_moves (control_moves asked (take _ zero_frame (some control) refl))
        (send _ zero_frame CanResult.ok) in
    let counted = control_moves (control_moves first (give _ CanResult.ok)) (read _ CanResult.ok) in
    let second =
      comms_moves (comms_moves counted (call _ zero_frame)) (take _ zero_frame (some comms) refl) in
    comms_moves
      (comms_moves (comms_moves second (send _ zero_frame CanResult.ok)) (give _ CanResult.ok))
      (read _ CanResult.ok)

-- Two frames have been sent, and the counter says one.
abbrev counted_once : Line (Option Caller)
counted_once = record sent_two { tx_frames = 1 }

lost_count : Senders simple counted_once outside outside
lost_count =
    comms_moves (control_moves both_counting (write _ CanResult.ok 0)) (write _ CanResult.ok 0)

Senders-count_example :
    (counted_once.tx_frames ≤ count_answers true counted_once.answers)
    × (counted_once.tx_busy ≤ count_answers false counted_once.answers)
Senders-count_example = Senders-count simple lost_count

-- The communication task waits, and the control task is in the driver.
Senders-Proceeds_example :
    Proceeds simple control comms (line (some control)) (inside zero_frame) (waiting zero_frame)
    × Proceeds simple comms control (line (some control)) (waiting zero_frame) (inside zero_frame)
Senders-Proceeds_example = Senders-Proceeds simple one_inside

abbrev zero_stats : AppStats
zero_stats = record {
  rx_frames = 0;
  rx_dropped = 0;
  rx_decode_errors = 0;
  tx_frames = 0;
  tx_busy = 0;
  loop_count = 0;
  loop_jitter_max_us = 0;
  loop_overruns = 0;
}

-- One frame, which the driver refuses.
abbrev refused_one : Line (Option Caller)
refused_one = record { mutex = none; tx_frames = 0; tx_busy = 1; answers = CanResult.err_busy ∷ [] }

control_alone : Alone simple control zero_stats refused_one outside
control_alone =
    let entered =
      moves (moves (start none) (call _ zero_frame)) (take _ zero_frame (some control) refl) in
    let left =
      moves (moves entered (send _ zero_frame CanResult.err_busy)) (give _ CanResult.err_busy) in
    moves (moves left (read _ CanResult.err_busy)) (write _ CanResult.err_busy 0)

Alone-counts_example :
    (0 ≡ u32 (0 + successes (CanResult.err_busy ∷ [])))
    × (1 ≡ u32 (0 + errors (CanResult.err_busy ∷ [])))
Alone-counts_example =
    Alone-counts simple control zero_stats (omega arith) (omega arith) control_alone
