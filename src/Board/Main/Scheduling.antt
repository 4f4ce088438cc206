-- ===== src/Board/Main/Scheduling.antt =====
-- When the whole firmware starts.
use robot_joint_stack.Prelude.{◌≡◌, ◌⊎◌, Bool, true, false, ◌&&◌}
use robot_joint_stack.Fdcan.Start.{is_healthy, whole_set_up}
use robot_joint_stack.App.Start.Runs.{all_made, all_tasks, created}
use robot_joint_stack.Board.Boot.{clocks_run}
use robot_joint_stack.Board.Clock.{nominal_timing, data_timing}
use robot_joint_stack.Board.Main.{
  MainEnd, scheduling, halted_in_board, stopped, failed, Machine, Run,
}

-- No call fails that stops the start.
abbrev pub is_sound : Machine → Bool
is_sound m =
    (clocks_run m.board && m.board.uart_ready)
    && ((is_healthy m.can && all_made m.display m.kernel) && m.idle_made)

abbrev pub is_scheduling : MainEnd → Bool
is_scheduling scheduling = true
is_scheduling halted_in_board = false
is_scheduling (stopped reason) = false
is_scheduling (failed file line) = false

-- What the start of the firmware comes to.
abbrev pub Comes : Machine → Run → Type 0
Comes m r =
    ((r.end ≡ scheduling)
      × (is_sound m ≡ true)
      × (r.can_calls ≡ whole_set_up nominal_timing data_timing)
      × (created r.start_calls ≡ all_tasks m.display))
    ⊎ ((is_scheduling r.end ≡ false) × (is_sound m ≡ false))
