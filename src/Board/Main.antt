-- ===== src/Board/Main.antt =====
-- boards/nucleo_h7s3l8/src/main.c: the whole start, board, driver and application.
pub mod Scheduling
use Prim.Native.String.{String}
use robot_joint_stack.Prelude.{
  arith, ap, sym, ◌∙◌, ℕ, ◌≡◌, ◌⊎◌, inl, inr, refl, Bool, true, false, ◌&&◌, if◌then◌else◌, some,
  List, [],
}
use mathlib.Core.Path.{subst}
use robot_joint_stack.Hal.{CanResult}
use robot_joint_stack.CanTiming.{CanTiming}
use robot_joint_stack.Fdcan.Setup.{HalAnswers, HalCall, can_init}
use robot_joint_stack.Fdcan.Start.{is_healthy, whole_set_up}
use robot_joint_stack.App.Send.{is_ok}
use robot_joint_stack.App.Start.{
  StartCall, StartEnd, done, fatal, assertion, KernelAnswers, bus_config, app_start,
}
use robot_joint_stack.App.Start.Runs.{
  all_made, all_tasks, created, is_done, Starts, app_start-Starts,
}
use robot_joint_stack.Board.Init.{Action, Outcome, returned, halted, BoardAnswers, board_init}
use robot_joint_stack.Board.Boot.{Seen, Boots, clocks_run, seen, dark, board_init-Boots}
use robot_joint_stack.Board.Clock.{Brings, nominal_timing, data_timing, fdcan_hz, can_init-Brings}

-- How `main` ends: the scheduler runs the tasks, or the board has halted, or one of the two functions has
-- been called that stop with a message.
pub data MainEnd : Type 0 where
  scheduling halted_in_board : MainEnd
  stopped : String → MainEnd
  failed : String → ℕ → MainEnd

abbrev pub board_name : String
board_name = "NUCLEO-H7S3L8"

-- What the parts answer: `node_id` and `display` are fixed by the build; `idle_made` says whether the
-- scheduler can create its idle task; the two timings are uninitialised variables.
pub record Machine : Type 0 where
  pub node_id : ℕ
  pub display : Bool
  pub board : BoardAnswers
  pub can : HalAnswers
  pub kernel : KernelAnswers
  pub idle_made : Bool
  pub old_nominal : CanTiming
  pub old_data : CanTiming

-- What has been asked of the board, of the HAL by the CAN driver, and of the driver and FreeRTOS by the
-- application.
pub record Run : Type 0 where
  pub end : MainEnd
  pub actions : List Action
  pub can_calls : List HalCall
  pub start_calls : List StartCall

-- `vTaskStartScheduler`, which returns only without an idle task, or the end of `app_start`.
abbrev pub start_scheduler : Bool → StartEnd → MainEnd
start_scheduler idle_made done = if idle_made then scheduling else stopped "scheduler returned"
start_scheduler idle_made (fatal reason) = stopped reason
start_scheduler idle_made (assertion file line) = failed file line

unfoldable pub start_app : Machine → List Action → CanResult × List HalCall → Run
start_app m actions (r, calls) =
    let (end, asked) = app_start m.display board_name m.node_id r m.kernel in
    record {
      end = start_scheduler m.idle_made end;
      actions = actions;
      can_calls = calls;
      start_calls = asked;
    }

abbrev pub after_board : Machine → Outcome × List Action → Run
after_board m (returned, actions) =
    start_app m actions (can_init (some bus_config) true m.can m.old_nominal m.old_data)
after_board m (halted, actions) = record {
  end = halted_in_board;
  actions = actions;
  can_calls = [];
  start_calls = [];
}

-- `main`.
unfoldable pub main : Machine → Run
unfolding start_app
main m = after_board m (board_init m.board)
