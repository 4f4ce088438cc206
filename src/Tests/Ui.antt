-- ===== src/Tests/Ui.antt =====
-- ui.c on a concrete panel and concrete snapshots.
use robot_joint_stack.Prelude.{
  ℕ, ◌-◌, ◌*◌, ◌/◌, ◌%◌, ◌≡◌, refl, arith, true, false, if◌then◌else◌, none, [], ◌∷◌,
}
use robot_joint_stack.Prelude.Int.{pos, negsuc}
use robot_joint_stack.App.Comms.{AppView}
use robot_joint_stack.Screen.{Draw, cell_at}
use robot_joint_stack.Display.{DmaAnswer, completed}
use robot_joint_stack.Display.Stream.{AllComplete}
use robot_joint_stack.Display.Panel.{is_inside}
use robot_joint_stack.Ui.{Formatter, ui_start}
use robot_joint_stack.Ui.Shows.{ui_rounds}
use robot_joint_stack.Ui.Cell.{cell_pixel, draw_on, draw_cell-pixel, panel_canvas}
use robot_joint_stack.Ui.Pixels.{ui_rounds-pixel}
use robot_joint_stack.Tests.Display.{Picture, frame_memory}

abbrev answers : ℕ → DmaAnswer
answers k = completed

abbrev answers-AllComplete : AllComplete answers
answers-AllComplete k = refl

abbrev blank : Picture
blank a b = 0

-- The letter I in the last cell of the screen.
abbrev last_cell : Draw
last_cell = record { row = 19; col = 29; char = 73; fg = 0xffff; bg = 0x001f }

draw_cell-pixel_example :
    draw_on frame_memory answers answers-AllComplete blank last_cell 235 306 ≡ (
      if is_inside (29 * 8) (19 * 16) 8 16 235 306
      then cell_pixel last_cell (306 - 19 * 16) (235 - 29 * 8)
      else blank 235 306)
draw_cell-pixel_example =
    draw_cell-pixel frame_memory answers answers-AllComplete blank last_cell 235 306
      (omega arith, omega arith)

-- A formatter that only fails.
abbrev failing : Formatter
failing fmt args = none

abbrev first_view : AppView
first_view = record {
  node_id = 5;
  controller = false;
  sweep_enabled = true;
  uptime_ms = 1000;
  peer_count = 0;
  peers = [];
  joint = record {
    position_mdeg = negsuc 9999;
    velocity_mdeg_s = pos 500;
    current_ma = pos 100;
    temperature_c10 = pos 250;
    last_command_seq = 3;
    mode = 1;
  };
  joint_flags = 0;
  tx_frames = 10;
  rx_frames = 20;
  tx_busy = 0;
  rx_dropped = 0;
  tx_error_count = 0;
  rx_error_count = 0;
  bus_off = true;
  loop_jitter_max_us = 12;
}

ui_rounds-pixel_example :
    let (p', s') =
      ui_rounds
        (panel_canvas frame_memory answers answers-AllComplete)
        failing
        blank
        ui_start
        (first_view ∷ first_view ∷ []) in
    p' 239 100 ≡ cell_pixel (cell_at s' (100 / 16) (239 / 8)) (100 % 16) (239 % 8)
ui_rounds-pixel_example =
    ui_rounds-pixel frame_memory answers answers-AllComplete failing blank first_view
      (first_view ∷ []) 239 100 (omega arith) (omega arith)
