-- ===== src/Board/Pins.antt =====
-- boards/nucleo_h7s3l8/src/board.c: the LEDs, the debug pin, the button and the node ID.
use robot_joint_stack.Prelude.{ℕ, Bool, not}
use robot_joint_stack.Prelude.Word.{u8}
use robot_joint_stack.Board.Init.{
  port_b, port_d, Action, write_pin, toggle_pin, led_status_pin, led_debug_pin, led_error_pin,
}

abbrev pub led_status_toggle : Action
led_status_toggle = toggle_pin port_d led_status_pin

abbrev pub led_error : Bool → Action
led_error on = write_pin port_b led_error_pin on

abbrev pub debug_pin_toggle : Action
debug_pin_toggle = toggle_pin port_d led_debug_pin

-- The button's pin is low when it is pressed; `level` is what is read.
abbrev pub button_raw : Bool → Bool
button_raw level = not level

-- The node ID that the build defines.
abbrev pub board_node_id : ℕ → ℕ
board_node_id defined = u8 defined
