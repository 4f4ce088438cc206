-- ===== src/Board/Boot.antt =====
-- boards/nucleo_h7s3l8/src/board.c: what a start of the board comes to, and what can be seen of it.
use robot_joint_stack.Prelude.{
  ℕ, ◌≡◌, ◌⊎◌, inl, inr, refl, Bool, true, false, ◌&&◌, ◌||◌, ◌==◌, if◌then◌else◌, List, [], ◌∷◌,
  ◌++◌,
}
use robot_joint_stack.Board.Init.{
  port_b, Action, write_pin, port_clock, set_mode, write_uart, uart_clock, Outcome, returned,
  halted, BoardAnswers, board_init, PinMode,
}

-- What an observer sees of the actions: whether port B and the UART have a clock, whether the error LED's pin, PB7,
-- drives and shows its level, and what has left the UART. Without its clock a peripheral takes no write.
pub record Seen : Type 0 where
  pub clocked : Bool
  pub driving : Bool
  pub lit : Bool
  pub uart_on : Bool
  pub printed : List ℕ

abbrev is_output : PinMode → Bool
is_output PinMode.output = true
is_output PinMode.input = false
is_output PinMode.alternate = false

abbrev pub dark : Seen
dark = record { clocked = false; driving = false; lit = false; uart_on = false; printed = [] }

-- LD3 of the board, the red one, is on PB7.
abbrev error_led : ℕ
error_led = 7

abbrev is_among : ℕ → List ℕ → Bool
is_among pin [] = false
is_among pin (p ∷ pins) = (p == pin) || is_among pin pins

abbrev see : Seen → Action → Seen
see s (port_clock port_b) = record s { clocked = true }
see s (set_mode port_b pins mode pull) = record s {
  driving = if is_among error_led pins then s.clocked && is_output mode else s.driving;
}
see s (write_pin port_b pin level) = record s {
  lit = if (pin == error_led) && s.driving then level else s.lit;
}
see s uart_clock = record s { uart_on = true }
see s (write_uart bytes) = record s {
  printed = if s.uart_on then s.printed ++ bytes else s.printed;
}
see s a = s

-- What is seen after the actions.
unfoldable pub seen : Seen → List Action → Seen
seen s [] = s
seen s (a ∷ rest) = seen (see s a) rest

-- The set-up of the clocks succeeds.
abbrev pub clocks_run : BoardAnswers → Bool
clocks_run a = a.voltage_scaled && (a.oscillator_set && a.clocks_set)

-- What a start of the board comes to.
abbrev pub Boots : BoardAnswers → Outcome → Seen → Type 0
Boots a end s =
    (s.printed ≡ [])
    × (((clocks_run a ≡ true)
          × (a.uart_ready ≡ true)
          × (end ≡ returned)
          × (s.lit ≡ false)
          × (s.uart_on ≡ true))
        ⊎ (((clocks_run a ≡ true) × (a.uart_ready ≡ false) × (end ≡ halted) × (s.lit ≡ true))
            ⊎ ((clocks_run a ≡ false) × (end ≡ halted) × (s.lit ≡ false))))

abbrev answers : Bool → Bool → Bool → Bool → Bool → BoardAnswers
answers i v o c u = record {
  hal_ready = i;
  voltage_scaled = v;
  oscillator_set = o;
  clocks_set = c;
  uart_ready = u;
}

board_init-Boots_cases :
    (i v o c u : Bool)
    → let a = answers i v o c u in Boots a (board_init a).0 (seen dark (board_init a).1)
unfolding board_init seen
board_init-Boots_cases i false o c u = (refl, inr (inr (refl, refl, refl)))
board_init-Boots_cases i true false c u = (refl, inr (inr (refl, refl, refl)))
board_init-Boots_cases i true true false u = (refl, inr (inr (refl, refl, refl)))
board_init-Boots_cases i true true true false = (refl, inr (inl (refl, refl, refl, refl)))
board_init-Boots_cases i true true true true = (refl, inl (refl, refl, refl, refl, refl))

-- Whatever `HAL_Init` answers, `board_init` returns when the four calls of the HAL succeed whose results it looks at, with the error LED dark and the UART on; it
-- stops with the error LED lit when only the UART fails; and when the clock's set-up fails it stops in
-- `board_fatal` with the LED dark and its message not printed, since neither the port nor the UART has a
-- clock yet.
pub board_init-Boots : (a : BoardAnswers) → Boots a (board_init a).0 (seen dark (board_init a).1)
board_init-Boots a =
    board_init-Boots_cases a.hal_ready a.voltage_scaled a.oscillator_set a.clocks_set a.uart_ready
