-- ===== src/Tests/Board.antt =====
-- board.c and main.c on concrete answers of the hardware.
use robot_joint_stack.Prelude.{
  ℕ, ◌/◌, ◌%◌, ◌≡◌, ◌⊎◌, inl, inr, refl, arith, Bool-cases, Bool, true, false, ◌==◌, some, List, [],
  ◌∷◌, ◌++◌, map,
}
use robot_joint_stack.Prelude.Word.{u8}
use robot_joint_stack.Format.{codes}
use robot_joint_stack.CanTiming.{CanTiming}
use robot_joint_stack.App.Start.{pd_pass, no_memory}
use robot_joint_stack.Board.Uart.{IsServed, IsPaced, uart_write, uart_write-writes}
use robot_joint_stack.Board.Init.{BoardAnswers, board_init}
use robot_joint_stack.Board.Boot.{Boots, dark, seen, board_init-Boots}
use robot_joint_stack.Board.Clock.{cpu_hz, cycles_per_us}
use robot_joint_stack.Board.Config.{spi_hz}
use robot_joint_stack.Board.Fault.{NoSlash, base_name, base_name-NoSlash}
use robot_joint_stack.Board.Main.{Machine}

-- Every second read finds the transmitter free.
abbrev every_second : ℕ → Bool
every_second k = k % 2 == 1

every_second-IsServed : IsServed every_second 2
every_second-IsServed k = elim (Bool-cases (k % 2 == 1)) [
  | inl odd ↦ (0, omega arith, ground (arith, odd))
  | inr even ↦ (1, omega arith, ground (arith, even))
]

uart_write-writes_example :
    let (ws, end) = uart_write every_second 2 (79 ∷ 75 ∷ []) 0 in
    (map (λ w. w.1) ws ≡ map u8 (79 ∷ 75 ∷ []))
    × ((last : ℕ) × (end ≡ some last) × IsPaced every_second 0 ws last)
uart_write-writes_example = uart_write-writes every_second 2 (79 ∷ 75 ∷ []) 0 every_second-IsServed

uart_write_run : uart_write every_second 2 (79 ∷ 75 ∷ []) 0 ≡ ((1, 79) ∷ (3, 75) ∷ [], some 4)
unfolding uart_write
uart_write_run = refl

abbrev no_oscillator : BoardAnswers
no_oscillator = record {
  hal_ready = false;
  voltage_scaled = true;
  oscillator_set = false;
  clocks_set = true;
  uart_ready = true;
}

board_init-Boots_example :
    Boots no_oscillator (board_init no_oscillator).0 (seen dark (board_init no_oscillator).1)
board_init-Boots_example = board_init-Boots no_oscillator

base_name-NoSlash_example :
    NoSlash (base_name "src/app/app.c")
    × ((base_name "src/app/app.c" ≡ "src/app/app.c")
        ⊎ ((before : List ℕ) × (codes "src/app/app.c"
              ≡ before ++ (47 ∷ codes (base_name "src/app/app.c")))))
base_name-NoSlash_example = base_name-NoSlash "src/app/app.c"

base_name_run : base_name "src/app/app.c" ≡ "app.c"
unfolding base_name
base_name_run = refl

abbrev unset : CanTiming
unset = record { prescaler = 0; tseg1 = 0; tseg2 = 0; sjw = 0; sample_point_permille = 0 }

abbrev machine : Machine
machine = record {
  node_id = 1;
  display = true;
  board = record {
    hal_ready = false;
    voltage_scaled = true;
    oscillator_set = true;
    clocks_set = true;
    uart_ready = true;
  };
  can = record {
    clock_selected = true;
    clock_hz = 200000000;
    initialised = true;
    filter_set = true;
    delay_set = true;
    delay_enabled = true;
    interrupts_on = true;
    started = true;
  };
  kernel = record {
    rx_queue = true;
    cmd_queue = true;
    tx_mutex = true;
    log_queue = true;
    log_task_answer = pd_pass;
    control_answer = pd_pass;
    can_rx_answer = no_memory;
    comms_answer = pd_pass;
    stats_answer = pd_pass;
    ui_answer = pd_pass;
  };
  idle_made = true;
  old_nominal = unset;
  old_data = unset;
}

-- A bit of the display's SPI takes 26.6 ns.
spi_hz_run : (spi_hz ≡ 37500000) × (1000000000000 / spi_hz ≡ 26666)
unfolding spi_hz
spi_hz_run = (refl, refl)

cpu_hz_run : (cpu_hz ≡ 600000000) × (cycles_per_us cpu_hz ≡ 600)
unfolding cpu_hz cycles_per_us
cpu_hz_run = (refl, refl)
