-- ===== src/Board/Init.antt =====
-- boards/nucleo_h7s3l8/src/board.c: `board_init` and `board_fatal`, as what is asked of the hardware and
-- the vendor HAL, in order. What the HAL answers is an argument.
use Prim.Native.String.{String}
use robot_joint_stack.Prelude.{ℕ, Bool, true, false, not, if◌then◌else◌, List, [], ◌∷◌, ◌++◌}
use robot_joint_stack.Format.{codes}

pub data Port : Type 0 where
  port_b port_c port_d : Port

-- `GPIO_MODE_OUTPUT_PP`, `GPIO_MODE_INPUT`, `GPIO_MODE_AF_PP`.
pub data PinMode : Type 0 where
  output input alternate : PinMode

-- `GPIO_NOPULL`, `GPIO_PULLUP`.
pub data Pull : Type 0 where
  no_pull pull_up : Pull

-- `MPU_Region_InitTypeDef`: region 0 of 4 GB, less the eighths that a bit of the mask is set for.
pub record MpuRegion : Type 0 where
  pub number : ℕ
  pub base_address : ℕ
  pub sub_region_disable : ℕ
  pub accessible : Bool
  pub executable : Bool
  pub shareable : Bool
  pub cacheable : Bool
  pub bufferable : Bool

-- The settings of a PLL, fed by the crystal oscillator.
pub record Pll : Type 0 where
  pub pll_m : ℕ
  pub pll_n : ℕ
  pub pll_p : ℕ
  pub pll_q : ℕ
  pub pll_r : ℕ
  pub pll_s : ℕ
  pub pll_t : ℕ
  pub fractional : ℕ

-- `RCC_ClkInitTypeDef`: the system clock comes from PLL1, and these are the dividers, with the wait states of the flash.
pub record Dividers : Type 0 where
  pub sysclk : ℕ
  pub ahb : ℕ
  pub apb1 : ℕ
  pub apb2 : ℕ
  pub apb4 : ℕ
  pub apb5 : ℕ
  pub flash_latency : ℕ

-- The settings of the UART: no parity, no flow control.
pub record UartSettings : Type 0 where
  pub baud_rate : ℕ
  pub word_length : ℕ
  pub stop_bits : ℕ
  pub transmits : Bool
  pub receives : Bool
  pub oversampling : ℕ

-- What is asked of the hardware and of the HAL.
pub data Action : Type 0 where
  mpu_disable mpu_enable enable_icache enable_dcache hal_init scale_voltage : Action
  mpu_region : MpuRegion → Action
  set_oscillator : Pll → Pll → Action
  set_clocks : Dividers → Action
  enable_trace unlock_counter reset_counter start_counter : Action
  port_clock : Port → Action
  set_mode : Port → List ℕ → PinMode → Pull → Action
  write_pin : Port → ℕ → Bool → Action
  toggle_pin : Port → ℕ → Action
  uart_clock : Action
  init_uart : UartSettings → Action
  disable_irq : Action
  write_uart : List ℕ → Action

-- How a function ends: it returns, or it does not.
pub data Outcome : Type 0 where
  returned halted : Outcome

-- Which calls the HAL answers with HAL_OK.
pub record BoardAnswers : Type 0 where
  pub hal_ready : Bool  -- of `HAL_Init`, which the code does not look at
  pub voltage_scaled : Bool
  pub oscillator_set : Bool
  pub clocks_set : Bool
  pub uart_ready : Bool

abbrev pub led_status_pin : ℕ
led_status_pin = 10

abbrev pub led_debug_pin : ℕ
led_debug_pin = 13

abbrev pub led_error_pin : ℕ
led_error_pin = 7

abbrev pub button_pin : ℕ
button_pin = 13

-- `board_fatal`, which does not return.
abbrev pub board_fatal : String → List Action
board_fatal reason =
    disable_irq
    ∷ write_pin port_b led_error_pin true
    ∷ write_uart (13 ∷ 10 ∷ codes "*** FATAL: ")
    ∷ write_uart (codes reason)
    ∷ write_uart (13 ∷ 10 ∷ [])
    ∷ []

abbrev mpu_config : List Action
mpu_config =
    mpu_disable
    ∷ mpu_region (record {
      number = 0;
      base_address = 0;
      sub_region_disable = 0x87;
      accessible = false;
      executable = false;
      shareable = true;
      cacheable = false;
      bufferable = false;
    })
    ∷ mpu_enable
    ∷ []

abbrev pub pll1 : Pll
pll1 = record {
  pll_m = 2;
  pll_n = 50;
  pll_p = 1;
  pll_q = 2;
  pll_r = 2;
  pll_s = 2;
  pll_t = 2;
  fractional = 0;
}

abbrev pub pll2 : Pll
pll2 = record {
  pll_m = 2;
  pll_n = 50;
  pll_p = 3;
  pll_q = 2;
  pll_r = 2;
  pll_s = 3;
  pll_t = 2;
  fractional = 0;
}

abbrev pub dividers : Dividers
dividers = record { sysclk = 1; ahb = 2; apb1 = 2; apb2 = 2; apb4 = 2; apb5 = 2; flash_latency = 7 }

-- A function that ends the program when it fails, and the reason.
abbrev or_fatal : Bool → String → Outcome × List Action → Outcome × List Action
or_fatal b reason rest = if not b then (halted, board_fatal reason) else rest

abbrev after : List Action → Outcome × List Action → Outcome × List Action
after done (end, rest) = (end, done ++ rest)

-- One part, and the next one if it returns.
abbrev and_next : Outcome × List Action → Outcome × List Action → Outcome × List Action
and_next (returned, done) next = after done next
and_next (halted, done) next = (halted, done)

unfoldable pub clock_config : BoardAnswers → Outcome × List Action
clock_config a = after (scale_voltage ∷ []) (
    or_fatal a.voltage_scaled "voltage scaling" (
      after (set_oscillator pll1 pll2 ∷ []) (
        or_fatal a.oscillator_set "oscillator config" (
          after (set_clocks dividers ∷ []) (or_fatal a.clocks_set "clock config" (returned, []))))))

abbrev cycle_counter_init : List Action
cycle_counter_init = enable_trace ∷ unlock_counter ∷ reset_counter ∷ start_counter ∷ []

abbrev gpio_init : List Action
gpio_init =
    port_clock port_b
    ∷ port_clock port_c
    ∷ port_clock port_d
    ∷ set_mode port_d (led_status_pin ∷ led_debug_pin ∷ []) output no_pull
    ∷ set_mode port_b (led_error_pin ∷ []) output no_pull
    ∷ write_pin port_d led_status_pin false
    ∷ write_pin port_d led_debug_pin false
    ∷ write_pin port_b led_error_pin false
    ∷ set_mode port_c (button_pin ∷ []) input pull_up
    ∷ []

unfoldable pub uart_init : BoardAnswers → Outcome × List Action
uart_init a =
    after
      (uart_clock
        ∷ set_mode port_d (8 ∷ 9 ∷ []) alternate pull_up
        ∷ init_uart (record {
          baud_rate = 115200;
          word_length = 8;
          stop_bits = 1;
          transmits = true;
          receives = true;
          oversampling = 16;
        })
        ∷ [])
      (if not a.uart_ready
        then (halted, write_pin port_b led_error_pin true ∷ [])
        else (returned, []))

unfoldable pub board_init : BoardAnswers → Outcome × List Action
unfolding clock_config uart_init
board_init a =
    after (mpu_config ++ (enable_icache ∷ enable_dcache ∷ hal_init ∷ []))
      (and_next (clock_config a) (after (cycle_counter_init ++ gpio_init) (uart_init a)))
