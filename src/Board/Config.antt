-- ===== src/Board/Config.antt =====
-- boards/nucleo_h7s3l8/config/FreeRTOSConfig.h: the priorities, with those that the program uses.
use robot_joint_stack.Prelude.{ℕ, ◌/◌, ◌*◌, ◌≤◌, ◌<◌, arith, Bool, true, false, List, [], ◌∷◌}
use robot_joint_stack.App.Start.{TaskName}
use robot_joint_stack.App.Start.Runs.{all_tasks}
use robot_joint_stack.Display.Setup.{disp_irq_priority, spi_settings}
use robot_joint_stack.Fdcan.Msp.{fdcan_irq_priority}
use robot_joint_stack.Board.Init.{Pll, pll1}
use robot_joint_stack.Board.Clock.{hse_hz}

abbrev pub max_priorities : ℕ
max_priorities = 8

abbrev pub lowest_interrupt_priority : ℕ
lowest_interrupt_priority = 15

abbrev pub max_syscall_interrupt_priority : ℕ
max_syscall_interrupt_priority = 5

-- The output Q of a PLL.
unfoldable pub pll_q_hz : Pll → ℕ
pll_q_hz p = hse_hz / p.pll_m * p.pll_n / p.pll_q

-- The bit clock of the display's SPI, which runs from PLL1Q.
unfoldable pub spi_hz : ℕ
unfolding pll_q_hz
spi_hz = pll_q_hz pll1 / spi_settings.prescaler

-- A task is above the idle task and within the number of priorities.
abbrev AreTaskPriorities : List (TaskName × ℕ) → Type 0
AreTaskPriorities [] = Unit {0}
AreTaskPriorities ((t, priority) ∷ ts) =
    (1 ≤ priority) × (priority < max_priorities) × AreTaskPriorities ts

-- An interrupt may call the functions of FreeRTOS that end in FromISR.
abbrev MayCall : ℕ → Type 0
MayCall priority =
    (max_syscall_interrupt_priority ≤ priority) × (priority ≤ lowest_interrupt_priority)

-- Every task of the application has a priority of FreeRTOS above the idle task's, and the interrupts of the
-- CAN controller, the SPI and the DMA are allowed to call FreeRTOS.
pub all_tasks-AreTaskPriorities :
    (display : Bool)
    → AreTaskPriorities (all_tasks display) × MayCall fdcan_irq_priority × MayCall disp_irq_priority
all_tasks-AreTaskPriorities true =
    (omega arith, (omega arith, omega arith), (omega arith, omega arith))
all_tasks-AreTaskPriorities false =
    (omega arith, (omega arith, omega arith), (omega arith, omega arith))
