-- ===== src/Board.antt =====
-- boards/nucleo_h7s3l8/src/board.c, main.c, stm32h7rsxx_it.c and syscalls.c: the board under the
-- application and the CAN driver. What the hardware and the vendor HAL answer is an argument.
pub mod Uart
pub mod Init
pub mod Boot
pub mod Clock
pub mod Fault
pub mod Syscalls
pub mod Main
pub mod Pins
pub mod Config
