-- ===== src/Lib.antt =====
-- robot-joint-stack: the firmware of one joint of a robot arm, on a CAN FD bus. The node
-- receives commands, moves a simulated joint towards its target within soft limits, reports its
-- state and a heartbeat, and supervises the other nodes.
--
-- The parts, and the files that are about them:
-- - Hal: the types of the CAN interface (common/hal/include/rjs/hal_can.h). CanFrame is
--   rjs_can_frame_t, its array of 64 bytes a list.
-- - Protocol: the wire protocol (common/protocol/include/rjs/protocol.h,
--   common/protocol/src/protocol.c). Protocol/Ident has rjs_make_id and the two functions that
--   take an identifier apart, Protocol/Dlc the CAN FD sizes, Protocol/Bytes the little-endian
--   fields, Protocol/Messages the encoders and decoders; its children prove the round trips and
--   say which frames are refused. An out pointer is an Option, none being NULL; the result is
--   the return value with what the pointer points at afterwards.
-- - Joint: the joint model (common/joint/include/rjs/joint.h, common/joint/src/joint.c).
--   joint_step is rjs_joint_step, its blocks being step_timeout, step_brake and step_move;
--   isqrt_u64 is in Joint/Sqrt. The control task calls joint_command for each command and
--   joint_step for each period.
-- - Monitor: the supervision of other nodes (common/node/include/rjs/node_monitor.h,
--   common/node/src/node_monitor.c). The table lists the entries in use; a call of the callback
--   is an event of the result. on_heartbeat and poll are the functions on pointers that are not
--   NULL, monitor_on_heartbeat and monitor_poll those on any.
-- - CanTiming: the search for the CAN bit timing (common/hal/include/rjs/can_timing.h,
--   common/hal/src/can_timing.c), with a trial for each prescaler.
-- - Screen: the character screen with change tracking (common/ui/include/rjs/text_screen.h,
--   common/ui/src/text_screen.c) and, in Screen/Font, its font (common/ui/src/font8x16.c). An
--   array of 20 rows and 30 columns is a function; the calls of the draw callback are a list;
--   the text that vsnprintf makes of a format is an argument.
-- - Screen/Shows has the interface Canvas of what is behind the draw callback, Screen/Tracks
--   what every operation does to the marks, Screen/Glyph the pixels of a cell.
-- - Display: the driver of the display (boards/nucleo_h7s3l8/src/display_st7789.c): what it
--   does to the pins and the SPI is a list of events, and what the HAL and the semaphore answer
--   to a transfer is a function of its number. Display/Stream reads the events as the bytes
--   that the panel receives, Display/Fill compares the two ways to draw, Display/Panel has the
--   interface of the controller behind the SPI: what its data sheet says of a window write,
--   with the pixels as 16-bit colours.
-- - Display/Transfer: one transfer by DMA, step by step (spi_write_dma with the two callbacks
--   of the SPI), and any sequence of transfers, interrupts and timeouts. Display/Setup: the
--   set-up of the SPI and the DMA in board_display_init.
-- - Board: the board (boards/nucleo_h7s3l8/src/board.c, main.c, stm32h7rsxx_it.c, syscalls.c).
--   Board/Init is board_init and board_fatal as what is asked of the hardware, in order,
--   Board/Boot what can be seen of it, Board/Uart the polling loop of board_uart_write,
--   Board/Clock the frequencies that the PLLs of the chip make of the settings, which is the
--   chip's arithmetic and not code of the repository, and what the CAN driver makes of its own,
--   Board/Fault the messages of assertions and faults, Board/Syscalls the system calls and the
--   tick, Board/Pins the pins, Board/Config the priorities of config/FreeRTOSConfig.h,
--   Board/Main main with all the parts together, Board/Main/Scheduling when it ends in the
--   scheduler.
-- - Format: what the program hands to vsnprintf, and texts as bytes.
-- - Ui: the display task (app/joint_node/ui.c). The calls that render makes on the screen are a
--   list, in the code's order; the text of a format is a parameter. Ui/Cell makes a Canvas of
--   draw_cell, the driver and a Panel; Ui/Shows and Ui/Pixels follow the task's loop down to
--   the panel.
-- - App: the tasks of the application (app/joint_node/app.c and app.h), one iteration of each
--   as a function of the shared state and of what FreeRTOS, the board and the driver answer;
--   what it asks of them is a list of effects. control_iteration is the loop body of
--   control_task, can_rx_iteration that of can_rx_task, comms_iteration (App/Comms) that of
--   comms_task. App/System puts them together with the receive interrupt and the two queues: a
--   step relation in which each takes its turn in any order, an iteration at a time.
-- - App/System/Driven and App/System/Range follow the speeds and the commands through the
--   queues, Protocol/Messages/Order the commands out of the decoder. App/Obey has the loop of
--   control_task over its queue, on the queue itself. App/Start is app_start with rjs_log_start
--   and ui_start, and the line of stats_task.
-- - App/Send: can_send again, access by access, as it is run by the control task and the
--   communication task at times that nothing fixes; each may be preempted between any two
--   accesses. App/Send/Alone compares it with the counting in one go that the iterations of the
--   tasks have.
-- - Mutex, Semaphore: what FreeRTOS documents of them, as interfaces.
-- - Queue: what FreeRTOS documents of its queues, as the interface Fifo, and, in Queue/Drain,
--   the loop that receives until a queue is empty.
-- - Log: the log (app/joint_node/log.c). Log/Lines is about the bytes of a message, Log/Order
--   about any sequence of messages and iterations of the log task, Log/Uart about the transmit
--   register that they end in.
-- - Fdcan: sending, receiving and the status of the FDCAN driver
--   (boards/nucleo_h7s3l8/src/hal_can_fdcan.c); the answers of the vendor HAL are arguments,
--   and the receive callback is set. Fdcan/Setup has rjs_can_init, with the calls of the HAL
--   that depend on the bus configuration, Fdcan/Start what it comes to, Fdcan/Msp
--   HAL_FDCAN_MspInit.
-- - Prelude: Boolean tests, lists, integers, machine words and bitwise operations on the native
--   natural numbers.
-- - Tests: the operations on concrete inputs.
--
-- Numbers: an unsigned integer is a natural number with its wrap-around written out where the
-- code can wrap; a signed one is an integer of Prelude/Int, cast where the code casts. The
-- int64_t intermediate values of joint.c are integers without a bound; Joint/Bounds is about
-- the range of the products. The loops of the square root run on a fuel of 32 rounds: the trial
-- bit starts as 2^62 and loses two binary digits each time, so both loops end before; the
-- theorem on the square root says so. The loops of a blit and of a fill have one round for each
-- pixel; a round sends at least one. The search over prescalers has one round for each
-- prescaler up to the limit, as the code has as long as the limit is below the largest uint32_t
-- value.
--
-- The loop of board_uart_write polls a register without a bound. Its reads are a function of
-- their number, and the fuel is the number of reads for each byte: as many as it takes until
-- one of them says that the transmitter is free. The loop over the queued commands runs on a
-- fuel that is greater than the number of commands in the queue.
--
-- Not modelled: the vendor HAL and FreeRTOS, which are not in the repository; the host tools;
-- preemption inside an iteration of a task, but for can_send; settings of the peripherals that
-- switch a feature off or are the only ones the chip has, the speed of the pins, the cache
-- maintenance, the counters that are only read, and the assembly of HardFault_Handler;
-- config/stm32h7rsxx_hal_conf.h, a template of the vendor.
pub mod Prelude
pub mod Format
pub mod Hal
pub mod Protocol
pub mod Joint
pub mod Monitor
pub mod CanTiming
pub mod Screen
pub mod Display
pub mod App
pub mod Ui
pub mod Queue
pub mod Mutex
pub mod Semaphore
pub mod Log
pub mod Fdcan
pub mod Board
pub mod Tests
