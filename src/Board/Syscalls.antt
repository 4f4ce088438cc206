-- ===== src/Board/Syscalls.antt =====
-- boards/nucleo_h7s3l8/src/syscalls.c: the system calls of the C library, and `SysTick_Handler` of
-- stm32h7rsxx_it.c.
use robot_joint_stack.Prelude.{
  ℕ, ◌+◌, Bool, not, ◌||◌, if◌then◌else◌, ◌==◌, Option, none, some, List, [], take,
}
use robot_joint_stack.Prelude.Int.{ℤ, pos, negsuc}
use robot_joint_stack.Prelude.Word.{u32}

pub data Errno : Type 0 where
  ebadf enosys : Errno

-- The value of a call, `errno` if it sets it, and the bytes for `board_uart_write`.
pub record CallResult : Type 0 where
  pub value : ℤ
  pub errno : Option Errno
  pub output : List ℕ

abbrev silent : ℤ → Option Errno → CallResult
silent v e = record { value = v; errno = e; output = [] }

-- `_write`, of a buffer with at least `len` bytes; `len` is not negative.
unfoldable pub sys_write : ℤ → List ℕ → ℕ → CallResult
sys_write (negsuc n) buf len = silent (negsuc 0) (some ebadf)
sys_write (pos fd) buf len =
    if not ((fd == 1) || (fd == 2))
    then silent (negsuc 0) (some ebadf)
    else record { value = pos len; errno = none; output = take len buf }

-- `_read`, `_close`, `_lseek`, `_fstat`, which says that every file is a character device, and `_isatty`: they look
-- at none of their arguments.
abbrev pub sys_read : CallResult
sys_read = silent (negsuc 0) (some enosys)

abbrev pub sys_close : CallResult
sys_close = silent (negsuc 0) none

abbrev pub sys_lseek : CallResult
sys_lseek = silent (pos 0) none

abbrev pub sys_fstat : CallResult
sys_fstat = silent (pos 0) none

abbrev pub sys_isatty : CallResult
sys_isatty = silent (pos 1) none

-- The tick of the HAL, a uint32_t, and the number of calls of `xPortSysTickHandler`.
pub record Ticks : Type 0 where
  pub hal : ℕ
  pub kernel : ℕ

-- `SysTick_Handler`; `started` says whether the scheduler has been started.
unfoldable pub sys_tick : Bool → Ticks → Ticks
sys_tick started t = record {
  hal = u32 (t.hal + 1);
  kernel = if started then t.kernel + 1 else t.kernel;
}
