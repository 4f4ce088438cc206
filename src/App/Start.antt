-- ===== src/App/Start.antt =====
-- app/joint_node/app.c and log.c: the start of the application, and the line of the status task. What the
-- driver and FreeRTOS answer is an argument.
pub mod Runs
use Prim.Native.String.{String}
use robot_joint_stack.Prelude.{
  ℕ, ◌/◌, ◌%◌, Bool, true, false, not, ◌&&◌, if◌then◌else◌, ◌==◌, bit_and, List, [], ◌∷◌, ◌++◌,
}
use robot_joint_stack.Prelude.Int.{ℤ, pos, ◌/ℤ◌, neg_ℤ, ltb_ℤ}
use robot_joint_stack.Prelude.Word.{to_pattern}
use robot_joint_stack.Format.{Arg, unsigned, signed, text}
use robot_joint_stack.Hal.{CanConfig, CanStatus, CanResult}
use robot_joint_stack.App.{Shared}
use robot_joint_stack.App.Send.{is_ok}
use robot_joint_stack.App.Comms.{controller_node_id}

pub data TaskName : Type 0 where
  log_task control_task can_rx_task comms_task stats_task ui_task : TaskName

-- What the start asks for: a queue has its depth, a task the words of its stack and its priority.
pub data StartCall : Type 0 where
  init_can : CanConfig → StartCall
  create_rx_queue create_cmd_queue create_log_queue : ℕ → StartCall
  create_mutex : StartCall
  create_task : TaskName → ℕ → ℕ → StartCall
  log : String → List Arg → StartCall

-- How the start ends: it returns, it stops in `board_fatal` with a reason, or in `board_assert_failed`, for
-- the file and the line of the assertion.
pub data StartEnd : Type 0 where
  done : StartEnd
  fatal : String → StartEnd
  assertion : String → ℕ → StartEnd

-- What `xTaskCreate` is documented to answer: pdPASS, or errCOULD_NOT_ALLOCATE_REQUIRED_MEMORY.
pub data TaskAnswer : Type 0 where
  pd_pass no_memory : TaskAnswer

-- The answer as a BaseType_t: 1 or -1, as a pattern of 32 bits.
abbrev pub base_type : TaskAnswer → ℕ
base_type pd_pass = 1
base_type no_memory = 4294967295

-- `ok == pdPASS`.
abbrev is_pass : ℕ → Bool
is_pass ok = ok == base_type pd_pass

-- What FreeRTOS answers: whether a queue and the mutex are created, and what `xTaskCreate` returns. When an
-- allocation on its heap fails, FreeRTOS calls `vApplicationMallocFailedHook` before it answers at all.
pub record KernelAnswers : Type 0 where
  pub rx_queue : Bool
  pub cmd_queue : Bool
  pub tx_mutex : Bool
  pub log_queue : Bool
  pub log_task_answer : TaskAnswer
  pub control_answer : TaskAnswer
  pub can_rx_answer : TaskAnswer
  pub comms_answer : TaskAnswer
  pub stats_answer : TaskAnswer
  pub ui_answer : TaskAnswer

abbrev pub bus_config : CanConfig
bus_config = record { nominal_bitrate = 1000000; data_bitrate = 2000000 }

abbrev pub after : List StartCall → StartEnd × List StartCall → StartEnd × List StartCall
after calls (end, rest) = (end, calls ++ rest)

-- One part, and the next one if it returns.
abbrev pub and_next :
    StartEnd × List StartCall → StartEnd × List StartCall → StartEnd × List StartCall
and_next (done, calls) next = after calls next
and_next (fatal reason, calls) next = (fatal reason, calls)
and_next (assertion file line, calls) next = (assertion file line, calls)

-- `rjs_log_start`.
unfoldable pub log_start : KernelAnswers → StartEnd × List StartCall
log_start k = after (create_log_queue 16 ∷ []) (
    if not k.log_queue
    then (assertion "log.c" 51, [])
    else after (create_task log_task 384 1 ∷ []) (
        if not (is_pass (base_type k.log_task_answer))
        then (assertion "log.c" 53, [])
        else (done, [])))

-- `ui_start`, which only a build with the display calls.
unfoldable pub start_ui : KernelAnswers → StartEnd × List StartCall
start_ui k =
    after (create_task ui_task 768 2 ∷ [])
      (if not (is_pass (base_type k.ui_answer)) then (assertion "ui.c" 156, []) else (done, []))

abbrev greeting : String → ℕ → List StartCall
greeting name node_id =
    log "%s" (text "" ∷ [])
    ∷ log "robot-joint-stack %u.%u.%u on %s, node %u%s" (
        unsigned 0
        ∷ unsigned 1
        ∷ unsigned 0
        ∷ text name
        ∷ unsigned node_id
        ∷ text (if node_id == controller_node_id then " (controller)" else "")
        ∷ [])
    ∷ log "CAN FD 1 Mbit/s nominal, 2 Mbit/s data (BRS)" []
    ∷ []

abbrev tasks : List StartCall
tasks =
    create_task control_task 512 5
    ∷ create_task can_rx_task 512 4
    ∷ create_task comms_task 512 3
    ∷ create_task stats_task 512 2
    ∷ []

-- `ok` after the four lines `ok &= xTaskCreate(...)`.
unfoldable pub combined : KernelAnswers → ℕ
combined k =
    bit_and
      (bit_and
        (bit_and (bit_and (base_type pd_pass) (base_type k.control_answer))
          (base_type k.can_rx_answer))
        (base_type k.comms_answer))
      (base_type k.stats_answer)

-- From the creation of the tasks on.
unfoldable pub start_tasks : Bool → KernelAnswers → StartEnd × List StartCall
unfolding start_ui combined
start_tasks display k = after tasks (
    if not (is_pass (combined k))
    then (fatal "task creation failed", [])
    else if display
    then start_ui k
    else (done, []))

-- `app_start`: whether the build has the display, the board's name and node ID, and what `rjs_can_init` returns.
unfoldable pub app_start : Bool → String → ℕ → CanResult → KernelAnswers → StartEnd × List StartCall
unfolding log_start start_tasks
app_start display name node_id can k = after (init_can bus_config ∷ []) (
    if not (is_ok can)
    then (fatal "CAN init failed", [])
    else after (create_rx_queue 32 ∷ create_cmd_queue 4 ∷ create_mutex ∷ []) (
        if not (k.rx_queue && (k.cmd_queue && k.tx_mutex))
        then (assertion "app.c" 427, [])
        else and_next (log_start k) (after (greeting name node_id) (start_tasks display k))))

-- The arguments of the line that `stats_task` logs each second.
unfoldable pub stats_args : Shared → ℕ → CanStatus → List Arg
stats_args s millis cs =
    let position = s.snapshot.position_mdeg in
    let below = ltb_ℤ position (pos 0) in
    let size = to_pattern 4294967296 (if below then neg_ℤ position else position) in
    unsigned s.node_id
    ∷ unsigned (millis / 1000)
    ∷ unsigned s.alive_peers
    ∷ text (if below then "-" else "")
    ∷ unsigned (size / 1000)
    ∷ unsigned (size % 1000 / 100)
    ∷ signed (s.snapshot.velocity_mdeg_s /ℤ 1000)
    ∷ unsigned s.stats.tx_frames
    ∷ unsigned s.stats.rx_frames
    ∷ unsigned s.stats.tx_busy
    ∷ unsigned s.stats.rx_dropped
    ∷ unsigned cs.tx_error_count
    ∷ unsigned cs.rx_error_count
    ∷ unsigned s.stats.loop_jitter_max_us
    ∷ []

-- An iteration of `stats_task`.
unfoldable pub stats_iteration : Shared → ℕ → CanStatus → StartCall
unfolding stats_args
stats_iteration s millis cs =
    log
      "[node %u] up %lus | peers %u | pos %s%lu.%lu deg vel %ld deg/s | tx %lu rx %lu drop %lu/%lu | tec %u rec %u | jitter %lu us"
      (stats_args s millis cs)
