-- ===== src/App/Comms.antt =====
-- app/joint_node/app.c and app.h: the communication task, and the snapshot for the display.
use robot_joint_stack.Prelude.{
  ℕ, ◌+◌, ◌≡◌, ◌⊎◌, arith, Bool, true, false, not, ◌&&◌, if◌then◌else◌, leb, ◌==◌, bit_and, bit_or,
  Option, some, List, [], ◌∷◌, ◌++◌, take, length,
}
use robot_joint_stack.Prelude.Int.{ℤ, pos, negsuc, neg_ℤ}
use robot_joint_stack.Prelude.Word.{u16, sub32}
use robot_joint_stack.Hal.{CanFrame, CanStatus, CanResult}
use robot_joint_stack.Protocol.{
  ProtoResult, Heartbeat, Command, JointState, mode_position, node_broadcast, err_can_bus_off,
  err_can_passive, err_peer_lost, state_fault, state_operational, state_preop,
}
use robot_joint_stack.Protocol.Messages.{encode_heartbeat, encode_command}
use robot_joint_stack.App.{
  AppStats, PeerView, Shared, Effect, send, post, log_sweep, send_encoded, heartbeat_flags,
  count_send,
}

abbrev pub controller_node_id : ℕ
controller_node_id = 1

-- The local variables of `comms_task` that it keeps.
pub record Comms : Type 0 where
  pub seq : ℕ  -- uint16_t
  pub target : ℤ  -- int32_t
  pub last_flip : ℕ  -- uint32_t
  pub button_was_down : Bool

-- What an iteration finds: the driver's status, the clock at its three readings, the button, the
-- frame on the stack, and the driver's answers to the heartbeat and to the command.
pub record Found : Type 0 where
  pub status : CanStatus
  pub uptime_ms : ℕ
  pub millis : ℕ
  pub flip_ms : ℕ
  pub button : Bool
  pub frame : CanFrame
  pub heartbeat_answer : CanResult
  pub command_answer : CanResult

unfoldable pub own_heartbeat : Shared → ℕ → ℕ → Heartbeat
own_heartbeat s flags uptime_ms = record {
  state =
      if not (bit_and flags err_can_bus_off == 0)
      then state_fault
      else if s.snapshot.mode == mode_position
      then state_operational
      else state_preop;
  error_flags = flags;
  uptime_ms = uptime_ms;
  fw_major = 0;
  fw_minor = 1;
  fw_patch = 0;
}

unfoldable pub send_heartbeat : Shared → Found → Shared × List Effect
unfolding own_heartbeat send_encoded heartbeat_flags
send_heartbeat s i =
    let hb = own_heartbeat s (heartbeat_flags s i.status) i.uptime_ms in
    let (stats, effects) =
      send_encoded s.stats (encode_heartbeat s.node_id (some hb) (some i.frame))
        i.heartbeat_answer in
    (record s { stats = stats }, effects)

-- The error LED of an iteration.
unfoldable pub error_led : Shared → CanStatus → Bool
error_led s cs = not (
    bit_and (heartbeat_flags s cs) (bit_or (bit_or err_can_bus_off err_can_passive) err_peer_lost)
    == 0)

-- The button.
unfoldable pub toggle_sweep : Shared → Comms → Bool → Shared × List Effect
toggle_sweep s c down =
    if down && not c.button_was_down
    then (record s { sweep_enabled = not s.sweep_enabled }, log_sweep (not s.sweep_enabled) ∷ [])
    else (s, [])

-- The command of the sweep that an iteration sends, and what the task keeps.
unfoldable pub next_sweep : Comms → ℕ → ℕ → Comms × Command
next_sweep c millis flip_ms =
    let flip = leb 3000 (sub32 millis c.last_flip) in
    let target = if flip then neg_ℤ c.target else c.target in
    let seq = u16 (c.seq + 1) in
    (
      record c { seq = seq; target = target; last_flip = if flip then flip_ms else c.last_flip },
      record {
        mode = mode_position;
        target_mdeg = target;
        max_velocity_mdeg_s = pos 90000;
        sequence = seq;
      },
    )

-- A command that can be encoded is sent on the bus and queued for the own joint.
unfoldable pub send_command :
    AppStats → Command → ProtoResult × Option CanFrame → CanResult → AppStats × List Effect
unfolding count_send
send_command s cmd (ProtoResult.ok, some f) answer = (count_send s answer, send f ∷ post cmd ∷ [])
send_command s cmd (r, f) answer = (s, [])

-- One iteration of `comms_task`.
unfoldable pub comms_iteration : Shared → Comms → Found → Shared × Comms × List Effect
unfolding send_heartbeat toggle_sweep next_sweep send_command
comms_iteration s c i =
    let (beaten, beats) = send_heartbeat s i in
    let (toggled, logs) = toggle_sweep beaten c i.button in
    let pressed = record c { button_was_down = i.button } in
    let (swept, cmd) = next_sweep pressed i.millis i.flip_ms in
    let (stats, sends) =
      send_command toggled.stats cmd (encode_command node_broadcast (some cmd) (some i.frame))
        i.command_answer in
    if not (s.node_id == controller_node_id)
    then (beaten, c, beats)
    else if not toggled.sweep_enabled
    then (toggled, pressed, beats ++ logs)
    else (record toggled { stats = stats }, swept, beats ++ logs ++ sends)

-- `app_view_t`; the list has the entries that are filled.
pub record AppView : Type 0 where
  pub node_id : ℕ
  pub controller : Bool
  pub sweep_enabled : Bool
  pub uptime_ms : ℕ
  pub peer_count : ℕ
  pub peers : List PeerView
  pub joint : JointState
  pub joint_flags : ℕ
  pub tx_frames : ℕ
  pub rx_frames : ℕ
  pub tx_busy : ℕ
  pub rx_dropped : ℕ
  pub tx_error_count : ℕ
  pub rx_error_count : ℕ
  pub bus_off : Bool
  pub loop_jitter_max_us : ℕ

-- `app_get_view`, at a time and with the driver's status.
unfoldable pub app_get_view : Shared → ℕ → CanStatus → AppView
app_get_view s uptime_ms cs = record {
  node_id = s.node_id;
  controller = s.node_id == controller_node_id;
  sweep_enabled = s.sweep_enabled;
  uptime_ms = uptime_ms;
  peer_count = length s.peer_view;
  peers = take 4 s.peer_view;
  joint = s.snapshot;
  joint_flags = s.joint_flags;
  tx_frames = s.stats.tx_frames;
  rx_frames = s.stats.rx_frames;
  tx_busy = s.stats.tx_busy;
  rx_dropped = s.stats.rx_dropped;
  tx_error_count = cs.tx_error_count;
  rx_error_count = cs.rx_error_count;
  bus_off = cs.bus_off;
  loop_jitter_max_us = s.stats.loop_jitter_max_us;
}

-- The sweep's target stays at plus or minus 90 degrees, the command carries it at 90 degrees a
-- second with the next sequence number, and the direction changes exactly when 3 seconds have passed
-- since it last did, on the wrapping clock.
pub next_sweep-target :
    (c : Comms) (millis flip_ms : ℕ)
    → (c.target ≡ pos 90000) ⊎ (c.target ≡ negsuc 89999)
    → let (k, cmd) = next_sweep c millis flip_ms in
      ((k.target ≡ pos 90000) ⊎ (k.target ≡ negsuc 89999))
      × (cmd.target_mdeg ≡ k.target)
      × (cmd.sequence ≡ k.seq)
      × (k.seq ≡ u16 (c.seq + 1))
      × (((leb 3000 (sub32 millis c.last_flip) ≡ true)
            × (k.target ≡ neg_ℤ c.target)
            × (k.last_flip ≡ flip_ms))
          ⊎ ((leb 3000 (sub32 millis c.last_flip) ≡ false)
              × (k.target ≡ c.target)
              × (k.last_flip ≡ c.last_flip)))
unfolding next_sweep
next_sweep-target c millis flip_ms h = ground arith
