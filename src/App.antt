-- ===== src/App.antt =====
-- app/joint_node/app.c and app.h: one iteration of each task over the state that the tasks share.
-- What FreeRTOS, the board and the CAN driver answer is an argument; what an iteration asks of them
-- is its list of effects, in order.
pub mod Safe
pub mod Receive
pub mod Comms
pub mod System
pub mod Send
pub mod Start
pub mod Obey
use robot_joint_stack.Prelude.{
  ℕ, zero, suc, ◌+◌, ◌-◌, ◌*◌, ◌/◌, ◌%◌, Bool, true, false, not, ◌&&◌, ◌||◌, if◌then◌else◌, ltb,
  leb, ◌==◌, bit_and, bit_or, Option, none, some, List, [], ◌∷◌, ◌++◌, map, take,
}
use robot_joint_stack.Prelude.Int.{ℤ, pos, negsuc, neg_ℤ}
use robot_joint_stack.Prelude.Word.{u16, u32, sub32}
use robot_joint_stack.Hal.{CanFrame, CanStatus, CanResult, zero_frame}
use robot_joint_stack.Protocol.{
  MsgType, msg_code, ProtoResult, Heartbeat, Command, JointState, Emergency, mode_position,
  mode_disabled, node_broadcast, err_can_passive, err_can_bus_off, err_tx_dropped, err_peer_lost,
  state_fault, state_operational, state_preop,
}
use robot_joint_stack.Protocol.Ident.{id_type, id_node}
use robot_joint_stack.Protocol.Messages.{
  encode_joint_state, encode_heartbeat, encode_command, decode_heartbeat, decode_command,
  decode_emergency,
}
use robot_joint_stack.Joint.{JointConfig, Joint, joint_command, joint_step, joint_get_state}
use robot_joint_stack.Monitor.{
  Monitor, MonitorEvent, Peer, PeerStatus, Calls, on_heartbeat, poll, alive_count,
}

-- `app_stats_t`; each counter is a uint32_t.
pub record AppStats : Type 0 where
  pub rx_frames : ℕ
  pub rx_dropped : ℕ
  pub rx_decode_errors : ℕ
  pub tx_frames : ℕ
  pub tx_busy : ℕ
  pub loop_count : ℕ
  pub loop_jitter_max_us : ℕ
  pub loop_overruns : ℕ

-- `app_peer_view_t`.
pub record PeerView : Type 0 where
  pub node : ℕ
  pub status : PeerStatus
  pub state : ℕ
  pub error_flags : ℕ

-- The variables that the tasks share, less the queues and the mutex.
pub record Shared : Type 0 where
  pub stats : AppStats
  pub monitor : Monitor
  pub snapshot : JointState
  pub joint_flags : ℕ
  pub alive_peers : ℕ
  pub peer_view : List PeerView
  pub sweep_enabled : Bool
  pub node_id : ℕ

-- What a task asks of the queues, the driver and the log.
pub data Effect : Type 0 where
  send : CanFrame → Effect
  post : Command → Effect
  log_event : MonitorEvent → Peer → Effect
  log_emergency : ℕ → Emergency → Effect
  log_sweep : Bool → Effect

-- `can_rx_isr`: whether the queue exists, and whether it took the frame.
unfoldable pub can_rx_isr : AppStats → Bool → Bool → AppStats
can_rx_isr s exists queued =
    if not exists || not queued then record s { rx_dropped = u32 (s.rx_dropped + 1) } else s

-- The counting of `can_send`, from what `rjs_can_send` returns.
unfoldable pub count_send : AppStats → CanResult → AppStats
count_send s CanResult.ok = record s { tx_frames = u32 (s.tx_frames + 1) }
count_send s CanResult.err_param = record s { tx_busy = u32 (s.tx_busy + 1) }
count_send s CanResult.err_busy = record s { tx_busy = u32 (s.tx_busy + 1) }
count_send s CanResult.err_hw = record s { tx_busy = u32 (s.tx_busy + 1) }

-- A frame that an encoder has filled is sent; `answer` is what the driver returns.
unfoldable pub send_encoded :
    AppStats → ProtoResult × Option CanFrame → CanResult → AppStats × List Effect
unfolding count_send
send_encoded s (ProtoResult.ok, some f) answer = (count_send s answer, send f ∷ [])
send_encoded s (r, f) answer = (s, [])

-- The configuration in `control_task`.
abbrev pub node_limits : JointConfig
node_limits = record {
  min_mdeg = negsuc 169999;
  max_mdeg = pos 170000;
  accel_mdeg_s2 = pos 360000;
  command_timeout_ms = 500;
}

-- The local variables of `control_task`.
pub record Control : Type 0 where
  pub joint : Joint
  pub last_cycles : ℕ  -- uint32_t
  pub ticks : ℕ  -- uint32_t

-- The statistics of the loop's timing.
unfoldable pub loop_timing : AppStats → ℕ → ℕ → AppStats
loop_timing s ticks period_us =
    let dev = if ltb 1000 period_us then period_us - 1000 else 1000 - period_us in
    if not (ltb 10 ticks) then s else record s {
      loop_jitter_max_us = if ltb s.loop_jitter_max_us dev then dev else s.loop_jitter_max_us;
      loop_overruns = if ltb 2000 period_us then u32 (s.loop_overruns + 1) else s.loop_overruns;
    }

-- The loop over the queued commands.
unfoldable pub obey : Joint → List Command → Joint
obey j [] = j
obey j (c ∷ cs) = obey (joint_command j c) cs

-- One iteration of `control_task`: the cycle counter and its cycles in a microsecond, the commands
-- that the queue holds, and what the driver answers. The frame `f` is not cleared before it is
-- encoded.
unfoldable pub control_iteration :
    Shared → Control → ℕ → ℕ → List Command → CanFrame → CanResult → Shared × Control × List Effect
unfolding loop_timing obey send_encoded
control_iteration s c now cyc_per_us cmds f answer =
    let timed = loop_timing s.stats c.ticks (sub32 now c.last_cycles / cyc_per_us) in
    let j = joint_step (obey c.joint cmds) 1 in
    let st = joint_get_state j in
    let ticks = u32 (c.ticks + 1) in
    let (sent, effects) =
      (if ticks % 10 == 0
        then send_encoded timed (encode_joint_state s.node_id (some st) (some f)) answer
        else (timed, [])) in
    (
      record s {
        stats = record sent { loop_count = u32 (sent.loop_count + 1) };
        snapshot = st;
        joint_flags = j.error_flags;
      },
      record { joint = j; last_cycles = now; ticks = ticks },
      effects,
    )

abbrev pub log_calls : Calls → List Effect
log_calls [] = []
log_calls ((ev, p) ∷ calls) = log_event ev p ∷ log_calls calls

abbrev pub decode_error : Shared → Shared
decode_error s = record s {
  stats = record s.stats { rx_decode_errors = u32 (s.stats.rx_decode_errors + 1) };
}

-- The cases of `handle_frame`, from what the decoder returns.
unfoldable pub take_heartbeat :
    Shared → ℕ → ℕ → ProtoResult × Option Heartbeat → Shared × List Effect
take_heartbeat s node now_ms (ProtoResult.ok, some hb) =
    let (m, calls, accepted) = on_heartbeat s.monitor node hb now_ms in
    (record s { monitor = m }, log_calls calls)
take_heartbeat s node now_ms (r, hb) = (decode_error s, [])

unfoldable pub take_command : Shared → ProtoResult × Option Command → Shared × List Effect
take_command s (ProtoResult.ok, some c) = (s, post c ∷ [])
take_command s (r, c) = (decode_error s, [])

unfoldable pub take_emergency : Shared → ℕ → ProtoResult × Option Emergency → Shared × List Effect
take_emergency s node (ProtoResult.ok, some em) = (s, log_emergency node em ∷ [])
take_emergency s node (r, em) = (s, [])

-- The locals that the decoders fill, with whatever they hold before.
pub record Locals : Type 0 where
  pub hb : Heartbeat
  pub cmd : Command
  pub em : Emergency

unfoldable pub handle_frame : Locals → Shared → ℕ → CanFrame → Shared × List Effect
unfolding take_heartbeat take_command take_emergency
handle_frame l s now_ms f =
    let node = id_node f.id in
    let type = id_type f.id in
    if type == msg_code MsgType.heartbeat
    then take_heartbeat s node now_ms (decode_heartbeat (some f) (some l.hb))
    else if type == msg_code MsgType.command
    then if not (node == s.node_id) && not (node == node_broadcast)
      then (s, [])
      else take_command s (decode_command (some f) (some l.cmd))
    else if type == msg_code MsgType.emergency
    then take_emergency s node (decode_emergency (some f) (some l.em))
    else (s, [])

abbrev pub view_of : Peer → PeerView
view_of p = record {
  node = p.node;
  status = p.status;
  state = p.last.state;
  error_flags = p.last.error_flags;
}

unfoldable pub receive : Locals → Shared → ℕ → Option CanFrame → Shared × List Effect
unfolding handle_frame
receive l s now_ms none = (s, [])
receive l s now_ms (some f) =
    handle_frame l (record s { stats = record s.stats { rx_frames = u32 (s.stats.rx_frames + 1) } })
      now_ms f

-- One iteration of `can_rx_task`: the frame that the queue gives, if any, and the clock when it is
-- handled and when the monitor is polled.
unfoldable pub can_rx_iteration : Locals → Shared → Option CanFrame → ℕ → ℕ → Shared × List Effect
unfolding receive
can_rx_iteration l s frame now_ms poll_ms =
    let (handled, effects) = receive l s now_ms frame in
    let (m, calls) = poll handled.monitor poll_ms in
    (
      record handled {
        monitor = m;
        alive_peers = alive_count (some m);
        peer_view = map view_of (take 4 m.peers);
      },
      effects ++ log_calls calls,
    )

unfoldable pub heartbeat_flags : Shared → CanStatus → ℕ
heartbeat_flags s cs =
    let passive =
      if cs.error_passive then bit_or s.joint_flags err_can_passive else s.joint_flags in
    let off = if cs.bus_off then bit_or passive err_can_bus_off else passive in
    if s.stats.tx_busy == 0 then off else bit_or off err_tx_dropped
