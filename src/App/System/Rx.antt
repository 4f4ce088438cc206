-- ===== src/App/System/Rx.antt =====
-- Which operations of the tasks change the counters of received frames.
use robot_joint_stack.Prelude.{
  ℕ, ◌+◌, ◌/◌, ◌%◌, ◌≡◌, ◌∙◌, refl, Bool, true, false, not, ◌&&◌, if◌then◌else◌, ltb, ◌==◌, Option,
  none, some, List, [], ◌∷◌, ◌++◌, Bool-cases, inl, inr,
}
use robot_joint_stack.Prelude.Word.{u32, sub32}
use robot_joint_stack.Hal.{CanFrame, CanResult}
use robot_joint_stack.Protocol.{
  ProtoResult, Heartbeat, Command, Emergency, MsgType, msg_code, node_broadcast,
}
use robot_joint_stack.Protocol.Ident.{id_type, id_node}
use robot_joint_stack.Joint.{joint_step, joint_get_state}
use robot_joint_stack.Protocol.Messages.{
  encode_joint_state, encode_heartbeat, encode_command, decode_heartbeat, decode_command,
  decode_emergency,
}
use robot_joint_stack.App.{
  AppStats, Shared, Control, Effect, Locals, count_send, send_encoded, loop_timing,
  control_iteration, take_heartbeat, take_command, take_emergency, handle_frame, receive, obey,
  heartbeat_flags, log_sweep, can_rx_iteration,
}
use robot_joint_stack.App.Comms.{
  Comms, Found, own_heartbeat, next_sweep, controller_node_id, send_heartbeat, toggle_sweep,
  send_command, comms_iteration,
}

-- The counters of the frames that were received and of those that were dropped are the same.
abbrev pub SameRx : AppStats → AppStats → Type 0
SameRx s k = (k.rx_frames ≡ s.rx_frames) × (k.rx_dropped ≡ s.rx_dropped)

count_send-SameRx : (s : AppStats) (answer : CanResult) → SameRx s (count_send s answer)
unfolding count_send
count_send-SameRx s CanResult.ok = (refl, refl)
count_send-SameRx s CanResult.err_param = (refl, refl)
count_send-SameRx s CanResult.err_busy = (refl, refl)
count_send-SameRx s CanResult.err_hw = (refl, refl)

send_encoded-SameRx :
    (s : AppStats) (e : ProtoResult × Option CanFrame) (answer : CanResult)
    → SameRx s (send_encoded s e answer).0
unfolding send_encoded
send_encoded-SameRx s (ProtoResult.ok, some f) answer = count_send-SameRx s answer
send_encoded-SameRx s (ProtoResult.ok, none) answer = (refl, refl)
send_encoded-SameRx s (ProtoResult.err_param, f) answer = (refl, refl)
send_encoded-SameRx s (ProtoResult.err_length, f) answer = (refl, refl)
send_encoded-SameRx s (ProtoResult.err_version, f) answer = (refl, refl)
send_encoded-SameRx s (ProtoResult.err_type, f) answer = (refl, refl)

send_command-SameRx :
    (s : AppStats) (c : Command) (e : ProtoResult × Option CanFrame) (answer : CanResult)
    → SameRx s (send_command s c e answer).0
unfolding send_command
send_command-SameRx s c (ProtoResult.ok, some f) answer = count_send-SameRx s answer
send_command-SameRx s c (ProtoResult.ok, none) answer = (refl, refl)
send_command-SameRx s c (ProtoResult.err_param, f) answer = (refl, refl)
send_command-SameRx s c (ProtoResult.err_length, f) answer = (refl, refl)
send_command-SameRx s c (ProtoResult.err_version, f) answer = (refl, refl)
send_command-SameRx s c (ProtoResult.err_type, f) answer = (refl, refl)

loop_timing-SameRx : (s : AppStats) (ticks period : ℕ) → SameRx s (loop_timing s ticks period)
unfolding loop_timing
loop_timing-SameRx s ticks period = elim (Bool-cases (ltb 10 ticks)) [
  | inl late ↦ rw late (refl, refl)
  | inr early ↦ rw early (refl, refl)
]

-- A choice between two results keeps what both keep.
either-SameRx :
    (b : Bool) (s : AppStats) (x y : AppStats × List Effect)
    → SameRx s x.0
    → SameRx s y.0
    → SameRx s (if b then x else y).0
either-SameRx true s x y hx hy = hx
either-SameRx false s x y hx hy = hy

pub control_iteration-SameRx :
    (s : Shared) (c : Control) (now cyc : ℕ) (cs : List Command) (f : CanFrame) (answer : CanResult)
    → SameRx s.stats (control_iteration s c now cyc cs f answer).0.stats
unfolding control_iteration
control_iteration-SameRx s c now cyc cs f answer =
    let timed = loop_timing s.stats c.ticks (sub32 now c.last_cycles / cyc) in
    let st = joint_get_state (joint_step (obey c.joint cs) 1) in
    let sent = send_encoded timed (encode_joint_state s.node_id (some st) (some f)) answer in
    let kept =
      either-SameRx (u32 (c.ticks + 1) % 10 == 0) timed sent (timed, [])
        (send_encoded-SameRx timed (encode_joint_state s.node_id (some st) (some f)) answer)
        (refl, refl) in
    let before = loop_timing-SameRx s.stats c.ticks (sub32 now c.last_cycles / cyc) in
    (kept.0 ∙ before.0, kept.1 ∙ before.1)

abbrev Keeps : Shared → Shared × List Effect → Type 0
Keeps s r = SameRx s.stats r.0.stats × (r.0.snapshot ≡ s.snapshot)

either-Keeps :
    (b : Bool) (s : Shared) (x y : Shared × List Effect)
    → Keeps s x
    → Keeps s y
    → Keeps s (if b then x else y)
either-Keeps true s x y hx hy = hx
either-Keeps false s x y hx hy = hy

take_heartbeat-Keeps :
    (s : Shared) (node now : ℕ) (r : ProtoResult × Option Heartbeat)
    → Keeps s (take_heartbeat s node now r)
unfolding take_heartbeat
take_heartbeat-Keeps s node now (ProtoResult.ok, some hb) = ((refl, refl), refl)
take_heartbeat-Keeps s node now (ProtoResult.ok, none) = ((refl, refl), refl)
take_heartbeat-Keeps s node now (ProtoResult.err_param, hb) = ((refl, refl), refl)
take_heartbeat-Keeps s node now (ProtoResult.err_length, hb) = ((refl, refl), refl)
take_heartbeat-Keeps s node now (ProtoResult.err_version, hb) = ((refl, refl), refl)
take_heartbeat-Keeps s node now (ProtoResult.err_type, hb) = ((refl, refl), refl)

take_command-Keeps : (s : Shared) (r : ProtoResult × Option Command) → Keeps s (take_command s r)
unfolding take_command
take_command-Keeps s (ProtoResult.ok, some c) = ((refl, refl), refl)
take_command-Keeps s (ProtoResult.ok, none) = ((refl, refl), refl)
take_command-Keeps s (ProtoResult.err_param, c) = ((refl, refl), refl)
take_command-Keeps s (ProtoResult.err_length, c) = ((refl, refl), refl)
take_command-Keeps s (ProtoResult.err_version, c) = ((refl, refl), refl)
take_command-Keeps s (ProtoResult.err_type, c) = ((refl, refl), refl)

take_emergency-Keeps :
    (s : Shared) (node : ℕ) (r : ProtoResult × Option Emergency) → Keeps s (take_emergency s node r)
unfolding take_emergency
take_emergency-Keeps s node (ProtoResult.ok, some em) = ((refl, refl), refl)
take_emergency-Keeps s node (ProtoResult.ok, none) = ((refl, refl), refl)
take_emergency-Keeps s node (ProtoResult.err_param, em) = ((refl, refl), refl)
take_emergency-Keeps s node (ProtoResult.err_length, em) = ((refl, refl), refl)
take_emergency-Keeps s node (ProtoResult.err_version, em) = ((refl, refl), refl)
take_emergency-Keeps s node (ProtoResult.err_type, em) = ((refl, refl), refl)

handle_frame-Keeps :
    (l : Locals) (s : Shared) (now : ℕ) (f : CanFrame) → Keeps s (handle_frame l s now f)
unfolding handle_frame
handle_frame-Keeps l s now f =
    let node = id_node f.id in
    let type = id_type f.id in
    let hb = take_heartbeat s node now (decode_heartbeat (some f) (some l.hb)) in
    let cmd = take_command s (decode_command (some f) (some l.cmd)) in
    let em = take_emergency s node (decode_emergency (some f) (some l.em)) in
    let other = not (node == s.node_id) && not (node == node_broadcast) in
    let rest = if type == msg_code MsgType.emergency then em else (s, []) in
    let mine = if other then (s, []) else cmd in
    either-Keeps (type == msg_code MsgType.heartbeat) s hb
      (if type == msg_code MsgType.command then mine else rest)
      (take_heartbeat-Keeps s node now (decode_heartbeat (some f) (some l.hb)))
      (either-Keeps (type == msg_code MsgType.command) s mine rest
        (either-Keeps other s (s, []) cmd ((refl, refl), refl)
          (take_command-Keeps s (decode_command (some f) (some l.cmd))))
        (either-Keeps (type == msg_code MsgType.emergency) s em (s, [])
          (take_emergency-Keeps s node (decode_emergency (some f) (some l.em)))
          ((refl, refl), refl)))

-- The receive task counts the frame that it gets.
abbrev pub taken : Option CanFrame → ℕ → ℕ
taken none n = n
taken (some f) n = u32 (n + 1)

pub can_rx_iteration-rx :
    (l : Locals) (s : Shared) (frame : Option CanFrame) (now poll_at : ℕ)
    → let k = (can_rx_iteration l s frame now poll_at).0 in
      ((k.stats.rx_frames ≡ taken frame s.stats.rx_frames)
        × (k.stats.rx_dropped ≡ s.stats.rx_dropped))
      × (k.snapshot ≡ s.snapshot)
unfolding can_rx_iteration receive
can_rx_iteration-rx l s none now poll_at = ((refl, refl), refl)
can_rx_iteration-rx l s (some f) now poll_at = handle_frame-Keeps l _ now f

send_heartbeat-Keeps : (s : Shared) (i : Found) → Keeps s (send_heartbeat s i)
unfolding send_heartbeat
send_heartbeat-Keeps s i = (
  send_encoded-SameRx s.stats
      (encode_heartbeat s.node_id (some (own_heartbeat s (heartbeat_flags s i.status) i.uptime_ms))
        (some i.frame))
      i.heartbeat_answer,
  refl,
)

toggle_sweep-Keeps : (s : Shared) (c : Comms) (down : Bool) → Keeps s (toggle_sweep s c down)
unfolding toggle_sweep
toggle_sweep-Keeps s c down =
    either-Keeps (down && not c.button_was_down) s
      (record s { sweep_enabled = not s.sweep_enabled }, log_sweep (not s.sweep_enabled) ∷ [])
      (s, []) ((refl, refl), refl) ((refl, refl), refl)

-- The communication task changes nothing that the other tasks publish.
abbrev pub SameView : Shared → Shared → Type 0
SameView s k =
    (k.monitor ≡ s.monitor)
    × (k.alive_peers ≡ s.alive_peers)
    × (k.peer_view ≡ s.peer_view)
    × (k.snapshot ≡ s.snapshot)

abbrev SameAll : Shared → Shared → Type 0
SameAll s k = SameRx s.stats k.stats × SameView s k

either-comms :
    (b : Bool) (s : Shared) (x y : Shared × Comms × List Effect)
    → SameAll s x.0
    → SameAll s y.0
    → SameAll s (if b then x else y).0
either-comms true s x y hx hy = hx
either-comms false s x y hx hy = hy

send_heartbeat-SameView : (s : Shared) (i : Found) → SameView s (send_heartbeat s i).0
unfolding send_heartbeat
send_heartbeat-SameView s i = (refl, refl, refl, refl)

toggle_sweep-SameView :
    (s : Shared) (c : Comms) (down : Bool) → SameView s (toggle_sweep s c down).0
unfolding toggle_sweep
toggle_sweep-SameView s c down = elim (Bool-cases (down && not c.button_was_down)) [
  | inl pressed ↦ rw pressed (refl, refl, refl, refl)
  | inr not_pressed ↦ rw not_pressed (refl, refl, refl, refl)
]

pub comms_iteration-SameAll :
    (s : Shared) (c : Comms) (i : Found) → SameAll s (comms_iteration s c i).0
unfolding comms_iteration
comms_iteration-SameAll s c i =
    let (beaten, beats) = send_heartbeat s i in
    let (toggled, logs) = toggle_sweep beaten c i.button in
    let pressed = record c { button_was_down = i.button } in
    let (swept, cmd) = next_sweep pressed i.millis i.flip_ms in
    let encoded = encode_command node_broadcast (some cmd) (some i.frame) in
    let (stats, sends) = send_command toggled.stats cmd encoded i.command_answer in
    let h = (send_heartbeat-Keeps s i).0 in
    let t = (toggle_sweep-Keeps beaten c i.button).0 in
    let k = send_command-SameRx toggled.stats cmd encoded i.command_answer in
    let v = toggle_sweep-SameView beaten c i.button in
    either-comms (not (s.node_id == controller_node_id)) s (beaten, c, beats)
      (if not toggled.sweep_enabled
        then (toggled, pressed, beats ++ logs)
        else (record toggled { stats = stats }, swept, beats ++ logs ++ sends))
      (h, send_heartbeat-SameView s i)
      (either-comms (not toggled.sweep_enabled) s (toggled, pressed, beats ++ logs)
        (record toggled { stats = stats }, swept, beats ++ logs ++ sends)
        ((t.0 ∙ h.0, t.1 ∙ h.1), v) ((k.0 ∙ (t.0 ∙ h.0), k.1 ∙ (t.1 ∙ h.1)), v))
