-- ===== src/App/System/Orders.antt =====
-- Which commands the tasks put into the queue of the control task.
use robot_joint_stack.Prelude.{
  inr, ℕ, ◌+◌, arith, Bool, true, false, not, ◌&&◌, if◌then◌else◌, ◌==◌, Option, none, some, List,
  [], ◌∷◌, ◌++◌,
}
use robot_joint_stack.Prelude.Word.{u32}
use robot_joint_stack.Hal.{CanFrame, CanResult}
use robot_joint_stack.Protocol.{
  ProtoResult, Heartbeat, Command, Emergency, MsgType, msg_code, node_broadcast,
}
use robot_joint_stack.Protocol.Ident.{id_type, id_node}
use robot_joint_stack.Protocol.Messages.{
  encode_heartbeat, encode_command, decode_heartbeat, decode_command, decode_emergency,
}
use robot_joint_stack.Protocol.Messages.Order.{IsOrder, GivesOrder, decode_command-GivesOrder}
use robot_joint_stack.Monitor.{Calls, on_heartbeat, poll}
use robot_joint_stack.App.{
  AppStats, Shared, Effect, Locals, send, post, log_event, log_emergency, log_sweep, log_calls,
  send_encoded, take_heartbeat, take_command, take_emergency, handle_frame, receive,
  heartbeat_flags, can_rx_iteration,
}
use robot_joint_stack.App.Comms.{
  Comms, Found, own_heartbeat, next_sweep, controller_node_id, send_heartbeat, toggle_sweep,
  send_command, comms_iteration,
}

-- Every command that is posted is one.
abbrev pub PostOrders : List Effect → Type 0
PostOrders [] = Unit {0}
PostOrders (send f ∷ es) = PostOrders es
PostOrders (post c ∷ es) = IsOrder c × PostOrders es
PostOrders (log_event e p ∷ es) = PostOrders es
PostOrders (log_emergency n e ∷ es) = PostOrders es
PostOrders (log_sweep b ∷ es) = PostOrders es

PostOrders-append : (es fs : List Effect) → PostOrders es → PostOrders fs → PostOrders (es ++ fs)
PostOrders-append [] fs h k = k
PostOrders-append (send f ∷ es) fs h k = PostOrders-append es fs h k
PostOrders-append (post c ∷ es) fs h k = (h.0, PostOrders-append es fs h.1 k)
PostOrders-append (log_event e p ∷ es) fs h k = PostOrders-append es fs h k
PostOrders-append (log_emergency n e ∷ es) fs h k = PostOrders-append es fs h k
PostOrders-append (log_sweep b ∷ es) fs h k = PostOrders-append es fs h k

log_calls-PostOrders : (cs : Calls) → PostOrders (log_calls cs)
log_calls-PostOrders [] = tt
log_calls-PostOrders ((e, p) ∷ cs) = log_calls-PostOrders cs

send_encoded-PostOrders :
    (s : AppStats) (e : ProtoResult × Option CanFrame) (answer : CanResult)
    → PostOrders (send_encoded s e answer).1
unfolding send_encoded
send_encoded-PostOrders s (ProtoResult.ok, some f) answer = tt
send_encoded-PostOrders s (ProtoResult.ok, none) answer = tt
send_encoded-PostOrders s (ProtoResult.err_param, f) answer = tt
send_encoded-PostOrders s (ProtoResult.err_length, f) answer = tt
send_encoded-PostOrders s (ProtoResult.err_version, f) answer = tt
send_encoded-PostOrders s (ProtoResult.err_type, f) answer = tt

send_command-PostOrders :
    (s : AppStats) (c : Command) (e : ProtoResult × Option CanFrame) (answer : CanResult)
    → IsOrder c
    → PostOrders (send_command s c e answer).1
unfolding send_command
send_command-PostOrders s c (ProtoResult.ok, some f) answer h = (h, tt)
send_command-PostOrders s c (ProtoResult.ok, none) answer h = tt
send_command-PostOrders s c (ProtoResult.err_param, f) answer h = tt
send_command-PostOrders s c (ProtoResult.err_length, f) answer h = tt
send_command-PostOrders s c (ProtoResult.err_version, f) answer h = tt
send_command-PostOrders s c (ProtoResult.err_type, f) answer h = tt

take_heartbeat-PostOrders :
    (s : Shared) (node now : ℕ) (r : ProtoResult × Option Heartbeat)
    → PostOrders (take_heartbeat s node now r).1
unfolding take_heartbeat
take_heartbeat-PostOrders s node now (ProtoResult.ok, some hb) =
    log_calls-PostOrders (on_heartbeat s.monitor node hb now).1
take_heartbeat-PostOrders s node now (ProtoResult.ok, none) = tt
take_heartbeat-PostOrders s node now (ProtoResult.err_param, hb) = tt
take_heartbeat-PostOrders s node now (ProtoResult.err_length, hb) = tt
take_heartbeat-PostOrders s node now (ProtoResult.err_version, hb) = tt
take_heartbeat-PostOrders s node now (ProtoResult.err_type, hb) = tt

take_command-PostOrders :
    (s : Shared) (r : ProtoResult × Option Command) → GivesOrder r → PostOrders (take_command s r).1
unfolding take_command
take_command-PostOrders s (ProtoResult.ok, some c) h = (h, tt)
take_command-PostOrders s (ProtoResult.ok, none) h = tt
take_command-PostOrders s (ProtoResult.err_param, c) h = tt
take_command-PostOrders s (ProtoResult.err_length, c) h = tt
take_command-PostOrders s (ProtoResult.err_version, c) h = tt
take_command-PostOrders s (ProtoResult.err_type, c) h = tt

take_emergency-PostOrders :
    (s : Shared) (node : ℕ) (r : ProtoResult × Option Emergency)
    → PostOrders (take_emergency s node r).1
unfolding take_emergency
take_emergency-PostOrders s node (ProtoResult.ok, some em) = tt
take_emergency-PostOrders s node (ProtoResult.ok, none) = tt
take_emergency-PostOrders s node (ProtoResult.err_param, em) = tt
take_emergency-PostOrders s node (ProtoResult.err_length, em) = tt
take_emergency-PostOrders s node (ProtoResult.err_version, em) = tt
take_emergency-PostOrders s node (ProtoResult.err_type, em) = tt

-- A choice between two results whose commands are orders.
either-PostOrders {ℓ} :
    {S : Type ℓ} (b : Bool) (x y : S × List Effect)
    → PostOrders x.1
    → PostOrders y.1
    → PostOrders (if b then x else y).1
either-PostOrders true x y hx hy = hx
either-PostOrders false x y hx hy = hy

handle_frame-PostOrders :
    (l : Locals) (s : Shared) (now : ℕ) (f : CanFrame) → PostOrders (handle_frame l s now f).1
unfolding handle_frame
handle_frame-PostOrders l s now f =
    let node = id_node f.id in
    let type = id_type f.id in
    let hb = take_heartbeat s node now (decode_heartbeat (some f) (some l.hb)) in
    let cmd = take_command s (decode_command (some f) (some l.cmd)) in
    let em = take_emergency s node (decode_emergency (some f) (some l.em)) in
    let other = not (node == s.node_id) && not (node == node_broadcast) in
    let rest = if type == msg_code MsgType.emergency then em else (s, []) in
    let mine = if other then (s, []) else cmd in
    either-PostOrders (type == msg_code MsgType.heartbeat) hb
      (if type == msg_code MsgType.command then mine else rest)
      (take_heartbeat-PostOrders s node now (decode_heartbeat (some f) (some l.hb)))
      (either-PostOrders (type == msg_code MsgType.command) mine rest
        (either-PostOrders other (s, []) cmd tt
          (take_command-PostOrders s (decode_command (some f) (some l.cmd))
            (decode_command-GivesOrder f l.cmd)))
        (either-PostOrders (type == msg_code MsgType.emergency) em (s, [])
          (take_emergency-PostOrders s node (decode_emergency (some f) (some l.em))) tt))

pub can_rx_iteration-PostOrders :
    (l : Locals) (s : Shared) (frame : Option CanFrame) (now poll_at : ℕ)
    → PostOrders (can_rx_iteration l s frame now poll_at).1
unfolding can_rx_iteration receive
can_rx_iteration-PostOrders l s none now poll_at = log_calls-PostOrders (poll s.monitor poll_at).1
can_rx_iteration-PostOrders l s (some f) now poll_at =
    let counted = record s { stats = record s.stats { rx_frames = u32 (s.stats.rx_frames + 1) } } in
    let (handled, effects) = handle_frame l counted now f in
    PostOrders-append effects (log_calls (poll handled.monitor poll_at).1)
      (handle_frame-PostOrders l counted now f)
      (log_calls-PostOrders (poll handled.monitor poll_at).1)

swept-IsOrder : (c : Comms) (millis flip_ms : ℕ) → IsOrder (next_sweep c millis flip_ms).1
unfolding next_sweep
swept-IsOrder c millis flip_ms = (omega arith, inr (omega arith), (omega arith, omega arith))

toggle_sweep-PostOrders :
    (s : Shared) (c : Comms) (down : Bool) → PostOrders (toggle_sweep s c down).1
unfolding toggle_sweep
toggle_sweep-PostOrders s c down =
    either-PostOrders (down && not c.button_was_down)
      (record s { sweep_enabled = not s.sweep_enabled }, log_sweep (not s.sweep_enabled) ∷ [])
      (s, []) tt tt

send_heartbeat-PostOrders : (s : Shared) (i : Found) → PostOrders (send_heartbeat s i).1
unfolding send_heartbeat
send_heartbeat-PostOrders s i =
    send_encoded-PostOrders s.stats
      (encode_heartbeat s.node_id (some (own_heartbeat s (heartbeat_flags s i.status) i.uptime_ms))
        (some i.frame))
      i.heartbeat_answer

either_comms-PostOrders :
    (b : Bool) (x y : Shared × Comms × List Effect)
    → PostOrders x.2
    → PostOrders y.2
    → PostOrders (if b then x else y).2
either_comms-PostOrders true x y hx hy = hx
either_comms-PostOrders false x y hx hy = hy

pub comms_iteration-PostOrders :
    (s : Shared) (c : Comms) (i : Found) → PostOrders (comms_iteration s c i).2
unfolding comms_iteration
comms_iteration-PostOrders s c i =
    let (beaten, beats) = send_heartbeat s i in
    let (toggled, logs) = toggle_sweep beaten c i.button in
    let pressed = record c { button_was_down = i.button } in
    let (swept, cmd) = next_sweep pressed i.millis i.flip_ms in
    let encoded = encode_command node_broadcast (some cmd) (some i.frame) in
    let (stats, sends) = send_command toggled.stats cmd encoded i.command_answer in
    let h = send_heartbeat-PostOrders s i in
    let t = toggle_sweep-PostOrders beaten c i.button in
    let k =
      send_command-PostOrders toggled.stats cmd encoded i.command_answer
        (swept-IsOrder pressed i.millis i.flip_ms) in
    either_comms-PostOrders (not (s.node_id == controller_node_id)) (beaten, c, beats)
      (if not toggled.sweep_enabled
        then (toggled, pressed, beats ++ logs)
        else (record toggled { stats = stats }, swept, beats ++ logs ++ sends))
      h
      (either_comms-PostOrders (not toggled.sweep_enabled) (toggled, pressed, beats ++ logs)
        (record toggled { stats = stats }, swept, beats ++ logs ++ sends)
        (PostOrders-append beats logs h t)
        (PostOrders-append (beats ++ logs) sends (PostOrders-append beats logs h t) k))
