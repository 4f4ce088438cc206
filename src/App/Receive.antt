-- ===== src/App/Receive.antt =====
-- The receive task: the table of peers stays well formed, and the published numbers agree with it.
use robot_joint_stack.Prelude.{
  ℕ, ◌≤◌, ◌≡◌, refl, Option, none, some, List, [], map, take, Bool, true, false, not, ◌&&◌, ◌==◌,
  if◌then◌else◌,
}
use robot_joint_stack.Hal.{CanFrame}
use robot_joint_stack.Protocol.{
  ProtoResult, Heartbeat, Command, Emergency, MsgType, msg_code, node_broadcast,
}
use robot_joint_stack.Protocol.Ident.{id_type, id_node}
use robot_joint_stack.Protocol.Messages.{decode_heartbeat, decode_command, decode_emergency}
use robot_joint_stack.Monitor.{poll}
use robot_joint_stack.Monitor.Invariant.{IsTable, on_heartbeat-IsTable, poll-IsTable}
use robot_joint_stack.Monitor.Runs.{alive_peers, alive_count_lem}
use robot_joint_stack.App.{
  Shared, Locals, Effect, view_of, take_heartbeat, take_command, take_emergency, handle_frame,
  receive, can_rx_iteration,
}

take_heartbeat-IsTable :
    (s : Shared) (node now : ℕ) (r : ProtoResult × Option Heartbeat)
    → IsTable s.monitor
    → IsTable (take_heartbeat s node now r).0.monitor
unfolding take_heartbeat
take_heartbeat-IsTable s node now (ProtoResult.ok, some hb) h =
    on_heartbeat-IsTable s.monitor node hb now h
take_heartbeat-IsTable s node now (ProtoResult.ok, none) h = h
take_heartbeat-IsTable s node now (ProtoResult.err_param, hb) h = h
take_heartbeat-IsTable s node now (ProtoResult.err_length, hb) h = h
take_heartbeat-IsTable s node now (ProtoResult.err_version, hb) h = h
take_heartbeat-IsTable s node now (ProtoResult.err_type, hb) h = h

take_command-monitor :
    (s : Shared) (r : ProtoResult × Option Command) → (take_command s r).0.monitor ≡ s.monitor
unfolding take_command
take_command-monitor s (ProtoResult.ok, some c) = refl
take_command-monitor s (ProtoResult.ok, none) = refl
take_command-monitor s (ProtoResult.err_param, c) = refl
take_command-monitor s (ProtoResult.err_length, c) = refl
take_command-monitor s (ProtoResult.err_version, c) = refl
take_command-monitor s (ProtoResult.err_type, c) = refl

take_emergency-monitor :
    (s : Shared) (node : ℕ) (r : ProtoResult × Option Emergency)
    → (take_emergency s node r).0.monitor ≡ s.monitor
unfolding take_emergency
take_emergency-monitor s node (ProtoResult.ok, some em) = refl
take_emergency-monitor s node (ProtoResult.ok, none) = refl
take_emergency-monitor s node (ProtoResult.err_param, em) = refl
take_emergency-monitor s node (ProtoResult.err_length, em) = refl
take_emergency-monitor s node (ProtoResult.err_version, em) = refl
take_emergency-monitor s node (ProtoResult.err_type, em) = refl

abbrev KeepsTable : Shared × List Effect → Type 0
KeepsTable r = IsTable r.0.monitor

either-KeepsTable :
    (b : Bool) (x y : Shared × List Effect)
    → KeepsTable x
    → KeepsTable y
    → KeepsTable (if b then x else y)
either-KeepsTable true x y hx hy = hx
either-KeepsTable false x y hx hy = hy

take_command-KeepsTable :
    (s : Shared) (r : ProtoResult × Option Command)
    → IsTable s.monitor
    → KeepsTable (take_command s r)
take_command-KeepsTable s r h = rw (take_command-monitor s r) h

take_emergency-KeepsTable :
    (s : Shared) (node : ℕ) (r : ProtoResult × Option Emergency)
    → IsTable s.monitor
    → KeepsTable (take_emergency s node r)
take_emergency-KeepsTable s node r h = rw (take_emergency-monitor s node r) h

handle_frame-KeepsTable :
    (l : Locals) (s : Shared) (now : ℕ) (f : CanFrame)
    → IsTable s.monitor
    → KeepsTable (handle_frame l s now f)
unfolding handle_frame
handle_frame-KeepsTable l s now f h =
    let node = id_node f.id in
    let type = id_type f.id in
    let hb = take_heartbeat s node now (decode_heartbeat (some f) (some l.hb)) in
    let cmd = take_command s (decode_command (some f) (some l.cmd)) in
    let em = take_emergency s node (decode_emergency (some f) (some l.em)) in
    let other = not (node == s.node_id) && not (node == node_broadcast) in
    let rest = if type == msg_code MsgType.emergency then em else (s, []) in
    let mine = if other then (s, []) else cmd in
    either-KeepsTable (type == msg_code MsgType.heartbeat) hb
      (if type == msg_code MsgType.command then mine else rest)
      (take_heartbeat-IsTable s node now (decode_heartbeat (some f) (some l.hb)) h)
      (either-KeepsTable (type == msg_code MsgType.command) mine rest
        (either-KeepsTable other (s, []) cmd h
          (take_command-KeepsTable s (decode_command (some f) (some l.cmd)) h))
        (either-KeepsTable (type == msg_code MsgType.emergency) em (s, [])
          (take_emergency-KeepsTable s node (decode_emergency (some f) (some l.em)) h) h))

receive-KeepsTable :
    (l : Locals) (s : Shared) (now : ℕ) (frame : Option CanFrame)
    → IsTable s.monitor
    → KeepsTable (receive l s now frame)
unfolding receive
receive-KeepsTable l s now none h = h
receive-KeepsTable l s now (some f) h = handle_frame-KeepsTable l _ now f h

-- An iteration of the receive task, with any frame or none and at any times, keeps the table of
-- peers well formed; the number of peers that it publishes is the number of entries that are alive,
-- at most 16, and the published view is that of the first four entries.
pub can_rx_iteration-IsTable :
    (l : Locals) (s : Shared) (frame : Option CanFrame) (now poll_at : ℕ)
    → IsTable s.monitor
    → let k = (can_rx_iteration l s frame now poll_at).0 in
      IsTable k.monitor
      × (k.alive_peers ≡ alive_peers k.monitor.peers)
      × (k.alive_peers ≤ 16)
      × (k.peer_view ≡ map view_of (take 4 k.monitor.peers))
unfolding can_rx_iteration
can_rx_iteration-IsTable l s frame now poll_at h =
    let handled = receive l s now frame in
    let table = poll-IsTable handled.0.monitor poll_at (receive-KeepsTable l s now frame h) in
    let count = alive_count_lem (poll handled.0.monitor poll_at).0 table in
    (table, count.0, count.1, refl)
