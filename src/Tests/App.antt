-- ===== src/Tests/App.antt =====
-- app.c on concrete states of the tasks.
use robot_joint_stack.Prelude.{
  Option, none, ◌≤◌, ◌≡◌, refl, arith, true, some, List, [], ◌∷◌, map, take,
}
use robot_joint_stack.Prelude.Int.{pos, negsuc, ◌*ℤ◌, ◌/ℤ◌}
use robot_joint_stack.Prelude.Word.{IsI64}
use robot_joint_stack.Hal.{CanFrame, CanResult, zero_frame}
use robot_joint_stack.Protocol.{ProtoResult, Heartbeat, Command, mode_position, mode_disabled}
use robot_joint_stack.Joint.{joint_init, step_timeout, brake_velocity}
use robot_joint_stack.Joint.Bounds.{AreInRange}
use robot_joint_stack.Joint.Safe.{IsSafe}
use robot_joint_stack.Monitor.Invariant.{IsTable}
use robot_joint_stack.Monitor.Runs.{alive_peers}
use robot_joint_stack.App.{
  Shared, Locals, node_limits, view_of, can_rx_iteration, handle_frame, obey,
}
use robot_joint_stack.App.Obey.{EndsWith, obey_loop, obey_loop-ends}
use robot_joint_stack.Protocol.Messages.{encode_command, decode_command, frame_start, frame_check}
use robot_joint_stack.Protocol.Ident.{id_type, id_node, make_id}
use robot_joint_stack.Protocol.Bytes.{put_u16, put_u32, get_u16, get_u32}
use robot_joint_stack.Monitor.{poll}
use robot_joint_stack.App.Safe.{Round, control_rounds, control_rounds-IsSafe}
use robot_joint_stack.App.Receive.{can_rx_iteration-IsTable}
use robot_joint_stack.Queue.{Fifo}
use robot_joint_stack.Queue.Drain.{drains_all}
use robot_joint_stack.App.System.{
  Node, boot, after_arrival, after_receive, arrives, receives, here, step,
}
use robot_joint_stack.App.System.Sound.{IsSound, boot-Reaches}
use robot_joint_stack.App.System.Range.{control-AreInRange}
use robot_joint_stack.Tests.Queue.{bounded}

abbrev no_beat : Heartbeat
no_beat = record {
  state = 0;
  error_flags = 0;
  uptime_ms = 0;
  fw_major = 0;
  fw_minor = 0;
  fw_patch = 0;
}

abbrev far_left : Command
far_left = record {
  mode = mode_position;
  target_mdeg = negsuc 899999;
  max_velocity_mdeg_s = pos 90000;
  sequence = 1;
}

abbrev locals : Locals
locals = record { hb = no_beat; cmd = far_left; em = record { code = 0; detail = 0 } }

abbrev started : Shared
started = record {
  stats = record {
    rx_frames = 0;
    rx_dropped = 0;
    rx_decode_errors = 0;
    tx_frames = 0;
    tx_busy = 0;
    loop_count = 0;
    loop_jitter_max_us = 0;
    loop_overruns = 0;
  };
  monitor = record { peers = []; timeout_ms = 350; has_cb = true };
  snapshot = record {
    position_mdeg = pos 0;
    velocity_mdeg_s = pos 0;
    current_ma = pos 0;
    temperature_c10 = pos 0;
    last_command_seq = 0;
    mode = mode_disabled;
  };
  joint_flags = 0;
  alive_peers = 0;
  peer_view = [];
  sweep_enabled = true;
  node_id = 5;
}

abbrev one_round : Round
one_round = record {
  now = 600000;
  cyc_per_us = 600;
  cmds = far_left ∷ [];
  frame = zero_frame;
  answer = CanResult.err_busy;
}

control_rounds-IsSafe_example :
    IsSafe node_limits
      (control_rounds started
        (record { joint = joint_init node_limits; last_cycles = 0; ticks = 0 })
        (one_round ∷ one_round ∷ [])).1.joint
control_rounds-IsSafe_example = control_rounds-IsSafe started 0 (one_round ∷ one_round ∷ [])

started-IsTable : IsTable started.monitor
started-IsTable = record { entries = record {}; room = omega arith }

can_rx_iteration-IsTable_example :
    let k = (can_rx_iteration locals started (some zero_frame) 5 6).0 in
    IsTable k.monitor
    × (k.alive_peers ≡ alive_peers k.monitor.peers)
    × (k.alive_peers ≤ 16)
    × (k.peer_view ≡ map view_of (take 4 k.monitor.peers))
can_rx_iteration-IsTable_example =
    can_rx_iteration-IsTable locals started (some zero_frame) 5 6 started-IsTable

abbrev frames : Fifo (List CanFrame) CanFrame
frames = bounded 32

abbrev commands : Fifo (List Command) Command
commands = bounded 4

abbrev booted : Node (List CanFrame) (List Command)
booted = boot 5 1000 0 [] []

abbrev filled : ProtoResult × Option CanFrame → CanFrame
filled (r, some f) = f
filled (r, none) = zero_frame

-- The frame of a command to every node.
abbrev order_frame : CanFrame
order_frame = filled (encode_command 0 (some far_left) (some zero_frame))

abbrev one_arrived : Node (List CanFrame) (List Command)
one_arrived = after_arrival frames commands booted (frames.send booted.rx_queue order_frame)

abbrev one_received : Node (List CanFrame) (List Command)
one_received =
    after_receive frames commands one_arrived locals (frames.receive one_arrived.rx_queue) 7 8

abbrev two_arrived : Node (List CanFrame) (List Command)
two_arrived =
    after_arrival frames commands one_received (frames.send one_received.rx_queue zero_frame)

boot-Reaches_example : IsSound frames commands 2 two_arrived
boot-Reaches_example = boot-Reaches frames commands 5 1000 0 [] [] 2 two_arrived refl (
    step (step (step here (arrives booted order_frame)) (receives one_arrived locals 7 8))
      (arrives one_received zero_frame))

obey_loop-ends_example :
    EndsWith commands
      (obey (joint_init node_limits) (far_left ∷ far_left ∷ []))
      (obey_loop commands 3 (joint_init node_limits) (far_left ∷ far_left ∷ []))
obey_loop-ends_example =
    obey_loop-ends commands 3 (joint_init node_limits) (far_left ∷ far_left ∷ []) (omega arith)

-- A command has gone through the receive task to the queue of the control task.
order_received : one_received.cmd_queue ≡ far_left ∷ []
unfolding can_rx_iteration handle_frame encode_command decode_command boot id_type frame_start
    make_id id_node frame_check put_u16 put_u32 get_u32 poll get_u16
order_received = refl

control-AreInRange_example :
    let t = step_timeout (obey two_arrived.control.joint two_arrived.cmd_queue) 1 in
    AreInRange t 1
    × IsI64 (brake_velocity t.velocity_mdeg_s (t.cfg.accel_mdeg_s2 *ℤ pos 1 /ℤ 1000) *ℤ pos 1)
control-AreInRange_example =
    control-AreInRange frames commands 5 1000 0 [] [] 2 two_arrived two_arrived.cmd_queue
      (drains_all commands two_arrived.cmd_queue).0 refl refl
      (step (step (step here (arrives booted order_frame)) (receives one_arrived locals 7 8))
        (arrives one_received zero_frame))
      (drains_all commands two_arrived.cmd_queue).1
