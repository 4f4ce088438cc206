-- ===== src/App/System.antt =====
-- app/joint_node/app.c: the whole node. The interrupt and the tasks take turns in any order, an
-- iteration at a time, over the shared state and the two queues.
pub mod Rx
pub mod Orders
pub mod Sound
pub mod Driven
pub mod Range
use robot_joint_stack.Prelude.{ℕ, ◌+◌, true, false, Option, none, some, List, [], ◌∷◌}
use robot_joint_stack.Hal.{CanFrame, CanResult}
use robot_joint_stack.Protocol.{Command}
use robot_joint_stack.Joint.{joint_init}
use robot_joint_stack.Monitor.{monitor_init}
use robot_joint_stack.Prelude.Int.{pos}
use robot_joint_stack.Queue.{Fifo}
use robot_joint_stack.Queue.Drain.{Drains}
use robot_joint_stack.App.{
  Shared, Control, Effect, send, post, log_event, log_emergency, log_sweep, Locals, can_rx_isr,
  control_iteration, can_rx_iteration, node_limits,
}
use robot_joint_stack.App.Comms.{Comms, Found, comms_iteration}

-- The shared variables, the locals that the tasks keep, and `s_rx_queue` and `s_cmd_queue`.
pub record Node (R C : Type 0) : Type 0 where
  pub shared : Shared
  pub control : Control
  pub comms : Comms
  pub rx_queue : R
  pub cmd_queue : C

-- `s_stats` to `s_node_id` as the tasks find them, the monitor being set up.
unfoldable pub boot_shared : ℕ → Shared
unfolding monitor_init
boot_shared node_id = record {
  stats = record {
    rx_frames = 0;
    rx_dropped = 0;
    rx_decode_errors = 0;
    tx_frames = 0;
    tx_busy = 0;
    loop_count = 0;
    loop_jitter_max_us = 0;
    loop_overruns = 0;
  };
  monitor = monitor_init 350 true;
  snapshot = record {
    position_mdeg = pos 0;
    velocity_mdeg_s = pos 0;
    current_ma = pos 0;
    temperature_c10 = pos 0;
    last_command_seq = 0;
    mode = 0;
  };
  joint_flags = 0;
  alive_peers = 0;
  peer_view = [];
  sweep_enabled = true;
  node_id = node_id;
}

-- The start of the tasks, with the cycle counter and the clock that they read, and the two queues.
unfoldable pub boot : {R C : Type 0} → ℕ → ℕ → ℕ → R → C → Node R C
unfolding boot_shared
boot node_id cycles millis r c = record {
  shared = boot_shared node_id;
  control = record { joint = joint_init node_limits; last_cycles = cycles; ticks = 0 };
  comms = record { seq = 0; target = pos 90000; last_flip = millis; button_was_down = false };
  rx_queue = r;
  cmd_queue = c;
}

-- The commands that an iteration sends to `s_cmd_queue`.
abbrev pub posted : List Effect → List Command
posted [] = []
posted (send f ∷ es) = posted es
posted (post c ∷ es) = c ∷ posted es
posted (log_event e p ∷ es) = posted es
posted (log_emergency n e ∷ es) = posted es
posted (log_sweep b ∷ es) = posted es

-- What the control task finds besides the commands.
pub record Turn : Type 0 where
  pub now : ℕ
  pub cyc_per_us : ℕ
  pub frame : CanFrame
  pub answer : CanResult

module _ {R C : Type 0} (rx : Fifo R CanFrame) (cmd : Fifo C Command) where
  abbrev pub accepted : C → Option C → C
  accepted q none = q
  accepted q (some k) = k

  -- A command that the queue refuses is lost.
  abbrev pub post_all : C → List Command → C
  post_all q [] = q
  post_all q (c ∷ cs) = post_all (accepted q (cmd.send q c)) cs

  -- The interrupt, from what the queue answers.
  abbrev pub after_arrival : Node R C → Option R → Node R C
  after_arrival n none = record n {
    shared = record n.shared { stats = can_rx_isr n.shared.stats true false };
  }
  after_arrival n (some q) = record n {
    shared = record n.shared { stats = can_rx_isr n.shared.stats true true };
    rx_queue = q;
  }

  abbrev pub after_control : Node R C → Turn → List Command → C → Node R C
  after_control n t cs q =
      let (s, c, effects) =
        control_iteration n.shared n.control t.now t.cyc_per_us cs t.frame t.answer in
      record n { shared = s; control = c; cmd_queue = q }

  -- The frame that the receive task gets, if there is one.
  abbrev pub got_frame : Option (CanFrame × R) → Option CanFrame
  got_frame none = none
  got_frame (some (f, q)) = some f

  abbrev queue_of : R → Option (CanFrame × R) → R
  queue_of q none = q
  queue_of q (some (f, k)) = k

  abbrev pub after_receive : Node R C → Locals → Option (CanFrame × R) → ℕ → ℕ → Node R C
  after_receive n l got now poll_at =
      let (s, effects) = can_rx_iteration l n.shared (got_frame got) now poll_at in
      record n {
        shared = s;
        rx_queue = queue_of n.rx_queue got;
        cmd_queue = post_all n.cmd_queue (posted effects);
      }

  abbrev pub after_comms : Node R C → Found → Node R C
  after_comms n i =
      let (s, c, effects) = comms_iteration n.shared n.comms i in
      record n { shared = s; comms = c; cmd_queue = post_all n.cmd_queue (posted effects) }

  -- A step, with the number of frames that arrive in it.
  pub data Step : Node R C → ℕ → Node R C → Type 0 where
    arrives : (n : Node R C) (f : CanFrame) → Step n 1 (after_arrival n (rx.send n.rx_queue f))
    controls :
        (n : Node R C) (t : Turn) {cs : List Command} {q : C}
        → Drains cmd n.cmd_queue cs q
        → Step n 0 (after_control n t cs q)
    receives :
        (n : Node R C) (l : Locals) (now poll_at : ℕ)
        → Step n 0 (after_receive n l (rx.receive n.rx_queue) now poll_at)
    communicates : (n : Node R C) (i : Found) → Step n 0 (after_comms n i)

  -- The states that are reached from a state, with the number of frames that have arrived.
  pub data Reaches (start : Node R C) : ℕ → Node R C → Type 0 where
    here : Reaches start 0 start
    step : {a b : ℕ} {n m : Node R C} → Reaches start a n → Step n b m → Reaches start (a + b) m
