-- ===== src/App/System/Sound.antt =====
-- What holds of the node after any interleaving of its tasks and interrupts.
use robot_joint_stack.Prelude.{
  ℕ, ◌+◌, ◌≡◌, ◌∙◌, refl, ap, arith, Option, none, some, List, [], ◌∷◌, map, take, length,
  length-append,
}
use mathlib.Core.Path.{subst}
use robot_joint_stack.Prelude.Int.{pos, negsuc}
use robot_joint_stack.Prelude.Word.{u32}
use robot_joint_stack.Hal.{CanFrame}
use robot_joint_stack.Protocol.{Command}
use robot_joint_stack.Joint.{Joint, joint_command, joint_get_state}
use robot_joint_stack.Joint.Safe.{
  joint_init-IsSafe, Within, IsSafe, joint_command-IsSafe, joint_step-IsSafe,
}
use robot_joint_stack.Monitor.Invariant.{IsTable}
use robot_joint_stack.Monitor.Runs.{alive_peers}
use robot_joint_stack.Queue.{Fifo}
use robot_joint_stack.App.{Locals, can_rx_isr, control_iteration, node_limits, obey, view_of}
use robot_joint_stack.App.Safe.{node_limits-IsConfig}
use robot_joint_stack.App.Receive.{can_rx_iteration-IsTable}
use robot_joint_stack.App.Comms.{Found}
use robot_joint_stack.App.System.{
  boot, Node, Turn, after_arrival, after_control, after_receive, after_comms, Step, arrives,
  controls, receives, communicates, Reaches, here, step,
}
use robot_joint_stack.App.System.Rx.{
  control_iteration-SameRx, can_rx_iteration-rx, comms_iteration-SameAll,
}

pub obey-IsSafe :
    (cs : List Command) (j : Joint) → IsSafe node_limits j → IsSafe node_limits (obey j cs)
unfolding obey
obey-IsSafe [] j h = h
obey-IsSafe (c ∷ cs) j h =
    obey-IsSafe cs (joint_command j c) (joint_command-IsSafe node_limits j c node_limits-IsConfig h)

module _ {R C : Type 0} (rx : Fifo R CanFrame) (cmd : Fifo C Command) where
  -- The joint is between its soft limits and so is the position that is published; the table of
  -- peers is well formed and what is published agrees with it; of the `arrived` frames each is
  -- counted as received, waits in the queue, or is counted as dropped.
  pub record IsSound (arrived : ℕ) (n : Node R C) : Type 0 where
    pub joint : IsSafe node_limits n.control.joint
    pub shown : Within (negsuc 169999) (pos 170000) n.shared.snapshot.position_mdeg
    pub table : IsTable n.shared.monitor
    pub alive : n.shared.alive_peers ≡ alive_peers n.shared.monitor.peers
    pub view : n.shared.peer_view ≡ map view_of (take 4 n.shared.monitor.peers)
    pub frames :
        u32 (n.shared.stats.rx_frames + length (rx.items n.rx_queue) + n.shared.stats.rx_dropped)
        ≡ u32 arrived

  after_control-IsSound :
      (a : ℕ) (n : Node R C) (t : Turn) (cs : List Command) (q : C)
      → IsSound a n
      → IsSound a (after_control rx cmd n t cs q)
  unfolding control_iteration joint_get_state
  after_control-IsSound a n t cs q h =
      let safe =
        joint_step-IsSafe node_limits (obey n.control.joint cs) 1 node_limits-IsConfig
          (obey-IsSafe cs n.control.joint h.joint) in
      let same =
        control_iteration-SameRx n.shared n.control t.now t.cyc_per_us cs t.frame t.answer in
      record {
        joint = safe;
        shown = safe.position;
        table = h.table;
        alive = h.alive;
        view = h.view;
        frames = rw (same.0, same.1) h.frames;
      }

  after_arrival-IsSound :
      (a : ℕ) (n : Node R C) (f : CanFrame) (r : Option R)
      → rx.send n.rx_queue f ≡ r
      → IsSound a n
      → IsSound (a + 1) (after_arrival rx cmd n r)
  unfolding can_rx_isr
  after_arrival-IsSound a n f none e h = record {
    joint = h.joint;
    shown = h.shown;
    table = h.table;
    alive = h.alive;
    view = h.view;
    frames = omega (arith, h.frames);
  }
  after_arrival-IsSound a n f (some q) e h = record {
    joint = h.joint;
    shown = h.shown;
    table = h.table;
    alive = h.alive;
    view = h.view;
    frames =
        let size =
          ap length (rx.send-items n.rx_queue q f e)
          ∙ length-append (rx.items n.rx_queue) (f ∷ []) in
        omega (arith, h.frames);
  }

  after_receive-IsSound :
      (a : ℕ) (n : Node R C) (l : Locals) (r : Option (CanFrame × R)) (now poll_at : ℕ)
      → rx.receive n.rx_queue ≡ r
      → IsSound a n
      → IsSound a (after_receive rx cmd n l r now poll_at)
  after_receive-IsSound a n l none now poll_at e h =
      let t = can_rx_iteration-IsTable l n.shared none now poll_at h.table in
      let k = can_rx_iteration-rx l n.shared none now poll_at in
      record {
        joint = h.joint;
        shown = rw k.1 h.shown;
        table = t.0;
        alive = t.1;
        view = t.3;
        frames = rw (k.0.0, k.0.1) h.frames;
      }
  after_receive-IsSound a n l (some (f, q)) now poll_at e h =
      let t = can_rx_iteration-IsTable l n.shared (some f) now poll_at h.table in
      let k = can_rx_iteration-rx l n.shared (some f) now poll_at in
      let size = ap length (rx.receive-items n.rx_queue q f e) in
      record {
        joint = h.joint;
        shown = rw k.1 h.shown;
        table = t.0;
        alive = t.1;
        view = t.3;
        frames = rw (k.0.0, k.0.1) (omega (arith, h.frames));
      }

  after_comms-IsSound :
      (a : ℕ) (n : Node R C) (i : Found) → IsSound a n → IsSound a (after_comms rx cmd n i)
  after_comms-IsSound a n i h =
      let (same, (monitor, alive, view, snapshot)) = comms_iteration-SameAll n.shared n.comms i in
      record {
        joint = h.joint;
        shown = rw snapshot h.shown;
        table = rw monitor h.table;
        alive = rw (alive, monitor) h.alive;
        view = rw (view, monitor) h.view;
        frames = rw (same.0, same.1) h.frames;
      }

  unchanged : (a : ℕ) (n : Node R C) → IsSound a n → IsSound (a + 0) n
  unchanged a n h = let same : a ≡ a + 0 = omega arith in subst (λ b. IsSound b n) same h

  Step-IsSound :
      (a : ℕ) {b : ℕ} {n m : Node R C} → Step rx cmd n b m → IsSound a n → IsSound (a + b) m
  Step-IsSound a (arrives n f) h = after_arrival-IsSound a n f (rx.send n.rx_queue f) refl h
  Step-IsSound a (controls n t {cs = cs} {q = q} d) h =
      unchanged a (after_control rx cmd n t cs q) (after_control-IsSound a n t cs q h)
  Step-IsSound a (receives n l now poll_at) h =
      unchanged a (after_receive rx cmd n l (rx.receive n.rx_queue) now poll_at)
        (after_receive-IsSound a n l (rx.receive n.rx_queue) now poll_at refl h)
  Step-IsSound a (communicates n i) h =
      unchanged a (after_comms rx cmd n i) (after_comms-IsSound a n i h)

  boot-IsSound :
      (node_id cycles millis : ℕ) (r : R) (c : C)
      → rx.items r ≡ []
      → IsSound 0 (boot node_id cycles millis r c)
  unfolding boot
  boot-IsSound node_id cycles millis r c empty = record {
    joint = joint_init-IsSafe node_limits (omega arith, omega arith);
    shown = (omega arith, omega arith);
    table = record { entries = tt; room = omega arith };
    alive = refl;
    view = refl;
    frames = let size = ap length empty in omega arith;
  }

  Reaches-IsSound :
      (n : Node R C) {b : ℕ} {m : Node R C} → Reaches rx cmd n b m → IsSound 0 n → IsSound b m
  Reaches-IsSound n here h = h
  Reaches-IsSound n (step {a = a} r s) h = Step-IsSound a s (Reaches-IsSound n r h)

  -- In every state that the node reaches from its start, with an empty receive queue, by any
  -- interleaving of arriving frames and iterations of the control, receive and communication tasks:
  -- the joint is between the soft limits and so is the position that is published; the table of
  -- peers is well formed and what is published of it agrees with it; and of the frames that have
  -- arrived each is counted as received, waits in the queue, or is counted as dropped, modulo 2 ^ 32.
  pub boot-Reaches :
      (node_id cycles millis : ℕ) (r : R) (c : C) (arrived : ℕ) (n : Node R C)
      → rx.items r ≡ []
      → Reaches rx cmd (boot node_id cycles millis r c) arrived n
      → IsSound arrived n
  boot-Reaches node_id cycles millis r c arrived n empty run =
      Reaches-IsSound (boot node_id cycles millis r c) run
        (boot-IsSound node_id cycles millis r c empty)
