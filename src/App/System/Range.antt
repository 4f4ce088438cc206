-- ===== src/App/System/Range.antt =====
-- No int64_t product of the control loop overflows, whatever arrives.
use robot_joint_stack.Prelude.{ℕ, ◌≡◌, refl, sym, arith, Option, none, some, List, [], ◌∷◌}
use mathlib.Core.Path.{subst}
use robot_joint_stack.Prelude.Int.{pos, ◌*ℤ◌, ◌/ℤ◌}
use robot_joint_stack.Prelude.Word.{IsI64}
use robot_joint_stack.Hal.{CanFrame}
use robot_joint_stack.Protocol.{Command}
use robot_joint_stack.Protocol.Messages.Order.{IsOrder}
use robot_joint_stack.Joint.{joint_init, step_timeout, brake_velocity}
use robot_joint_stack.Joint.Safe.{step_timeout-IsSafe}
use robot_joint_stack.Joint.Bounds.{AreInRange}
use robot_joint_stack.Queue.{Fifo}
use robot_joint_stack.Queue.Drain.{Drains, Drains-items}
use robot_joint_stack.App.{control_iteration, can_rx_iteration, node_limits, obey}
use robot_joint_stack.App.Comms.{comms_iteration}
use robot_joint_stack.App.System.{
  Node, boot, posted, post_all, got_frame, accepted, after_arrival, Step, arrives, controls,
  receives, communicates, Reaches, here, step,
}
use robot_joint_stack.App.System.Orders.{can_rx_iteration-PostOrders, comms_iteration-PostOrders}
use robot_joint_stack.App.System.Sound.{boot-Reaches, obey-IsSafe}
use robot_joint_stack.App.System.Driven.{
  IsDriven, AreOrders, AreOrders-append, posted-AreOrders, obey-IsDriven, step_timeout-IsDriven,
  joint_step-IsDriven, in_range,
}

module _ {R C : Type 0} (rx : Fifo R CanFrame) (cmd : Fifo C Command) where
  accepted-AreOrders :
      (q : C) (c : Command) (r : Option C)
      → cmd.send q c ≡ r
      → IsOrder c
      → AreOrders (cmd.items q)
      → AreOrders (cmd.items (accepted rx cmd q r))
  accepted-AreOrders q c none e order h = h
  accepted-AreOrders q c (some k) e order h =
      subst AreOrders (sym (cmd.send-items q k c e))
        (AreOrders-append (cmd.items q) (c ∷ []) h (order, tt))

  post_all-AreOrders :
      (cs : List Command) (q : C)
      → AreOrders cs
      → AreOrders (cmd.items q)
      → AreOrders (cmd.items (post_all rx cmd q cs))
  post_all-AreOrders [] q orders h = h
  post_all-AreOrders (c ∷ cs) q orders h =
      post_all-AreOrders cs (accepted rx cmd q (cmd.send q c)) orders.1
        (accepted-AreOrders q c (cmd.send q c) refl orders.0 h)

  -- The joint's speeds are of their types, and only orders wait for it.
  record IsGuarded (n : Node R C) : Type 0 where
    joint : IsDriven n.control.joint
    orders : AreOrders (cmd.items n.cmd_queue)

  after_arrival-IsGuarded :
      (n : Node R C) (r : Option R) → IsGuarded n → IsGuarded (after_arrival rx cmd n r)
  after_arrival-IsGuarded n none h = record { joint = h.joint; orders = h.orders }
  after_arrival-IsGuarded n (some q) h = record { joint = h.joint; orders = h.orders }

  drained-AreOrders :
      (q k : C) (cs : List Command)
      → Drains cmd q cs k
      → AreOrders (cmd.items q)
      → AreOrders cs × AreOrders (cmd.items k)
  drained-AreOrders q k cs d h =
      let (same, empty) = Drains-items cmd d in
      (subst AreOrders (sym same) h, subst AreOrders (sym empty) tt)

  Step-IsGuarded : {b : ℕ} {n m : Node R C} → Step rx cmd n b m → IsGuarded n → IsGuarded m
  unfolding control_iteration
  Step-IsGuarded (arrives n f) h = after_arrival-IsGuarded n (rx.send n.rx_queue f) h
  Step-IsGuarded (controls n t {cs = cs} {q = q} d) h =
      let (orders, rest) = drained-AreOrders n.cmd_queue q cs d h.orders in
      record {
        joint =
            joint_step-IsDriven (obey n.control.joint cs) 1
              (obey-IsDriven cs n.control.joint orders h.joint);
        orders = rest;
      }
  Step-IsGuarded (receives n l now poll_at) h =
      let effects =
        (can_rx_iteration l n.shared (got_frame rx cmd (rx.receive n.rx_queue)) now poll_at).1 in
      record {
        joint = h.joint;
        orders =
            post_all-AreOrders (posted effects) n.cmd_queue
              (posted-AreOrders effects (
                can_rx_iteration-PostOrders l n.shared (got_frame rx cmd (rx.receive n.rx_queue))
                  now poll_at))
              h.orders;
      }
  Step-IsGuarded (communicates n i) h =
      let effects = (comms_iteration n.shared n.comms i).2 in
      record {
        joint = h.joint;
        orders =
            post_all-AreOrders (posted effects) n.cmd_queue
              (posted-AreOrders effects (comms_iteration-PostOrders n.shared n.comms i)) h.orders;
      }

  boot-IsGuarded :
      (node_id cycles millis : ℕ) (r : R) (c : C)
      → cmd.items c ≡ []
      → IsGuarded (boot node_id cycles millis r c)
  unfolding boot joint_init
  boot-IsGuarded node_id cycles millis r c empty = record {
    joint = record {
      acceleration = refl;
      velocity = (omega arith, omega arith);
      speed_limit = (omega arith, omega arith);
    };
    orders = subst AreOrders (sym empty) tt;
  }

  Reaches-IsGuarded :
      (n : Node R C) {b : ℕ} {m : Node R C} → Reaches rx cmd n b m → IsGuarded n → IsGuarded m
  Reaches-IsGuarded n here h = h
  Reaches-IsGuarded n (step r s) h = Step-IsGuarded s (Reaches-IsGuarded n r h)

  -- In every state that the node reaches from its start with empty queues, whatever frames arrive:
  -- when the control task has obeyed the queued commands and the timeout has been looked at, no product of its step of 1 ms,
  -- in position mode or braking, leaves the range of int64_t.
  pub control-AreInRange :
      (node_id cycles millis : ℕ) (r : R) (c : C) (arrived : ℕ) (n : Node R C) (cs : List Command)
      (q : C)
      → rx.items r ≡ []
      → cmd.items c ≡ []
      → Reaches rx cmd (boot node_id cycles millis r c) arrived n
      → Drains cmd n.cmd_queue cs q
      → let t = step_timeout (obey n.control.joint cs) 1 in
        AreInRange t 1
        × IsI64 (brake_velocity t.velocity_mdeg_s (t.cfg.accel_mdeg_s2 *ℤ pos 1 /ℤ 1000) *ℤ pos 1)
  control-AreInRange node_id cycles millis r c arrived n cs q no_frames no_commands run d =
      let sound = boot-Reaches rx cmd node_id cycles millis r c arrived n no_frames run in
      let guarded =
        Reaches-IsGuarded (boot node_id cycles millis r c) run
          (boot-IsGuarded node_id cycles millis r c no_commands) in
      let orders = (drained-AreOrders n.cmd_queue q cs d guarded.orders).0 in
      let driven =
        step_timeout-IsDriven (obey n.control.joint cs) 1
          (obey-IsDriven cs n.control.joint orders guarded.joint) in
      let safe =
        step_timeout-IsSafe node_limits (obey n.control.joint cs) 1
          (obey-IsSafe cs n.control.joint sound.joint) in
      in_range (step_timeout (obey n.control.joint cs) 1) safe driven
