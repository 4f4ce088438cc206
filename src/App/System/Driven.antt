-- ===== src/App/System/Driven.antt =====
-- The speeds and the acceleration of the joint, whatever commands it gets.
use robot_joint_stack.Prelude.{ℕ, ◌≡◌, arith, ◌==◌, List, [], ◌∷◌, ◌++◌, Bool-cases, inl, inr}
use robot_joint_stack.Prelude.Int.{ℤ, pos, ◌*ℤ◌, ◌/ℤ◌}
use robot_joint_stack.Prelude.Word.{IsI32, IsI64, to_i32}
use robot_joint_stack.Protocol.{Command, mode_position}
use robot_joint_stack.Protocol.Messages.Order.{IsOrder}
use robot_joint_stack.Joint.{
  Joint, joint_command, joint_step, step_timeout, step_brake, step_move, brake_velocity,
}
use robot_joint_stack.Joint.Safe.{IsSafe}
use robot_joint_stack.Joint.Bounds.{brake-IsI64, AreInRange, step_move-AreInRange}
use robot_joint_stack.App.{
  Effect, send, post, log_event, log_emergency, log_sweep, node_limits, obey,
}
use robot_joint_stack.App.System.{posted}
use robot_joint_stack.App.System.Orders.{PostOrders}

-- The acceleration of the node's configuration, and velocities of their types.
pub record IsDriven (j : Joint) : Type 0 where
  pub acceleration : j.cfg.accel_mdeg_s2 ≡ pos 360000
  pub velocity : IsI32 j.velocity_mdeg_s
  pub speed_limit : IsI32 j.max_velocity_mdeg_s

to_i32-IsI32 : (v : ℤ) → IsI32 (to_i32 v)
unfolding to_i32
to_i32-IsI32 v = ground arith

joint_command-IsDriven :
    (j : Joint) (c : Command) → IsOrder c → IsDriven j → IsDriven (joint_command j c)
unfolding joint_command
joint_command-IsDriven j c order h = elim (Bool-cases (c.mode == mode_position)) [
  | inl position ↦
      rw position
        (record { acceleration = h.acceleration; velocity = h.velocity; speed_limit = order.2 })
  | inr disabled ↦
      rw disabled (record {
        acceleration = h.acceleration;
        velocity = h.velocity;
        speed_limit = h.speed_limit;
      })
]

pub step_timeout-IsDriven : (j : Joint) (dt : ℕ) → IsDriven j → IsDriven (step_timeout j dt)
unfolding step_timeout
step_timeout-IsDriven j dt h = ground arith

step_brake-IsDriven : (j : Joint) (dt : ℕ) → IsDriven j → IsDriven (step_brake j dt)
unfolding step_brake
step_brake-IsDriven j dt h = record {
  acceleration = h.acceleration;
  velocity = to_i32-IsI32 _;
  speed_limit = h.speed_limit;
}

step_move-IsDriven : (j : Joint) (dt : ℕ) → IsDriven j → IsDriven (step_move j dt)
unfolding step_move
step_move-IsDriven j dt h = record {
  acceleration = h.acceleration;
  velocity = to_i32-IsI32 _;
  speed_limit = h.speed_limit;
}

pub joint_step-IsDriven : (j : Joint) (dt : ℕ) → IsDriven j → IsDriven (joint_step j dt)
unfolding joint_step
joint_step-IsDriven j dt h =
    let t = step_timeout-IsDriven j dt h in
    elim (Bool-cases (dt == 0)) [
      | inl nothing ↦ rw nothing h
      | inr some_time ↦
          rw some_time (elim (Bool-cases ((step_timeout j dt).mode == mode_position)) [
            | inl moving ↦ rw moving (step_move-IsDriven (step_timeout j dt) dt t)
            | inr braking ↦ rw braking (step_brake-IsDriven (step_timeout j dt) dt t)
          ])
    ]

abbrev pub AreOrders : List Command → Type 0
AreOrders [] = Unit {0}
AreOrders (c ∷ cs) = IsOrder c × AreOrders cs

pub AreOrders-append : (cs ds : List Command) → AreOrders cs → AreOrders ds → AreOrders (cs ++ ds)
AreOrders-append [] ds h k = k
AreOrders-append (c ∷ cs) ds h k = (h.0, AreOrders-append cs ds h.1 k)

pub posted-AreOrders : (es : List Effect) → PostOrders es → AreOrders (posted es)
posted-AreOrders [] h = tt
posted-AreOrders (send f ∷ es) h = posted-AreOrders es h
posted-AreOrders (post c ∷ es) h = (h.0, posted-AreOrders es h.1)
posted-AreOrders (log_event e p ∷ es) h = posted-AreOrders es h
posted-AreOrders (log_emergency n e ∷ es) h = posted-AreOrders es h
posted-AreOrders (log_sweep b ∷ es) h = posted-AreOrders es h

pub obey-IsDriven :
    (cs : List Command) (j : Joint) → AreOrders cs → IsDriven j → IsDriven (obey j cs)
unfolding obey
obey-IsDriven [] j orders h = h
obey-IsDriven (c ∷ cs) j orders h =
    obey-IsDriven cs (joint_command j c) orders.1 (joint_command-IsDriven j c orders.0 h)

pub in_range :
    (t : Joint)
    → IsSafe node_limits t
    → IsDriven t
    → AreInRange t 1
      × IsI64 (brake_velocity t.velocity_mdeg_s (t.cfg.accel_mdeg_s2 *ℤ pos 1 /ℤ 1000) *ℤ pos 1)
in_range t safe driven = (
  step_move-AreInRange node_limits t 360000 1 safe (omega arith) (omega arith) driven.acceleration
      (omega arith) driven.velocity driven.speed_limit (omega arith),
  brake-IsI64 t.velocity_mdeg_s 360000 1 t.cfg.accel_mdeg_s2 driven.acceleration driven.velocity
      (omega arith),
)
