-- ===== src/App/Safe.antt =====
-- The control task over any number of its iterations: the joint stays between its soft limits.
use robot_joint_stack.Prelude.{ℕ, ◌≡◌, refl, arith, ap, sym, ◌∙◌, List, [], ◌∷◌, ◌++◌, map}
use mathlib.Core.Path.{subst}
use robot_joint_stack.Hal.{CanFrame, CanResult}
use robot_joint_stack.Protocol.{Command}
use robot_joint_stack.Joint.{Joint, joint_init, joint_command, joint_step, joint_get_state}
use robot_joint_stack.Joint.Safe.{JointOp, apply, advance, run, IsConfig, IsSafe, run-IsSafe}
use robot_joint_stack.App.{Shared, Control, node_limits, obey, control_iteration}

-- What one iteration finds: the cycle counter, its cycles in a microsecond, the queued commands, the
-- frame on the stack and the driver's answer.
pub record Round : Type 0 where
  pub now : ℕ
  pub cyc_per_us : ℕ
  pub cmds : List Command
  pub frame : CanFrame
  pub answer : CanResult

abbrev pub control_rounds : Shared → Control → List Round → Shared × Control
control_rounds s c [] = (s, c)
control_rounds s c (r ∷ rs) =
    let (s', c', effects) = control_iteration s c r.now r.cyc_per_us r.cmds r.frame r.answer in
    control_rounds s' c' rs

-- The commands and the steps that the iterations give the joint.
abbrev pub joint_ops : List Round → List JointOp
joint_ops [] = []
joint_ops (r ∷ rs) = map apply r.cmds ++ (advance 1 ∷ joint_ops rs)

run-obey :
    (cmds : List Command) (j : Joint) (ops : List JointOp)
    → run j (map apply cmds ++ (advance 1 ∷ ops)) ≡ run (joint_step (obey j cmds) 1) ops
unfolding obey
run-obey [] j ops = refl
run-obey (c ∷ cs) j ops = run-obey cs (joint_command j c) ops

control_iteration-joint :
    (s : Shared) (c : Control) (r : Round)
    → let i = control_iteration s c r.now r.cyc_per_us r.cmds r.frame r.answer in
      (i.1.joint ≡ joint_step (obey c.joint r.cmds) 1) × (i.0.snapshot ≡ joint_get_state i.1.joint)
unfolding control_iteration
control_iteration-joint s c r = (refl, refl)

control_rounds-run :
    (rs : List Round) (s : Shared) (c : Control)
    → (control_rounds s c rs).1.joint ≡ run c.joint (joint_ops rs)
control_rounds-run [] s c = refl
control_rounds-run (r ∷ rs) s c =
    let i = control_iteration s c r.now r.cyc_per_us r.cmds r.frame r.answer in
    control_rounds-run rs i.0 i.1
    ∙ ap (λ j. run j (joint_ops rs)) (control_iteration-joint s c r).0
    ∙ sym (run-obey r.cmds c.joint (joint_ops rs))

pub node_limits-IsConfig : IsConfig node_limits
node_limits-IsConfig = record {
  ordered = omega arith;
  min_i32 = omega arith;
  max_i32 = omega arith;
}

-- Whatever commands arrive and whatever the driver answers, after any number of iterations of the
-- control task, started as the task starts it, the joint's position and target are between the soft
-- limits of -170 and 170 degrees that the task configures.
pub control_rounds-IsSafe :
    (s : Shared) (cycles : ℕ) (rs : List Round)
    → IsSafe node_limits
        (control_rounds s
          (record { joint = joint_init node_limits; last_cycles = cycles; ticks = 0 })
          rs).1.joint
control_rounds-IsSafe s cycles rs =
    subst (IsSafe node_limits) (sym (control_rounds-run rs s start))
      (run-IsSafe node_limits (joint_ops rs) node_limits-IsConfig (omega arith, omega arith))
  where
    start : Control
    start = record { joint = joint_init node_limits; last_cycles = cycles; ticks = 0 }
