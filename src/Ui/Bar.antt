-- ===== src/Ui/Bar.antt =====
-- The position bar.
use Prim.Native.Nat.{min}
use robot_joint_stack.Prelude.{ℕ, ◌+◌, ◌-◌, ◌/◌, ◌≤◌, ◌≡◌, arith}
use robot_joint_stack.Prelude.Int.{ℤ, pos_part, neg_part, ◌≤ℤ◌, ◌+ℤ◌, ◌*ℤ◌, ◌/ℤ◌}
use robot_joint_stack.Ui.{bar_permille}

-- How far the position is above -170 degrees, from 0 to 340 degrees.
abbrev pub above_lowest : ℤ → ℕ
above_lowest p = min 340000 (pos_part p + 170000 - neg_part p)

bar_permille-eq : (p : ℤ) → bar_permille p ≡ above_lowest p / 340
unfolding bar_permille ◌+ℤ◌ ◌*ℤ◌ ◌/ℤ◌
bar_permille-eq p = ground arith

-- The filling of the bar is the position's part of the way from -170 to 170 degrees, in whole per
-- mille, and no cast cuts it; it never exceeds 1000 and does not fall when the position rises.
pub bar_permille-above_lowest :
    (p q : ℤ)
    → p ≤ℤ q
    → (bar_permille p ≡ above_lowest p / 340)
      × (bar_permille p ≤ bar_permille q)
      × (bar_permille q ≤ 1000)
bar_permille-above_lowest p q h = (
  bar_permille-eq p,
  omega (arith, bar_permille-eq p, bar_permille-eq q),
  omega (arith, bar_permille-eq q),
)
