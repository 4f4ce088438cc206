-- ===== src/Ui/Pixels.antt =====
-- The display task, the text screen, the draw callback, the driver and the panel together.
use robot_joint_stack.Prelude.{ℕ, ◌+◌, ◌*◌, ◌/◌, ◌%◌, ◌<◌, ◌≡◌, arith, ap₂, ◌∙◌, List, ◌∷◌}
use robot_joint_stack.App.Comms.{AppView}
use robot_joint_stack.Screen.{cell_at}
use robot_joint_stack.Screen.Shows.{Shows}
use robot_joint_stack.Display.{DmaAnswer, disp_width, disp_height}
use robot_joint_stack.Display.Stream.{AllComplete}
use robot_joint_stack.Display.Panel.{Panel}
use robot_joint_stack.Ui.{Formatter, ui_start}
use robot_joint_stack.Ui.Shows.{ui_rounds, ui_rounds-Shows}
use robot_joint_stack.Ui.Cell.{cell_pixel, panel_canvas}

module _ {P : Type 0} (panel : Panel P) (answers : ℕ → DmaAnswer) (ok : AllComplete answers)
    (format : Formatter) where
  -- After each iteration of the display task, with any snapshots and whatever the formats become,
  -- every pixel of the panel is the pixel of the glyph of the character that the text screen holds
  -- there, in that cell's colours, whatever the panel showed before, if all transfers complete and
  -- the panel fills its windows as its controller documents.
  pub ui_rounds-pixel :
      (p : P) (v : AppView) (vs : List AppView) (a b : ℕ)
      → a < disp_width
      → b < disp_height
      → let (p', s') = ui_rounds (panel_canvas panel answers ok) format p ui_start (v ∷ vs) in
        panel.pixel p' a b ≡ cell_pixel (cell_at s' (b / 16) (a / 8)) (b % 16) (a % 8)
  ui_rounds-pixel p v vs a b left low =
      let (p', s') = ui_rounds (panel_canvas panel answers ok) format p ui_start (v ∷ vs) in
      let shows : Shows (panel_canvas panel answers ok) p' s' =
        ui_rounds-Shows (panel_canvas panel answers ok) format p v vs in
      let col : a ≡ a / 8 * 8 + a % 8 = omega arith in
      let row : b ≡ b / 16 * 16 + b % 16 = omega arith in
      ap₂ (panel.pixel p') col row
      ∙ shows (b / 16) (a / 8) (omega arith) (omega arith) (b % 16) (a % 8) (omega arith)
          (omega arith)
