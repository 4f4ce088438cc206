-- ===== src/Ui/Shows.antt =====
-- The display task over any number of its iterations: the panel shows the screen.
use robot_joint_stack.Prelude.{List, [], ◌∷◌}
use robot_joint_stack.Screen.{TextScreen}
use robot_joint_stack.Screen.Tracks.{
  Tracks, Tracks-refl, Tracks-trans, set_colors-Tracks, print_line-Tracks, bar-Tracks,
  clear_row-Tracks,
}
use robot_joint_stack.Screen.Shows.{
  Canvas, Agrees, Shows, draw_all, flush-Shows, Tracks-Agrees, screen_init-Agrees,
}
use robot_joint_stack.App.Comms.{AppView}
use robot_joint_stack.Ui.{
  Formatter, Call, colors, line, gauge, clear, perform_call, perform_calls, render_calls, render,
  ui_start, ui_iteration, white, black,
}

perform_call-Tracks :
    (format : Formatter) (s : TextScreen) (c : Call) → Tracks s (perform_call format s c)
unfolding perform_call
perform_call-Tracks format s (colors fg bg) = set_colors-Tracks s fg bg
perform_call-Tracks format s (line row col fmt args) = print_line-Tracks s row col (format fmt args)
perform_call-Tracks format s (gauge row col width permille) = bar-Tracks s row col width permille
perform_call-Tracks format s (clear row) = clear_row-Tracks s row

perform_calls-Tracks :
    (cs : List Call) (format : Formatter) (s : TextScreen) → Tracks s (perform_calls format s cs)
unfolding perform_calls
perform_calls-Tracks [] format s = Tracks-refl s
perform_calls-Tracks (c ∷ cs) format s =
    Tracks-trans (perform_call-Tracks format s c)
      (perform_calls-Tracks cs format (perform_call format s c))

module _ {P : Type 0} (canvas : Canvas P) (format : Formatter) where
  -- The panel and the screen after iterations with the given snapshots.
  abbrev pub ui_rounds : P → TextScreen → List AppView → P × TextScreen
  ui_rounds p s [] = (p, s)
  ui_rounds p s (v ∷ vs) =
      let (k, draws, drawn) = ui_iteration format s v in ui_rounds (draw_all canvas p draws) k vs

  render-Agrees :
      (p : P) (s : TextScreen) (v : AppView)
      → Agrees canvas p s
      → Agrees canvas p (render format s v)
  unfolding render
  render-Agrees p s v h =
      Tracks-Agrees canvas p s (render format s v) (perform_calls-Tracks (render_calls v) format s)
        h

  rounds-Shows :
      (vs : List AppView) (v : AppView) (p : P) (s : TextScreen)
      → Agrees canvas p s
      → let (p', s') = ui_rounds p s (v ∷ vs) in Shows canvas p' s'
  unfolding ui_iteration
  rounds-Shows [] v p s h = (flush-Shows canvas p (render format s v) (render-Agrees p s v h)).0
  rounds-Shows (w ∷ vs) v p s h =
      let drawn = flush-Shows canvas p (render format s v) (render-Agrees p s v h) in
      let (k, draws, count) = ui_iteration format s v in
      rounds-Shows vs w (draw_all canvas p draws) k drawn.1

  -- Whatever the panel showed before, after each iteration of the display task, with any snapshots and
  -- whatever the formats become, the panel shows every cell of the text screen with its character and
  -- colours, though only marked cells are drawn.
  pub ui_rounds-Shows :
      (p : P) (v : AppView) (vs : List AppView)
      → let (p', s') = ui_rounds p ui_start (v ∷ vs) in Shows canvas p' s'
  ui_rounds-Shows p v vs = rounds-Shows vs v p ui_start (screen_init-Agrees canvas p white black)
