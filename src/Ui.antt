-- ===== src/Ui.antt =====
-- app/joint_node/ui.c: the status screen. What `vsnprintf` makes of a format and its arguments is a
-- parameter. The calls on the screen are a list, in the order in which the code makes them.
pub mod Shows
pub mod Bar
pub mod Cell
pub mod Pixels
use Prim.Native.String.{String}
pub use robot_joint_stack.Format.{Arg, unsigned, signed, text, Formatter}
use robot_joint_stack.Prelude.{
  ℕ, zero, suc, ◌+◌, ◌-◌, ◌*◌, ◌/◌, ◌%◌, Bool, true, false, not, ◌&&◌, ◌||◌, if◌then◌else◌, ltb,
  leb, ◌==◌, bit_and, bit_or, Option, none, some, List, [], ◌∷◌, ◌++◌, get_elem?,
}
use robot_joint_stack.Prelude.Int.{ℤ, pos, negsuc, ◌+ℤ◌, ◌*ℤ◌, ◌/ℤ◌, neg_ℤ, ltb_ℤ}
use robot_joint_stack.Prelude.Word.{u8, u16, u32, ◌<<<◌, ◌>>>◌, to_pattern}
use robot_joint_stack.Protocol.{
  state_boot, state_preop, state_operational, state_fault, mode_position, err_peer_lost,
}
use robot_joint_stack.Monitor.{is_alive}
use robot_joint_stack.Screen.{
  TextScreen, Draw, screen_init, set_colors, print_line, bar, clear_row, flush,
}
use robot_joint_stack.App.{PeerView}
use robot_joint_stack.App.Comms.{AppView}

-- `RJS_RGB`, of common/ui/include/rjs/text_screen.h.
abbrev pub rgb : ℕ → ℕ → ℕ → ℕ
rgb r g b = u16 (bit_or (bit_or (bit_and r 0xf8 <<< 8) (bit_and g 0xfc <<< 3)) (b >>> 3))

abbrev pub black : ℕ
black = rgb 0 0 0

abbrev pub white : ℕ
white = rgb 255 255 255

abbrev pub grey : ℕ
grey = rgb 128 128 128

abbrev pub red : ℕ
red = rgb 255 40 40

abbrev pub green : ℕ
green = rgb 40 220 80

abbrev pub yellow : ℕ
yellow = rgb 255 200 0

abbrev pub blue : ℕ
blue = rgb 60 140 255

-- The calls on the screen.
pub data Call : Type 0 where
  colors : ℕ → ℕ → Call
  line : ℕ → ℕ → String → List Arg → Call
  gauge : ℕ → ℕ → ℕ → ℕ → Call
  clear : ℕ → Call

unfoldable pub perform_call : Formatter → TextScreen → Call → TextScreen
perform_call format s (colors fg bg) = set_colors s fg bg
perform_call format s (line row col fmt args) = print_line s row col (format fmt args)
perform_call format s (gauge row col width permille) = bar s row col width permille
perform_call format s (clear row) = clear_row s row

unfoldable pub perform_calls : Formatter → TextScreen → List Call → TextScreen
unfolding perform_call
perform_calls format s [] = s
perform_calls format s (c ∷ cs) = perform_calls format (perform_call format s c) cs

unfoldable pub state_name : ℕ → String
state_name state =
    if state == state_boot
    then "BOOT"
    else if state == state_preop
    then "PREOP"
    else if state == state_operational
    then "OPER"
    else if state == state_fault
    then "FAULT"
    else "?"

-- The bar's filling: -170 to 170 degrees as 0 to 1000.
unfoldable pub bar_permille : ℤ → ℕ
bar_permille position =
    let clamped =
      if ltb_ℤ (pos 170000) position
      then pos 170000
      else if ltb_ℤ position (negsuc 169999)
      then negsuc 169999
      else position in
    to_pattern 65536 ((clamped +ℤ pos 170000) *ℤ pos 1000 /ℤ 340000)

unfoldable pub joint_calls : AppView → List Call
unfolding bar_permille
joint_calls v =
    let position = v.joint.position_mdeg in
    let below = ltb_ℤ position (pos 0) in
    let size = to_pattern 4294967296 (if below then neg_ℤ position else position) in
    let driven = v.joint.mode == mode_position in
    colors white black
    ∷ line 3 0 "POSITION %s%lu.%lu deg" (
        text (if below then "-" else "")
        ∷ unsigned (size / 1000)
        ∷ unsigned (size % 1000 / 100)
        ∷ [])
    ∷ colors (if driven then green else grey) black
    ∷ gauge 4 0 24 (bar_permille position)
    ∷ colors white black
    ∷ line 5 0 "vel %ld deg/s  mode %s"
        (signed (v.joint.velocity_mdeg_s /ℤ 1000) ∷ text (if driven then "POS" else "OFF") ∷ [])
    ∷ []

-- The row of peer `i`; the array has 4 elements, of which the first `peer_count` are filled.
unfoldable pub peer_row : PeerView → ℕ → List Call
unfolding state_name
peer_row p row =
    let alive = is_alive p.status in
    colors (if alive then green else red) black
    ∷ line row 0 " node %-3u %-6s %s" (
        unsigned p.node
        ∷ text (if alive then state_name p.state else "LOST")
        ∷ text (if not (p.error_flags == 0) then "ERR" else "")
        ∷ [])
    ∷ []

unfoldable pub peer_or_blank : ℕ → ℕ → Option PeerView → List Call
unfolding peer_row
peer_or_blank i count none = clear (u8 (8 + i)) ∷ []
peer_or_blank i count (some p) =
    if leb count i then clear (u8 (8 + i)) ∷ [] else peer_row p (u8 (8 + i))

-- The loop over the rows from `i` on, `n` of them.
unfoldable pub peer_calls : AppView → ℕ → ℕ → List Call
unfolding peer_or_blank
peer_calls v i zero = []
peer_calls v i (suc n) =
    peer_or_blank i v.peer_count (get_elem? v.peers i) ++ peer_calls v (i + 1) n

unfoldable pub bus_calls : AppView → List Call
bus_calls v =
    colors grey black
    ∷ line 13 0 "BUS" []
    ∷ colors white black
    ∷ line 14 0 " tx %lu  rx %lu" (unsigned v.tx_frames ∷ unsigned v.rx_frames ∷ [])
    ∷ colors (if ltb 0 v.tx_error_count || ltb 0 v.rx_error_count then yellow else white) black
    ∷ line 15 0 " tec %u  rec %u  drop %lu" (
        unsigned v.tx_error_count
        ∷ unsigned v.rx_error_count
        ∷ unsigned (u32 (v.tx_busy + v.rx_dropped))
        ∷ [])
    ∷ colors white black
    ∷ line 16 0 " loop jitter %lu us" (unsigned v.loop_jitter_max_us ∷ [])
    ∷ []

unfoldable pub status_calls : AppView → List Call
status_calls v =
    if v.bus_off
    then colors white red ∷ line 18 0 " CAN BUS OFF - recovering " [] ∷ []
    else if not (bit_and v.joint_flags err_peer_lost == 0)
    then colors black yellow ∷ line 18 0 " COMMAND TIMEOUT - joint off " [] ∷ []
    else if v.controller && not v.sweep_enabled
    then colors black yellow ∷ line 18 0 " SWEEP STOPPED (button B1) " [] ∷ []
    else colors green black ∷ line 18 0 " RUNNING" [] ∷ []

unfoldable pub render_calls : AppView → List Call
unfolding joint_calls peer_calls bus_calls status_calls
render_calls v =
    colors blue black
    ∷ line 0 0 "ROBOT JOINT STACK    node %u" (unsigned v.node_id ∷ [])
    ∷ colors grey black
    ∷ line 1 0 "CAN FD 1/2 Mbit   up %lus" (unsigned (v.uptime_ms / 1000) ∷ [])
    ∷ (joint_calls v
        ++ (colors grey black
            ∷ line 7 0 "NODES ON BUS (%u alive)" (unsigned v.peer_count ∷ [])
            ∷ (peer_calls v 0 4 ++ (bus_calls v ++ status_calls v))))

unfoldable pub render : Formatter → TextScreen → AppView → TextScreen
unfolding render_calls perform_calls
render format s v = perform_calls format s (render_calls v)

-- The start of `ui_task`, and one iteration of its loop.
abbrev pub ui_start : TextScreen
ui_start = screen_init white black

unfoldable pub ui_iteration : Formatter → TextScreen → AppView → TextScreen × List Draw × ℕ
unfolding render
ui_iteration format s v = flush (render format s v)
