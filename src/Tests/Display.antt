-- ===== src/Tests/Display.antt =====
-- The panel's documentation on a concrete panel, and the display's theorems on concrete rectangles.
use robot_joint_stack.Prelude.{
  ℕ, zero, suc, ◌+◌, ◌-◌, ◌*◌, ◌/◌, ◌%◌, ◌≤◌, ◌<◌, ◌≡◌, refl, arith, true, false, if◌then◌else◌,
  List, [], ◌∷◌, ◌++◌, length, get_or, drop, replicate,
}
use robot_joint_stack.Prelude.Word.{u8}
use robot_joint_stack.Display.{
  DmaAnswer, is_drawable, completed, refused, too_long, pixel_bytes, blit, display_fill, disp_width,
  disp_height,
}
use robot_joint_stack.Display.Stream.{Wire, tagged, wire, window_bytes, AllComplete, blit-wire}
use robot_joint_stack.Display.Fill.{display_fill-blit}
use robot_joint_stack.Display.Panel.{Panel, is_inside}

abbrev byte_at : Wire → ℕ → ℕ
byte_at w k = (get_or w k (true, 0)).1

abbrev word_at : Wire → ℕ → ℕ
word_at w k = byte_at w k * 256 + byte_at w (k + 1)

-- The two bytes of a pixel.
abbrev pixel_at : Wire → ℕ → ℕ
pixel_at [] k = 0
pixel_at (hi ∷ []) k = 0
pixel_at (hi ∷ lo ∷ w) zero = hi.1 * 256 + lo.1
pixel_at (hi ∷ lo ∷ w) (suc k) = pixel_at w k

abbrev pub Picture : Type 0
Picture = ℕ → ℕ → ℕ

-- A controller that has only a frame memory.
abbrev receive : Picture → Wire → Picture
receive p w = λ a b.
    let x = word_at w 1 in
    let y = word_at w 6 in
    let width = word_at w 3 + 1 - x in
    let height = word_at w 8 + 1 - y in
    if is_inside x y width height a b
    then pixel_at (drop 11 w) ((b - y) * width + (a - x))
    else p a b

pixel_at-pixel_bytes :
    (pixels : List ℕ) (k : ℕ)
    → pixel_at (tagged true (pixel_bytes pixels)) k ≡ get_or pixels k 0 % 65536
unfolding pixel_bytes
pixel_at-pixel_bytes [] k = refl
pixel_at-pixel_bytes (p ∷ ps) zero = omega arith
pixel_at-pixel_bytes (p ∷ ps) (suc k) = pixel_at-pixel_bytes ps k

word : (v : ℕ) → v < 65536 → u8 (v / 256) * 256 + u8 v ≡ v
word v h = omega arith

pub receive-window :
    (p : Picture) (x y w h : ℕ) (pixels : List ℕ) (a b : ℕ)
    → (1 ≤ w) × (1 ≤ h) × (x + w ≤ disp_width) × (y + h ≤ disp_height)
    → length pixels ≡ w * h
    → receive p (window_bytes x y (x + w - 1) (y + h - 1) ++ tagged true (pixel_bytes pixels)) a b
      ≡ (if is_inside x y w h a b then get_or pixels ((b - y) * w + (a - x)) 0 % 65536 else p a b)
receive-window p x y w h pixels a b (w_pos, h_pos, right, bottom) len =
    let width : x + w - 1 + 1 - x ≡ w = omega arith in
    let height : y + h - 1 + 1 - y ≡ h = omega arith in
    rw (word x (omega arith)) rw (word y (omega arith)) rw (word (x + w - 1) (omega arith)) rw
      (word (y + h - 1) (omega arith)) rw (width, height) rw
      (pixel_at-pixel_bytes pixels ((b - y) * w + (a - x))) refl

abbrev pub frame_memory : Panel Picture
frame_memory = record { send = receive; pixel = λ p a b. p a b; pixel-send = receive-window }

abbrev all_complete : ℕ → DmaAnswer
all_complete k = completed

abbrev all_complete-AllComplete : AllComplete all_complete
all_complete-AllComplete k = refl

abbrev two_pixels : List ℕ
two_pixels = 0xf81f ∷ 0x07e0 ∷ []

abbrev bottom_row : ℕ
bottom_row = 319

drawable : is_drawable true 238 bottom_row 2 1 ≡ true
unfolding is_drawable
drawable = refl

blit-wire_example :
    wire true false (blit true all_complete 238 bottom_row 2 1 two_pixels)
    ≡ window_bytes 238 bottom_row (238 + 2 - 1) (bottom_row + 1 - 1)
      ++ tagged true (pixel_bytes two_pixels)
blit-wire_example =
    blit-wire all_complete true false 238 bottom_row 2 1 two_pixels all_complete-AllComplete
      drawable refl

-- The first transfer takes too long, the others are refused.
abbrev failing : ℕ → DmaAnswer
failing zero = too_long
failing (suc k) = refused

display_fill-blit_example :
    display_fill true failing 8 16 20 10 0xf800
    ≡ blit true failing 8 16 20 10 (replicate (20 * 10) 0xf800)
display_fill-blit_example = display_fill-blit true failing 8 16 20 10 0xf800
