-- ===== src/Display/Stream.antt =====
-- What reaches the panel over the SPI: the window and the pixels, whatever the chunks.
use robot_joint_stack.Prelude.{
  ℕ, zero, suc, ◌+◌, ◌-◌, ◌*◌, ◌≤◌, ◌<◌, ◌≡◌, refl, arith, Bool, true, false, if◌then◌else◌, List,
  [], ◌∷◌, ◌++◌, take, drop, length, length-drop, take-append-drop, ap, sym, ◌∙◌, ne→==_false,
}
use mathlib.Core.List.{append_assoc, append-nil}
use native.Mathlib.Nat.{mul-le-mul}
use robot_joint_stack.Prelude.Word.{u16, u32}
use robot_joint_stack.Display.{
  BusEvent, dc, cs, transmit, transmit_dma, refused_dma, abort, reset, delay, DmaAnswer, completed,
  spi_write_dma, write_cmd, write_data, big_endian, set_window, pixel_bytes, is_drawable,
  chunk_size, blit_loop, blit,
}

-- A byte on the wire, with the level of the data/command pin.
abbrev pub Wire : Type 0
Wire = List (Bool × ℕ)

abbrev pub tagged : Bool → List ℕ → Wire
tagged pin [] = []
tagged pin (b ∷ bs) = (pin, b) ∷ tagged pin bs

-- What the panel receives of the events: the bytes that go out while it is selected.
abbrev pub wire : Bool → Bool → List BusEvent → Wire
wire pin selected [] = []
wire pin selected (dc level ∷ es) = wire level selected es
wire pin selected (cs low ∷ es) = wire pin low es
wire pin selected (transmit bytes ∷ es) =
    (if selected then tagged pin bytes else []) ++ wire pin selected es
wire pin selected (transmit_dma bytes ∷ es) =
    (if selected then tagged pin bytes else []) ++ wire pin selected es
wire pin selected (refused_dma bytes ∷ es) = wire pin selected es
wire pin selected (abort ∷ es) = wire pin selected es
wire pin selected (reset low ∷ es) = wire pin selected es
wire pin selected (delay ms ∷ es) = wire pin selected es

-- The commands that open the window with these corners for writing.
abbrev pub window_bytes : ℕ → ℕ → ℕ → ℕ → Wire
window_bytes x y x1 y1 =
    (false, 0x2a)
    ∷ (tagged true (big_endian x ++ big_endian x1)
        ++ ((false, 0x2b) ∷ (tagged true (big_endian y ++ big_endian y1) ++ ((false, 0x2c) ∷ []))))

tagged-append :
    (pin : Bool) (bs ds : List ℕ) → tagged pin (bs ++ ds) ≡ tagged pin bs ++ tagged pin ds
tagged-append pin [] ds = refl
tagged-append pin (b ∷ bs) ds = ap (λ r. (pin, b) ∷ r) (tagged-append pin bs ds)

pixel_bytes-append : (ps qs : List ℕ) → pixel_bytes (ps ++ qs) ≡ pixel_bytes ps ++ pixel_bytes qs
unfolding pixel_bytes
pixel_bytes-append [] qs = refl
pixel_bytes-append (p ∷ ps) qs = ap (λ r. big_endian p ++ r) (pixel_bytes-append ps qs)

wire-set_window :
    (pin selected : Bool) (x y w h : ℕ) (es : List BusEvent)
    → wire pin selected (set_window x y w h ++ es)
      ≡ window_bytes x y (u16 (x + w - 1)) (u16 (y + h - 1)) ++ wire false false es
unfolding set_window write_cmd write_data
wire-set_window pin selected x y w h es = refl

-- All transfers complete.
abbrev pub AllComplete : (ℕ → DmaAnswer) → Type 0
AllComplete answers = (k : ℕ) → answers k ≡ completed

wire-spi_write_dma :
    (answer : DmaAnswer) (bytes : List ℕ) (es : List BusEvent)
    → answer ≡ completed
    → wire true true (spi_write_dma answer bytes ++ es) ≡ tagged true bytes ++ wire true true es
unfolding spi_write_dma
wire-spi_write_dma answer bytes es h = rw h refl

pub chunk_size_bounds :
    (n : ℕ) → 0 < n → (1 ≤ chunk_size n) × (chunk_size n ≤ n) × (chunk_size n ≤ 128)
chunk_size_bounds n h = ground arith

tagged-split :
    (n : ℕ) (src : List ℕ) (w : Wire)
    → tagged true (pixel_bytes (take n src)) ++ (tagged true (pixel_bytes (drop n src)) ++ w)
      ≡ tagged true (pixel_bytes src) ++ w
tagged-split n src w =
    sym (
      append_assoc (tagged true (pixel_bytes (take n src))) (tagged true (pixel_bytes (drop n src)))
        w)
    ∙ ap (λ r. r ++ w)
        (sym (tagged-append true (pixel_bytes (take n src)) (pixel_bytes (drop n src)))
          ∙ ap (tagged true) (
              sym (pixel_bytes-append (take n src) (drop n src))
              ∙ ap pixel_bytes (take-append-drop n src)))

-- A chunk, when what follows it sends the rest.
wire-chunk :
    (n : ℕ) (answer : DmaAnswer) (src : List ℕ) (rest es : List BusEvent)
    → answer ≡ completed
    → wire true true (rest ++ es) ≡ tagged true (pixel_bytes (drop n src)) ++ wire true true es
    → wire true true ((spi_write_dma answer (pixel_bytes (take n src)) ++ rest) ++ es)
      ≡ tagged true (pixel_bytes src) ++ wire true true es
wire-chunk n answer src rest es ok ih =
    ap (wire true true) (append_assoc (spi_write_dma answer (pixel_bytes (take n src))) rest es)
    ∙ (wire-spi_write_dma answer (pixel_bytes (take n src)) (rest ++ es) ok
        ∙ (ap (λ r. tagged true (pixel_bytes (take n src)) ++ r) ih
            ∙ tagged-split n src (wire true true es)))

pub blit_loop-suc :
    (fuel : ℕ) (answers : ℕ → DmaAnswer) (k remaining : ℕ) (src : List ℕ)
    → 0 < remaining
    → blit_loop answers (suc fuel) k remaining src
      ≡ spi_write_dma (answers k) (pixel_bytes (take (chunk_size remaining) src))
        ++ blit_loop answers fuel
            (k + 1)
            (remaining - chunk_size remaining)
            (drop (chunk_size remaining) src)
unfolding blit_loop
blit_loop-suc fuel answers k remaining src h = rw (ne→==_false remaining 0 (λ e. omega arith)) refl

length-drop_chunk :
    (fuel p : ℕ) (ps : List ℕ)
    → suc (length ps) ≤ suc fuel
    → length (drop (chunk_size (suc (length ps))) (p ∷ ps)) ≤ fuel
length-drop_chunk fuel p ps enough =
    let (least, _, _) = chunk_size_bounds (suc (length ps)) (omega arith) in
    rw (length-drop (chunk_size (suc (length ps))) (p ∷ ps)) (omega arith)

wire-blit_loop :
    (fuel : ℕ) (answers : ℕ → DmaAnswer) (k : ℕ) (src : List ℕ) (es : List BusEvent)
    → AllComplete answers
    → length src ≤ fuel
    → wire true true (blit_loop answers fuel k (length src) src ++ es)
      ≡ tagged true (pixel_bytes src) ++ wire true true es
unfolding blit_loop pixel_bytes
wire-blit_loop zero answers k [] es ok enough = refl
wire-blit_loop zero answers k (p ∷ ps) es ok enough = absurd (omega arith)
wire-blit_loop (suc fuel) answers k [] es ok enough = refl
wire-blit_loop (suc fuel) answers k (p ∷ ps) es ok enough =
    let n = chunk_size (suc (length ps)) in
    rw (blit_loop-suc fuel answers k (suc (length ps)) (p ∷ ps) (omega arith)) rw
      (sym (length-drop n (p ∷ ps)))
      (wire-chunk n (answers k) (p ∷ ps)
        (blit_loop answers fuel (k + 1) (length (drop n (p ∷ ps))) (drop n (p ∷ ps))) es (ok k)
        (wire-blit_loop fuel answers (k + 1) (drop n (p ∷ ps)) es ok
          (length-drop_chunk fuel p ps enough)))

area_bound : (w h : ℕ) → w ≤ 240 → h ≤ 320 → w * h < 4294967296
area_bound w h hw hh = let m = mul-le-mul hw hh in omega arith

pub u32_area : (w h : ℕ) → w ≤ 240 → h ≤ 320 → u32 (w * h) ≡ w * h
u32_area w h hw hh = let m = area_bound w h hw hh in omega arith

corner : (x w : ℕ) → 1 ≤ w → x + w ≤ 320 → u16 (x + w - 1) ≡ x + w - 1
corner x w least most = omega arith

-- What the test of the two operations makes sure of.
pub is_drawable-bounds :
    (x y w h : ℕ)
    → is_drawable true x y w h ≡ true
    → (1 ≤ w) × (1 ≤ h) × (x + w ≤ 240) × (y + h ≤ 320)
unfolding is_drawable
is_drawable-bounds x y w h e = ground arith

-- A blit that the driver accepts, all of whose transfers complete, sends to the panel the commands
-- that open the window, uncut, and then all of the pixels in order, the high byte of each first,
-- whatever the pin and the select line were before; the chunks do not show.
pub blit-wire :
    (answers : ℕ → DmaAnswer) (pin selected : Bool) (x y w h : ℕ) (pixels : List ℕ)
    → AllComplete answers
    → is_drawable true x y w h ≡ true
    → length pixels ≡ w * h
    → wire pin selected (blit true answers x y w h pixels)
      ≡ window_bytes x y (x + w - 1) (y + h - 1) ++ tagged true (pixel_bytes pixels)
unfolding blit
blit-wire answers pin selected x y w h pixels ok fits len =
    let (w_pos, h_pos, right, bottom) = is_drawable-bounds x y w h fits in
    rw fits rw (u32_area w h (omega arith) (omega arith)) rw
      (wire-set_window pin selected x y w h
        (dc true ∷ cs true ∷ (blit_loop answers (w * h) 0 (w * h) pixels ++ (cs false ∷ []))))
      rw (corner x w w_pos (omega arith)) rw (corner y h h_pos (omega arith)) rw (sym len)
      (ap (λ r. window_bytes x y (x + w - 1) (y + h - 1) ++ r)
        (wire-blit_loop (length pixels) answers 0 pixels (cs false ∷ []) ok (omega arith)
          ∙ append-nil (tagged true (pixel_bytes pixels))))
