-- ===== src/Display.antt =====
-- boards/nucleo_h7s3l8/src/display_st7789.c: the driver of the display. What it does to the pins and
-- to the SPI is a list of events, in order; what the vendor HAL and the semaphore answer to a
-- transfer by DMA is a parameter, a function of the number of the transfer.
pub mod Stream
pub mod Fill
pub mod Panel
pub mod Transfer
pub mod Setup
use robot_joint_stack.Prelude.{
  ℕ, zero, suc, ◌+◌, ◌-◌, ◌*◌, ◌/◌, ◌%◌, Bool, true, false, not, ◌&&◌, ◌||◌, if◌then◌else◌, ltb,
  leb, ◌==◌, List, [], ◌∷◌, ◌++◌, take, drop, replicate, concat,
}
use robot_joint_stack.Prelude.Word.{u8, u16, u32}

abbrev pub disp_width : ℕ
disp_width = 240

abbrev pub disp_height : ℕ
disp_height = 320

abbrev pub chunk_pixels : ℕ
chunk_pixels = 128

-- What the panel and the SPI see: the data/command pin, the chip select (true is low), a blocking
-- transfer, a transfer by DMA, one that the HAL refuses, its abort, the reset pin, a delay in milliseconds.
pub data BusEvent : Type 0 where
  dc : Bool → BusEvent
  cs : Bool → BusEvent
  transmit : List ℕ → BusEvent
  transmit_dma : List ℕ → BusEvent
  refused_dma : List ℕ → BusEvent
  abort : BusEvent
  reset : Bool → BusEvent
  delay : ℕ → BusEvent

-- Whether a transfer by DMA is refused, completes, or takes more than 50 ms.
pub data DmaAnswer : Type 0 where
  refused completed too_long : DmaAnswer

unfoldable pub spi_write_dma : DmaAnswer → List ℕ → List BusEvent
spi_write_dma refused bytes = refused_dma bytes ∷ []
spi_write_dma completed bytes = transmit_dma bytes ∷ []
spi_write_dma too_long bytes = transmit_dma bytes ∷ abort ∷ []

unfoldable pub write_cmd : ℕ → List BusEvent
write_cmd cmd = dc false ∷ cs true ∷ transmit (cmd ∷ []) ∷ cs false ∷ []

unfoldable pub write_data : List ℕ → List BusEvent
write_data bytes = dc true ∷ cs true ∷ transmit bytes ∷ cs false ∷ []

-- `(uint8_t)(v >> 8)` and `(uint8_t)v`.
abbrev pub big_endian : ℕ → List ℕ
big_endian v = u8 (v / 256) ∷ u8 v ∷ []

unfoldable pub set_window : ℕ → ℕ → ℕ → ℕ → List BusEvent
unfolding write_cmd write_data
set_window x y w h =
    write_cmd 0x2a
    ++ (write_data (big_endian x ++ big_endian (u16 (x + w - 1)))
        ++ (write_cmd 0x2b
            ++ (write_data (big_endian y ++ big_endian (u16 (y + h - 1))) ++ write_cmd 0x2c)))

-- The bytes of pixels, the high byte first.
unfoldable pub pixel_bytes : List ℕ → List ℕ
pixel_bytes [] = []
pixel_bytes (p ∷ ps) = big_endian p ++ pixel_bytes ps

-- The test at the head of `board_display_blit` and `board_display_fill`.
unfoldable pub is_drawable : Bool → ℕ → ℕ → ℕ → ℕ → Bool
is_drawable ready x y w h =
    not
      (not ready || ((w == 0) || ((h == 0) || (ltb disp_width (x + w) || ltb disp_height (y + h)))))

-- `n` of an iteration, a uint16_t.
abbrev pub chunk_size : ℕ → ℕ
chunk_size remaining = if ltb chunk_pixels remaining then chunk_pixels else remaining

-- The loop of `board_display_blit` with fuel, from transfer `k` on.
unfoldable pub blit_loop : (ℕ → DmaAnswer) → ℕ → ℕ → ℕ → List ℕ → List BusEvent
unfolding spi_write_dma pixel_bytes
blit_loop answers zero k remaining src = []
blit_loop answers (suc fuel) k remaining src =
    let n = chunk_size remaining in
    let rest =
      spi_write_dma (answers k) (pixel_bytes (take n src))
      ++ blit_loop answers fuel (k + 1) (remaining - n) (drop n src) in
    if remaining == 0 then [] else rest

unfoldable pub blit : Bool → (ℕ → DmaAnswer) → ℕ → ℕ → ℕ → ℕ → List ℕ → List BusEvent
unfolding is_drawable set_window blit_loop
blit ready answers x y w h pixels =
    if is_drawable ready x y w h
    then set_window x y w h
      ++ (dc true
          ∷ cs true
          ∷ (blit_loop answers (u32 (w * h)) 0 (u32 (w * h)) pixels ++ (cs false ∷ [])))
    else []

-- The loop of `board_display_fill`: the same chunk again and again.
unfoldable pub fill_loop : (ℕ → DmaAnswer) → ℕ → ℕ → ℕ → List ℕ → List BusEvent
unfolding spi_write_dma
fill_loop answers zero k remaining chunk = []
fill_loop answers (suc fuel) k remaining chunk =
    let n = chunk_size remaining in
    let rest =
      spi_write_dma (answers k) (take (n * 2) chunk)
      ++ fill_loop answers fuel (k + 1) (remaining - n) chunk in
    if remaining == 0 then [] else rest

unfoldable pub display_fill : Bool → (ℕ → DmaAnswer) → ℕ → ℕ → ℕ → ℕ → ℕ → List BusEvent
unfolding is_drawable set_window fill_loop pixel_bytes
display_fill ready answers x y w h color =
    if is_drawable ready x y w h
    then set_window x y w h
      ++ (dc true
          ∷ cs true
          ∷ (fill_loop answers (u32 (w * h)) 0 (u32 (w * h))
                (pixel_bytes (replicate chunk_pixels color))
              ++ (cs false ∷ [])))
    else []

-- The start-up of the controller in `board_display_init`, from the hardware reset to `s_ready`.
unfoldable pub start_sequence : List BusEvent
unfolding write_cmd write_data
start_sequence = concat (
    (reset true ∷ delay 10 ∷ reset false ∷ delay 120 ∷ [])
    ∷ write_cmd 0x01
    ∷ (delay 150 ∷ [])
    ∷ write_cmd 0x11
    ∷ (delay 120 ∷ [])
    ∷ write_cmd 0x3a
    ∷ write_data (0x55 ∷ [])
    ∷ write_cmd 0x36
    ∷ write_data (0x00 ∷ [])
    ∷ write_cmd 0x21
    ∷ (delay 10 ∷ [])
    ∷ write_cmd 0x13
    ∷ (delay 10 ∷ [])
    ∷ write_cmd 0x29
    ∷ (delay 50 ∷ [])
    ∷ [])

-- `board_display_init`, from what the set-up of the semaphore, the SPI, the DMA and its attributes
-- answers: the return value, `s_ready`, and the events.
unfoldable pub display_init :
    Bool → Bool → Bool → Bool → Bool → (ℕ → DmaAnswer) → Bool × Bool × List BusEvent
unfolding start_sequence display_fill
display_init ready semaphore spi dma attributes answers =
    if not semaphore
    then (false, ready, [])
    else if not spi || (not dma || not attributes)
    then (false, ready, cs false ∷ dc true ∷ [])
    else (
      true,
      true,
      cs false
          ∷ dc true
          ∷ (start_sequence ++ display_fill true answers 0 0 disp_width disp_height 0),
    )
