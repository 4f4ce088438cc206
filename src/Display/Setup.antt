-- ===== src/Display/Setup.antt =====
-- boards/nucleo_h7s3l8/src/display_st7789.c: the set-up of the SPI and its DMA in `board_display_init`, as the
-- calls of the vendor HAL with their settings. What it answers is an argument.
use robot_joint_stack.Prelude.{
  ℕ, ◌≡◌, ◌⊎◌, inl, inr, refl, Bool, true, false, not, if◌then◌else◌, List, [], ◌∷◌, ◌++◌,
}
use robot_joint_stack.Display.{
  DmaAnswer, BusEvent, cs, dc, start_sequence, display_init, display_fill, disp_width, disp_height,
}

pub data DisplayPort : Type 0 where
  port_a port_b port_d : DisplayPort

-- The clocks and the edges of the SPI: the divider of its kernel clock, the idle level of the clock, and
-- whether a bit is taken at the first edge, the most significant one first; who selects the panel, and whether the
-- pins keep their state between transfers.
pub record SpiSettings : Type 0 where
  pub master : Bool
  pub transmit_only : Bool
  pub data_bits : ℕ
  pub clock_idle_high : Bool
  pub first_edge : Bool
  pub prescaler : ℕ
  pub msb_first : Bool
  pub select_by_software : Bool
  pub keeps_pins : Bool

-- One byte at a time, from memory upwards to the SPI.
pub record DmaSettings : Type 0 where
  pub to_peripheral : Bool
  pub source_increments : Bool
  pub destination_increments : Bool
  pub source_width : ℕ
  pub destination_width : ℕ
  pub source_burst : ℕ
  pub destination_burst : ℕ

-- What the set-up asks for.
pub data SetupCall : Type 0 where
  create_semaphore : SetupCall
  select_pll1q : SetupCall
  enable_port : DisplayPort → SetupCall
  enable_dma enable_spi link_dma set_attributes enable_dma_irq enable_spi_irq : SetupCall
  output_pins : DisplayPort → List ℕ → SetupCall
  alternate_pin : DisplayPort → ℕ → ℕ → SetupCall
  level : BusEvent → SetupCall
  init_spi : SpiSettings → SetupCall
  init_dma : DmaSettings → SetupCall
  set_dma_priority set_spi_priority : ℕ → SetupCall

abbrev pub disp_irq_priority : ℕ
disp_irq_priority = 6

-- `HAL_SPI_MspInit`, which `HAL_SPI_Init` calls; `is_display` says whether the instance is the display's.
unfoldable pub spi_msp_init : Bool → List SetupCall
spi_msp_init is_display =
    if not is_display
    then []
    else select_pll1q
      ∷ enable_spi
      ∷ enable_port port_a
      ∷ enable_port port_b
      ∷ alternate_pin port_a 5 5
      ∷ alternate_pin port_b 5 5
      ∷ set_spi_priority disp_irq_priority
      ∷ enable_spi_irq
      ∷ []

abbrev pub spi_settings : SpiSettings
spi_settings = record {
  master = true;
  transmit_only = true;
  data_bits = 8;
  clock_idle_high = false;
  first_edge = true;
  prescaler = 8;
  msb_first = true;
  select_by_software = true;
  keeps_pins = true;
}

abbrev pub dma_settings : DmaSettings
dma_settings = record {
  to_peripheral = true;
  source_increments = true;
  destination_increments = false;
  source_width = 1;
  destination_width = 1;
  source_burst = 1;
  destination_burst = 1;
}

-- Which calls the HAL and FreeRTOS answer with success.
pub record DisplayAnswers : Type 0 where
  pub semaphore : Bool
  pub spi : Bool
  pub dma : Bool
  pub attributes : Bool

-- The calls before the reset of the controller.
unfoldable pub setup_calls : DisplayAnswers → List SetupCall
unfolding spi_msp_init
setup_calls a =
    create_semaphore
    ∷ (if not a.semaphore
        then []
        else enable_port port_d
          ∷ enable_dma
          ∷ output_pins port_d (14 ∷ 15 ∷ 11 ∷ [])
          ∷ level (cs false)
          ∷ level (dc true)
          ∷ init_spi spi_settings
          ∷ (spi_msp_init true
              ++ (if not a.spi
                  then []
                  else init_dma dma_settings
                    ∷ (if not a.dma
                        then []
                        else link_dma
                          ∷ set_attributes
                          ∷ (if not a.attributes
                              then []
                              else set_dma_priority disp_irq_priority ∷ enable_dma_irq ∷ [])))))

-- The interrupts of the DMA are enabled, by which the semaphore is given.
abbrev pub has_dma_irq : List SetupCall → Bool
has_dma_irq [] = false
has_dma_irq (enable_dma_irq ∷ calls) = true
has_dma_irq (c ∷ calls) = has_dma_irq calls

abbrev answers_of : Bool → Bool → Bool → Bool → DisplayAnswers
answers_of s p d a = record { semaphore = s; spi = p; dma = d; attributes = a }

-- What a start of the display comes to.
abbrev pub IsSetUp : DisplayAnswers → Bool × Bool × List BusEvent → (ℕ → DmaAnswer) → Type 0
IsSetUp a (result, ready, events) answers =
    (result ≡ ready)
    × (has_dma_irq (setup_calls a) ≡ ready)
    × (((ready ≡ true)
          × (events
              ≡ cs false
                ∷ dc true
                ∷ (start_sequence ++ display_fill true answers 0 0 disp_width disp_height 0)))
        ⊎ ((ready ≡ false) × ((events ≡ []) ⊎ (events ≡ cs false ∷ dc true ∷ []))))

display_init-IsSetUp_cases :
    (s p d a : Bool) (answers : ℕ → DmaAnswer)
    → IsSetUp (answers_of s p d a) (display_init false s p d a answers) answers
unfolding display_init setup_calls
display_init-IsSetUp_cases false p d a answers = (refl, refl, inr (refl, inl refl))
display_init-IsSetUp_cases true false d a answers = (refl, refl, inr (refl, inr refl))
display_init-IsSetUp_cases true true false a answers = (refl, refl, inr (refl, inr refl))
display_init-IsSetUp_cases true true true false answers = (refl, refl, inr (refl, inr refl))
display_init-IsSetUp_cases true true true true answers = (refl, refl, inl (refl, refl))

-- The first `board_display_init` returns true just when it has set `s_ready`, and just when it has enabled the
-- interrupt of the DMA that a transfer waits for. Then the controller has been reset and started and the
-- panel cleared; else nothing has been sent to it, and at most its pins are set.
pub display_init-IsSetUp :
    (a : DisplayAnswers) (answers : ℕ → DmaAnswer)
    → IsSetUp a (display_init false a.semaphore a.spi a.dma a.attributes answers) answers
display_init-IsSetUp a answers =
    display_init-IsSetUp_cases a.semaphore a.spi a.dma a.attributes answers
