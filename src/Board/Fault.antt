-- ===== src/Board/Fault.antt =====
-- boards/nucleo_h7s3l8/src/board.c, stm32h7rsxx_it.c and main.c: the ways in which the firmware stops, with
-- the reason that `board_fatal` is given. What `snprintf` makes of a format is a parameter.
use Prim.Native.Char.{code}
use Prim.Native.String.{String}
use robot_joint_stack.Prelude.{
  ℕ, ◌-◌, ◌≡◌, ◌≢◌, ◌⊎◌, inl, inr, refl, ap, if◌then◌else◌, ◌==◌, Option, none, some, List, [], ◌∷◌,
  ◌++◌, take, Bool-cases, arith,
}
use robot_joint_stack.Prelude.Int.{pos}
use robot_joint_stack.Format.{unsigned, signed, text, Formatter, codes}

-- The text after a byte, unless a later slash has been found.
abbrev or_here : ℕ → String → Option String → Option String
or_here c s none = if c == 47 then some s else none
or_here c s (some t) = some t

-- `strrchr` for a slash: what follows the last one.
unfoldable pub after_slash : String → Option String
after_slash String.[] = none
after_slash (String.◌∷◌ c s) = or_here (code c) s (after_slash s)

abbrev or_whole : String → Option String → String
or_whole file none = file
or_whole file (some base) = base

unfoldable pub base_name : String → String
unfolding after_slash
base_name file = or_whole file (after_slash file)

-- What `snprintf` leaves in an array of `size` bytes, up to its NUL.
abbrev printed : ℕ → Option (List ℕ) → Option (List ℕ)
printed size none = none
printed size (some bytes) = some (take (size - 1) bytes)

-- The message of `board_assert_failed`; none stands for an error of `snprintf`.
unfoldable pub assert_message : Formatter → String → ℕ → Option (List ℕ)
unfolding base_name
assert_message format file line =
    printed 96 (format "assert %s:%d" (text (base_name file) ∷ signed (pos line) ∷ []))

-- The message of `hard_fault_report`, from the stacked frame and the fault status registers.
unfoldable pub hard_fault_message : Formatter → (ℕ → ℕ) → ℕ → ℕ → Option (List ℕ)
hard_fault_message format frame cfsr hfsr = printed 112 (
    format "HardFault PC=0x%08lx LR=0x%08lx CFSR=0x%08lx HFSR=0x%08lx"
      (unsigned (frame 6) ∷ unsigned (frame 5) ∷ unsigned cfsr ∷ unsigned hfsr ∷ []))

-- The handlers of faults and the hooks of FreeRTOS that only stop.
pub data Fault : Type 0 where
  nmi mem_manage bus_fault usage_fault stack_overflow malloc_failed : Fault

unfoldable pub fault_reason : Fault → String
fault_reason nmi = "NMI"
fault_reason mem_manage = "MemManage fault"
fault_reason bus_fault = "BusFault"
fault_reason usage_fault = "UsageFault"
fault_reason stack_overflow = "stack overflow"
fault_reason malloc_failed = "FreeRTOS heap exhausted"

-- No byte is a slash.
abbrev pub NoSlash : String → Type 0
NoSlash String.[] = Unit {0}
NoSlash (String.◌∷◌ c s) = (code c ≢ 47) × NoSlash s

-- What the search has found of a text.
abbrev IsFound : String → Option String → Type 0
IsFound file none = NoSlash file
IsFound file (some base) =
    NoSlash base × ((before : List ℕ) × (codes file ≡ before ++ (47 ∷ codes base)))

after_slash-IsFound : (file : String) → IsFound file (after_slash file)
unfolding after_slash
after_slash-IsFound String.[] = tt
after_slash-IsFound (String.◌∷◌ c s) = found_here c s (after_slash s) (after_slash-IsFound s)
  where
    found_here :
        (c : _) (s : String) (r : Option String)
        → IsFound s r
        → IsFound (String.◌∷◌ c s) (or_here (code c) s r)
    found_here c s (some t) (no_slash, (before, same)) =
        (no_slash, (code c ∷ before, ap (λ bs. code c ∷ bs) same))
    found_here c s none no_slash = elim (Bool-cases (code c == 47)) [
      | inl slash ↦ rw slash (no_slash, ([], ap (λ b. b ∷ codes s) (ground (arith, slash))))
      | inr other ↦ rw other (λ same. ground (arith, other, same), no_slash)
    ]

-- The base name of a file has no slash; it is the whole name if that has none, and else what comes after
-- a slash of it, so that it is never cut.
pub base_name-NoSlash :
    (file : String)
    → NoSlash (base_name file)
      × ((base_name file ≡ file)
          ⊎ ((before : List ℕ) × (codes file ≡ before ++ (47 ∷ codes (base_name file)))))
unfolding base_name
base_name-NoSlash file = whole file (after_slash file) (after_slash-IsFound file)
  where
    whole :
        (file : String) (r : Option String)
        → IsFound file r
        → NoSlash (or_whole file r)
          × ((or_whole file r ≡ file)
              ⊎ ((before : List ℕ) × (codes file ≡ before ++ (47 ∷ codes (or_whole file r)))))
    whole file none no_slash = (no_slash, inl refl)
    whole file (some base) (no_slash, split) = (no_slash, inr split)
