-- ===== src/Prelude/Word.antt =====
-- Casts to the unsigned widths, shifts, and the reading of a two's complement pattern.
use robot_joint_stack.Prelude.{
  ℕ, ◌+◌, ◌-◌, ◌*◌, ◌/◌, ◌%◌, ◌^◌, ◌≤◌, ◌<◌, ◌≡◌, arith, ltb, if◌then◌else◌,
}
use robot_joint_stack.Prelude.Int.{ℤ, pos, negsuc, pos_part, neg_part}

abbrev pub u8 : ℕ → ℕ
u8 n = n % 256

abbrev pub u16 : ℕ → ℕ
u16 n = n % 65536

abbrev pub u32 : ℕ → ℕ
u32 n = n % 4294967296

-- uint32_t a - b: the modulus is added first, since `-` on ℕ stops at 0.
abbrev pub sub32 : ℕ → ℕ → ℕ
sub32 a b = (a + 4294967296 - b) % 4294967296

infixl 75 ◌<<<◌ ◌>>>◌
abbrev pub ◌<<<◌ : ℕ → ℕ → ℕ
x <<< k = x * 2 ^ k

abbrev pub ◌>>>◌ : ℕ → ℕ → ℕ
x >>> k = x / 2 ^ k

-- The `w`-bit pattern of an integer, `modulus` being 2 ^ w: what a C cast to the unsigned type gives.
abbrev pub to_pattern : ℕ → ℤ → ℕ
to_pattern modulus (pos n) = n % modulus
to_pattern modulus (negsuc n) = modulus - 1 - n % modulus

-- The integer that a `w`-bit pattern stands for, `half` being 2 ^ (w - 1).
abbrev pub of_pattern : ℕ → ℕ → ℤ
of_pattern half p = if ltb p half then pos p else negsuc (half + half - 1 - p)

abbrev pub i32_to_u32 : ℤ → ℕ
i32_to_u32 v = to_pattern 4294967296 v

abbrev pub u32_to_i32 : ℕ → ℤ
u32_to_i32 p = of_pattern 2147483648 p

abbrev pub i16_to_u16 : ℤ → ℕ
i16_to_u16 v = to_pattern 65536 v

abbrev pub u16_to_i16 : ℕ → ℤ
u16_to_i16 p = of_pattern 32768 p

-- The values of int32_t and of int16_t.
abbrev pub IsI32 : ℤ → Type 0
IsI32 v = (pos_part v < 2147483648) × (neg_part v ≤ 2147483648)

abbrev pub IsI16 : ℤ → Type 0
IsI16 v = (pos_part v < 32768) × (neg_part v ≤ 32768)

abbrev pub IsI64 : ℤ → Type 0
IsI64 v = (pos_part v < 9223372036854775808) × (neg_part v ≤ 9223372036854775808)

pub u32_to_i32-i32_to_u32 : (v : ℤ) → IsI32 v → u32_to_i32 (i32_to_u32 v) ≡ v
u32_to_i32-i32_to_u32 (pos n) h = ground arith
u32_to_i32-i32_to_u32 (negsuc n) h = ground arith

pub u16_to_i16-i16_to_u16 : (v : ℤ) → IsI16 v → u16_to_i16 (i16_to_u16 v) ≡ v
u16_to_i16-i16_to_u16 (pos n) h = ground arith
u16_to_i16-i16_to_u16 (negsuc n) h = ground arith

pub i32_to_u32-u32_to_i32 : (p : ℕ) → p < 4294967296 → i32_to_u32 (u32_to_i32 p) ≡ p
i32_to_u32-u32_to_i32 p h = ground arith

pub i32_to_u32-lt : (v : ℤ) → i32_to_u32 v < 4294967296
i32_to_u32-lt (pos n) = omega arith
i32_to_u32-lt (negsuc n) = omega arith

pub i16_to_u16-lt : (v : ℤ) → i16_to_u16 v < 65536
i16_to_u16-lt (pos n) = omega arith
i16_to_u16-lt (negsuc n) = omega arith

pub u32_to_i32-IsI32 : (p : ℕ) → p < 4294967296 → IsI32 (u32_to_i32 p)
u32_to_i32-IsI32 p h = ground arith

abbrev pub u64 : ℕ → ℕ
u64 n = n % 18446744073709551616

-- The cast of a wider signed value to int32_t or to int16_t.
unfoldable pub to_i32 : ℤ → ℤ
to_i32 v = u32_to_i32 (i32_to_u32 v)

unfoldable pub to_i16 : ℤ → ℤ
to_i16 v = u16_to_i16 (i16_to_u16 v)

pub to_i32_id : (v : ℤ) → IsI32 v → to_i32 v ≡ v
unfolding to_i32
to_i32_id v h = u32_to_i32-i32_to_u32 v h

pub to_i16_id : (v : ℤ) → IsI16 v → to_i16 v ≡ v
unfolding to_i16
to_i16_id v h = u16_to_i16-i16_to_u16 v h
