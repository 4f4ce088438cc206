-- ===== src/Protocol/Bytes.antt =====
-- The little-endian helpers of protocol.c, on the byte array of a frame.
use robot_joint_stack.Prelude.{
  ℕ, ◌+◌, ◌*◌, ◌%◌, ◌<◌, ◌≡◌, arith, bit_and, bit_or, List, set, ap, ◌∙◌,
}
use robot_joint_stack.Prelude.Int.{ℤ}
use robot_joint_stack.Prelude.Word.{
  u8, u16, u32, ◌<<<◌, ◌>>>◌, IsI16, IsI32, i16_to_u16, u16_to_i16, i32_to_u32, u32_to_i32,
  i16_to_u16-lt, i32_to_u32-lt, u16_to_i16-i16_to_u16, u32_to_i32-i32_to_u32,
}
use robot_joint_stack.Prelude.Bits.{bit_and-mask, bit_or-fields}
use robot_joint_stack.Hal.{byte_at}

-- The array written through a pointer to its element `i`.
unfoldable pub put_u16 : List ℕ → ℕ → ℕ → List ℕ
put_u16 p i v = set (set p i (u8 (bit_and v 0xff))) (i + 1) (u8 (v >>> 8))

unfoldable pub put_u32 : List ℕ → ℕ → ℕ → List ℕ
put_u32 p i v =
    let p0 = set p i (u8 (bit_and v 0xff)) in
    let p1 = set p0 (i + 1) (u8 (bit_and (v >>> 8) 0xff)) in
    let p2 = set p1 (i + 2) (u8 (bit_and (v >>> 16) 0xff)) in set p2 (i + 3) (u8 (v >>> 24))

unfoldable pub get_u16 : List ℕ → ℕ → ℕ
get_u16 p i = u16 (bit_or (byte_at p i) (byte_at p (i + 1) <<< 8))

unfoldable pub get_u32 : List ℕ → ℕ → ℕ
get_u32 p i =
    bit_or
      (bit_or (bit_or (byte_at p i) (u32 (byte_at p (i + 1) <<< 8)))
        (u32 (byte_at p (i + 2) <<< 16)))
      (u32 (byte_at p (i + 3) <<< 24))

-- Four bytes, each shifted to its place.
join_bytes :
    (a b c d : ℕ)
    → a < 256
    → b < 256
    → c < 256
    → d < 256
    → bit_or (bit_or (bit_or a (u32 (b <<< 8))) (u32 (c <<< 16))) (u32 (d <<< 24))
      ≡ a + b * 256 + c * 65536 + d * 16777216
join_bytes a b c d ha hb hc hd = ground (
  arith,
  bit_or-fields 8 a b ha,
  bit_or-fields 16 (a + b * 256) c (omega arith),
  bit_or-fields 24 (a + b * 256 + c * 65536) d (omega arith),
)

-- The low byte of a value is its remainder.
low_byte : (v : ℕ) → u8 (bit_and v 0xff) ≡ v % 256
low_byte v = omega (arith, bit_and-mask 8 v)

-- The two bytes of a 16-bit value, put together again.
pub u16_of_bytes : (v : ℕ) → v < 65536 → u16 (bit_or (u8 (bit_and v 0xff)) (u8 (v >>> 8) <<< 8)) ≡ v
u16_of_bytes v h =
    omega (arith, low_byte v, bit_or-fields 8 (u8 (bit_and v 0xff)) (u8 (v >>> 8)) (omega arith))

-- The four bytes of a 32-bit value.
pub u32_of_bytes :
    (v : ℕ)
    → v < 4294967296
    → bit_or
        (bit_or
          (bit_or (u8 (bit_and v 0xff)) (u32 (u8 (bit_and (v >>> 8) 0xff) <<< 8)))
          (u32 (u8 (bit_and (v >>> 16) 0xff) <<< 16)))
        (u32 (u8 (v >>> 24) <<< 24))
      ≡ v
u32_of_bytes v h = omega (
  arith,
  low_byte v,
  low_byte (v >>> 8),
  low_byte (v >>> 16),
  join_bytes (u8 (bit_and v 0xff)) (u8 (bit_and (v >>> 8) 0xff)) (u8 (bit_and (v >>> 16) 0xff))
      (u8 (v >>> 24)) (omega arith) (omega arith) (omega arith) (omega arith),
)

-- The same for the signed types.
pub i16_of_bytes :
    (v : ℤ)
    → IsI16 v
    → let p = i16_to_u16 v in
      u16_to_i16 (u16 (bit_or (u8 (bit_and p 0xff)) (u8 (p >>> 8) <<< 8))) ≡ v
i16_of_bytes v h =
    ap u16_to_i16 (u16_of_bytes (i16_to_u16 v) (i16_to_u16-lt v)) ∙ u16_to_i16-i16_to_u16 v h

pub i32_of_bytes :
    (v : ℤ)
    → IsI32 v
    → let p = i32_to_u32 v in
      u32_to_i32 (
        bit_or
          (bit_or
            (bit_or (u8 (bit_and p 0xff)) (u32 (u8 (bit_and (p >>> 8) 0xff) <<< 8)))
            (u32 (u8 (bit_and (p >>> 16) 0xff) <<< 16)))
          (u32 (u8 (p >>> 24) <<< 24)))
      ≡ v
i32_of_bytes v h =
    ap u32_to_i32 (u32_of_bytes (i32_to_u32 v) (i32_to_u32-lt v)) ∙ u32_to_i32-i32_to_u32 v h

-- What is read is the little-endian value of the bytes.
pub get_u32-eq :
    (p : List ℕ) (i : ℕ)
    → ((j : ℕ) → byte_at p j < 256)
    → get_u32 p i
      ≡ byte_at p i
        + byte_at p (i + 1) * 256
        + byte_at p (i + 2) * 65536
        + byte_at p (i + 3) * 16777216
unfolding get_u32
get_u32-eq p i bytes = join_bytes _ _ _ _ (bytes i) (bytes (i + 1)) (bytes (i + 2)) (bytes (i + 3))
