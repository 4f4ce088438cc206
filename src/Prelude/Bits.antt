-- ===== src/Prelude/Bits.antt =====
-- The laws of `bit_and` and `bit_or` that the masks and the packed fields of the program need.
use Prim.Native.Nat.{min, max, digits, bit_and-bitwise, bit_or-bitwise}
use native.Mathlib.Nat.{
  pow-suc, mul-add-mod_self_right, mod-eq_of_lt, mod-lt, div-add-mod', one-le-pow,
}
use mathlib.Core.Path.{◌≡⟨◌⟩◌, ◌∎}
use robot_joint_stack.Prelude.{
  ℕ, zero, suc, ◌+◌, ◌-◌, ◌*◌, ◌/◌, ◌%◌, ◌^◌, ◌≤◌, ◌<◌, bit_and, bit_or, ◌≡◌, refl, arith, ap,
}

-- The operations recur on fuel, the first argument; more fuel than digits changes nothing.
module _ (rest : ℕ → ℕ) (digit : ℕ → ℕ → ℕ) where
  digits_fuel :
      (more fuel a b : ℕ)
      → a ≤ fuel
      → a ≤ more
      → digits rest digit more a b ≡ digits rest digit fuel a b
  digits_fuel zero zero a b h k = refl
  digits_fuel zero (suc fuel) zero b h k = refl
  digits_fuel (suc more) zero zero b h k = refl
  digits_fuel (suc more) (suc fuel) zero b h k = refl
  digits_fuel zero (suc fuel) (suc a) b h k = elim k [ ]
  digits_fuel (suc more) zero (suc a) b h k = elim h [ ]
  digits_fuel (suc more) (suc fuel) (suc a) b h k =
      omega (arith, digits_fuel more fuel (suc a / 2) (b / 2) (omega arith) (omega arith))

pub zero-bit_and : (b : ℕ) → bit_and 0 b ≡ 0
zero-bit_and b = bit_and-bitwise 0 b

pub zero-bit_or : (b : ℕ) → bit_or 0 b ≡ b
zero-bit_or b = bit_or-bitwise 0 b

-- The lowest digit apart.
pub bit_and_digit : (a b : ℕ) → bit_and a b ≡ bit_and (a / 2) (b / 2) * 2 + min (a % 2) (b % 2)
bit_and_digit zero b = omega (arith, zero-bit_and b, zero-bit_and (b / 2))
bit_and_digit (suc a) b = omega (
  arith,
  bit_and-bitwise (suc a) b,
  bit_and-bitwise (suc a / 2) (b / 2),
  digits_fuel (λ _. zero) min a (suc a / 2) (suc a / 2) (b / 2) (omega arith) (omega arith),
)

pub bit_or_digit : (a b : ℕ) → bit_or a b ≡ bit_or (a / 2) (b / 2) * 2 + max (a % 2) (b % 2)
bit_or_digit zero b = omega (arith, zero-bit_or b, zero-bit_or (b / 2))
bit_or_digit (suc a) b = omega (
  arith,
  bit_or-bitwise (suc a) b,
  bit_or-bitwise (suc a / 2) (b / 2),
  digits_fuel (λ y. y) max a (suc a / 2) (suc a / 2) (b / 2) (omega arith) (omega arith),
)

bit_and-zero_below : (n a : ℕ) → a ≤ n → bit_and a 0 ≡ 0
bit_and-zero_below n zero h = zero-bit_and 0
bit_and-zero_below zero (suc a) h = elim h [ ]
bit_and-zero_below (suc n) (suc a) h =
    omega (arith, bit_and_digit (suc a) 0, bit_and-zero_below n (suc a / 2) (omega arith))

pub bit_and-zero : (a : ℕ) → bit_and a 0 ≡ 0
bit_and-zero a = bit_and-zero_below a a (omega arith)

bit_or-zero_below : (n a : ℕ) → a ≤ n → bit_or a 0 ≡ a
bit_or-zero_below n zero h = zero-bit_or 0
bit_or-zero_below zero (suc a) h = elim h [ ]
bit_or-zero_below (suc n) (suc a) h =
    omega (arith, bit_or_digit (suc a) 0, bit_or-zero_below n (suc a / 2) (omega arith))

pub bit_or-zero : (a : ℕ) → bit_or a 0 ≡ a
bit_or-zero a = bit_or-zero_below a a (omega arith)

pub bit_and_idem_below : (n a : ℕ) → a ≤ n → bit_and a a ≡ a
bit_and_idem_below n zero h = zero-bit_and 0
bit_and_idem_below zero (suc a) h = elim h [ ]
bit_and_idem_below (suc n) (suc a) h =
    omega (arith, bit_and_digit (suc a) (suc a), bit_and_idem_below n (suc a / 2) (omega arith))

mul-pow-suc : (q k : ℕ) → q * 2 ^ suc k ≡ q * 2 ^ k * 2
mul-pow-suc q k = omega (arith, ap (λ (t : ℕ). q * t) (pow-suc 2 k))

-- The remainder by 2 ^ (k + 1), from that of the upper digits by 2 ^ k.
mod-pow-suc : (k a : ℕ) → a % 2 ^ suc k ≡ a / 2 % 2 ^ k * 2 + a % 2
mod-pow-suc k a =
    a % 2 ^ suc k
    ≡⟨ ap (λ t. t % 2 ^ suc k) split ⟩ (a / 2 / 2 ^ k * 2 ^ suc k + low) % 2 ^ suc k
    ≡⟨ mul-add-mod_self_right (a / 2 / 2 ^ k) (2 ^ suc k) low ⟩ low % 2 ^ suc k
    ≡⟨ mod-eq_of_lt below ⟩ low ∎
  where
    low : ℕ
    low = a / 2 % 2 ^ k * 2 + a % 2

    split : a ≡ a / 2 / 2 ^ k * 2 ^ suc k + low
    split = omega (arith, mul-pow-suc (a / 2 / 2 ^ k) k, div-add-mod' (a / 2) (2 ^ k))

    below : low < 2 ^ suc k
    below = omega (arith, pow-suc 2 k, mod-lt (a / 2) {m = 2 ^ k} (one-le-pow k 2 (omega arith)))

-- A mask of `k` ones is the remainder by 2 ^ k.
pub bit_and-mask : (k a : ℕ) → bit_and a (2 ^ k - 1) ≡ a % 2 ^ k
bit_and-mask zero a = omega (arith, bit_and-zero a)
bit_and-mask (suc k) a =
    let half : (2 ^ suc k - 1) / 2 ≡ 2 ^ k - 1 = omega (arith, pow-suc 2 k) in
    let odd : (2 ^ suc k - 1) % 2 ≡ 1 = omega (arith, pow-suc 2 k, one-le-pow k 2 (omega arith)) in
    rw (bit_and_digit a (2 ^ suc k - 1), half, odd, bit_and-mask k (a / 2), mod-pow-suc k a)
      (omega arith)

-- A field of `k` bits, and another one above it.
pub bit_or-fields : (k low high : ℕ) → low < 2 ^ k → bit_or low (high * 2 ^ k) ≡ low + high * 2 ^ k
bit_or-fields zero low high h = ground (arith, zero-bit_or (high * 1))
bit_or-fields (suc k) low high h =
    let half : high * 2 ^ suc k / 2 ≡ high * 2 ^ k = omega (arith, mul-pow-suc high k) in
    let even : high * 2 ^ suc k % 2 ≡ 0 = omega (arith, mul-pow-suc high k) in
    rw
      (
        bit_or_digit low (high * 2 ^ suc k),
        half,
        even,
        bit_or-fields k (low / 2) high (omega (arith, pow-suc 2 k)),
      )
      (omega (arith, mul-pow-suc high k))

bit_or_comm_below : (n a b : ℕ) → a ≤ n → b ≤ n → bit_or a b ≡ bit_or b a
bit_or_comm_below zero a b h k =
    let a-zero : a ≡ 0 = omega arith in let b-zero : b ≡ 0 = omega arith in rw (a-zero, b-zero)
bit_or_comm_below (suc n) zero b h k = omega (arith, zero-bit_or b, bit_or-zero b)
bit_or_comm_below (suc n) (suc a) zero h k = omega (arith, zero-bit_or (suc a), bit_or-zero (suc a))
bit_or_comm_below (suc n) (suc a) (suc b) h k = omega (
  arith,
  bit_or_digit (suc a) (suc b),
  bit_or_digit (suc b) (suc a),
  bit_or_comm_below n (suc a / 2) (suc b / 2) (omega arith) (omega arith),
)

pub bit_or_comm : (a b : ℕ) → bit_or a b ≡ bit_or b a
bit_or_comm a b = bit_or_comm_below (a + b) a b (omega arith) (omega arith)

bit_and-le_below : (n a b : ℕ) → a ≤ n → bit_and a b ≤ a
bit_and-le_below n zero b h = omega (arith, zero-bit_and b)
bit_and-le_below zero (suc a) b h = elim h [ ]
bit_and-le_below (suc n) (suc a) b h =
    omega (arith, bit_and_digit (suc a) b, bit_and-le_below n (suc a / 2) (b / 2) (omega arith))

pub bit_and-le : (a b : ℕ) → bit_and a b ≤ a
bit_and-le a b = bit_and-le_below a a b (omega arith)

pub bit_and_idem : (a : ℕ) → bit_and a a ≡ a
bit_and_idem a = bit_and_idem_below a a (omega arith)

-- One digit at a time against a mask whose lowest digit is known.
pub and-odd : (a m : ℕ) → bit_and a (m * 2 + 1) ≡ bit_and (a / 2) m * 2 + a % 2
and-odd a m =
    let half : (m * 2 + 1) / 2 ≡ m = omega arith in
    let one : (m * 2 + 1) % 2 ≡ 1 = omega arith in
    rw (bit_and_digit a (m * 2 + 1), half, one) (omega arith)

pub and-even : (a m : ℕ) → bit_and a (m * 2) ≡ bit_and (a / 2) m * 2
and-even a m =
    let half : m * 2 / 2 ≡ m = omega arith in
    let zero_digit : m * 2 % 2 ≡ 0 = omega arith in
    rw (bit_and_digit a (m * 2), half, zero_digit) (omega arith)

pub or-odd : (a m : ℕ) → bit_or a (m * 2 + 1) ≡ bit_or (a / 2) m * 2 + 1
or-odd a m =
    let half : (m * 2 + 1) / 2 ≡ m = omega arith in
    let one : (m * 2 + 1) % 2 ≡ 1 = omega arith in
    rw (bit_or_digit a (m * 2 + 1), half, one) (omega arith)

pub or-even : (a m : ℕ) → bit_or a (m * 2) ≡ bit_or (a / 2) m * 2 + a % 2
or-even a m =
    let half : m * 2 / 2 ≡ m = omega arith in
    let zero_digit : m * 2 % 2 ≡ 0 = omega arith in
    rw (bit_or_digit a (m * 2), half, zero_digit) (omega arith)
