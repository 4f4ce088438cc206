-- ===== src/Protocol/Dlc.antt =====
-- The CAN FD length table of protocol.c.
use robot_joint_stack.Prelude.{
  ℕ, ◌+◌, ◌≤◌, ◌<◌, ◌≡◌, refl, arith, ltb, leb, ◌==◌, if◌then◌else◌, List, [], ◌∷◌, get_or, ◌⊎◌,
  ◌&&◌, ◌||◌, all_below, of_all_below, ==_iff, true, Bool, inl, inr,
}
use native.Mathlib.Decide.{dec_le}
use robot_joint_stack.Prelude.Word.{u8}

-- `k_dlc_to_len`.
abbrev pub dlc_table : List ℕ
dlc_table = 0 ∷ 1 ∷ 2 ∷ 3 ∷ 4 ∷ 5 ∷ 6 ∷ 7 ∷ 8 ∷ 12 ∷ 16 ∷ 20 ∷ 24 ∷ 32 ∷ 48 ∷ 64 ∷ []

unfoldable pub fd_dlc_to_len : ℕ → ℕ
fd_dlc_to_len dlc = if ltb dlc 16 then get_or dlc_table dlc 0 else 0xff

-- The search loops run over the rest of the table; `dlc` is the loop variable.
len_to_dlc_loop : List ℕ → ℕ → ℕ → ℕ
len_to_dlc_loop [] dlc len = 0xff
len_to_dlc_loop (size ∷ sizes) dlc len =
    let rest = len_to_dlc_loop sizes (u8 (dlc + 1)) len in if size == len then dlc else rest

unfoldable pub fd_len_to_dlc : ℕ → ℕ
unfolding len_to_dlc_loop
fd_len_to_dlc len = len_to_dlc_loop dlc_table 0 len

round_len_loop : List ℕ → ℕ → ℕ
round_len_loop [] len = 0
round_len_loop (size ∷ sizes) len =
    let rest = round_len_loop sizes len in if leb len size then size else rest

unfoldable pub fd_round_len : ℕ → ℕ
unfolding round_len_loop
fd_round_len len = round_len_loop dlc_table len

len_to_dlc_table : all_below 16 (λ dlc. fd_len_to_dlc (fd_dlc_to_len dlc) == dlc) ≡ true
unfolding all_below fd_len_to_dlc fd_dlc_to_len
len_to_dlc_table = refl

dlc_to_len_table :
    all_below 256 (λ len.
      (fd_len_to_dlc len == 0xff)
      || (ltb (fd_len_to_dlc len) 16 && (fd_dlc_to_len (fd_len_to_dlc len) == len)))
    ≡ true
unfolding all_below fd_len_to_dlc fd_dlc_to_len
dlc_to_len_table = refl

-- DLC codes and payload sizes correspond: the size of each of the 16 codes is looked up back to the
-- code; and a size that fits one byte either has no code (0xFF), or gets a code below 16 whose size
-- it is.
pub fd_dlc_sizes_match :
    (dlc len : ℕ)
    → dlc < 16
    → len < 256
    → (fd_len_to_dlc (fd_dlc_to_len dlc) ≡ dlc)
      × ((fd_len_to_dlc len ≡ 0xff)
          ⊎ ((fd_len_to_dlc len < 16) × (fd_dlc_to_len (fd_len_to_dlc len) ≡ len)))
fd_dlc_sizes_match dlc len h k = (
  (==_iff _ _).0 (of_all_below 16 _ dlc len_to_dlc_table h),
  ground (arith, of_all_below 256 _ len dlc_to_len_table k),
)

abbrev round_len_upper : ℕ → ℕ → Bool
round_len_upper len dlc = ltb (fd_dlc_to_len dlc) len || leb (fd_round_len len) (fd_dlc_to_len dlc)

round_len_table :
    all_below 256 (λ len.
      if leb len 64
      then leb len (fd_round_len len)
        && ltb (fd_len_to_dlc (fd_round_len len)) 16
        && all_below 16 (round_len_upper len)
      else fd_round_len len == 0)
    ≡ true
unfolding all_below fd_len_to_dlc fd_dlc_to_len fd_round_len
round_len_table = refl

-- `rjs_fd_round_len` gives the smallest valid CAN FD payload size that is not below a length of at
-- most 64: it is a valid size, not below the length, and the size of any code is below the length or
-- not below the result. For a longer length of one byte it gives 0.
pub fd_round_len_least :
    (len dlc : ℕ)
    → len < 256
    → dlc < 16
    → let size = fd_round_len len in
      ((len ≤ 64)
        × (len ≤ size)
        × (fd_len_to_dlc size < 16)
        × ((fd_dlc_to_len dlc < len) ⊎ (size ≤ fd_dlc_to_len dlc)))
      ⊎ ((64 < len) × (size ≡ 0))
fd_round_len_least len dlc h k =
    let row = of_all_below 256 _ len round_len_table h in
    elim (dec_le len 64) [
      | yes short ↦
          let column = of_all_below 16 (round_len_upper len) dlc (ground (arith, row)) k in
          inl (short, ground (arith, row), ground (arith, row), ground (arith, column))
      | no long ↦ inr (omega arith, ground (arith, row))
    ]
