-- ===== src/Joint/Effects.antt =====
-- What a command does to the joint, and what the joint reports.
use robot_joint_stack.Prelude.{
  ℕ, ◌+◌, ◌*◌, ◌/◌, ◌%◌, ◌≤◌, ◌<◌, ◌≡◌, ◌≢◌, refl, arith, ◌⊎◌, inl, inr, if◌then◌else◌, ==_iff,
  ne→==_false, bit_or, ◌∙◌, Bool, true, false, ◌||◌, ◌==◌, Bool-cases,
}
use native.Mathlib.Decide.{ℕ_discrete}
use robot_joint_stack.Prelude.Bits.{and-odd, and-even, or-odd, or-even, bit_or-zero, bit_and-mask}
use robot_joint_stack.Prelude.Int.{ℤ, pos, ◌≤ℤ◌, ◌+ℤ◌, ◌/ℤ◌, neg_ℤ, magnitude, ltb_ℤ, +ℤ_parts}
use robot_joint_stack.Prelude.Word.{to_i32_id, to_i16_id}
use robot_joint_stack.Protocol.{Command, mode_position}
use robot_joint_stack.Joint.{
  Joint, clear_peer_lost, clear_limit_reached, joint_command, joint_get_state, clamp32,
}
use robot_joint_stack.Joint.Safe.{IsConfig, Within, clamp32_inside}

-- A 16-bit word without bit 3 and without bit 5.
clear_peer_lost-eq :
    (flags : ℕ) → flags < 65536 → clear_peer_lost flags ≡ flags / 16 * 16 + flags % 8
unfolding clear_peer_lost
clear_peer_lost-eq flags h = omega (
  arith,
  and-odd flags 0x7ffb,
  and-odd (flags / 2) 0x3ffd,
  and-odd (flags / 2 / 2) 0x1ffe,
  and-even (flags / 2 / 2 / 2) 0xfff,
  bit_and-mask 12 (flags / 2 / 2 / 2 / 2),
)

clear_limit_reached-eq :
    (flags : ℕ) → flags < 65536 → clear_limit_reached flags ≡ flags / 64 * 64 + flags % 32
unfolding clear_limit_reached
clear_limit_reached-eq flags h = omega (
  arith,
  and-odd flags 0x7fef,
  and-odd (flags / 2) 0x3ff7,
  and-odd (flags / 2 / 2) 0x1ffb,
  and-odd (flags / 2 / 2 / 2) 0xffd,
  and-odd (flags / 2 / 2 / 2 / 2) 0x7fe,
  and-even (flags / 2 / 2 / 2 / 2 / 2) 0x3ff,
  bit_and-mask 10 (flags / 2 / 2 / 2 / 2 / 2 / 2),
)

bit_or-limit_reached : (flags : ℕ) → bit_or flags 0x20 ≡ flags / 64 * 64 + 32 + flags % 32
bit_or-limit_reached flags = omega (
  arith,
  or-even flags 16,
  or-even (flags / 2) 8,
  or-even (flags / 2 / 2) 4,
  or-even (flags / 2 / 2 / 2) 2,
  or-even (flags / 2 / 2 / 2 / 2) 1,
  or-odd (flags / 2 / 2 / 2 / 2 / 2) 0,
  bit_or-zero (flags / 2 / 2 / 2 / 2 / 2 / 2),
)

clamp32_below : (v lo hi : ℤ) → v +ℤ pos 1 ≤ℤ lo → clamp32 v lo hi ≡ lo
unfolding clamp32
clamp32_below v lo hi h = ground (arith, +ℤ_parts v (pos 1))

clamp32_above : (v lo hi : ℤ) → lo ≤ℤ hi → hi +ℤ pos 1 ≤ℤ v → clamp32 v lo hi ≡ hi
unfolding clamp32
clamp32_above v lo hi k h = ground (arith, +ℤ_parts hi (pos 1))

-- Flags with bit 3 (peer lost) cleared, and bit 5 (limit reached) set to `limit`.
abbrev pub with_flags : ℕ → ℕ → ℕ
with_flags flags limit = flags / 64 * 64 + limit * 32 + flags / 16 % 2 * 16 + flags % 8

-- The target, the speed limit and all flags but peer-lost stay.
abbrev pub KeepsTarget : Joint → Joint → Type 0
KeepsTarget j k =
    (k.target_mdeg ≡ j.target_mdeg)
    × (k.max_velocity_mdeg_s ≡ j.max_velocity_mdeg_s)
    × (k.error_flags ≡ with_flags j.error_flags (j.error_flags / 32 % 2))

-- The speed limit and the target are the command's, the target cut to the soft limits and the
-- limit flag set if it is cut.
abbrev pub Retargets : Joint → Command → Joint → Type 0
Retargets j c k =
    (k.max_velocity_mdeg_s ≡ c.max_velocity_mdeg_s)
    × ((Within j.cfg.min_mdeg j.cfg.max_mdeg c.target_mdeg
          × (k.target_mdeg ≡ c.target_mdeg)
          × (k.error_flags ≡ with_flags j.error_flags 0))
        ⊎ (((c.target_mdeg +ℤ pos 1 ≤ℤ j.cfg.min_mdeg)
              × (k.target_mdeg ≡ j.cfg.min_mdeg)
              × (k.error_flags ≡ with_flags j.error_flags 1))
            ⊎ ((j.cfg.max_mdeg +ℤ pos 1 ≤ℤ c.target_mdeg)
                × (k.target_mdeg ≡ j.cfg.max_mdeg)
                × (k.error_flags ≡ with_flags j.error_flags 1))))

where_is : (v lo hi : ℤ) → Within lo hi v ⊎ ((v +ℤ pos 1 ≤ℤ lo) ⊎ (hi +ℤ pos 1 ≤ℤ v))
where_is v lo hi = ground (arith, +ℤ_parts v (pos 1), +ℤ_parts hi (pos 1))

flags_kept : (flags : ℕ) → flags < 65536 → clear_peer_lost flags ≡ with_flags flags (flags / 32 % 2)
flags_kept flags small = omega (arith, clear_peer_lost-eq flags small)

flags_inside :
    (flags : ℕ) → flags < 65536 → clear_limit_reached (clear_peer_lost flags) ≡ with_flags flags 0
flags_inside flags small =
    rw (clear_peer_lost-eq flags small)
      (clear_limit_reached-eq (flags / 16 * 16 + flags % 8) (omega arith) ∙ omega arith)

flags_cut : (flags : ℕ) → flags < 65536 → bit_or (clear_peer_lost flags) 0x20 ≡ with_flags flags 1
flags_cut flags small =
    rw (clear_peer_lost-eq flags small)
      (bit_or-limit_reached (flags / 16 * 16 + flags % 8) ∙ omega arith)

-- The test of `rjs_joint_command` on the target.
abbrev is_outside : Joint → Command → Bool
is_outside j c = ltb_ℤ c.target_mdeg j.cfg.min_mdeg || ltb_ℤ j.cfg.max_mdeg c.target_mdeg

is_outside_inside : (v lo hi : ℤ) → Within lo hi v → (ltb_ℤ v lo || ltb_ℤ hi v) ≡ false
is_outside_inside v lo hi h = ground arith

is_outside_below : (v lo hi : ℤ) → v +ℤ pos 1 ≤ℤ lo → (ltb_ℤ v lo || ltb_ℤ hi v) ≡ true
is_outside_below v lo hi h = ground (arith, +ℤ_parts v (pos 1))

is_outside_above : (v lo hi : ℤ) → hi +ℤ pos 1 ≤ℤ v → (ltb_ℤ v lo || ltb_ℤ hi v) ≡ true
is_outside_above v lo hi h = ground (arith, +ℤ_parts hi (pos 1))

-- What a command sets whatever its mode.
abbrev Receives : Joint → Command → Joint → Type 0
Receives j c k = (k.since_command_ms ≡ 0) × (k.last_seq ≡ c.sequence) × (k.mode ≡ c.mode)

joint_command-Receives : (j : Joint) (c : Command) → Receives j c (joint_command j c)
unfolding joint_command
joint_command-Receives j c = elim (Bool-cases (c.mode == mode_position)) [
  | inl move ↦ rw move (refl, refl, refl)
  | inr other ↦ rw other (refl, refl, refl)
]

joint_command-other :
    (j : Joint) (c : Command)
    → c.mode ≢ mode_position
    → let k = joint_command j c in
      (k.target_mdeg ≡ j.target_mdeg)
      × (k.max_velocity_mdeg_s ≡ j.max_velocity_mdeg_s)
      × (k.error_flags ≡ clear_peer_lost j.error_flags)
unfolding joint_command
joint_command-other j c other = rw (ne→==_false c.mode mode_position other) (refl, refl, refl)

joint_command-move :
    (j : Joint) (c : Command)
    → c.mode ≡ mode_position
    → let k = joint_command j c in
      (k.max_velocity_mdeg_s ≡ c.max_velocity_mdeg_s)
      × (k.target_mdeg ≡ clamp32 c.target_mdeg j.cfg.min_mdeg j.cfg.max_mdeg)
      × (k.error_flags ≡ (
          if is_outside j c
          then bit_or (clear_peer_lost j.error_flags) 0x20
          else clear_limit_reached (clear_peer_lost j.error_flags)))
unfolding joint_command
joint_command-move j c move = rw ((==_iff c.mode mode_position).1 move) (refl, refl, refl)

joint_command-Retargets :
    (j : Joint) (c : Command)
    → IsConfig j.cfg
    → j.error_flags < 65536
    → c.mode ≡ mode_position
    → Retargets j c (joint_command j c)
joint_command-Retargets j c ok small move =
    let (speed, target, flags) = joint_command-move j c move in
    let lo = j.cfg.min_mdeg in
    let hi = j.cfg.max_mdeg in
    let v = c.target_mdeg in
    (
      speed,
      elim (where_is v lo hi) [
        | inl inside ↦ inl (
          inside,
          target ∙ clamp32_inside v lo hi ok.min_i32 ok.max_i32 inside,
          flags ∙ rw (is_outside_inside v lo hi inside) (flags_inside j.error_flags small),
        )
        | inr (inl below) ↦ inr (
            inl (
              below,
              target ∙ clamp32_below v lo hi below,
              flags ∙ rw (is_outside_below v lo hi below) (flags_cut j.error_flags small),
            ))
        | inr (inr above) ↦ inr (
            inr (
              above,
              target ∙ clamp32_above v lo hi ok.ordered above,
              flags ∙ rw (is_outside_above v lo hi above) (flags_cut j.error_flags small),
            ))
      ],
    )

-- Every command restarts the waiting time, is acknowledged by its sequence number, and sets the
-- mode. A command to move also takes over the speed limit and the target, and clears the peer-lost
-- flag; a target between the soft limits is taken as it is and clears the limit flag, one below or
-- above becomes the limit that it passes and sets the flag; no other flag changes. A command with
-- another mode clears the peer-lost flag and leaves the target, the speed limit and the other flags
-- as they were. The flags are 16 bits and the limits int32_t values in order.
pub joint_command-effect :
    (j : Joint) (c : Command)
    → IsConfig j.cfg
    → j.error_flags < 65536
    → let k = joint_command j c in
      (k.since_command_ms ≡ 0)
      × (k.last_seq ≡ c.sequence)
      × (k.mode ≡ c.mode)
      × (((c.mode ≢ mode_position) × KeepsTarget j k)
          ⊎ ((c.mode ≡ mode_position) × Retargets j c k))
joint_command-effect j c ok small =
    let (since, seq, mode) = joint_command-Receives j c in
    (
      since,
      seq,
      mode,
      elim (ℕ_discrete c.mode mode_position) [
        | no other ↦
            let (target, speed, flags) = joint_command-other j c other in
            inl (other, (target, speed, flags ∙ flags_kept j.error_flags small))
        | yes move ↦ inr (move, joint_command-Retargets j c ok small move)
      ],
    )

abs_v : (v : ℤ) → (if ltb_ℤ v (pos 0) then neg_ℤ v else v) ≡ pos (magnitude v)
abs_v v = ground arith

current_sum : (n : ℕ) → pos 50 +ℤ (pos n /ℤ 1000) ≡ pos (50 + n / 1000)
unfolding ◌+ℤ◌ ◌/ℤ◌
current_sum n = ground arith

-- The reported current is 50 mA and 1 mA for each whole degree per second while the joint is in
-- position mode, and 0 otherwise; no cast cuts it while the speed is at most 32717999 mdeg/s. All
-- other fields are those of the joint, and the temperature is 25.0 degrees.
pub joint_get_state_lem :
    (j : Joint)
    → magnitude j.velocity_mdeg_s ≤ 32717999
    → let s = joint_get_state j in
      (s.position_mdeg ≡ j.position_mdeg)
      × (s.velocity_mdeg_s ≡ j.velocity_mdeg_s)
      × (s.mode ≡ j.mode)
      × (s.last_command_seq ≡ j.last_seq)
      × (s.temperature_c10 ≡ pos 250)
      × (((j.mode ≡ mode_position) × (s.current_ma ≡ pos (50 + magnitude j.velocity_mdeg_s / 1000)))
          ⊎ ((j.mode ≢ mode_position) × (s.current_ma ≡ pos 0)))
unfolding joint_get_state
joint_get_state_lem j slow = (
  refl,
  refl,
  refl,
  refl,
  refl,
  elim (ℕ_discrete j.mode mode_position) [
    | yes m ↦ inl (
      m,
      rw
          (
            (==_iff _ _).1 m,
            abs_v j.velocity_mdeg_s,
            to_i32_id (pos (magnitude j.velocity_mdeg_s)) (omega arith),
            current_sum (magnitude j.velocity_mdeg_s),
          )
          (to_i16_id (pos (50 + magnitude j.velocity_mdeg_s / 1000)) (omega arith)),
    )
    | no m ↦ inr (m, rw (ne→==_false _ _ m) (to_i16_id (pos 0) (omega arith)))
  ],
)
