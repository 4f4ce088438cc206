-- ===== src/Log/Lines.antt =====
-- What is written for a message.
use robot_joint_stack.Prelude.{
  ℕ, zero, suc, ◌+◌, ◌-◌, ◌≤◌, ◌<◌, ◌≡◌, refl, arith, ap, sym, ◌∙◌, List, [], ◌∷◌, ◌++◌, take, drop,
  set, length, lt→ltb, length-take, length-drop, length-append,
}
use robot_joint_stack.Log.{
  LogLine, log_line_max, bounded_len, print_into, end_line, finished_line, line_bytes,
}

-- The bytes before the first NUL.
abbrev pub until_nul : List ℕ → List ℕ
until_nul [] = []
until_nul (zero ∷ s) = []
until_nul (suc c ∷ s) = suc c ∷ until_nul s

bounded_len-until_nul : (s : List ℕ) (m : ℕ) → bounded_len s m ≡ length (until_nul (take m s))
unfolding bounded_len
bounded_len-until_nul [] zero = refl
bounded_len-until_nul (c ∷ s) zero = refl
bounded_len-until_nul [] (suc m) = refl
bounded_len-until_nul (zero ∷ s) (suc m) = refl
bounded_len-until_nul (suc c ∷ s) (suc m) = ap suc (bounded_len-until_nul s m)

take-until_nul : (s : List ℕ) (m : ℕ) → take (bounded_len s m) s ≡ until_nul (take m s)
unfolding bounded_len
take-until_nul [] zero = refl
take-until_nul (c ∷ s) zero = refl
take-until_nul [] (suc m) = refl
take-until_nul (zero ∷ s) (suc m) = refl
take-until_nul (suc c ∷ s) (suc m) = ap (λ r. suc c ∷ r) (take-until_nul s m)

until_nul-drop :
    (s : List ℕ) (m : ℕ) → until_nul (take m s) ++ drop (length (until_nul (take m s))) s ≡ s
until_nul-drop [] zero = refl
until_nul-drop (c ∷ s) zero = refl
until_nul-drop [] (suc m) = refl
until_nul-drop (zero ∷ s) (suc m) = refl
until_nul-drop (suc c ∷ s) (suc m) = ap (λ r. suc c ∷ r) (until_nul-drop s m)

-- Nothing after the NUL counts.
until_nul-ended :
    (s t : List ℕ) (m : ℕ) → length s < m → until_nul (take m (s ++ (0 ∷ t))) ≡ until_nul s
until_nul-ended s t zero h = absurd (omega arith)
until_nul-ended [] t (suc m) h = refl
until_nul-ended (zero ∷ s) t (suc m) h = refl
until_nul-ended (suc c ∷ s) t (suc m) h = ap (λ r. suc c ∷ r) (until_nul-ended s t m (omega arith))

length-until_nul : (s : List ℕ) → length (until_nul s) ≤ length s
length-until_nul [] = omega arith
length-until_nul (zero ∷ s) = omega arith
length-until_nul (suc c ∷ s) = omega (arith, length-until_nul s)

set-append : (p r : List ℕ) (k v : ℕ) → set (p ++ r) (length p + k) v ≡ p ++ set r k v
set-append [] r k v = let first : 0 + k ≡ k = omega arith in ap (λ i. set r i v) first
set-append (x ∷ p) r k v =
    let next : suc (length p) + k ≡ suc (length p + k) = omega arith in
    ap (λ i. set (x ∷ (p ++ r)) i v) next ∙ ap (λ r'. x ∷ r') (set-append p r k v)

line_end : (r : List ℕ) → 3 ≤ length r → set (set (set r 0 13) 1 10) 2 0 ≡ 13 ∷ 10 ∷ 0 ∷ drop 3 r
line_end [] h = absurd (omega arith)
line_end (a ∷ []) h = absurd (omega arith)
line_end (a ∷ b ∷ []) h = absurd (omega arith)
line_end (a ∷ b ∷ c ∷ r) h = refl

-- The three writes at the end of the text.
ended_line :
    (p r : List ℕ)
    → 3 ≤ length r
    → set (set (set (p ++ r) (length p) 13) (length p + 1) 10) (length p + 2) 0
      ≡ p ++ (13 ∷ 10 ∷ 0 ∷ drop 3 r)
ended_line p r h =
    let first : length p ≡ length p + 0 = omega arith in
    ap (λ i. set (set (set (p ++ r) i 13) (length p + 1) 10) (length p + 2) 0) first
    ∙ (ap (λ l. set (set l (length p + 1) 10) (length p + 2) 0) (set-append p r 0 13)
        ∙ (ap (λ l. set l (length p + 2) 0) (set-append p (set r 0 13) 1 10)
            ∙ (set-append p (set (set r 0 13) 1 10) 2 0 ∙ ap (λ l. p ++ l) (line_end r h))))

until_nul-line_end :
    (q d : List ℕ) (m : ℕ)
    → length (until_nul q) + 3 ≤ m
    → until_nul (take m (until_nul q ++ (13 ∷ 10 ∷ 0 ∷ d))) ≡ until_nul q ++ (13 ∷ 10 ∷ [])
until_nul-line_end q d zero h = absurd (omega arith)
until_nul-line_end [] d (suc zero) h = absurd (omega arith)
until_nul-line_end [] d (suc (suc zero)) h = absurd (omega arith)
until_nul-line_end [] d (suc (suc (suc m))) h = refl
until_nul-line_end (zero ∷ q) d (suc zero) h = absurd (omega arith)
until_nul-line_end (zero ∷ q) d (suc (suc zero)) h = absurd (omega arith)
until_nul-line_end (zero ∷ q) d (suc (suc (suc m))) h = refl
until_nul-line_end (suc c ∷ q) d (suc m) h =
    ap (λ r. suc c ∷ r) (until_nul-line_end q d m (omega arith))

short_text : (text : List ℕ) → length (until_nul (take 117 text)) + 3 ≤ 120
short_text text = omega (arith, length-until_nul (take 117 text), length-take 117 text)

-- The text of a message as the log writes it.
abbrev pub message_bytes : List ℕ → List ℕ
message_bytes text = until_nul (take 117 text) ++ (13 ∷ 10 ∷ [])

-- The end comes where the text up to its NUL ends.
end_line-bounded_len :
    (line : LogLine) (m : ℕ)
    → length (until_nul (take m line)) + 2 < log_line_max
    → length (until_nul (take m line)) + 3 ≤ length line
    → end_line line (bounded_len line m)
      ≡ until_nul (take m line)
        ++ (13 ∷ 10 ∷ 0 ∷ drop 3 (drop (length (until_nul (take m line))) line))
unfolding end_line
end_line-bounded_len line m short fits =
    let p = until_nul (take m line) in
    let r = drop (length p) line in
    let size : length r ≡ length line - length p = length-drop (length p) line in
    rw (bounded_len-until_nul line m, lt→ltb (length p + 2) log_line_max short)
      (ap (λ l. set (set (set l (length p) 13) (length p + 1) 10) (length p + 2) 0)
          (sym (until_nul-drop line m))
        ∙ ended_line p r (omega arith))

-- The text that `vsnprintf` has left.
print_into-until_nul :
    (old text : List ℕ) (m : ℕ)
    → until_nul (take (suc m) (print_into old m text)) ≡ until_nul (take m text)
print_into-until_nul old text m =
    until_nul-ended (take m text) (drop (length (take m text) + 1) old) (suc m)
      (omega (arith, length-take m text))

length-print_into :
    (old text : List ℕ) (m : ℕ) → m < length old → length (print_into old m text) ≡ length old
length-print_into old text m h = omega (
  arith,
  length-append (take m text) (0 ∷ drop (length (take m text) + 1) old),
  length-drop (length (take m text) + 1) old,
  length-take m text,
)

ends_early : (text : List ℕ) (p : List ℕ) → p ≡ until_nul (take 117 text) → length p + 2 < 120
ends_early text p e = rw e (omega (arith, short_text text))

finished_line-eq :
    (old text : List ℕ)
    → length old ≡ log_line_max
    → (d : List ℕ) × (finished_line old text ≡ until_nul (take 117 text) ++ (13 ∷ 10 ∷ 0 ∷ d))
unfolding finished_line
finished_line-eq old text size =
    let line = print_into old 117 text in
    let same : until_nul (take 118 line) ≡ until_nul (take 117 text) =
      print_into-until_nul old text 117 in
    let short : length (until_nul (take 118 line)) + 2 < 120 =
      ends_early text (until_nul (take 118 line)) same in
    let whole : length line ≡ length old = length-print_into old text 117 (omega arith) in
    (
      drop 3 (drop (length (until_nul (take 118 line))) line),
      end_line-bounded_len line 118 short (omega arith)
          ∙ ap (λ p. p ++ (13 ∷ 10 ∷ 0 ∷ drop 3 (drop (length (until_nul (take 118 line))) line)))
              same,
    )

-- A message that is formatted is written as the bytes of its text before the first NUL, at most 117 of
-- them, and then a carriage return and a line feed, whatever the array held before.
pub line_bytes-finished_line :
    (old text : List ℕ)
    → length old ≡ log_line_max
    → line_bytes (finished_line old text) ≡ message_bytes text
unfolding line_bytes
line_bytes-finished_line old text size =
    let (d, whole) = finished_line-eq old text size in
    take-until_nul (finished_line old text) log_line_max
    ∙ (ap (λ l. until_nul (take log_line_max l)) whole
        ∙ until_nul-line_end (take 117 text) d log_line_max (short_text text))
