-- ===== src/Tests/Queue.antt =====
-- A queue as FreeRTOS keeps it, on a bounded list.
use mathlib.Core.List.{List}
use robot_joint_stack.Prelude.{
  ℕ, ◌≡◌, ap, sym, if◌then◌else◌, ltb, refl, Option, none, some, [], ◌∷◌, ◌++◌, length, Bool-cases,
  inl, inr,
}
use robot_joint_stack.Queue.{Fifo}

module _ {A : Type 0} (depth : ℕ) where
  abbrev pub put : List A → A → Option (List A)
  put q a = if ltb (length q) depth then some (q ++ (a ∷ [])) else none

  abbrev pub get : List A → Option (A × List A)
  get [] = none
  get (a ∷ q) = some (a, q)

  abbrev content : Option (List A) → List A
  content none = []
  content (some q) = q

  abbrev next : List A → Option (A × List A) → List A
  next q none = q
  next q (some (a, k)) = a ∷ k

  pub put-items : (q k : List A) (a : A) → put q a ≡ some k → k ≡ q ++ (a ∷ [])
  put-items q k a e = elim (Bool-cases (ltb (length q) depth)) [
    | inl room ↦ let fits = rw room at e in sym (ap content fits)
    | inr full ↦ let refused = rw full at e in absurd cc
  ]

  pub get-items : (q k : List A) (a : A) → get q ≡ some (a, k) → q ≡ a ∷ k
  get-items [] k a e = absurd cc
  get-items (m ∷ q) k a e = ap (next []) e

  pub get-items_none : (q : List A) → get q ≡ none → q ≡ []
  get-items_none [] e = refl
  get-items_none (m ∷ q) e = absurd cc

  abbrev pub bounded : Fifo (List A) A
  bounded = record {
    items = λ q. q;
    send = put;
    receive = get;
    send-items = put-items;
    receive-items = get-items;
    receive-items_none = get-items_none;
  }
