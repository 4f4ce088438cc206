-- ===== src/App/Send/Progress.antt =====
-- No deadlock between the two tasks that send.
use robot_joint_stack.Prelude.{◌≡◌, ◌⊎◌, inl, inr, refl, sym, Option, none, some}
use mathlib.Core.Path.{subst}
use robot_joint_stack.Hal.{CanFrame, CanResult, zero_frame}
use robot_joint_stack.Mutex.{Mutex}
use robot_joint_stack.App.Send.{
  Caller, control, comms, Place, outside, waiting, inside, answered, released, counting, Line, Move,
  call, take, send, give, read, write, Senders, begin, control_moves, comms_moves,
}
use robot_joint_stack.App.Send.Exclusion.{IsInside, Holds, Senders-Holds}

abbrev pub IsWaiting : Place → Type 0
IsWaiting outside = ⊥
IsWaiting (waiting f) = Unit {0}
IsWaiting (inside f) = ⊥
IsWaiting (answered r) = ⊥
IsWaiting (released r) = ⊥
IsWaiting (counting r v) = ⊥

-- Who holds the mutex has not left the driver: the first place is the task's, the second the other one's.
abbrev Owned : Caller → Option Caller → Place → Place → Type 0
Owned t none p q = Unit {0}
Owned control (some control) p q = IsInside p
Owned control (some comms) p q = IsInside q
Owned comms (some control) p q = IsInside q
Owned comms (some comms) p q = IsInside p

Owned-swap :
    (t u : Caller) (h : Option Caller) (p q : Place) → ¬ (t ≡ u) → Owned t h p q → Owned u h q p
Owned-swap t u none p q other o = tt
Owned-swap control comms (some control) p q other o = o
Owned-swap control comms (some comms) p q other o = o
Owned-swap comms control (some control) p q other o = o
Owned-swap comms control (some comms) p q other o = o
Owned-swap control control (some h) p q other o = absurd (other refl)
Owned-swap comms comms (some h) p q other o = absurd (other refl)

Owned-stays :
    (t : Caller) (h : Option Caller) (p s q : Place)
    → (IsInside p → IsInside s)
    → Owned t h p q
    → Owned t h s q
Owned-stays t none p s q f o = tt
Owned-stays control (some control) p s q f o = f o
Owned-stays control (some comms) p s q f o = o
Owned-stays comms (some control) p s q f o = o
Owned-stays comms (some comms) p s q f o = f o

Owned-mine : (t : Caller) (p q : Place) → IsInside p → Owned t (some t) p q
Owned-mine control p q i = i
Owned-mine comms p q i = i

module _ {M : Type 0} (lock : Mutex M Caller) where
  Move-Owned :
      (t : Caller) {l k : Line M} {p s : Place} (q : Place)
      → Move lock t l p k s
      → Holds lock t l p
      → Owned t (lock.holder l.mutex) p q
      → Owned t (lock.holder k.mutex) s q
  Move-Owned t q (call l f) h o =
      Owned-stays t (lock.holder l.mutex) outside (waiting f) q (λ i. absurd i) o
  Move-Owned t q (take l f m e) h o =
      subst (λ x. Owned t x (inside f) q) (sym (lock.take-holder l.mutex m t e).1)
        (Owned-mine t (inside f) q tt)
  Move-Owned t q (send l f r) h o =
      Owned-stays t (lock.holder l.mutex) (inside f) (answered r) q (λ i. tt) o
  Move-Owned t q (give l r) h o =
      subst (λ x. Owned t x (released r) q) (sym (lock.give-holder l.mutex t (h tt))) tt
  Move-Owned t q (read l r) h o =
      Owned-stays t (lock.holder l.mutex) (released r) (counting r _) q (λ i. absurd i) o
  Move-Owned t q (write l r v) h o =
      Owned-stays t (lock.holder l.mutex) (counting r v) outside q (λ i. absurd i) o

  Senders-Owned :
      {l : Line M} {p q : Place} → Senders lock l p q → Owned control (lock.holder l.mutex) p q
  Senders-Owned (begin m free) = subst (λ x. Owned control x outside outside) (sym free) tt
  Senders-Owned (control_moves {q = q} s m) =
      Move-Owned control q m (Senders-Holds lock s).0 (Senders-Owned s)
  Senders-Owned (comms_moves {l = l} {k = k} {p = p} {q = q} {s = t} s m) =
      Owned-swap comms control (lock.holder k.mutex) t p (λ e. cc)
        (Move-Owned comms p m (Senders-Holds lock s).1
          (Owned-swap control comms (lock.holder l.mutex) p q (λ e. cc) (Senders-Owned s)))

  -- The task can take a step.
  abbrev pub CanMove : Caller → Line M → Place → Type 0
  CanMove t l p = (k : Line M) × (s : Place) × Move lock t l p k s

  inside-CanMove : (t : Caller) (l : Line M) (p : Place) → IsInside p → CanMove t l p
  inside-CanMove t l (inside f) i = (_, _, send l f CanResult.ok)
  inside-CanMove t l (answered r) i = (_, _, give l r)
  inside-CanMove t l outside i = absurd i
  inside-CanMove t l (waiting f) i = absurd i
  inside-CanMove t l (released r) i = absurd i
  inside-CanMove t l (counting r v) i = absurd i

  -- It can take a step, or it waits for the mutex and the other one, which is in the driver, can.
  abbrev pub Proceeds : Caller → Caller → Line M → Place → Place → Type 0
  Proceeds t u l p q = CanMove t l p ⊎ (IsWaiting p × IsInside q × CanMove u l q)

  waits-Proceeds :
      (t u : Caller) (h : Option Caller) (l : Line M) (f : CanFrame) (q : Place)
      → lock.holder l.mutex ≡ h
      → Owned t h (waiting f) q
      → Proceeds t u l (waiting f) q
  waits-Proceeds t u none l f q e o =
      let (m, taken) = lock.take-free l.mutex t e in inl (_, _, take l f m taken)
  waits-Proceeds control u (some control) l f q e o = absurd o
  waits-Proceeds control u (some comms) l f q e o = inr (tt, o, inside-CanMove u l q o)
  waits-Proceeds comms u (some control) l f q e o = inr (tt, o, inside-CanMove u l q o)
  waits-Proceeds comms u (some comms) l f q e o = absurd o

  Owned-Proceeds :
      (t u : Caller) (l : Line M) (p q : Place)
      → Owned t (lock.holder l.mutex) p q
      → Proceeds t u l p q
  Owned-Proceeds t u l outside q o = inl (_, _, call l zero_frame)
  Owned-Proceeds t u l (waiting f) q o = waits-Proceeds t u (lock.holder l.mutex) l f q refl o
  Owned-Proceeds t u l (inside f) q o = inl (inside-CanMove t l (inside f) tt)
  Owned-Proceeds t u l (answered r) q o = inl (inside-CanMove t l (answered r) tt)
  Owned-Proceeds t u l (released r) q o = inl (_, _, read l r)
  Owned-Proceeds t u l (counting r v) q o = inl (_, _, write l r v)

  -- Whatever the interleaving of the two tasks, neither blocks the other for good: in every state that they
  -- reach, each of them can take a step, or it waits for the mutex while the other one is in the driver, or
  -- about to give the mutex back, and can take a step. So they never wait for each other, and a mutex that
  -- no task holds is never waited for in vain.
  pub Senders-Proceeds :
      {l : Line M} {p q : Place}
      → Senders lock l p q
      → Proceeds control comms l p q × Proceeds comms control l q p
  Senders-Proceeds {l} {p} {q} s =
      let o = Senders-Owned s in
      (
        Owned-Proceeds control comms l p q o,
        Owned-Proceeds comms control l q p
            (Owned-swap control comms (lock.holder l.mutex) p q (λ e. cc) o),
      )
