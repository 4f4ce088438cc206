-- ===== src/App/Send.antt =====
-- app/joint_node/app.c: `can_send`, access by access. Two tasks call it, at times that nothing
-- fixes, and each may be preempted between any two of its accesses to what they share.
pub mod Exclusion
pub mod Count
pub mod Progress
pub mod Alone
use robot_joint_stack.Prelude.{
  ℕ, ◌+◌, Bool, true, false, Option, none, some, List, [], ◌∷◌, ◌≡◌, if◌then◌else◌,
}
use robot_joint_stack.Prelude.Word.{u32}
use robot_joint_stack.Hal.{CanFrame, CanResult}
use robot_joint_stack.Mutex.{Mutex}

-- The tasks that call `can_send`.
pub data Caller : Type 0 where
  control comms : Caller

-- Where a task stands in `can_send`, with its live variables.
pub data Place : Type 0 where
  outside : Place
  waiting : CanFrame → Place  -- at `xSemaphoreTake`
  inside : CanFrame → Place  -- in `rjs_can_send`
  answered : CanResult → Place  -- before `xSemaphoreGive`
  released : CanResult → Place  -- before the counter is read
  counting : CanResult → ℕ → Place  -- the counter has been read, and not yet been written

abbrev pub is_ok : CanResult → Bool
is_ok CanResult.ok = true
is_ok CanResult.err_param = false
is_ok CanResult.err_busy = false
is_ok CanResult.err_hw = false

-- `s_tx_mutex` and the two counters of `s_stats`, with the answers that `rjs_can_send` has given.
pub record Line (M : Type 0) : Type 0 where
  pub mutex : M
  pub tx_frames : ℕ  -- uint32_t
  pub tx_busy : ℕ  -- uint32_t
  pub answers : List CanResult

-- The counter that an answer counts in.
abbrev pub counter : {M : Type 0} → Bool → Line M → ℕ
counter b l = if b then l.tx_frames else l.tx_busy

abbrev pub write_counter : {M : Type 0} → Bool → Line M → ℕ → Line M
write_counter b l v = record l {
  tx_frames = if b then v else l.tx_frames;
  tx_busy = if b then l.tx_busy else v;
}

module _ {M : Type 0} (lock : Mutex M Caller) where
  -- A step of a task: from what is shared and its place, to the same.
  pub data Move (t : Caller) : Line M → Place → Line M → Place → Type 0 where
    call : (l : Line M) (f : CanFrame) → Move t l outside l (waiting f)
    take :
        (l : Line M) (f : CanFrame) (m : M)
        → lock.take l.mutex t ≡ some m
        → Move t l (waiting f) (record l { mutex = m }) (inside f)
    send :
        (l : Line M) (f : CanFrame) (r : CanResult)
        → Move t l (inside f) (record l { answers = r ∷ l.answers }) (answered r)
    give :
        (l : Line M) (r : CanResult)
        → Move t l (answered r) (record l { mutex = lock.give l.mutex t }) (released r)
    read : (l : Line M) (r : CanResult) → Move t l (released r) l (counting r (counter (is_ok r) l))
    write :
        (l : Line M) (r : CanResult) (v : ℕ)
        → Move t l (counting r v) (write_counter (is_ok r) l (u32 (v + 1))) outside

  -- The two tasks, in any order.
  pub data Senders : Line M → Place → Place → Type 0 where
    begin :
        (m : M)
        → lock.holder m ≡ none
        → Senders (record { mutex = m; tx_frames = 0; tx_busy = 0; answers = [] }) outside outside
    control_moves :
        {l k : Line M} {p q s : Place} → Senders l p q → Move control l p k s → Senders k s q
    comms_moves :
        {l k : Line M} {p q s : Place} → Senders l p q → Move comms l q k s → Senders k p s
