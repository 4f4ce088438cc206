-- ===== src/App/Start/Runs.antt =====
-- When the application starts, and with which tasks.
use Prim.Native.String.{String}
use robot_joint_stack.Prelude.{
  ℕ, ◌≡◌, ◌⊎◌, inl, inr, refl, Bool, true, false, ◌&&◌, ◌||◌, not, bit_and, if◌then◌else◌, List, [],
  ◌∷◌,
}
use robot_joint_stack.Hal.{CanResult}
use robot_joint_stack.App.Send.{is_ok}
use robot_joint_stack.App.Start.{
  TaskName, log_task, control_task, can_rx_task, comms_task, stats_task, ui_task, StartCall,
  create_task, TaskAnswer, pd_pass, no_memory, base_type, combined, StartEnd, done, KernelAnswers,
  app_start, fatal, assertion, init_can, create_rx_queue, create_cmd_queue, create_log_queue,
  create_mutex, log,
}

abbrev is_made : TaskAnswer → Bool
is_made pd_pass = true
is_made no_memory = false

-- The objects exist without which the start stops: the queues, the mutex, the log's task and, if the
-- build has the display, its task.
abbrev pub all_made : Bool → KernelAnswers → Bool
all_made display k =
    k.rx_queue
    && (k.cmd_queue
        && (k.tx_mutex
            && (k.log_queue
                && (is_made k.log_task_answer && (not display || is_made k.ui_answer)))))

-- The tasks that are asked for, with their priorities.
abbrev pub created : List StartCall → List (TaskName × ℕ)
created [] = []
created (create_task t stack priority ∷ calls) = (t, priority) ∷ created calls
created (init_can cfg ∷ calls) = created calls
created (create_rx_queue n ∷ calls) = created calls
created (create_cmd_queue n ∷ calls) = created calls
created (create_log_queue n ∷ calls) = created calls
created (create_mutex ∷ calls) = created calls
created (log fmt args ∷ calls) = created calls

-- The tasks that a start asks for.
abbrev pub all_tasks : Bool → List (TaskName × ℕ)
all_tasks display =
    (log_task, 1)
    ∷ (control_task, 5)
    ∷ (can_rx_task, 4)
    ∷ (comms_task, 3)
    ∷ (stats_task, 2)
    ∷ (if display then (ui_task, 2) ∷ [] else [])

abbrev pub is_done : StartEnd → Bool
is_done done = true
is_done (fatal reason) = false
is_done (assertion file line) = false

-- What a start comes to, when `up` says that nothing it needs is missing.
abbrev pub Starts : Bool → Bool → StartEnd × List StartCall → Type 0
Starts display up r =
    ((r.0 ≡ done) × (created r.1 ≡ all_tasks display) × (up ≡ true))
    ⊎ ((is_done r.0 ≡ false) × (up ≡ false))

-- Each of the four answers leaves `ok` as it is: the bits of -1 include the one of pdPASS.
combined-pass : (k : KernelAnswers) → combined k ≡ 1
unfolding combined
combined-pass k = passes k.control_answer k.can_rx_answer k.comms_answer k.stats_answer
  where
    kept : (a : TaskAnswer) → bit_and 1 (base_type a) ≡ 1
    kept pd_pass = refl
    kept no_memory = refl

    passes :
        (a b c d : TaskAnswer)
        → bit_and
            (bit_and (bit_and (bit_and 1 (base_type a)) (base_type b)) (base_type c))
            (base_type d)
          ≡ 1
    passes a b c d = rw (kept a, kept b, kept c) (kept d)

module _ (name : String) (node_id : ℕ) where
  abbrev kernel :
      Bool → Bool → Bool → Bool → TaskAnswer → TaskAnswer → KernelAnswers → KernelAnswers
  kernel r c m q l u k = record k {
    rx_queue = r;
    cmd_queue = c;
    tx_mutex = m;
    log_queue = q;
    log_task_answer = l;
    ui_answer = u;
  }

  app_start-Starts_cases :
      (display r c m q : Bool) (l u : TaskAnswer) (others : KernelAnswers)
      → let k = kernel r c m q l u others in
        Starts display (all_made display k) (app_start display name node_id CanResult.ok k)
  unfolding app_start
  app_start-Starts_cases y false c m q l u k = inr (refl, refl)
  app_start-Starts_cases y true false m q l u k = inr (refl, refl)
  app_start-Starts_cases y true true false q l u k = inr (refl, refl)
  app_start-Starts_cases y true true true false l u k = inr (refl, refl)
  app_start-Starts_cases y true true true true no_memory u k = inr (refl, refl)
  app_start-Starts_cases false true true true true pd_pass u k =
      rw (combined-pass (kernel true true true true pd_pass u k)) (inl (refl, refl, refl))
  app_start-Starts_cases true true true true true pd_pass no_memory k =
      rw (combined-pass (kernel true true true true pd_pass no_memory k)) (inr (refl, refl))
  app_start-Starts_cases true true true true true pd_pass pd_pass k =
      rw (combined-pass (kernel true true true true pd_pass pd_pass k)) (inl (refl, refl, refl))

  pub app_start-Starts :
      (display : Bool) (can : CanResult) (k : KernelAnswers)
      → Starts display (is_ok can && all_made display k) (app_start display name node_id can k)
  unfolding app_start
  app_start-Starts y CanResult.ok k =
      app_start-Starts_cases y k.rx_queue k.cmd_queue k.tx_mutex k.log_queue k.log_task_answer
        k.ui_answer k
  app_start-Starts y CanResult.err_param k = inr (refl, refl)
  app_start-Starts y CanResult.err_busy k = inr (refl, refl)
  app_start-Starts y CanResult.err_hw k = inr (refl, refl)
