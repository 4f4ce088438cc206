-- ===== src/Log/Order.antt =====
-- The log over any sequence of messages and iterations of its task.
use mathlib.Core.List.{Sublistᴰ, append_assoc, append-nil, map-append}
use mathlib.Core.List.Sublistᴰ
use mathlib.Core.Path.{subst}
use robot_joint_stack.Prelude.{
  ℕ, ◌+◌, ◌≡◌, refl, arith, ap, sym, ◌∙◌, Option, none, some, List, [], ◌∷◌, ◌++◌, map, length,
  length-append,
}
use robot_joint_stack.Prelude.Word.{u32}
use robot_joint_stack.Log.{
  LogLine, log_line_max, Logger, log_message, log_task_iteration, finished_line, line_bytes, offer,
  send_to, written_out,
}
use robot_joint_stack.Queue.{Fifo}
use robot_joint_stack.Log.Lines.{message_bytes, line_bytes-finished_line}

-- A call of `rjs_log`, with its array and its text, or an iteration of the task.
pub data LogEvent : Type 0 where
  message : LogLine → Option (List ℕ) → LogEvent
  task_turn : LogEvent

-- The arrays have their size.
abbrev pub AreArrays : List LogEvent → Type 0
AreArrays [] = Unit {0}
AreArrays (message old text ∷ es) = (length old ≡ log_line_max) × AreArrays es
AreArrays (task_turn ∷ es) = AreArrays es

-- What the messages say, in order.
abbrev pub said : List LogEvent → List (List ℕ)
said [] = []
said (message old none ∷ es) = said es
said (message old (some text) ∷ es) = message_bytes text ∷ said es
said (task_turn ∷ es) = said es

module _ {Q : Type 0} (fifo : Fifo Q LogLine) where
  open fifo use {items, send, receive, send-items, receive-items}

  -- The task exists once the queue does.
  abbrev turn : Logger Q → Option Q → Logger Q × List (List ℕ)
  turn g none = (g, [])
  turn g (some q) = log_task_iteration fifo g q

  abbrev pub log_step : Logger Q → LogEvent → Logger Q × List (List ℕ)
  log_step g (message old text) = (log_message fifo g old text, [])
  log_step g task_turn = turn g g.queue

  -- The state after the events, and what has been written.
  abbrev pub log_run : Logger Q → List LogEvent → Logger Q × List (List ℕ)
  log_run g [] = (g, [])
  log_run g (e ∷ es) =
      let (k, out) = log_step g e in let (k', later) = log_run k es in (k', out ++ later)

  abbrev queued : Option Q → List (List ℕ)
  queued none = []
  queued (some q) = map line_bytes (items q)

  -- What is in the queue, as it will be written.
  abbrev pub waiting : Logger Q → List (List ℕ)
  waiting g = queued g.queue

  -- What has been written and what waits are, in order, the messages `ms` but for those that were dropped.
  pub record Keeps (g : Logger Q) (ws ms : List (List ℕ)) : Type 0 where
    pub in_order : Sublistᴰ (ws ++ waiting g) ms
    pub counted : u32 (length ws + length (waiting g) + g.dropped) ≡ u32 (length ms)

  Keeps-drop :
      (g : Logger Q) (ws ms : List (List ℕ)) (m : List ℕ)
      → Keeps g ws ms
      → Keeps (offer fifo g none) ws (ms ++ (m ∷ []))
  Keeps-drop g ws ms m h = record {
    in_order =
        subst (λ l. Sublistᴰ l (ms ++ (m ∷ []))) (append-nil (ws ++ waiting g))
          (Sublistᴰ.append h.in_order (Sublistᴰ.cons Sublistᴰ.slnil));
    counted = omega (arith, length-append ms (m ∷ []), h.counted);
  }

  -- The queue has grown by a line, or shrunk by one.
  Keeps-send :
      (g k : Logger Q) (ws ms : List (List ℕ)) (m : List ℕ)
      → waiting k ≡ waiting g ++ (m ∷ [])
      → k.dropped ≡ g.dropped
      → Keeps g ws ms
      → Keeps k ws (ms ++ (m ∷ []))
  Keeps-send g k ws ms m grown same h = record {
    in_order =
        subst (λ l. Sublistᴰ l (ms ++ (m ∷ [])))
          (append_assoc ws (waiting g) (m ∷ []) ∙ ap (λ w. ws ++ w) (sym grown))
          (Sublistᴰ.append h.in_order (Sublistᴰ.cons-cons refl Sublistᴰ.slnil));
    counted =
        let size : length (waiting k) ≡ length (waiting g) + 1 =
          ap length grown ∙ length-append (waiting g) (m ∷ []) in
        omega (arith, length-append ms (m ∷ []), h.counted);
  }

  Keeps-write :
      (g k : Logger Q) (ws ms : List (List ℕ)) (m : List ℕ)
      → waiting g ≡ m ∷ waiting k
      → k.dropped ≡ g.dropped
      → Keeps g ws ms
      → Keeps k (ws ++ (m ∷ [])) ms
  Keeps-write g k ws ms m first same h = record {
    in_order =
        subst (λ l. Sublistᴰ l ms)
          (ap (λ w. ws ++ w) first ∙ sym (append_assoc ws (m ∷ []) (waiting k))) h.in_order;
    counted =
        let size : length (waiting g) ≡ length (waiting k) + 1 = ap length first ∙ omega arith in
        omega (arith, length-append ws (m ∷ []), h.counted);
  }

  -- The send of a line, with what the queue answers.
  offered :
      (g : Logger Q) (ws ms : List (List ℕ)) (l : LogLine) (q : Option Q) (r : Option Q)
      → g.queue ≡ q
      → send_to fifo q l ≡ r
      → Keeps g ws ms
      → Keeps (offer fifo g r) ws (ms ++ (line_bytes l ∷ []))
  offered g ws ms l q none e f h = Keeps-drop g ws ms (line_bytes l) h
  offered g ws ms l none (some k) e f h = absurd (cc)
  offered g ws ms l (some q) (some k) e f h =
      Keeps-send g (offer fifo g (some k)) ws ms (line_bytes l)
        (ap (map line_bytes) (send-items q k l f)
          ∙ (map-append line_bytes (items q) (l ∷ [])
              ∙ ap (λ o. queued o ++ (line_bytes l ∷ [])) (sym e)))
        refl h

  log_message-Keeps :
      (g : Logger Q) (ws ms : List (List ℕ)) (old text : List ℕ)
      → length old ≡ log_line_max
      → Keeps g ws ms
      → Keeps (log_message fifo g old (some text)) ws (ms ++ (message_bytes text ∷ []))
  unfolding log_message
  log_message-Keeps g ws ms old text size h =
      subst (λ m. Keeps (log_message fifo g old (some text)) ws (ms ++ (m ∷ [])))
        (line_bytes-finished_line old text size)
        (offered g ws ms (finished_line old text) g.queue
          (send_to fifo g.queue (finished_line old text)) refl refl h)

  received :
      (g : Logger Q) (ws ms : List (List ℕ)) (q : Q) (r : Option (LogLine × Q))
      → g.queue ≡ some q
      → receive q ≡ r
      → Keeps g ws ms
      → let (k, out) = written_out fifo g r in Keeps k (ws ++ out) ms
  unfolding written_out
  received g ws ms q none e f h = subst (λ w. Keeps g w ms) (sym (append-nil ws)) h
  received g ws ms q (some (l, k)) e f h =
      Keeps-write g (record g { queue = some k }) ws ms (line_bytes l)
        (ap queued e ∙ ap (map line_bytes) (receive-items q k l f)) refl h

  turn-Keeps :
      (g : Logger Q) (ws ms : List (List ℕ)) (q : Option Q)
      → g.queue ≡ q
      → Keeps g ws ms
      → let (k, out) = turn g q in Keeps k (ws ++ out) ms
  unfolding log_task_iteration
  turn-Keeps g ws ms none e h = subst (λ w. Keeps g w ms) (sym (append-nil ws)) h
  turn-Keeps g ws ms (some q) e h = received g ws ms q (receive q) e refl h

  log_run-Keeps :
      (es : List LogEvent) (g : Logger Q) (ws ms : List (List ℕ))
      → AreArrays es
      → Keeps g ws ms
      → let (k, out) = log_run g es in Keeps k (ws ++ out) (ms ++ said es)
  unfolding log_message
  log_run-Keeps [] g ws ms ok h =
      subst (λ w. Keeps g w (ms ++ [])) (sym (append-nil ws))
        (subst (Keeps g ws) (sym (append-nil ms)) h)
  log_run-Keeps (message old none ∷ es) g ws ms ok h = log_run-Keeps es g ws ms ok.1 h
  log_run-Keeps (message old (some text) ∷ es) g ws ms ok h =
      let k = log_message fifo g old (some text) in
      subst (Keeps (log_run k es).0 (ws ++ (log_run k es).1))
        (append_assoc ms (message_bytes text ∷ []) (said es))
        (log_run-Keeps es k ws (ms ++ (message_bytes text ∷ [])) ok.1
          (log_message-Keeps g ws ms old text ok.0 h))
  log_run-Keeps (task_turn ∷ es) g ws ms ok h =
      let (k, out) = turn g g.queue in
      subst (λ w. Keeps (log_run k es).0 w (ms ++ said es)) (append_assoc ws out (log_run k es).1)
        (log_run-Keeps es k (ws ++ out) ms ok (turn-Keeps g ws ms g.queue refl h))

  -- From an empty queue, or from before there is one, over any sequence of messages and iterations of
  -- the task: the bytes that have been written and those that wait are the messages in the order of the
  -- calls, each a line of its own, some left out; the counter of the dropped items says how many, modulo 2 ^ 32.
  pub log_run-in_order :
      (g : Logger Q) (es : List LogEvent)
      → waiting g ≡ []
      → g.dropped ≡ 0
      → AreArrays es
      → let (k, out) = log_run g es in
        Sublistᴰ (out ++ waiting k) (said es)
        × (u32 (length out + length (waiting k) + k.dropped) ≡ u32 (length (said es)))
  log_run-in_order g es empty none_dropped ok =
      let start : Keeps g [] [] = record {
        in_order = subst (λ l. Sublistᴰ l []) (sym empty) Sublistᴰ.slnil;
        counted = let size : length (waiting g) ≡ 0 = ap length empty in omega arith;
      } in
      let kept = log_run-Keeps es g [] [] ok start in (kept.in_order, kept.counted)
