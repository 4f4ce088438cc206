-- ===== src/Monitor/Runs.antt =====
-- The monitor over any sequence of heartbeats and polls.
use robot_joint_stack.Prelude.{
  ℕ, ◌+◌, ◌≤◌, ◌<◌, ◌≡◌, refl, arith, Bool, true, false, Option, none, some, List, [], ◌∷◌, ◌++◌,
  length, ◌∙◌,
}
use robot_joint_stack.Prelude.Word.{u8}
use robot_joint_stack.Protocol.{Heartbeat}
use robot_joint_stack.Monitor.{
  Monitor, Peer, Calls, is_alive, find_peer, on_heartbeat, on_heartbeat_found, poll, count_alive,
  alive_count, monitor_init,
}
use robot_joint_stack.Monitor.Invariant.{IsTable, AreEntries, on_heartbeat-IsTable, poll-IsTable}
use robot_joint_stack.Monitor.Events.{
  bit, joins, losses, live, joins-append, losses-append, on_heartbeat-Balances, poll-Balances,
}

pub data MonitorOp : Type 0 where
  beat : ℕ → Heartbeat → ℕ → MonitorOp
  tick : ℕ → MonitorOp

abbrev pub monitor_run : Monitor → List MonitorOp → Monitor × Calls
monitor_run m [] = (m, [])
monitor_run m (beat node hb now ∷ ops) =
    let (m1, calls, accepted) = on_heartbeat m node hb now in
    let (m2, later) = monitor_run m1 ops in (m2, calls ++ later)
monitor_run m (tick now ∷ ops) =
    let (m1, calls) = poll m now in let (m2, later) = monitor_run m1 ops in (m2, calls ++ later)

-- A node is in the table and alive.
abbrev pub alive_now : Option Peer → Bool
alive_now none = false
alive_now (some p) = is_alive p.status

live_absent : (k : ℕ) (ps : List Peer) → find_peer ps k ≡ none → live k ps ≡ 0
unfolding find_peer
live_absent k [] h = refl
live_absent k (p ∷ ps) h = ground (arith, live_absent k ps)

-- In a table each node stands once.
live-eq : (k : ℕ) (ps : List Peer) → AreEntries ps → live k ps ≡ bit (alive_now (find_peer ps k))
unfolding find_peer
live-eq k [] h = refl
live-eq k (p ∷ ps) h = ground (arith, live-eq k ps h.4, live_absent k ps)

on_heartbeat-has_cb :
    (m : Monitor) (node : ℕ) (hb : Heartbeat) (now : ℕ)
    → (on_heartbeat m node hb now).0.has_cb ≡ m.has_cb
unfolding on_heartbeat on_heartbeat_found
on_heartbeat-has_cb m node hb now = ground arith

poll-has_cb : (m : Monitor) (now : ℕ) → (poll m now).0.has_cb ≡ m.has_cb
unfolding poll
poll-has_cb m now = refl

run_balance :
    (k : ℕ) (ops : List MonitorOp) (m : Monitor)
    → m.has_cb ≡ true
    → IsTable m
    → let (m', calls) = monitor_run m ops in
      IsTable m' × (live k m.peers + joins k calls ≡ live k m'.peers + losses k calls)
run_balance k [] m cb h = (h, refl)
run_balance k (beat node hb now ∷ ops) m cb h =
    let r = on_heartbeat m node hb now in
    let rest =
      run_balance k ops r.0 (on_heartbeat-has_cb m node hb now ∙ cb)
        (on_heartbeat-IsTable m node hb now h) in
    let later = monitor_run r.0 ops in
    (
      rest.0,
      omega (
        arith,
        rest.1,
        on_heartbeat-Balances k m node hb now cb,
        joins-append k r.1 later.1,
        losses-append k r.1 later.1,
      ),
    )
run_balance k (tick now ∷ ops) m cb h =
    let r = poll m now in
    let rest = run_balance k ops r.0 (poll-has_cb m now ∙ cb) (poll-IsTable m now h) in
    let later = monitor_run r.0 ops in
    (
      rest.0,
      omega (
        arith,
        rest.1,
        poll-Balances k m now cb,
        joins-append k r.1 later.1,
        losses-append k r.1 later.1,
      ),
    )

init-IsTable : (timeout : ℕ) (cb : Bool) → IsTable (monitor_init timeout cb)
unfolding monitor_init
init-IsTable timeout cb = record { entries = tt; room = omega arith }

init_cb : (timeout : ℕ) → (monitor_init timeout true).has_cb ≡ true
unfolding monitor_init
init_cb timeout = refl

init_empty : (k timeout : ℕ) → live k (monitor_init timeout true).peers ≡ 0
unfolding monitor_init
init_empty k timeout = refl

-- Over any sequence of heartbeats and polls of a monitor with a callback, from its start, the table
-- stays well-formed, and for every node the reports balance: it was reported as joined as often as
-- it was reported as lost, and once more exactly if it is alive at the end. So no loss is reported
-- twice for one joining.
pub monitor_run-balance :
    (timeout k : ℕ) (ops : List MonitorOp)
    → let (m, calls) = monitor_run (monitor_init timeout true) ops in
      IsTable m × (joins k calls ≡ losses k calls + bit (alive_now (find_peer m.peers k)))
monitor_run-balance timeout k ops =
    let start = init-IsTable timeout true in
    let b = run_balance k ops (monitor_init timeout true) (init_cb timeout) start in
    let m = (monitor_run (monitor_init timeout true) ops).0 in
    (b.0, omega (arith, b.1, live-eq k m.peers b.0.entries, init_empty k timeout))

-- The entries that are alive.
abbrev pub alive_peers : List Peer → ℕ
alive_peers [] = 0
alive_peers (p ∷ ps) = bit (is_alive p.status) + alive_peers ps

count_alive-eq :
    (ps : List Peer) (n : ℕ)
    → n + length ps < 256
    → (count_alive n ps ≡ n + alive_peers ps) × (alive_peers ps ≤ length ps)
unfolding count_alive
count_alive-eq [] n h = (omega arith, omega arith)
count_alive-eq (p ∷ ps) n h = ground (arith, count_alive-eq ps (u8 (n + 1)), count_alive-eq ps n)

-- In a well-formed table `rjs_monitor_alive_count` is the number of entries that are alive, at most
-- 16; its 8-bit counter does not wrap.
pub alive_count_lem :
    (m : Monitor)
    → IsTable m
    → (alive_count (some m) ≡ alive_peers m.peers) × (alive_count (some m) ≤ 16)
unfolding alive_count
alive_count_lem m h = omega (arith, count_alive-eq m.peers 0 (omega (arith, h.room)), h.room)
