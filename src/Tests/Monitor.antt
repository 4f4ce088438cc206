-- ===== src/Tests/Monitor.antt =====
-- node_monitor.c on concrete tables.
use robot_joint_stack.Prelude.{
  ℕ, ◌+◌, ◌≤◌, ◌≡◌, ◌⊎◌, refl, arith, true, false, if◌then◌else◌, ltb, ◌==◌, some, [], ◌∷◌,
}
use robot_joint_stack.Prelude.Word.{u32}
use robot_joint_stack.Protocol.{Heartbeat}
use robot_joint_stack.Monitor.{
  Monitor, Peer, alive, lost, is_alive, monitor_init, find_peer, on_heartbeat, poll,
}
use robot_joint_stack.Monitor.Lookup.{
  known_or_fresh, refreshed, HasRoom, on_heartbeat-view, poll-view,
}
use robot_joint_stack.Monitor.Invariant.{IsTable, on_heartbeat-IsTable}
use robot_joint_stack.Monitor.Events.{bit, joins, losses}
use robot_joint_stack.Monitor.Runs.{beat, tick, monitor_run, alive_now, monitor_run-balance}

abbrev hb : Heartbeat
hb = record {
  state = 2;
  error_flags = 0;
  uptime_ms = 1000;
  fw_major = 0;
  fw_minor = 1;
  fw_patch = 0;
}

abbrev joint_5 : Peer
joint_5 = record { node = 5; status = alive; last_seen_ms = 4294967000; last = hb; heartbeats = 1 }

abbrev one_peer : Monitor
one_peer = record { peers = joint_5 ∷ []; timeout_ms = 1500; has_cb = true }

one_peer-IsTable : IsTable one_peer
unfolding find_peer
one_peer-IsTable = record {
  entries = (omega arith, omega arith, λ h. ground arith, refl, record {});
  room = omega arith;
}

on_heartbeat-view_example :
    let (m, calls, accepted) = on_heartbeat one_peer 7 hb 10 in
    ((accepted ≡ true)
      × ((1 ≤ 7) × (7 ≤ 127) × HasRoom one_peer 7)
      × ((k : ℕ)
          → find_peer m.peers k ≡ (
              if 7 == k
              then some (refreshed (known_or_fresh one_peer 7) hb 10)
              else find_peer one_peer.peers k)))
    ⊎ ((accepted ≡ false)
        × ¬ ((1 ≤ 7) × (7 ≤ 127) × HasRoom one_peer 7)
        × (m ≡ one_peer)
        × (calls ≡ []))
on_heartbeat-view_example = on_heartbeat-view one_peer 7 hb 10

-- The clock wraps between the heartbeat and the poll.
poll-view_example :
    find_peer (poll one_peer (u32 (4294967000 + 1600))).0.peers 5
    ≡ some (
        if is_alive joint_5.status
        then if ltb 1500 1600 then record joint_5 { status = lost } else joint_5
        else joint_5)
unfolding find_peer
poll-view_example = poll-view one_peer 5 4294967000 1600 joint_5 refl refl (omega arith)

on_heartbeat-IsTable_example : IsTable (on_heartbeat one_peer 7 hb 10).0
on_heartbeat-IsTable_example = on_heartbeat-IsTable one_peer 7 hb 10 one_peer-IsTable

monitor_run-balance_example :
    let (m, calls) = monitor_run (monitor_init 1500 true) (beat 5 hb 10 ∷ tick 2000 ∷ []) in
    IsTable m × (joins 5 calls ≡ losses 5 calls + bit (alive_now (find_peer m.peers 5)))
monitor_run-balance_example = monitor_run-balance 1500 5 (beat 5 hb 10 ∷ tick 2000 ∷ [])
