-- ===== src/Monitor.antt =====
-- common/node/include/rjs/node_monitor.h and common/node/src/node_monitor.c: the supervision of bus
-- peers. `peers` lists the entries of the array that are in use, so its length is `count`. A call
-- of the callback is returned as an event with the peer that it is given.
pub mod Invariant
pub mod Lookup
pub mod Events
pub mod Runs
use robot_joint_stack.Prelude.{
  ℕ, ◌+◌, ◌≤◌, ◌<◌, Bool, true, false, ◌&&◌, ◌||◌, if◌then◌else◌, ltb, leb, ◌==◌, Option, none,
  some, List, [], ◌∷◌, ◌++◌, length,
}
use robot_joint_stack.Prelude.Word.{u8, u32, sub32}
use robot_joint_stack.Protocol.{Heartbeat, node_broadcast, node_id_max}

abbrev pub monitor_max_nodes : ℕ
monitor_max_nodes = 16

-- `rjs_peer_status_t`.
pub data PeerStatus : Type 0 where
  unknown alive lost : PeerStatus

abbrev pub is_alive : PeerStatus → Bool
is_alive alive = true
is_alive unknown = false
is_alive lost = false

-- `rjs_monitor_event_t`, less the value RJS_EVENT_NONE, which is never emitted.
pub data MonitorEvent : Type 0 where
  node_joined node_lost node_rebooted : MonitorEvent

-- `rjs_peer_t`.
pub record Peer : Type 0 where
  pub node : ℕ  -- uint8_t
  pub status : PeerStatus
  pub last_seen_ms : ℕ  -- uint32_t
  pub last : Heartbeat
  pub heartbeats : ℕ  -- uint32_t

abbrev pub Calls : Type 0
Calls = List (MonitorEvent × Peer)

-- `rjs_monitor_t`; `has_cb` says that the callback is not NULL.
pub record Monitor : Type 0 where
  pub peers : List Peer
  pub timeout_ms : ℕ  -- uint32_t
  pub has_cb : Bool

unfoldable pub emit : Monitor → MonitorEvent → Peer → Calls
emit m ev p = if m.has_cb then (ev, p) ∷ [] else []

unfoldable pub monitor_init : ℕ → Bool → Monitor
monitor_init timeout_ms has_cb = record { peers = []; timeout_ms = timeout_ms; has_cb = has_cb }

-- The loop of `find_mut` and `rjs_monitor_find`.
unfoldable pub find_peer : List Peer → ℕ → Option Peer
find_peer [] node = none
find_peer (p ∷ ps) node = if p.node == node then some p else find_peer ps node

-- A write through the pointer that `find_mut` returns.
unfoldable pub write_peer : List Peer → ℕ → Peer → List Peer
write_peer [] node q = []
write_peer (p ∷ ps) node q = if p.node == node then q ∷ ps else p ∷ write_peer ps node q

-- `memset(p, 0, sizeof *p); p->node = node;`
abbrev pub fresh_peer : ℕ → Peer
fresh_peer node = record {
  node = node;
  status = unknown;
  last_seen_ms = 0;
  last = record {
    state = 0;
    error_flags = 0;
    uptime_ms = 0;
    fw_major = 0;
    fw_minor = 0;
    fw_patch = 0;
  };
  heartbeats = 0;
}

-- The peer after a heartbeat.
unfoldable pub heard : Peer → Heartbeat → ℕ → Peer
heard p hb now_ms = record p {
  last = hb;
  last_seen_ms = now_ms;
  status = alive;
  heartbeats = u32 (p.heartbeats + 1);
}

-- The events of a heartbeat, from the peer before it and the peer after it.
unfoldable pub heard_calls : Monitor → Peer → Peer → Heartbeat → Calls
unfolding emit
heard_calls m before after hb =
    let rebooted = is_alive before.status && ltb hb.uptime_ms before.last.uptime_ms in
    if is_alive before.status
    then if rebooted then emit m node_rebooted after else []
    else emit m node_joined after

abbrev Accepted : Type 0
Accepted = Monitor × Calls × Bool

-- The rest of `rjs_monitor_on_heartbeat`, from what `find_mut` has returned.
on_heartbeat_found : Monitor → ℕ → Heartbeat → ℕ → Option Peer → Accepted
unfolding heard heard_calls
on_heartbeat_found m node hb now_ms (some p) =
    let q = heard p hb now_ms in
    (record m { peers = write_peer m.peers node q }, heard_calls m p q hb, true)
on_heartbeat_found m node hb now_ms none =
    let q = heard (fresh_peer node) hb now_ms in
    if leb monitor_max_nodes (length m.peers)
    then (m, [], false)
    else (record m { peers = m.peers ++ (q ∷ []) }, heard_calls m (fresh_peer node) q hb, true)

-- On a monitor and a heartbeat that are not NULL.
unfoldable pub on_heartbeat : Monitor → ℕ → Heartbeat → ℕ → Accepted
unfolding on_heartbeat_found
on_heartbeat m node hb now_ms =
    if (node == node_broadcast) || ltb node_id_max node
    then (m, [], false)
    else on_heartbeat_found m node hb now_ms (find_peer m.peers node)

unfoldable pub monitor_on_heartbeat :
    Option Monitor → ℕ → Option Heartbeat → ℕ → Option Monitor × Calls × Bool
unfolding on_heartbeat
monitor_on_heartbeat none node hb now_ms = (none, [], false)
monitor_on_heartbeat (some m) node none now_ms = (some m, [], false)
monitor_on_heartbeat (some m) node (some hb) now_ms =
    let (m', calls, accepted) = on_heartbeat m node hb now_ms in (some m', calls, accepted)

-- A peer is overdue.
unfoldable pub is_overdue : ℕ → ℕ → Peer → Bool
is_overdue timeout_ms now_ms p = is_alive p.status && ltb timeout_ms (sub32 now_ms p.last_seen_ms)

unfoldable pub expire : ℕ → ℕ → Peer → Peer
unfolding is_overdue
expire timeout_ms now_ms p =
    if is_overdue timeout_ms now_ms p then record p { status = lost } else p

-- The loop of `rjs_monitor_poll`.
unfoldable pub poll_peers : Monitor → ℕ → List Peer → List Peer × Calls
unfolding expire emit
poll_peers m now_ms [] = ([], [])
poll_peers m now_ms (p ∷ ps) =
    let (qs, calls) = poll_peers m now_ms ps in
    let q = expire m.timeout_ms now_ms p in
    (q ∷ qs, if is_overdue m.timeout_ms now_ms p then emit m node_lost q ++ calls else calls)

unfoldable pub poll : Monitor → ℕ → Monitor × Calls
unfolding poll_peers
poll m now_ms = let (qs, calls) = poll_peers m now_ms m.peers in (record m { peers = qs }, calls)

unfoldable pub monitor_poll : Option Monitor → ℕ → Option Monitor × Calls
unfolding poll
monitor_poll none now_ms = (none, [])
monitor_poll (some m) now_ms = let (m', calls) = poll m now_ms in (some m', calls)

unfoldable pub monitor_find : Option Monitor → ℕ → Option Peer
monitor_find none node = none
monitor_find (some m) node = find_peer m.peers node

-- The counter `n` is a uint8_t.
count_alive : ℕ → List Peer → ℕ
count_alive n [] = n
count_alive n (p ∷ ps) = count_alive (if is_alive p.status then u8 (n + 1) else n) ps

unfoldable pub alive_count : Option Monitor → ℕ
unfolding count_alive
alive_count none = 0
alive_count (some m) = count_alive 0 m.peers
