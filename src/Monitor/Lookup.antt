-- ===== src/Monitor/Lookup.antt =====
-- The table as a map from nodes to peers: what each operation does to it.
use robot_joint_stack.Prelude.{
  ℕ, ◌+◌, ◌≤◌, ◌<◌, ◌≡◌, ◌≢◌, ◌⊎◌, refl, arith, true, false, if◌then◌else◌, ◌==◌, Bool-cases, inl,
  inr, Option, none, some, List, [], ◌∷◌, ◌++◌, length, ltb, leb, ltb→lt, ◌||◌, ◌∙◌,
}
use robot_joint_stack.Prelude.Word.{u32, sub32}
use mathlib.Core.Option
use robot_joint_stack.Protocol.{Heartbeat}
use robot_joint_stack.Monitor.{
  Monitor, Peer, alive, lost, is_alive, find_peer, write_peer, fresh_peer, heard,
  on_heartbeat_found, on_heartbeat, is_overdue, expire, poll_peers, poll, monitor_max_nodes,
}

pub find_peer-node : (ps : List Peer) (k : ℕ) {p : Peer} → find_peer ps k ≡ some p → p.node ≡ k
unfolding find_peer
find_peer-node [] k h = ground arith
find_peer-node (q ∷ ps) k {p} h = ground (arith, find_peer-node ps k {p = p})

pub find_peer-write_peer :
    (ps : List Peer) (node k : ℕ) (p q : Peer)
    → find_peer ps node ≡ some p
    → q.node ≡ node
    → find_peer (write_peer ps node q) k ≡ (if node == k then some q else find_peer ps k)
unfolding find_peer write_peer
find_peer-write_peer [] node k p q found same = ground arith
find_peer-write_peer (r ∷ ps) node k p q found same =
    ground (arith, find_peer-write_peer ps node k p q)

pub find_peer-append :
    (ps : List Peer) (k : ℕ) (q : Peer)
    → find_peer ps q.node ≡ none
    → find_peer (ps ++ (q ∷ [])) k ≡ (if q.node == k then some q else find_peer ps k)
unfolding find_peer
find_peer-append [] k q absent = ground arith
find_peer-append (r ∷ ps) k q absent = ground (arith, find_peer-append ps k q)

-- The entry of a node, or the blank entry that it would get.
abbrev pub known_or_fresh : Monitor → ℕ → Peer
known_or_fresh m node = Option.get_or (find_peer m.peers node) (fresh_peer node)

-- The table can take a heartbeat of the node.
abbrev pub HasRoom : Monitor → ℕ → Type 0
HasRoom m node = (find_peer m.peers node ≢ none) ⊎ (length m.peers < monitor_max_nodes)

-- A peer that is alive, with this heartbeat, seen now, and a count of heartbeats that is one higher.
abbrev pub refreshed : Peer → Heartbeat → ℕ → Peer
refreshed p hb now = record {
  node = p.node;
  status = alive;
  last_seen_ms = now;
  last = hb;
  heartbeats = u32 (p.heartbeats + 1);
}

heard-node : (p : Peer) (hb : Heartbeat) (now : ℕ) → (heard p hb now).node ≡ p.node
unfolding heard
heard-node p hb now = refl

found-view :
    (m : Monitor) (node : ℕ) (hb : Heartbeat) (now : ℕ)
    → (1 ≤ node) × (node ≤ 127)
    → (found : Option Peer) → find_peer m.peers node ≡ found
    → let (m', calls, accepted) = on_heartbeat_found m node hb now found in
      ((accepted ≡ true)
        × ((1 ≤ node) × (node ≤ 127) × HasRoom m node)
        × ((k : ℕ)
            → find_peer m'.peers k ≡ (
                if node == k
                then some (heard (known_or_fresh m node) hb now)
                else find_peer m.peers k)))
      ⊎ ((accepted ≡ false)
          × ¬ ((1 ≤ node) × (node ≤ 127) × HasRoom m node)
          × (m' ≡ m)
          × (calls ≡ []))
unfolding on_heartbeat_found
found-view m node hb now range (some p) found = inl (
  refl,
  (range.0, range.1, inl (λ e. ground arith)),
  λ k. rw found (
      find_peer-write_peer m.peers node k p (heard p hb now) found
        (heard-node p hb now ∙ find_peer-node m.peers node {p = p} found)),
)
found-view m node hb now range none absent = elim (Bool-cases (leb 16 (length m.peers))) [
  | inl full ↦ rw full (inr (refl, λ h. ground arith, refl, refl))
  | inr free ↦ rw free (
      inl (
        refl,
        (range.0, range.1, inr (ltb→lt _ _ (ground arith))),
        λ k. rw absent (find_peer-append m.peers k (heard (fresh_peer node) hb now) absent),
      ))
]

-- A heartbeat is accepted exactly when its node is 1 to 127 and the node is in the table or the
-- table has a free entry. Accepted, it changes the entry of its node alone: the peer is alive, with
-- this heartbeat, seen now, and a count of heartbeats that is one higher (from a blank entry, if the
-- node is new). Refused, it changes nothing and reports nothing.
pub on_heartbeat-view :
    (m : Monitor) (node : ℕ) (hb : Heartbeat) (now : ℕ)
    → let (m', calls, accepted) = on_heartbeat m node hb now in
      ((accepted ≡ true)
        × ((1 ≤ node) × (node ≤ 127) × HasRoom m node)
        × ((k : ℕ)
            → find_peer m'.peers k ≡ (
                if node == k
                then some (refreshed (known_or_fresh m node) hb now)
                else find_peer m.peers k)))
      ⊎ ((accepted ≡ false)
          × ¬ ((1 ≤ node) × (node ≤ 127) × HasRoom m node)
          × (m' ≡ m)
          × (calls ≡ []))
unfolding on_heartbeat on_heartbeat_found heard
on_heartbeat-view m node hb now = elim (Bool-cases ((node == 0) || ltb 127 node)) [
  | inl bad ↦ rw bad (inr (refl, λ h. ground arith, refl, refl))
  | inr good ↦ rw good (found-view m node hb now (ground arith) (find_peer m.peers node) refl)
]

find_peer-poll_peers :
    (m : Monitor) (now : ℕ) (ps : List Peer) (k : ℕ)
    → find_peer (poll_peers m now ps).0 k ≡ Option.map (expire m.timeout_ms now) (find_peer ps k)
unfolding find_peer poll_peers expire
find_peer-poll_peers m now [] k = refl
find_peer-poll_peers m now (p ∷ ps) k = ground (arith, find_peer-poll_peers m now ps k)

-- The status after a poll, for a peer that was last heard at time `seen` and is polled `silence`
-- milliseconds later, both times counted modulo 2^32.
expire_lem :
    (timeout seen silence : ℕ) (p : Peer)
    → silence < 4294967296
    → p.last_seen_ms ≡ u32 seen
    → expire timeout (u32 (seen + silence)) p ≡ (
        if is_alive p.status
        then if ltb timeout silence then record p { status = lost } else p
        else p)
unfolding expire is_overdue
expire_lem timeout seen silence p short stamp =
    let true_silence : sub32 (u32 (seen + silence)) p.last_seen_ms ≡ silence = omega arith in
    rw true_silence (ground arith)

-- A poll marks as lost exactly the nodes that were alive and have been silent for longer than the
-- timeout, and changes no other entry; also where the 32-bit millisecond counter has wrapped around
-- in between, as long as the silence is shorter than 2^32 ms.
pub poll-view :
    (m : Monitor) (k seen silence : ℕ) (p : Peer)
    → find_peer m.peers k ≡ some p
    → p.last_seen_ms ≡ u32 seen
    → silence < 4294967296
    → find_peer (poll m (u32 (seen + silence))).0.peers k
      ≡ some (
          if is_alive p.status
          then if ltb m.timeout_ms silence then record p { status = lost } else p
          else p)
unfolding poll
poll-view m k seen silence p found stamp short =
    rw
      (
        find_peer-poll_peers m (u32 (seen + silence)) m.peers k,
        found,
        expire_lem m.timeout_ms seen silence p short stamp,
      )
      refl
