-- ===== src/Monitor/Invariant.antt =====
-- The table holds each node once, in range, and never more than 16 of them.
use robot_joint_stack.Prelude.{
  ℕ, suc, ◌≤◌, ◌≡◌, ◌≢◌, refl, arith, ◌==◌, Bool-cases, ◌||◌, ltb, leb, ltb→lt, ap, ◌∙◌, inl, inr,
  Option, none, some, List, [], ◌∷◌, ◌++◌, length, length-append,
}
use robot_joint_stack.Monitor.Lookup.{find_peer-append, find_peer-node}
use robot_joint_stack.Protocol.{Heartbeat}
use robot_joint_stack.Monitor.{
  Monitor, Peer, unknown, find_peer, write_peer, fresh_peer, heard, on_heartbeat_found,
  on_heartbeat, expire, poll_peers, poll, monitor_max_nodes,
}

-- The entries have been heard, their nodes are valid, and each is the first with its node.
abbrev pub AreEntries : List Peer → Type 0
AreEntries [] = Unit {0}
AreEntries (p ∷ ps) =
    (1 ≤ p.node)
    × (p.node ≤ 127)
    × (p.status ≢ unknown)
    × (find_peer ps p.node ≡ none)
    × AreEntries ps

pub record IsTable (m : Monitor) : Type 0 where
  pub entries : AreEntries m.peers
  pub room : length m.peers ≤ monitor_max_nodes

find_peer-write_other :
    (ps : List Peer) (node k : ℕ) (q : Peer)
    → q.node ≡ node
    → find_peer ps k ≡ none
    → find_peer (write_peer ps node q) k ≡ none
unfolding find_peer write_peer
find_peer-write_other [] node k q same h = refl
find_peer-write_other (p ∷ ps) node k q same h = ground (arith, find_peer-write_other ps node k q)

length-write_peer :
    (ps : List Peer) (node : ℕ) (q : Peer) → length (write_peer ps node q) ≡ length ps
unfolding write_peer
length-write_peer [] node q = refl
length-write_peer (p ∷ ps) node q = ground (arith, length-write_peer ps node q)

write_peer-AreEntries :
    (ps : List Peer) (node : ℕ) (q : Peer)
    → q.node ≡ node
    → q.status ≢ unknown
    → AreEntries ps
    → AreEntries (write_peer ps node q)
unfolding write_peer
write_peer-AreEntries [] node q same known h = tt
write_peer-AreEntries (p ∷ ps) node q same known h = ground (
  arith,
  write_peer-AreEntries ps node q same known h.4,
  find_peer-write_other ps node p.node q same h.3,
)

append-AreEntries :
    (ps : List Peer) (q : Peer)
    → 1 ≤ q.node
    → q.node ≤ 127
    → q.status ≢ unknown
    → find_peer ps q.node ≡ none
    → AreEntries ps
    → AreEntries (ps ++ (q ∷ []))
unfolding find_peer
append-AreEntries [] q low high known absent h = (low, high, known, refl, tt)
append-AreEntries (p ∷ ps) q low high known absent h = elim (Bool-cases (p.node == q.node)) [
  | inl same ↦ cc (rw same at absent)
  | inr other ↦
      let absent' : find_peer ps q.node ≡ none = rw other at absent in
      (
        h.0,
        h.1,
        h.2,
        find_peer-append ps p.node q absent' ∙ ground (arith, h.3),
        append-AreEntries ps q low high known absent' h.4,
      )
]

poll_peers-none :
    (m : Monitor) (now : ℕ) (ps : List Peer) (k : ℕ)
    → find_peer ps k ≡ none
    → find_peer (poll_peers m now ps).0 k ≡ none
unfolding find_peer poll_peers expire
poll_peers-none m now [] k h = refl
poll_peers-none m now (p ∷ ps) k h = ground (arith, poll_peers-none m now ps k)

expire-node : (timeout now : ℕ) (p : Peer) → (expire timeout now p).node ≡ p.node
unfolding expire
expire-node timeout now p = ground arith

expire-status :
    (timeout now : ℕ) (p : Peer) → p.status ≢ unknown → (expire timeout now p).status ≢ unknown
unfolding expire
expire-status timeout now p h = ground arith

poll_peers-AreEntries :
    (m : Monitor) (now : ℕ) (ps : List Peer)
    → AreEntries ps
    → AreEntries (poll_peers m now ps).0 × (length (poll_peers m now ps).0 ≡ length ps)
unfolding poll_peers expire
poll_peers-AreEntries m now [] h = (tt, refl)
poll_peers-AreEntries m now (p ∷ ps) h =
    let rest = poll_peers-AreEntries m now ps h.4 in
    let same = expire-node m.timeout_ms now p in
    (
      (
        rw same h.0,
        rw same h.1,
        expire-status m.timeout_ms now p h.2,
        rw same (poll_peers-none m now ps p.node h.3),
        rest.0,
      ),
      ap suc rest.1,
    )

found-IsTable :
    (m : Monitor) (node : ℕ) (hb : Heartbeat) (now : ℕ)
    → IsTable m
    → 1 ≤ node
    → node ≤ 127
    → (found : Option Peer) → find_peer m.peers node ≡ found
    → IsTable (on_heartbeat_found m node hb now found).0
unfolding on_heartbeat_found heard
found-IsTable m node hb now h low high (some p) found =
    let q = heard p hb now in
    record {
      entries =
          write_peer-AreEntries m.peers node q (find_peer-node m.peers node {p = p} found) (λ e. cc)
            h.entries;
      room = rw (length-write_peer m.peers node q) h.room;
    }
found-IsTable m node hb now h low high none absent =
    let q = heard (fresh_peer node) hb now in
    elim (Bool-cases (leb monitor_max_nodes (length m.peers))) [
      | inl full ↦ rw full h
      | inr free ↦ rw free (record {
        entries = append-AreEntries m.peers q low high (λ e. cc) absent h.entries;
        room = omega (
          arith,
          length-append m.peers (q ∷ []),
          ltb→lt (length m.peers) monitor_max_nodes (ground arith),
        );
      })
    ]

-- A heartbeat of any node, accepted or not, keeps the table well-formed: each node in it once, with
-- a number from 1 to 127 and a known status, and at most 16 of them.
pub on_heartbeat-IsTable :
    (m : Monitor) (node : ℕ) (hb : Heartbeat) (now : ℕ)
    → IsTable m
    → IsTable (on_heartbeat m node hb now).0
unfolding on_heartbeat on_heartbeat_found heard
on_heartbeat-IsTable m node hb now h = elim (Bool-cases ((node == 0) || ltb 127 node)) [
  | inl bad ↦ rw bad h
  | inr good ↦
      rw good
        (found-IsTable m node hb now h (ground arith) (ground arith) (find_peer m.peers node) refl)
]

pub poll-IsTable : (m : Monitor) (now : ℕ) → IsTable m → IsTable (poll m now).0
unfolding poll
poll-IsTable m now h =
    let e = poll_peers-AreEntries m now m.peers h.entries in
    record { entries = e.0; room = rw e.1 h.room }
