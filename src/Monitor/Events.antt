-- ===== src/Monitor/Events.antt =====
-- The events that a monitor reports over a run, and the number of peers that are alive.
use robot_joint_stack.Prelude.{
  ℕ, ◌+◌, ◌≡◌, refl, arith, Bool, true, false, ◌&&◌, ◌==◌, Bool-cases, inl, inr, Option, none, some,
  List, [], ◌∷◌, ◌++◌, length, ◌||◌, ltb, leb,
}
use robot_joint_stack.Protocol.{Heartbeat}
use robot_joint_stack.Monitor.{
  Monitor, MonitorEvent, node_joined, node_lost, node_rebooted, Peer, Calls, is_alive, emit,
  find_peer, write_peer, fresh_peer, heard, heard_calls, on_heartbeat_found, on_heartbeat,
  is_overdue, expire, poll_peers, poll,
}

abbrev pub bit : Bool → ℕ
bit true = 1
bit false = 0

abbrev pub is_joined : MonitorEvent → Bool
is_joined node_joined = true
is_joined node_lost = false
is_joined node_rebooted = false

abbrev pub is_lost : MonitorEvent → Bool
is_lost node_lost = true
is_lost node_joined = false
is_lost node_rebooted = false

-- How often node `k` was reported as joined, and as lost.
abbrev pub joins : ℕ → Calls → ℕ
joins k [] = 0
joins k ((ev, p) ∷ calls) = bit (is_joined ev && (p.node == k)) + joins k calls

abbrev pub losses : ℕ → Calls → ℕ
losses k [] = 0
losses k ((ev, p) ∷ calls) = bit (is_lost ev && (p.node == k)) + losses k calls

-- How many entries of the node are alive.
abbrev pub live : ℕ → List Peer → ℕ
live k [] = 0
live k (p ∷ ps) = bit (is_alive p.status && (p.node == k)) + live k ps

pub joins-append : (k : ℕ) (a b : Calls) → joins k (a ++ b) ≡ joins k a + joins k b
joins-append k [] b = omega arith
joins-append k ((ev, p) ∷ a) b = omega (arith, joins-append k a b)

pub losses-append : (k : ℕ) (a b : Calls) → losses k (a ++ b) ≡ losses k a + losses k b
losses-append k [] b = omega arith
losses-append k ((ev, p) ∷ a) b = omega (arith, losses-append k a b)

live-append : (k : ℕ) (a b : List Peer) → live k (a ++ b) ≡ live k a + live k b
live-append k [] b = omega arith
live-append k (p ∷ a) b = omega (arith, live-append k a b)

live-write_peer :
    (k : ℕ) (ps : List Peer) (node : ℕ) (p q : Peer)
    → find_peer ps node ≡ some p
    → q.node ≡ p.node
    → live k (write_peer ps node q) + bit (is_alive p.status && (p.node == k))
      ≡ live k ps + bit (is_alive q.status && (p.node == k))
unfolding find_peer write_peer
live-write_peer k [] node p q found same = ground arith
live-write_peer k (r ∷ ps) node p q found same = ground (arith, live-write_peer k ps node p q)

-- The balance of an operation: reports of joining against reports of loss.
abbrev pub Balances : ℕ → List Peer → Calls → List Peer → Type 0
Balances k before calls after = live k before + joins k calls ≡ live k after + losses k calls

heard-Balance :
    (k : ℕ) (m : Monitor) (p : Peer) (hb : Heartbeat) (now : ℕ)
    → m.has_cb ≡ true
    → let calls = heard_calls m p (heard p hb now) hb in
      (joins k calls + bit (is_alive p.status && (p.node == k)) ≡ bit (p.node == k))
      × (losses k calls ≡ 0)
unfolding heard_calls heard
heard-Balance k m p hb now cb = ground arith

heard-node : (p : Peer) (hb : Heartbeat) (now : ℕ) → (heard p hb now).node ≡ p.node
unfolding heard
heard-node p hb now = refl

heard-alive :
    (k : ℕ) (p : Peer) (hb : Heartbeat) (now : ℕ)
    → let q = heard p hb now in
      (bit (is_alive q.status && (q.node == k)) ≡ bit (p.node == k))
      × (bit (is_alive q.status && (p.node == k)) ≡ bit (p.node == k))
unfolding heard
heard-alive k p hb now = (refl, refl)

found-Balances :
    (k : ℕ) (m : Monitor) (node : ℕ) (hb : Heartbeat) (now : ℕ)
    → m.has_cb ≡ true
    → (found : Option Peer) → find_peer m.peers node ≡ found
    → let r = on_heartbeat_found m node hb now found in Balances k m.peers r.1 r.0.peers
unfolding on_heartbeat_found
found-Balances k m node hb now cb (some p) found =
    let b = heard-Balance k m p hb now cb in
    let w = live-write_peer k m.peers node p (heard p hb now) found (heard-node p hb now) in
    omega (arith, b, w, heard-alive k p hb now)
found-Balances k m node hb now cb none absent =
    let b = heard-Balance k m (fresh_peer node) hb now cb in
    elim (Bool-cases (leb 16 (length m.peers))) [
      | inl full ↦ rw full (omega arith)
      | inr free ↦ rw free (
          omega (
            arith,
            b,
            live-append k m.peers (heard (fresh_peer node) hb now ∷ []),
            heard-alive k (fresh_peer node) hb now,
          ))
    ]

pub on_heartbeat-Balances :
    (k : ℕ) (m : Monitor) (node : ℕ) (hb : Heartbeat) (now : ℕ)
    → m.has_cb ≡ true
    → let r = on_heartbeat m node hb now in Balances k m.peers r.1 r.0.peers
unfolding on_heartbeat
on_heartbeat-Balances k m node hb now cb = elim (Bool-cases ((node == 0) || ltb 127 node)) [
  | inl bad ↦ rw bad refl
  | inr good ↦ rw good (found-Balances k m node hb now cb (find_peer m.peers node) refl)
]

poll_peers-Balances :
    (k : ℕ) (m : Monitor) (now : ℕ) (ps : List Peer)
    → m.has_cb ≡ true
    → let r = poll_peers m now ps in Balances k ps r.1 r.0
unfolding poll_peers expire is_overdue emit
poll_peers-Balances k m now [] cb = refl
poll_peers-Balances k m now (p ∷ ps) cb = ground (arith, poll_peers-Balances k m now ps cb)

pub poll-Balances :
    (k : ℕ) (m : Monitor) (now : ℕ)
    → m.has_cb ≡ true
    → let r = poll m now in Balances k m.peers r.1 r.0.peers
unfolding poll
poll-Balances k m now cb = poll_peers-Balances k m now m.peers cb
