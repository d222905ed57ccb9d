-- ===== src/Raft/Leaders.antt =====
-- coordinator/raft_cluster.py: the operations of a running `RaftCluster`, and the two of
-- chaos/fault_injection.py that use it. The clock is read again and again, its reading in turn `k`
-- is `clock k`, and between two turns the threads of the nodes, and others that use the
-- transport, change the cluster: `others k` is what they make of it before that turn. A
-- look at all the nodes is one moment. A search gives a node's runtime, and a node that is revived
-- gets a new one: `replaced k` is the runtime that a proposal in turn `k` uses where it is no longer
-- the node's, and `none` where it is. A loop that its fuel does not let end gives `none`.
pub mod Clock
pub mod Finding
pub mod Killing
pub mod Looking
pub mod Proposing
pub mod Waiting
use distributed_transaction.Prelude.{
  ℕ, zero, suc, ◌+◌, ◌-◌, String, string_eq, Bool, true, false, not, ◌&&◌, Option, none, some, List,
  [], ◌∷◌, Result, ok, raise, contains, leb, ltb, if◌then◌else◌,
}
use distributed_transaction.Raft.Types.{LogEntry, is_leader}
use distributed_transaction.Raft.Node.{Node, current_term}
use distributed_transaction.Raft.Driver.{propose}
use distributed_transaction.Raft.Transport.{Transport, partition, rejoin, is_partitioned}
use distributed_transaction.Raft.Cluster.{ClusterConfig, World, update, build_config, revive}

pub record RaftCluster (C S : Type 0) : Type 0 where
  pub nodes : World C S
  pub transport : Transport C
  pub last_known_leader : Option String

pub data ClusterError : Type 0 where
  no_leader : ClusterError

module _ {C S : Type 0} where
  abbrev pub is_alive : RaftCluster C S → String → Bool
  is_alive s v = not (is_partitioned s.transport v)

  -- `self.is_alive(node_id) and runtime.is_leader`
  abbrev pub leads : RaftCluster C S → String → Bool
  leads s v = is_alive s v && is_leader (s.nodes v).state

  -- `kill`: the runtime stops, and its node is cut off
  unfoldable pub kill : String → RaftCluster C S → RaftCluster C S
  kill v s = record s { transport = partition (v ∷ []) s.transport }

  -- the loop of `find_leader` over the nodes
  unfoldable pub first_leader : List String → RaftCluster C S → Option String
  first_leader [] s = none
  first_leader (v ∷ vs) s = let rest = first_leader vs s in if leads s v then some v else rest

module _ {C S : Type 0} (c : ClusterConfig C S) where
  -- `revive`
  unfoldable pub revive_node : String → ℕ → RaftCluster C S → RaftCluster C S
  revive_node v now s = record s {
    nodes = update s.nodes v (revive c v now (s.nodes v));
    transport = rejoin (v ∷ []) s.transport;
  }

  -- the first test of `find_leader`
  abbrev pub is_cached : Option String → RaftCluster C S → Bool
  is_cached none s = false
  is_cached (some v) s = contains v c.node_ids && leads s v

  -- one look of `find_leader`: the leader it knows, or else the first that leads, which it notes
  unfoldable pub look : RaftCluster C S → RaftCluster C S × Option String
  look s =
      if is_cached s.last_known_leader s
      then (s, s.last_known_leader)
      else elim (first_leader c.node_ids s) [
        | none ↦ (s, none)
        | some v ↦ (record s { last_known_leader = some v }, some v)
      ]

  -- what each node that is alive says of itself, in `snapshot`
  abbrev pub snapshot : List String → RaftCluster C S → List (String × Bool × ℕ × Option String)
  snapshot [] s = []
  snapshot (v ∷ vs) s =
      let rest = snapshot vs s in
      let n = s.nodes v in
      if is_alive s v then (v, is_leader n.state, current_term n, n.leader_id) ∷ rest else rest

  module _ (clock : ℕ → ℕ) (others : ℕ → RaftCluster C S → RaftCluster C S) where
    -- the `while` loop of `find_leader`: the number of the next reading, the cluster, and the leader
    unfoldable pub poll : ℕ → ℕ → ℕ → RaftCluster C S → Option (ℕ × RaftCluster C S × Option String)
    poll deadline k zero s = none
    poll deadline k (suc fuel) s =
        let seen = look (others k s) in
        let again = poll deadline (suc k) fuel seen.0 in
        elim seen.1 [
          | some v ↦ some (suc k, seen.0, some v)
          | none ↦ if leb deadline (clock k) then some (suc k, seen.0, none) else again
        ]

    -- `find_leader`
    unfoldable pub find_leader :
        ℕ → ℕ → ℕ → RaftCluster C S → Option (ℕ × RaftCluster C S × Option String)
    find_leader timeout k fuel s = poll (clock k + timeout) (suc k) fuel s

    -- what `kill_raft_leader` makes of an answer of `find_leader`
    abbrev pub strike :
        ℕ × RaftCluster C S × Option String → ℕ × RaftCluster C S × Result ClusterError String
    strike (k, s, none) = (k, s, raise no_leader)
    strike (k, s, some v) = (suc k, kill v (others k s), ok v)

    -- `kill_raft_leader`
    unfoldable pub kill_raft_leader :
        ℕ → ℕ → ℕ → RaftCluster C S → Option (ℕ × RaftCluster C S × Result ClusterError String)
    kill_raft_leader timeout k fuel s = elim (find_leader timeout k fuel s) [
      | none ↦ none
      | some r ↦ some (strike r)
    ]

  module _ (clock : ℕ → ℕ) (others : ℕ → RaftCluster C S → RaftCluster C S)
      (replaced : ℕ → Option (Node C S)) where
    -- the runtime that was found, at its call in turn `k`: the node's own, or where the node was
    -- revived meanwhile the one before it, which has the node's storage and state machine
    abbrev pub found_node : String → ℕ → RaftCluster C S → Node C S
    found_node v k s = elim (replaced k) [
      | none ↦ s.nodes v
      | some old ↦ record old {
        storage = (s.nodes v).storage;
        machine = (s.nodes v).machine;
        sent = (s.nodes v).sent;
      }
    ]

    -- the node after that runtime's call
    abbrev pub node_after : String → ℕ → RaftCluster C S → Node C S → Node C S
    node_after v k s n = elim (replaced k) [
      | none ↦ n
      | some old ↦ record (s.nodes v) { storage = n.storage; machine = n.machine; sent = n.sent }
    ]

    -- what `propose` makes of an answer of `find_leader`; `again` is the next turn of its loop
    abbrev pub propose_to :
        C
        → (ℕ → RaftCluster C S → Option (ℕ × RaftCluster C S × Result ClusterError (LogEntry C)))
        → ℕ × RaftCluster C S × Option String
        → Option (ℕ × RaftCluster C S × Result ClusterError (LogEntry C))
    propose_to command again (k, s, none) = some (k, s, raise no_leader)
    propose_to command again (k, s, some v) =
        let s' = others k s in
        let r = propose (build_config c v) command (clock k) (found_node v k s') in
        let after : RaftCluster C S = record s' {
          nodes = update s'.nodes v (node_after v k s' r.0);
        } in
        elim r.1 [
          | some entry ↦ some (suc k, after, ok entry)
          | none ↦ again (suc k) (record after { last_known_leader = none })
        ]

    -- the `while` loop of `propose`, with fuel for itself and for the loops inside it
    unfoldable pub propose_loop :
        C
        → ℕ
        → ℕ
        → ℕ
        → ℕ
        → RaftCluster C S
        → Option (ℕ × RaftCluster C S × Result ClusterError (LogEntry C))
    propose_loop command deadline k inner zero s = none
    propose_loop command deadline k inner (suc fuel) s =
        let found = find_leader clock others (deadline - clock (suc k)) (suc (suc k)) inner s in
        if not (ltb (clock k) deadline) then some (suc k, s, raise no_leader) else elim found [
          | none ↦ none
          | some r ↦ propose_to command (λ k' s'. propose_loop command deadline k' inner fuel s') r
        ]

    -- `propose`
    unfoldable pub propose_cluster :
        C
        → ℕ
        → ℕ
        → ℕ
        → RaftCluster C S
        → Option (ℕ × RaftCluster C S × Result ClusterError (LogEntry C))
    propose_cluster command timeout k fuel s =
        propose_loop command (clock k + timeout) (suc k) fuel fuel s
