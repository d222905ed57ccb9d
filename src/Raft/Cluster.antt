-- ===== src/Raft/Cluster.antt =====
-- coordinator/raft_cluster.py with coordinator/raft_runtime.py, and raft/tests/harness.py: nodes
-- with an identity each, driven one call at a time (the runtime's lock), over a network that may
-- lose, delay, repeat and reorder messages. Everything that a node has sent stays in its `sent`,
-- and a delivery takes any message from there; so the runs of `InMemoryTransport`, with its
-- partitions, and those over remote calls are among the runs here.
use distributed_transaction.Prelude.{
  ℕ, ◌≡◌, String, string_eq, ◌==◌, true, List, [], ◌∷◌, ◌⊎◌, contains, discard, if◌then◌else◌, ok,
}
use distributed_transaction.Raft.Storage.{empty_storage}
use distributed_transaction.Raft.Node.{Config, Node, new_node, start}
use distributed_transaction.Raft.Driver.{Event, received, step}

-- the arguments of `RaftCluster.__init__`; `machine` is what the factory makes for each node
pub record ClusterConfig (C S : Type 0) : Type 0 where
  pub node_ids : List String
  pub election_timeout_min : ℕ
  pub election_timeout_max : ℕ
  pub heartbeat_interval : ℕ
  pub random_fn : String → ℕ → ℕ → ℕ → ℕ
  pub machine : S
  pub apply_command : S → C → S

-- `x` is one of the list's elements
abbrev pub In : {A : Type 0} → A → List A → Type 0
In x [] = ⊥
In x (y ∷ ys) = (x ≡ y) ⊎ In x ys

abbrev pub World : Type 0 → Type 0 → Type 0
World C S = String → Node C S

abbrev pub update : {C S : Type 0} → World C S → String → Node C S → World C S
update w v n u = if v == u then n else w u

module _ {C S : Type 0} (c : ClusterConfig C S) where
  -- `_build_runtime`: the peers of a node are the other nodes
  abbrev pub build_config : String → Config C S
  build_config node_id = record {
    node_id = node_id;
    peer_ids = discard node_id c.node_ids;
    election_timeout_min = c.election_timeout_min;
    election_timeout_max = c.election_timeout_max;
    heartbeat_interval = c.heartbeat_interval;
    random_fn = c.random_fn node_id;
    apply_command = c.apply_command;
  }

  abbrev pub IsMember : String → Type 0
  IsMember node_id = contains node_id c.node_ids ≡ true

  -- the cluster as it is built, its nodes started at a time
  abbrev pub initial : ℕ → World C S
  initial now node_id = start (build_config node_id) now (new_node empty_storage c.machine)

  -- `revive`: a fresh node over the same storage and state machine
  unfoldable pub revive : String → ℕ → Node C S → Node C S
  revive node_id now n =
      let fresh = start (build_config node_id) now (new_node n.storage n.machine) in
      record fresh { sent = n.sent }

  -- a message that comes in was sent by a node of the cluster, to this one
  abbrev pub Delivers : World C S → String → Event C → Type 0
  Delivers w node_id (received envelope now) =
      (sender : String) × IsMember sender
      × In envelope (w sender).sent
      × (envelope.recipient_id ≡ node_id)
  Delivers w node_id _ = Unit

  -- One node makes one call that returns, or is restarted.
  pub data ClusterStep : World C S → World C S → Type 0 where
    called :
        (w : World C S) (node_id : String) (event : Event C) (n : Node C S)
        → IsMember node_id
        → Delivers w node_id event
        → step (build_config node_id) event (w node_id) ≡ ok n
        → ClusterStep w (update w node_id n)
    revived :
        (w : World C S) (node_id : String) (now : ℕ)
        → IsMember node_id
        → ClusterStep w (update w node_id (revive node_id now (w node_id)))

  pub data Reachable : World C S → Type 0 where
    built : (now : ℕ) → Reachable (initial now)
    went : {w w' : World C S} → Reachable w → ClusterStep w w' → Reachable w'
