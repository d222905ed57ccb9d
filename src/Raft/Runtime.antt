-- ===== src/Raft/Runtime.antt =====
-- coordinator/raft_runtime.py and the running cluster of coordinator/raft_cluster.py: the drivers of
-- the nodes over one `InMemoryTransport`. A call into a node holds its lock, so one call is one
-- step; between two deliveries of `deliver_to` the drivers of other nodes may run. What a call
-- adds to the `sent` of its node goes to the transport. The nodes are started at one reading of
-- the clock, and a proposal goes to the runtime that its node has.
pub mod Runs
use distributed_transaction.Prelude.{
  ℕ, ◌≡◌, String, true, Option, none, some, List, [], ◌∷◌, length, drop, contains, discard, add,
  Result, ok, ◌>>=◌, string_eq,
}
use distributed_transaction.Raft.Types.{LogEntry, Envelope, RaftError}
use distributed_transaction.Raft.Node.{Node}
use distributed_transaction.Raft.Driver.{Event, ticked, received, proposed, step}
use distributed_transaction.Raft.Transport.{
  Transport, new_transport, register, partition, heal, rejoin, take_next,
}
use distributed_transaction.Raft.Transport.Order.{send_all}
use distributed_transaction.Raft.Cluster.{
  ClusterConfig, World, update, build_config, IsMember, initial,
}
use distributed_transaction.Raft.Leaders.{RaftCluster, kill, revive_node}

-- a `RaftCluster` with the nodes whose driver threads run
pub record Running (C S : Type 0) : Type 0 where
  pub cluster : RaftCluster C S
  pub running : List String

-- each `RaftNode.__init__` registers its node
abbrev pub register_all : {C : Type 0} → List String → Transport C → Transport C
register_all [] t = t
register_all (v ∷ vs) t = register_all vs (register v t)

module _ {C S : Type 0} where
  abbrev pub nodes_of : Running C S → World C S
  nodes_of s = s.cluster.nodes

  abbrev pub IsRunning : Running C S → String → Type 0
  IsRunning s v = contains v s.running ≡ true

  -- a node after a call, and what the call sends
  unfoldable pub posted : String → Node C S → RaftCluster C S → RaftCluster C S
  posted v n s = record s {
    nodes = update s.nodes v n;
    transport = send_all (drop (length (s.nodes v).sent) n.sent) s.transport;
  }

  -- `stop` of the runtime, and `kill`
  abbrev pub stop_node : String → Running C S → Running C S
  stop_node v s = record { cluster = kill v s.cluster; running = discard v s.running }

module _ {C S : Type 0} (c : ClusterConfig C S) where
  -- `with self._lock: self.node....`
  unfoldable pub call_node : String → Event C → RaftCluster C S → Result RaftError (RaftCluster C S)
  call_node v event s = do n ← step (build_config c v) event (s.nodes v); ok (posted v n s)

  -- `RaftCluster.__init__` and `start`
  abbrev pub start_cluster : ℕ → Running C S
  start_cluster now = record {
    cluster = record {
      nodes = initial c now;
      transport = register_all c.node_ids new_transport;
      last_known_leader = none;
    };
    running = c.node_ids;
  }

  -- the tick of `_run`
  unfoldable pub drive : String → ℕ → RaftCluster C S → Result RaftError (RaftCluster C S)
  drive v now s = call_node v (ticked now) s

  -- a round of the `deliver_to` of `_run`
  unfoldable pub deliver :
      String → ℕ → Envelope C → Transport C → RaftCluster C S → Result RaftError (RaftCluster C S)
  deliver v now e rest s = call_node v (received e now) (record s { transport = rest })

  -- `propose` of the runtime: the state it leaves
  unfoldable pub propose_node :
      String → C → ℕ → RaftCluster C S → Result RaftError (RaftCluster C S)
  propose_node v command now s = call_node v (proposed command now) s

  -- `revive`
  abbrev pub restart_node : String → ℕ → Running C S → Running C S
  restart_node v now s = record {
    cluster = revive_node c v now s.cluster;
    running = add v s.running;
  }

  pub data RunStep : Running C S → Running C S → Type 0 where
    drives :
        (s : Running C S) (v : String) (now : ℕ) (s' : RaftCluster C S)
        → IsMember c v
        → IsRunning s v
        → drive v now s.cluster ≡ ok s'
        → RunStep s (record s { cluster = s' })
    delivers :
        (s : Running C S) (v : String) (now : ℕ) (e : Envelope C) (rest : Transport C)
        (s' : RaftCluster C S)
        → IsMember c v
        → IsRunning s v
        → take_next v s.cluster.transport ≡ some (e, rest)
        → deliver v now e rest s.cluster ≡ ok s'
        → RunStep s (record s { cluster = s' })
    proposes :
        (s : Running C S) (v : String) (command : C) (now : ℕ) (s' : RaftCluster C S)
        → IsMember c v
        → propose_node v command now s.cluster ≡ ok s'
        → RunStep s (record s { cluster = s' })
    kills : (s : Running C S) (v : String) → IsMember c v → RunStep s (stop_node v s)
    revives :
        (s : Running C S) (v : String) (now : ℕ) → IsMember c v → RunStep s (restart_node v now s)
    cuts :
        (s : Running C S) (vs : List String)
        → RunStep s (record s {
          cluster = record s.cluster { transport = partition vs s.cluster.transport };
        })
    heals :
        (s : Running C S)
        → RunStep s
            (record s { cluster = record s.cluster { transport = heal s.cluster.transport } })

  pub data RunReachable : Running C S → Type 0 where
    began : (now : ℕ) → RunReachable (start_cluster now)
    ran : {s s' : Running C S} → RunReachable s → RunStep s s' → RunReachable s'
