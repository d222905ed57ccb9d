-- ===== src/Tests/Leading.antt =====
-- A running cluster after the election: its leader is found, takes a command and is killed.
use distributed_transaction.Prelude.{ℕ, ◌+◌, ◌≡◌, none, some, List, String, Result, Option, arith}
use distributed_transaction.Raft.Node.{Node}
use distributed_transaction.Raft.Transport.{new_transport}
use distributed_transaction.Raft.Leaders.{
  RaftCluster, ClusterError, find_leader, propose_cluster, kill_raft_leader,
}
use distributed_transaction.Raft.Leaders.Finding.{Answers, find_leader_total}
use distributed_transaction.Raft.Leaders.Proposing.{Outcome, Justified, propose_cluster_total}
use distributed_transaction.Raft.Leaders.Killing.{Struck, kill_raft_leader_total}
use distributed_transaction.Raft.Leaders.Waiting.{
  Waited, wait_for_new_leader, IsNewer, wait_for_new_leader_total,
}
use distributed_transaction.Tests.Voting.{cluster, w5}

abbrev running : RaftCluster ℕ (List ℕ)
running = record { nodes = w5; transport = new_transport; last_known_leader = some "b" }

-- the threads rest, and the clock is read at every tick
abbrev clock : ℕ → ℕ
clock k = k + 11

abbrev others : ℕ → RaftCluster ℕ (List ℕ) → RaftCluster ℕ (List ℕ)
others k s = s

find_leader_total_example :
    (r : ℕ × RaftCluster ℕ (List ℕ) × Option String) × (find_leader cluster clock others 2 0 3
        running
      ≡ some r)
    × Answers cluster clock others (clock 0 + 2) 1 r
find_leader_total_example = find_leader_total cluster clock others 2 0 running (λ j. omega arith)

-- no node is revived between a search and a proposal
abbrev replaced : ℕ → Option (Node ℕ (List ℕ))
replaced k = none

propose_cluster_total_example :
    (r : Outcome cluster clock others replaced 7) × (propose_cluster cluster clock others replaced 7
        2 0 3 running
      ≡ some r)
    × Justified cluster clock others replaced 7 (clock 0 + 2) 1 running r
propose_cluster_total_example =
    propose_cluster_total cluster clock others replaced 7 2 0 running (λ j. omega arith)

kill_raft_leader_total_example :
    (r : ℕ × RaftCluster ℕ (List ℕ) × Result ClusterError String) × (kill_raft_leader cluster clock
        others 2 0 3 running
      ≡ some r)
    × Struck cluster clock others (clock 0 + 2) 1 running r
kill_raft_leader_total_example =
    kill_raft_leader_total cluster clock others 2 0 running (λ j. omega arith)

wait_for_new_leader_total_example :
    (r : Waited cluster clock others 0 1) × (wait_for_new_leader cluster clock others 0 1 2 0 2 3
        running
      ≡ some r)
    × IsNewer cluster clock others 0 1 (clock 0 + 2) 1 running r
wait_for_new_leader_total_example =
    wait_for_new_leader_total cluster clock others 0 1 2 0 running (λ j. omega arith)
