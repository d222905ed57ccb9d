-- ===== src/Tests/Running.antt =====
-- A running cluster of three nodes: `a` is driven, its message delivered to `b`, and `c` killed.
use distributed_transaction.Prelude.{ℕ, refl, List, [], ◌∷◌, string_eq, put, true}
use distributed_transaction.Raft.Types.{Envelope, prevote_reply}
use distributed_transaction.Raft.Node.{
  log_up_to_date, reset_election_deadline, maybe_win_prevote, start_prevote,
}
use distributed_transaction.Raft.Handlers.{leader_is_recent, handle_prevote}
use distributed_transaction.Raft.Driver.{tick, receive, step}
use distributed_transaction.Raft.Transport.{Transport, send, take_next}
use distributed_transaction.Raft.Cluster.{build_config, Reachable}
use distributed_transaction.Raft.Leaders.{RaftCluster}
use distributed_transaction.Raft.Runtime.{
  Running, nodes_of, posted, call_node, start_cluster, drive, deliver, stop_node, drives, delivers,
  kills, RunReachable, began, ran,
}
use distributed_transaction.Raft.Runtime.Runs.{run_reachable}
use distributed_transaction.Tests.Voting.{cluster}
use distributed_transaction.Tests.Calling.{asks}

abbrev s0 : Running ℕ (List ℕ)
s0 = start_cluster cluster 0

abbrev driven_a : RaftCluster ℕ (List ℕ)
driven_a = posted "a" (tick (build_config cluster "a") 10 (nodes_of s0 "a")) s0.cluster

abbrev s1 : Running ℕ (List ℕ)
s1 = record s0 { cluster = driven_a }

abbrev to_b : Envelope ℕ
to_b = record { sender_id = "a"; recipient_id = "b"; message = asks }

abbrev rest : Transport ℕ
rest = record driven_a.transport { inboxes = put "b" [] driven_a.transport.inboxes }

abbrev answered_b : RaftCluster ℕ (List ℕ)
answered_b =
    posted "b"
      (record (nodes_of s0 "b") {
        sent =
            record {
              sender_id = "b";
              recipient_id = "a";
              message = prevote_reply (record { term = 0; vote_granted = true; voter_id = "b" });
            }
            ∷ [];
      })
      (record driven_a { transport = rest })

abbrev s2 : Running ℕ (List ℕ)
s2 = stop_node "c" (record s1 { cluster = answered_b })

running : RunReachable cluster s2
unfolding step tick start_prevote maybe_win_prevote reset_election_deadline call_node drive deliver
    posted send take_next receive handle_prevote leader_is_recent log_up_to_date
running =
    ran
      (ran (ran (began 0) (drives s0 "a" 10 driven_a refl refl refl))
        (delivers s1 "b" 10 to_b rest answered_b refl refl refl refl))
      (kills (record s1 { cluster = answered_b }) "c" refl)

run_reachable_example : Reachable cluster (nodes_of s2)
run_reachable_example = run_reachable cluster running
