-- ===== src/Tests/Voting.antt =====
-- An election in a cluster of three nodes, message by message.
use distributed_transaction.Prelude.{
  ℕ, ◌≡◌, refl, Option, none, some, get_elem?, List, [], ◌∷◌, String, inl, inr, ok, raise,
  string_eq,
}
use distributed_transaction.Raft.Types.{Envelope, leader}
use distributed_transaction.Raft.Node.{
  Node, log_up_to_date, reset_election_deadline, broadcast_append_entries, broadcast_request_vote,
  become_follower, become_leader, maybe_become_leader_from_votes, become_candidate,
  maybe_win_prevote, start_prevote,
}
use distributed_transaction.Raft.Handlers.{
  leader_is_recent, handle_prevote, adopt_term, cast_vote, handle_request_vote,
}
use distributed_transaction.Raft.Append.{handle_prevote_reply, handle_request_vote_reply}
use distributed_transaction.Raft.Driver.{Event, ticked, received, tick, receive, step}
use distributed_transaction.Raft.Driver.Ballots.{Advances, step-Advances}
use distributed_transaction.Raft.Cluster.{
  ClusterConfig, World, update, build_config, initial, Reachable, built, went, called,
}
use distributed_transaction.Raft.Election.Safety.{election_safety}

-- every node waits for 10 after a reset
abbrev pub cluster : ClusterConfig ℕ (List ℕ)
cluster = record {
  node_ids = "a" ∷ "b" ∷ "c" ∷ [];
  election_timeout_min = 10;
  election_timeout_max = 20;
  heartbeat_interval = 3;
  random_fn = λ node_id draw least most. least;
  machine = [];
  apply_command = λ s command. command ∷ s;
}

-- the node after a call that returns
unfoldable pub after : World ℕ (List ℕ) → String → Event ℕ → Node ℕ (List ℕ)
after w v event = elim (step (build_config cluster v) event (w v)) [ raise _ ↦ w v | ok n ↦ n ]

-- the `k`th message that a node has sent
abbrev pub message : World ℕ (List ℕ) → String → ℕ → Option (Envelope ℕ)
message w v k = get_elem? (w v).sent k

-- the arrival of that message, a tick where there is none
abbrev pub arrival : World ℕ (List ℕ) → String → ℕ → Event ℕ
arrival w v k = elim (message w v k) [ none ↦ ticked 0 | some e ↦ received e 11 ]

abbrev pub w0 : World ℕ (List ℕ)
w0 = initial cluster 0

unfoldable pub w1 : World ℕ (List ℕ)
w1 = update w0 "a" (after w0 "a" (ticked 10))

-- `b` answers the prevote, `a` stands for election, `b` votes, `a` counts the vote
unfoldable pub w2 : World ℕ (List ℕ)
w2 = update w1 "b" (after w1 "b" (arrival w1 "a" 0))

unfoldable pub w3 : World ℕ (List ℕ)
w3 = update w2 "a" (after w2 "a" (arrival w2 "b" 0))

unfoldable pub w4 : World ℕ (List ℕ)
w4 = update w3 "b" (after w3 "b" (arrival w3 "a" 2))

unfoldable pub w5 : World ℕ (List ℕ)
w5 = update w4 "a" (after w4 "a" (arrival w4 "b" 1))

pub leads : (w5 "a").state ≡ leader
unfolding w1 w2 w3 w4 w5 after step tick receive start_prevote maybe_win_prevote
    reset_election_deadline leader_is_recent handle_prevote log_up_to_date handle_prevote_reply
    become_candidate broadcast_request_vote maybe_become_leader_from_votes handle_request_vote
    adopt_term become_follower cast_vote handle_request_vote_reply become_leader
    broadcast_append_entries
leads = refl

pub reached : Reachable cluster w5
unfolding w1 w2 w3 w4 w5 after step tick receive start_prevote maybe_win_prevote
    reset_election_deadline leader_is_recent handle_prevote log_up_to_date handle_prevote_reply
    become_candidate broadcast_request_vote maybe_become_leader_from_votes handle_request_vote
    adopt_term become_follower cast_vote handle_request_vote_reply become_leader
    broadcast_append_entries
reached =
    went
      (went
        (went
          (went (went (built 0) (called w0 "a" (ticked 10) (after w0 "a" (ticked 10)) refl tt refl))
            (called w1 "b" (arrival w1 "a" 0) (after w1 "b" (arrival w1 "a" 0)) refl
              ("a", refl, inl refl, refl) refl))
          (called w2 "a" (arrival w2 "b" 0) (after w2 "a" (arrival w2 "b" 0)) refl
            ("b", refl, inl refl, refl) refl))
        (called w3 "b" (arrival w3 "a" 2) (after w3 "b" (arrival w3 "a" 2)) refl
          ("a", refl, inr (inr (inl refl)), refl) refl))
      (called w4 "a" (arrival w4 "b" 1) (after w4 "a" (arrival w4 "b" 1)) refl
        ("b", refl, inr (inl refl), refl) refl)

election_safety_example : ◌≡◌ {A = String} "a" "a"
election_safety_example =
    election_safety cluster {w = w5} "a" "a" (refl, (refl, (refl, tt))) reached refl refl leads
      leads refl

step-Advances_example : Advances (w3 "b").storage (w4 "b").storage
unfolding w1 w2 w3 w4 w5 after step tick receive start_prevote maybe_win_prevote
    reset_election_deadline leader_is_recent handle_prevote log_up_to_date handle_prevote_reply
    become_candidate broadcast_request_vote maybe_become_leader_from_votes handle_request_vote
    adopt_term become_follower cast_vote handle_request_vote_reply become_leader
    broadcast_append_entries
step-Advances_example =
    step-Advances (build_config cluster "b") (arrival w3 "a" 2) (w3 "b")
      (after w3 "b" (arrival w3 "a" 2)) refl
