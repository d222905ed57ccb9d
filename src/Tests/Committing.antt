-- ===== src/Tests/Committing.antt =====
-- The command that the leader has taken is committed, and the follower hears of it.
use distributed_transaction.Prelude.{
  ℕ, ◌≡◌, ◌≤◌, refl, take, length, List, inl, inr, string_eq, arith,
}
use distributed_transaction.Raft.Node.{
  log_up_to_date, reset_election_deadline, append_entries_for, broadcast_append_entries,
  broadcast_request_vote, become_follower, become_leader, maybe_become_leader_from_votes,
  become_candidate, maybe_win_prevote, start_prevote,
}
use distributed_transaction.Raft.Handlers.{
  leader_is_recent, handle_prevote, adopt_term, cast_vote, handle_request_vote, store_entries,
  apply_rounds, apply_committed, advance_commit_index,
}
use distributed_transaction.Raft.Append.{
  handle_prevote_reply, handle_request_vote_reply, handle_append_entries, follow_leader,
  prev_conflict, replicate, accept_entries, follow_commit, handle_append_entries_reply, note_match,
}
use distributed_transaction.Raft.Driver.{ticked, tick, receive, propose, step}
use distributed_transaction.Raft.Cluster.{World, update, Reachable, went, called}
use distributed_transaction.Raft.Commitment.Safety.{state_machine_safety, leader_completeness}
use distributed_transaction.Tests.Voting.{cluster, after, arrival, w1, w2, w3, w4, w5}
use distributed_transaction.Tests.Matching.{w6, w7, stored}

-- `a` counts the reply of `b` and commits the entry
unfoldable w8 : World ℕ (List ℕ)
w8 = update w7 "a" (after w7 "a" (arrival w7 "b" 2))

-- the next heartbeat tells `b`
unfoldable w9 : World ℕ (List ℕ)
w9 = update w8 "a" (after w8 "a" (ticked 20))

unfoldable w10 : World ℕ (List ℕ)
w10 = update w9 "b" (after w9 "b" (arrival w9 "a" 8))

committed : Reachable cluster w10
unfolding w1 w2 w3 w4 w5 w6 w7 w8 w9 w10 after step tick receive start_prevote maybe_win_prevote
    reset_election_deadline leader_is_recent handle_prevote log_up_to_date handle_prevote_reply
    become_candidate broadcast_request_vote maybe_become_leader_from_votes handle_request_vote
    adopt_term become_follower cast_vote handle_request_vote_reply become_leader
    broadcast_append_entries propose append_entries_for handle_append_entries follow_leader
    prev_conflict replicate accept_entries store_entries follow_commit handle_append_entries_reply
    note_match advance_commit_index apply_committed apply_rounds
committed =
    went
      (went
        (went stored (
          called w7 "a" (arrival w7 "b" 2) (after w7 "a" (arrival w7 "b" 2)) refl
            ("b", refl, inr (inr (inl refl)), refl) refl))
        (called w8 "a" (ticked 20) (after w8 "a" (ticked 20)) refl tt refl))
      (called w9 "b" (arrival w9 "a" 8) (after w9 "b" (arrival w9 "a" 8)) refl
        ("a", refl, inr (inr (inr (inr (inr (inr (inr (inr (inl refl)))))))), refl) refl)

state_machine_safety_example :
    (take 1 (w10 "b").storage.log ≡ take 1 (w10 "a").storage.log)
    × (1 ≤ length (w10 "b").storage.log)
unfolding w1 w2 w3 w4 w5 w6 w7 w8 w9 w10 after step tick receive start_prevote maybe_win_prevote
    reset_election_deadline leader_is_recent handle_prevote log_up_to_date handle_prevote_reply
    become_candidate broadcast_request_vote maybe_become_leader_from_votes handle_request_vote
    adopt_term become_follower cast_vote handle_request_vote_reply become_leader
    broadcast_append_entries propose append_entries_for handle_append_entries follow_leader
    prev_conflict replicate accept_entries store_entries follow_commit handle_append_entries_reply
    note_match advance_commit_index apply_committed apply_rounds
state_machine_safety_example =
    state_machine_safety cluster {w = w10} "b" "a" (refl, (refl, (refl, tt))) committed refl refl
      (omega arith)

leader_completeness_example :
    (take 1 (w10 "b").storage.log ≡ take 1 (w10 "a").storage.log)
    × (1 ≤ length (w10 "a").storage.log)
unfolding w1 w2 w3 w4 w5 w6 w7 w8 w9 w10 after step tick receive start_prevote maybe_win_prevote
    reset_election_deadline leader_is_recent handle_prevote log_up_to_date handle_prevote_reply
    become_candidate broadcast_request_vote maybe_become_leader_from_votes handle_request_vote
    adopt_term become_follower cast_vote handle_request_vote_reply become_leader
    broadcast_append_entries propose append_entries_for handle_append_entries follow_leader
    prev_conflict replicate accept_entries store_entries follow_commit handle_append_entries_reply
    note_match advance_commit_index apply_committed apply_rounds
leader_completeness_example =
    leader_completeness cluster {w = w10} "a" "b" (refl, (refl, (refl, tt))) committed refl refl
      refl (omega arith)
