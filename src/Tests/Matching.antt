-- ===== src/Tests/Matching.antt =====
-- A command that the leader of the election takes, and its way into a follower's log.
use distributed_transaction.Prelude.{ℕ, ◌≡◌, refl, take, List, inl, inr, string_eq}
use distributed_transaction.Raft.Types.{LogEntry}
use distributed_transaction.Raft.Node.{
  log_up_to_date, reset_election_deadline, append_entries_for, broadcast_append_entries,
  broadcast_request_vote, become_follower, become_leader, maybe_become_leader_from_votes,
  become_candidate, maybe_win_prevote, start_prevote,
}
use distributed_transaction.Raft.Handlers.{
  leader_is_recent, handle_prevote, adopt_term, cast_vote, handle_request_vote, store_entries,
}
use distributed_transaction.Raft.Append.{
  handle_prevote_reply, handle_request_vote_reply, handle_append_entries, follow_leader,
  prev_conflict, replicate, accept_entries, follow_commit,
}
use distributed_transaction.Raft.Driver.{proposed, tick, receive, propose, step}
use distributed_transaction.Raft.Cluster.{World, update, Reachable, went, called}
use distributed_transaction.Raft.Matching.Safety.{log_matching}
use distributed_transaction.Tests.Voting.{cluster, after, arrival, w1, w2, w3, w4, w5, reached}

-- `a` takes the command 7 and `b` stores its entry
unfoldable pub w6 : World ℕ (List ℕ)
w6 = update w5 "a" (after w5 "a" (proposed 7 11))

unfoldable pub w7 : World ℕ (List ℕ)
w7 = update w6 "b" (after w6 "b" (arrival w6 "a" 6))

abbrev entry : LogEntry ℕ
entry = record { term = 1; index = 1; command = 7 }

pub stored : Reachable cluster w7
unfolding w1 w2 w3 w4 w5 w6 w7 after step tick receive start_prevote maybe_win_prevote
    reset_election_deadline leader_is_recent handle_prevote log_up_to_date handle_prevote_reply
    become_candidate broadcast_request_vote maybe_become_leader_from_votes handle_request_vote
    adopt_term become_follower cast_vote handle_request_vote_reply become_leader
    broadcast_append_entries propose append_entries_for handle_append_entries follow_leader
    prev_conflict replicate accept_entries store_entries follow_commit
stored =
    went (went reached (called w5 "a" (proposed 7 11) (after w5 "a" (proposed 7 11)) refl tt refl))
      (called w6 "b" (arrival w6 "a" 6) (after w6 "b" (arrival w6 "a" 6)) refl
        ("a", refl, inr (inr (inr (inr (inr (inr (inl refl)))))), refl) refl)

log_matching_example : take 1 (w7 "a").storage.log ≡ take 1 (w7 "b").storage.log
unfolding w1 w2 w3 w4 w5 w6 w7 after step tick receive start_prevote maybe_win_prevote
    reset_election_deadline leader_is_recent handle_prevote log_up_to_date handle_prevote_reply
    become_candidate broadcast_request_vote maybe_become_leader_from_votes handle_request_vote
    adopt_term become_follower cast_vote handle_request_vote_reply become_leader
    broadcast_append_entries propose append_entries_for handle_append_entries follow_leader
    prev_conflict replicate accept_entries store_entries follow_commit
log_matching_example =
    log_matching cluster {w = w7} "a" "b" 0 entry entry (refl, (refl, (refl, tt))) stored refl refl
      refl refl refl
