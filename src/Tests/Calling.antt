-- ===== src/Tests/Calling.antt =====
-- Remote calls to the nodes of the election, and a client before them.
use distributed_transaction.Prelude.{
  ℕ, suc, nat_eq, ◌+◌, ◌-◌, ◌≡◌, refl, Option, none, some, List, [], ◌∷◌, String, inl, ok, true,
  string_eq, arith, ◌>>=◌, if◌then◌else◌, ◌==◌,
}
use distributed_transaction.Raft.Types.{LogEntry, prevote, Message}
use distributed_transaction.Raft.Node.{
  Node, log_up_to_date, reset_election_deadline, broadcast_append_entries, broadcast_request_vote,
  become_follower, become_leader, maybe_become_leader_from_votes, become_candidate,
  maybe_win_prevote, start_prevote,
}
use distributed_transaction.Raft.Handlers.{
  leader_is_recent, handle_prevote, adopt_term, cast_vote, handle_request_vote,
}
use distributed_transaction.Raft.Append.{handle_prevote_reply, handle_request_vote_reply}
use distributed_transaction.Raft.Driver.{tick, receive, propose, step}
use distributed_transaction.Raft.Cluster.{World, update, build_config, Reachable}
use distributed_transaction.Remote.Serialization.{
  to_proto, PbPreVoteArgs, PbMessage, pb_prevote_reply,
}
use distributed_transaction.Remote.Service.{
  PbProposeReply, serve_prevote, serve, serve_propose, listed, receive-serve,
}
use distributed_transaction.Remote.Runs.{
  RemoteReachable, bootstrapped, moved, driven, served, remote_reachable,
}
use distributed_transaction.Remote.Client.{Client, propose_command, run_passes, try_nodes}
use distributed_transaction.Remote.Client.Reaching.{propose_command_found}
use distributed_transaction.Remote.Proposals.{
  Fate, lost, answered, propose_at, ServedBy, proposed_in_log,
}
use distributed_transaction.Tests.Voting.{cluster, after, w0, w1, w2, w3, w4, w5}

-- the bytes of a command
abbrev dumps : ℕ → ℕ
dumps x = x + 1

abbrev loads : ℕ → ℕ
loads x = x - 1

loads-dumps : (x : ℕ) → loads (dumps x) ≡ x
loads-dumps x = omega arith

abbrev pub asks : Message ℕ
asks = prevote (record { term = 1; candidate_id = "a"; last_log_index = 0; last_log_term = 0 })

receive-serve_example :
    receive
      (build_config cluster "b")
      (record { sender_id = "a"; recipient_id = "b"; message = asks })
      10
      (w0 "b")
    ≡ (serve dumps loads (build_config cluster "b") (to_proto dumps loads asks) 10 (w0 "b") >>= λ r.
        ok (listed dumps loads (build_config cluster "b") "a" r))
receive-serve_example =
    receive-serve dumps loads (build_config cluster "b") "a" "b" asks 10 (w0 "b") loads-dumps refl

-- `a` is ticked, and its call of `b` served
abbrev r1 : World ℕ (List ℕ)
r1 = update w0 "a" (tick (build_config cluster "a") 10 (w0 "a"))

abbrev request : PbPreVoteArgs
request = record { term = 1; candidate_id = "a"; last_log_index = 0; last_log_term = 0 }

abbrev answer : Node ℕ (List ℕ) × Option (PbMessage ℕ)
answer = (
  w0 "b",
  some
      (pb_prevote_reply (serve_prevote dumps loads (build_config cluster "b") request 10 (w0 "b"))),
)

abbrev r2 : World ℕ (List ℕ)
r2 = update r1 "b" (listed dumps loads (build_config cluster "b") "a" answer)

called : RemoteReachable dumps loads cluster r2
unfolding tick start_prevote maybe_win_prevote reset_election_deadline serve
called =
    moved (moved (bootstrapped 0) (driven w0 "a" 10 refl))
      (served r1 "a" "b" asks 10 answer refl refl (inl refl) refl refl)

remote_reachable_example : Reachable cluster r2
remote_reachable_example = remote_reachable dumps loads cluster loads-dumps called

-- `a` takes every command
abbrev one_accepts : String → ℕ → ℕ → ℕ × Option PbProposeReply
one_accepts v command calls =
    (calls + 1, some (record { accepted = v == "a"; term = 3; index = command; leader_hint = "c" }))

-- a client that knows no leader, before a cluster in which `b` cannot be reached
abbrev client : Client
client = record { addresses = "b" ∷ "a" ∷ []; last_known_leader = none }

-- the first call is lost, and while it is waited for, `a` is ticked; the second one is answered
abbrev fate : ℕ → Fate
fate k = if k == 0 then lost else answered

abbrev rest : ℕ → World ℕ (List ℕ) → World ℕ (List ℕ)
rest k w = w

abbrev tick_a : ℕ → World ℕ (List ℕ) → World ℕ (List ℕ)
tick_a k w = if k == 0 then update w "a" (tick (build_config cluster "a") 11 (w "a")) else w

abbrev w6 : World ℕ (List ℕ)
w6 =
    let w = tick_a 0 w5 in
    update w "a" (serve_propose dumps loads (build_config cluster "a") (dumps 7) 11 (w "a")).0

abbrev entry : LogEntry ℕ
entry = record { term = 1; index = 1; command = 7 }

returned :
    propose_command
      (propose_at dumps loads cluster (λ k. 11) fate rest tick_a)
      client
      7
      (λ k. k)
      5
      6
      (0, w5)
    ≡ some (2, record client { last_known_leader = some "a" }, ok entry, (2, w6))
unfolding w1 w2 w3 w4 w5 after step tick receive start_prevote maybe_win_prevote
    reset_election_deadline leader_is_recent handle_prevote log_up_to_date handle_prevote_reply
    become_candidate broadcast_request_vote maybe_become_leader_from_votes handle_request_vote
    adopt_term become_follower cast_vote handle_request_vote_reply become_leader
    broadcast_append_entries propose serve_propose propose_command run_passes try_nodes
returned = refl

propose_command_found_example :
    (client' : Client) × (e : LogEntry ℕ) × (l : ℕ) × (propose_command one_accepts client 7
        (λ k. k)
        5
        (suc 0)
        0
      ≡ some (2, client', ok e, l))
propose_command_found_example =
    propose_command_found one_accepts client 7 "a" (λ k. k) 5 0 0 refl
      (λ l. (record { accepted = true; term = 3; index = 7; leader_hint = "c" }, refl, refl))
      (omega arith)

proposed_in_log_example :
    (v : String) × (◌≡◌ {A = Option String} (some "a") (some v))
    × (◌≡◌ {A = ℕ} 7 7)
    × ServedBy dumps loads cluster (λ k. 11) fate rest tick_a v entry (2, w6)
proposed_in_log_example =
    proposed_in_log dumps loads cluster (λ k. 11) fate rest tick_a client
      (record client { last_known_leader = some "a" }) 7 (λ k. k) 5 2 (0, w5) (2, w6) entry
      loads-dumps (λ j. omega arith) returned
