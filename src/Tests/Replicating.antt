-- ===== src/Tests/Replicating.antt =====
-- Storing, applying and committing entries at concrete inputs.
use distributed_transaction.Prelude.{
  ℕ, ◌≡◌, refl, true, some, none, [], ◌∷◌, List, ok, arith, string_eq, nat_eq,
}
use distributed_transaction.Raft.Types.{LogEntry, leader, RequestVoteArgs}
use distributed_transaction.Raft.Storage.{Storage}
use distributed_transaction.Raft.Node.{Config, Node, new_node, current_term, log_up_to_date}
use distributed_transaction.Raft.Handlers.{
  handle_request_vote, store_entries, apply_rounds, apply_committed, advance_commit_index,
}
use distributed_transaction.Raft.Handlers.Voting.{handle_request_vote_lem}
use distributed_transaction.Raft.Handlers.Storing.{Agrees, SameUpTo, store_entries_total}
use distributed_transaction.Raft.Handlers.Applying.{apply_committed_total}
use distributed_transaction.Raft.Handlers.Committing.{Commits, advance_commit_index_lem}

abbrev entry : ℕ → ℕ → LogEntry ℕ
entry term index = record { term = term; index = index; command = index }

abbrev storage : Storage ℕ
storage = record {
  current_term = 2;
  voted_for = none;
  log = entry 1 1 ∷ entry 1 2 ∷ entry 2 3 ∷ [];
}

-- the second entry conflicts with that of a leader
store_entries_total_example :
    (s' : Storage ℕ) × (store_entries storage 2 (entry 2 2 ∷ []) ≡ ok s')
    × SameUpTo 1 storage s'
    × Agrees s' 1 (entry 2 2 ∷ [])
    × (store_entries s' 2 (entry 2 2 ∷ []) ≡ ok s')
store_entries_total_example = store_entries_total storage 1 (entry 2 2 ∷ []) (omega arith)

abbrev config : Config ℕ (List ℕ)
config = record {
  node_id = "a";
  peer_ids = "b" ∷ "c" ∷ [];
  election_timeout_min = 10;
  election_timeout_max = 20;
  heartbeat_interval = 3;
  random_fn = λ draw least most. least;
  apply_command = λ s command. command ∷ s;
}

-- a leader that has committed one entry and applied none, and knows that `b` has them all
abbrev node : Node ℕ (List ℕ)
node = record (new_node storage []) {
  state = leader;
  commit_index = 1;
  match_index = ("b", 3) ∷ ("c", 0) ∷ [];
}

apply_committed_total_example :
    apply_committed config node ≡ ok (record node { last_applied = 1; machine = 1 ∷ [] })
apply_committed_total_example = apply_committed_total config node (omega arith) (omega arith)

abbrev moved : Node ℕ (List ℕ)
moved = record node { commit_index = 3; last_applied = 3; machine = 3 ∷ 2 ∷ 1 ∷ [] }

advance_commit_index_lem_example : Commits config node 3
unfolding advance_commit_index apply_committed apply_rounds
advance_commit_index_lem_example = advance_commit_index_lem config node moved refl

abbrev ballot : RequestVoteArgs
ballot = record { term = 3; candidate_id = "b"; last_log_index = 3; last_log_term = 2 }

handle_request_vote_lem_example :
    let (n', reply) = handle_request_vote config ballot 5 node in
    (reply.vote_granted ≡ true)
    × (n'.storage.voted_for ≡ some "b")
    × (reply.term ≡ 3)
    × (current_term n' ≡ 3)
unfolding log_up_to_date
handle_request_vote_lem_example = handle_request_vote_lem config ballot 5 node
