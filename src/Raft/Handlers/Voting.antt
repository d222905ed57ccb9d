-- ===== src/Raft/Handlers/Voting.antt =====
-- `handle_request_vote`: when a vote is granted.
use distributed_transaction.Prelude.{
  ℕ, max, ◌≡◌, nat_eq, string_eq, ◌==◌, Bool, ◌&&◌, ◌||◌, none, some, ltb, if◌then◌else◌, arith,
}
use distributed_transaction.Raft.Types.{RequestVoteArgs}
use distributed_transaction.Raft.Node.{
  Config, Node, current_term, log_up_to_date, become_follower, reset_election_deadline,
}
use distributed_transaction.Raft.Handlers.{can_vote, adopt_term, cast_vote, handle_request_vote}

module _ {C S : Type 0} (cfg : Config C S) where
  -- a later term, or the current one where the vote is free or the candidate has it
  abbrev pub may_have : RequestVoteArgs → Node C S → Bool
  may_have args n =
      ltb (current_term n) args.term
      || ((current_term n == args.term) && can_vote n.storage.voted_for args.candidate_id)

  -- what is asked of the node for a vote
  abbrev pub deserves : RequestVoteArgs → Node C S → Bool
  deserves args n = may_have args n && log_up_to_date n args.last_log_index args.last_log_term

  vote_granted_lem :
      (args : RequestVoteArgs) (now : ℕ) (n : Node C S)
      → (handle_request_vote cfg args now n).1.vote_granted ≡ deserves args n
  unfolding handle_request_vote adopt_term cast_vote become_follower reset_election_deadline
      log_up_to_date
  vote_granted_lem args now n = ground arith

  terms_lem :
      (args : RequestVoteArgs) (now : ℕ) (n : Node C S)
      → let (n', reply) = handle_request_vote cfg args now n in
        (reply.term ≡ max (current_term n) args.term)
        × (current_term n' ≡ max (current_term n) args.term)
  unfolding handle_request_vote adopt_term cast_vote become_follower reset_election_deadline
      log_up_to_date
  terms_lem args now n = (ground arith, ground arith)

  vote_lem :
      (args : RequestVoteArgs) (now : ℕ) (n : Node C S)
      → (handle_request_vote cfg args now n).0.storage.voted_for ≡ (
          if deserves args n
          then some args.candidate_id
          else if ltb (current_term n) args.term
          then none
          else n.storage.voted_for)
  unfolding handle_request_vote adopt_term cast_vote become_follower reset_election_deadline
      log_up_to_date
  vote_lem args now n = ground arith

  -- A request for a vote is granted exactly where its term is later than the node's, or is the
  -- node's own and the vote is free or the candidate's, and the candidate's log is up to date. The
  -- vote then is the candidate's; it is free after a later term that was refused, and else it is
  -- what it was. The node's term, and that of the answer, are the later of the two terms.
  pub handle_request_vote_lem :
      (args : RequestVoteArgs) (now : ℕ) (n : Node C S)
      → let (n', reply) = handle_request_vote cfg args now n in
        (reply.vote_granted ≡ deserves args n)
        × (n'.storage.voted_for ≡ (
            if deserves args n
            then some args.candidate_id
            else if ltb (current_term n) args.term
            then none
            else n.storage.voted_for))
        × (reply.term ≡ max (current_term n) args.term)
        × (current_term n' ≡ max (current_term n) args.term)
  handle_request_vote_lem args now n = (
    vote_granted_lem args now n,
    vote_lem args now n,
    (terms_lem args now n).0,
    (terms_lem args now n).1,
  )
