-- ===== src/Raft/Handlers.antt =====
-- raft/node.py: the handlers of requests and of replies, and the commit index.
pub mod Frames
pub mod Voting
pub mod Committing
pub mod Applying
pub mod Storing
use distributed_transaction.Prelude.{
  ℕ, zero, suc, ◌+◌, ◌-◌, min, max, nat_eq, string_eq, ◌==◌, Bool, true, false, not, ◌&&◌, ◌||◌,
  String, Option, none, some, List, [], ◌∷◌, map, length, get_elem?, get, get_default, put, add,
  ltb, leb, if◌then◌else◌, Result, ok, raise, ◌>>=◌,
}
use distributed_transaction.Raft.Types.{
  NodeState, follower, candidate, leader, LogEntry, PreVoteArgs, PreVoteReply, RequestVoteArgs,
  RequestVoteReply, AppendEntriesArgs, AppendEntriesReply, RaftError, unknown_peer,
  index_out_of_range, missing_entry,
}
use distributed_transaction.Raft.Storage.{
  Storage, set_voted_for, last_index, get_entry, term_at, append, truncate_from,
}
use distributed_transaction.Raft.Node.{
  Config, Node, current_term, log_up_to_date, majority, reset_election_deadline, become_follower,
  maybe_win_prevote, maybe_become_leader_from_votes, send_append_entries_to,
}

-- equality of terms that may be -1, and of names that may be missing
abbrev pub same_term : Option ℕ → Option ℕ → Bool
same_term none none = true
same_term (some s) (some t) = s == t
same_term _ _ = false

-- `voted_for is None or voted_for == candidate_id`
abbrev pub can_vote : Option String → String → Bool
can_vote none candidate_id = true
can_vote (some v) candidate_id = v == candidate_id

-- sorted(..., reverse=True)
abbrev pub insert_desc : ℕ → List ℕ → List ℕ
insert_desc x [] = x ∷ []
insert_desc x (y ∷ ys) = if leb y x then x ∷ y ∷ ys else y ∷ insert_desc x ys

abbrev pub sort_desc : List ℕ → List ℕ
sort_desc [] = []
sort_desc (x ∷ xs) = insert_desc x (sort_desc xs)

module _ {C : Type 0} where
  -- the loop of `_first_index_of_term`, from an index downwards
  unfoldable pub first_index_of_term : Storage C → ℕ → ℕ → ℕ
  first_index_of_term s term zero = 1
  first_index_of_term s term (suc i) =
      let rest = first_index_of_term s term i in
      if same_term (term_at s (suc i)) (some term) then rest else suc (suc i)

  -- the loop of `_last_index_of_term`, from an index downwards
  unfoldable pub last_index_from : Storage C → ℕ → ℕ → ℕ
  last_index_from s term zero = 0
  last_index_from s term (suc i) =
      let rest = last_index_from s term i in
      elim (term_at s (suc i)) [
        | none ↦ 0
        | some t ↦ if t == term then suc i else if ltb t term then 0 else rest
      ]

  -- `_last_index_of_term`
  abbrev pub last_index_of_term : Storage C → ℕ → ℕ
  last_index_of_term s term = last_index_from s term (last_index s)

  -- the loop over the entries in `handle_append_entries`, from an index on
  unfoldable pub store_entries : Storage C → ℕ → List (LogEntry C) → Result RaftError (Storage C)
  store_entries s idx [] = ok s
  store_entries s idx (entry ∷ rest) =
      let next = store_entries s (suc idx) rest in
      elim (term_at s idx) [
        | none ↦ ok (append s (entry ∷ rest))
        | some existing_term ↦
            if existing_term == entry.term
            then next
            else do s' ← truncate_from s idx; ok (append s' (entry ∷ rest))
      ]

-- `[self._storage.last_index(), *self.match_index.values()]`
abbrev pub replicated : {C S : Type 0} → Node C S → List ℕ
replicated n = last_index n.storage ∷ map (λ p. p.1) n.match_index

module _ {C S : Type 0} (cfg : Config C S) where
  -- "we believe a leader is active": the first test of `handle_prevote`
  unfoldable pub leader_is_recent : ℕ → Node C S → Bool
  leader_is_recent now n = elim n.leader_id [
    | none ↦ false
    | some _ ↦ elim n.last_leader_contact [
      | none ↦ false
      | some contact ↦ ltb now (contact + cfg.election_timeout_min)
    ]
  ]

  -- It reads the node only.
  unfoldable pub handle_prevote : PreVoteArgs → ℕ → Node C S → PreVoteReply
  unfolding leader_is_recent
  handle_prevote args now n =
      let answer = λ (granted : Bool).
        let reply : PreVoteReply = record {
          term = current_term n;
          vote_granted = granted;
          voter_id = cfg.node_id;
        } in
        reply in
      if leader_is_recent now n
      then answer false
      else if leb args.term (current_term n)
      then answer false
      else if not (log_up_to_date n args.last_log_index args.last_log_term)
      then answer false
      else answer true

  abbrev pub vote_reply : Node C S → Bool → RequestVoteReply
  vote_reply n granted = record {
    term = current_term n;
    vote_granted = granted;
    voter_id = cfg.node_id;
  }

  -- `if args.term > current_term: self._become_follower(args.term, now)`
  unfoldable pub adopt_term : ℕ → ℕ → Node C S → Node C S
  adopt_term term now n = if ltb (current_term n) term then become_follower cfg term now n else n

  -- the rest of `handle_request_vote`, where the node's term is the current one
  unfoldable pub cast_vote : RequestVoteArgs → ℕ → Node C S → Node C S × RequestVoteReply
  cast_vote args now n =
      if ltb args.term (current_term n)
      then (n, vote_reply n false)
      else if can_vote n.storage.voted_for args.candidate_id
          && log_up_to_date n args.last_log_index args.last_log_term
      then (
        reset_election_deadline cfg now
            (record n { storage = set_voted_for n.storage (some args.candidate_id) }),
        vote_reply n true,
      )
      else (n, vote_reply n false)

  unfoldable pub handle_request_vote : RequestVoteArgs → ℕ → Node C S → Node C S × RequestVoteReply
  handle_request_vote args now n = cast_vote args now (adopt_term args.term now n)

  -- `_apply_committed`: the loop, by the rounds that are left
  unfoldable pub apply_rounds : ℕ → Node C S → Result RaftError (Node C S)
  apply_rounds zero n = ok n
  apply_rounds (suc k) n = elim (get_entry n.storage (suc n.last_applied)) [
    | none ↦ raise missing_entry
    | some entry ↦ apply_rounds k (record n {
      last_applied = suc n.last_applied;
      machine = cfg.apply_command n.machine entry.command;
    })
  ]

  unfoldable pub apply_committed : Node C S → Result RaftError (Node C S)
  apply_committed n = apply_rounds (n.commit_index - n.last_applied) n

  unfoldable pub advance_commit_index : Node C S → Result RaftError (Node C S)
  advance_commit_index n = elim (get_elem? (sort_desc (replicated n)) (majority cfg - 1)) [
    | none ↦ raise index_out_of_range
    | some candidate_n ↦
        if ltb n.commit_index candidate_n
          && same_term (term_at n.storage candidate_n) (some (current_term n))
        then apply_committed (record n { commit_index = candidate_n })
        else ok n
  ]
