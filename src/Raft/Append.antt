-- ===== src/Raft/Append.antt =====
-- raft/node.py: `handle_append_entries`, and the handlers of the three kinds of reply.
pub mod Frames
use distributed_transaction.Prelude.{
  ℕ, zero, suc, ◌+◌, ◌-◌, min, max, nat_eq, string_eq, ◌==◌, Bool, true, false, not, ◌&&◌, ◌||◌,
  String, Option, none, some, List, [], ◌∷◌, map, length, get_elem?, get, get_default, put, add,
  ltb, leb, if◌then◌else◌, Result, ok, raise, ◌>>=◌,
}
use distributed_transaction.Raft.Types.{
  is_follower, is_candidate, is_leader, follower, PreVoteReply, RequestVoteReply, AppendEntriesArgs,
  AppendEntriesReply, RaftError, unknown_peer,
}
use distributed_transaction.Raft.Storage.{last_index, term_at}
use distributed_transaction.Raft.Node.{
  Config, Node, current_term, majority, reset_election_deadline, become_follower, maybe_win_prevote,
  maybe_become_leader_from_votes, send_append_entries_to,
}
use distributed_transaction.Raft.Handlers.{
  same_term, first_index_of_term, last_index_of_term, store_entries, adopt_term, apply_committed,
  advance_commit_index,
}

module _ {C S : Type 0} where
  -- the match index of a peer only grows
  abbrev pub record_match : String → ℕ → Node C S → Node C S
  record_match sender_id match_index n = record n {
    match_index =
        if ltb (get_default sender_id 0 n.match_index) match_index
        then put sender_id match_index n.match_index
        else n.match_index;
  }

  -- where to go on after a refusal
  unfoldable pub next_after_conflict : AppendEntriesReply → Node C S → ℕ
  next_after_conflict reply n = elim reply.conflict_term [
    | some term ↦
        let last_idx = last_index_of_term n.storage term in
        if ltb 0 last_idx then last_idx + 1 else reply.conflict_index
    | none ↦ max 1 reply.conflict_index
  ]

module _ {C S : Type 0} (cfg : Config C S) where
  abbrev pub append_failed : Node C S → ℕ → Option ℕ → AppendEntriesReply
  append_failed n conflict_index conflict_term = record {
    term = current_term n;
    success = false;
    responder_id = cfg.node_id;
    match_index = 0;
    conflict_index = conflict_index;
    conflict_term = conflict_term;
  }

  abbrev pub append_done : Node C S → ℕ → AppendEntriesReply
  append_done n match_index = record {
    term = current_term n;
    success = true;
    responder_id = cfg.node_id;
    match_index = match_index;
    conflict_index = 0;
    conflict_term = none;
  }

  -- the state in which a message from the leader of the current term leaves the node
  unfoldable pub follow_leader : String → ℕ → Node C S → Node C S
  follow_leader leader_id now n =
      reset_election_deadline cfg now
        (record n { state = follower; leader_id = some leader_id; last_leader_contact = some now })

  -- the check of the entry before the new ones: the reply to a mismatch
  unfoldable pub prev_conflict : AppendEntriesArgs C → Node C S → Option AppendEntriesReply
  prev_conflict args n =
      if not (ltb 0 args.prev_log_index)
      then none
      else elim (term_at n.storage args.prev_log_index) [
        | none ↦ some (append_failed n (last_index n.storage + 1) none)
        | some t ↦
            if same_term (some t) args.prev_log_term
            then none
            else some
                (append_failed n (first_index_of_term n.storage t args.prev_log_index) (some t))
      ]

  -- `if args.leader_commit > self.commit_index: ...`
  unfoldable pub follow_commit : ℕ → Node C S → Result RaftError (Node C S)
  follow_commit leader_commit n =
      if ltb n.commit_index leader_commit
      then apply_committed cfg
          (record n { commit_index = min leader_commit (last_index n.storage) })
      else ok n

  -- from the loop over the entries on
  unfoldable pub accept_entries :
      AppendEntriesArgs C → Node C S → Result RaftError (Node C S × AppendEntriesReply)
  accept_entries args n = do
    storage ← store_entries n.storage (suc args.prev_log_index) args.entries
    n' ← follow_commit args.leader_commit (record n { storage = storage })
    ok (n', append_done n' (args.prev_log_index + length args.entries))

  -- from the check of `prev_log_index` on
  unfoldable pub replicate :
      AppendEntriesArgs C → Node C S → Result RaftError (Node C S × AppendEntriesReply)
  replicate args n = elim (prev_conflict args n) [
    | some refusal ↦ ok (n, refusal)
    | none ↦ accept_entries args n
  ]

  unfoldable pub handle_append_entries :
      AppendEntriesArgs C → ℕ → Node C S → Result RaftError (Node C S × AppendEntriesReply)
  handle_append_entries args now n =
      let n' = adopt_term cfg args.term now n in
      if ltb args.term (current_term n')
      then ok (n', append_failed n' 0 none)
      else replicate args (follow_leader args.leader_id now n')

  -- `_handle_prevote_reply`
  unfoldable pub handle_prevote_reply : PreVoteReply → ℕ → Node C S → Node C S
  handle_prevote_reply reply now n =
      if ltb (current_term n) reply.term
      then become_follower cfg reply.term now n
      else if not (is_follower n.state)
          || not (same_term n.prevote_target_term (some (current_term n + 1)))
      then n
      else if reply.vote_granted
      then maybe_win_prevote cfg now
          (record n { prevotes_received = add reply.voter_id n.prevotes_received })
      else n

  -- `_handle_request_vote_reply`
  unfoldable pub handle_request_vote_reply : RequestVoteReply → ℕ → Node C S → Node C S
  handle_request_vote_reply reply now n =
      if ltb (current_term n) reply.term
      then become_follower cfg reply.term now n
      else if not (is_candidate n.state) || not (reply.term == current_term n)
      then n
      else if reply.vote_granted
      then maybe_become_leader_from_votes cfg now
          (record n { votes_received = add reply.voter_id n.votes_received })
      else n

  -- the branch `if reply.success` of `_handle_append_entries_reply`
  unfoldable pub note_match : String → ℕ → Node C S → Result RaftError (Node C S)
  note_match sender_id match_index n =
      let n' = record_match sender_id match_index n in
      elim (get sender_id n'.match_index) [
        | none ↦ raise unknown_peer
        | some m ↦
            advance_commit_index cfg
              (record n' { next_index = put sender_id (m + 1) n'.next_index })
      ]

  -- the branch of a refusal: "retry immediately with corrected nextIndex"
  unfoldable pub note_refusal : String → AppendEntriesReply → Node C S → Node C S
  note_refusal sender_id reply n =
      send_append_entries_to cfg sender_id
        (record n { next_index = put sender_id (next_after_conflict reply n) n.next_index })

  -- `_handle_append_entries_reply`
  unfoldable pub handle_append_entries_reply :
      String → AppendEntriesReply → ℕ → Node C S → Result RaftError (Node C S)
  handle_append_entries_reply sender_id reply now n =
      if ltb (current_term n) reply.term
      then ok (become_follower cfg reply.term now n)
      else if not (is_leader n.state) || not (reply.term == current_term n)
      then ok n
      else if reply.success
      then note_match sender_id reply.match_index n
      else ok (note_refusal sender_id reply n)
