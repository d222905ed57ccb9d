-- ===== src/Raft/Driver/Ballots.antt =====
-- What every call keeps of the persistent ballot: the term and the vote.
use distributed_transaction.Prelude.{
  ℕ, ◌<◌, ◌≡◌, refl, String, none, some, inl, inr, arith, Result, ok, ltb, leb, Bool, false, not,
  ◌||◌, nat_eq, ◌==◌, bind-eq-ok, add, string_eq, length, ltb→lt, true, if◌then◌else◌, Bool-cases,
  eq_iff, Option-cases,
}
use distributed_transaction.Raft.Types.{
  is_leader, Message, RaftError, request_vote, request_vote_reply, append_entries,
  append_entries_reply, prevote, prevote_reply, RequestVoteArgs, AppendEntriesArgs,
  RequestVoteReply, PreVoteReply, AppendEntriesReply,
}
use distributed_transaction.Raft.Storage.{Storage, set_voted_for}
use distributed_transaction.Raft.Node.{
  reset_election_deadline, broadcast_request_vote, log_up_to_date, Config, Node, current_term,
  become_follower, become_leader, become_candidate, start_prevote, maybe_win_prevote,
  maybe_become_leader_from_votes, send_append_entries_to, broadcast_append_entries, majority,
}
use distributed_transaction.Raft.Handlers.{handle_request_vote, can_vote, cast_vote, adopt_term}
use distributed_transaction.Raft.Append.{
  handle_append_entries, handle_append_entries_reply, handle_request_vote_reply,
  handle_prevote_reply, follow_leader, note_refusal,
}
use distributed_transaction.Raft.Append.Frames.{
  note_match-SameRole, SameRole-eq, replicate-SameRole,
}
use distributed_transaction.Raft.Handlers.Frames.{SameBallot}
use distributed_transaction.Raft.Driver.{
  Event, tick, receive, propose, step, ticked, received, proposed,
}

-- The term has grown, or it is the same and a vote that was cast stands.
pub data Advances {C : Type 0} (s s' : Storage C) : Type 0 where
  later_term : s.current_term < s'.current_term → Advances s s'
  same_vote : s'.current_term ≡ s.current_term → s'.voted_for ≡ s.voted_for → Advances s s'
  first_vote : s'.current_term ≡ s.current_term → s.voted_for ≡ none → Advances s s'

module _ {C : Type 0} where
  pub Advances-refl : (s : Storage C) → Advances s s
  Advances-refl s = same_vote refl refl

  pub Advances-trans : {s t u : Storage C} → Advances s t → Advances t u → Advances s u
  Advances-trans (later_term a) (later_term b) = later_term (omega arith)
  Advances-trans (later_term a) (same_vote b c) = later_term (omega arith)
  Advances-trans (later_term a) (first_vote b c) = later_term (omega arith)
  Advances-trans (same_vote a b) (later_term c) = later_term (omega arith)
  Advances-trans (same_vote a b) (same_vote c d) = same_vote (cc) (cc)
  Advances-trans (same_vote a b) (first_vote c d) = first_vote (cc) (cc)
  Advances-trans (first_vote a b) (later_term c) = later_term (omega arith)
  Advances-trans (first_vote a b) (same_vote c d) = first_vote (cc) b
  Advances-trans (first_vote a b) (first_vote c d) = first_vote (cc) b

module _ {C S : Type 0} where
  if_Advances :
      (n : Node C S) (b : Bool) (m m' : Node C S)
      → Advances n.storage m.storage
      → Advances n.storage m'.storage
      → Advances n.storage (if b then m else m').storage
  if_Advances n true m m' a a' = a
  if_Advances n false m m' a a' = a'

  ok_Advances :
      (n : Node C S) {m n' : Node C S}
      → Advances n.storage m.storage
      → ◌≡◌ {A = Result RaftError (Node C S)} (ok m) (ok n')
      → Advances n.storage n'.storage
  ok_Advances n {m} {n'} a h = let e : n' ≡ m = ground arith in rw e a

module _ {C S : Type 0} (cfg : Config C S) where
  pub storage-become_leader :
      (now : ℕ) (n : Node C S) → (become_leader cfg now n).storage ≡ n.storage
  unfolding become_leader broadcast_append_entries
  storage-become_leader now n = refl

  pub storage-maybe_leader :
      (now : ℕ) (n : Node C S) → (maybe_become_leader_from_votes cfg now n).storage ≡ n.storage
  unfolding maybe_become_leader_from_votes
  storage-maybe_leader now n = ground (arith, storage-become_leader now n)

  become_candidate-Advances :
      (now : ℕ) (n : Node C S) → Advances n.storage (become_candidate cfg now n).storage
  unfolding become_candidate broadcast_request_vote reset_election_deadline
  become_candidate-Advances now n =
      rw (become_candidate, storage-maybe_leader) (later_term (omega arith))

  maybe_win_prevote-Advances :
      (now : ℕ) (n : Node C S) → Advances n.storage (maybe_win_prevote cfg now n).storage
  unfolding maybe_win_prevote
  maybe_win_prevote-Advances now n =
      elim (Bool-cases (leb (majority cfg) (length n.prevotes_received))) [
        | inl won ↦ rw (won, maybe_win_prevote) (become_candidate-Advances now n)
        | inr lost ↦ rw (lost, maybe_win_prevote) (Advances-refl n.storage)
      ]

  become_follower-Advances :
      (term now : ℕ) (n : Node C S)
      → current_term n < term
      → Advances n.storage (become_follower cfg term now n).storage
  unfolding become_follower
  become_follower-Advances term now n h = later_term h

  adopt_term-Advances :
      (term now : ℕ) (n : Node C S) → Advances n.storage (adopt_term cfg term now n).storage
  unfolding adopt_term
  adopt_term-Advances term now n = elim (Bool-cases (ltb (current_term n) term)) [
    | inl newer ↦ rw (newer, adopt_term) (become_follower-Advances term now n (ltb→lt _ _ newer))
    | inr older ↦ rw (older, adopt_term) (Advances-refl n.storage)
  ]

  can_vote-Advances :
      (n : Node C S) (c : String)
      → can_vote n.storage.voted_for c ≡ true
      → Advances n.storage (set_voted_for n.storage (some c))
  can_vote-Advances n c h = elim (Option-cases n.storage.voted_for) [
    | inl free ↦ first_vote refl free
    | inr (v, cast) ↦ same_vote refl (ground (arith, eq_iff v c))
  ]

  cast_vote-Advances :
      (args : RequestVoteArgs) (now : ℕ) (n : Node C S)
      → Advances n.storage (cast_vote cfg args now n).0.storage
  unfolding cast_vote reset_election_deadline
  cast_vote-Advances args now n = elim (Bool-cases (ltb args.term (current_term n))) [
    | inl stale ↦ rw (stale, cast_vote) (Advances-refl n.storage)
    | inr valid ↦ elim (Bool-cases (can_vote n.storage.voted_for args.candidate_id)) [
      | inr used ↦ rw (valid, used, cast_vote) (Advances-refl n.storage)
      | inl may ↦ elim (Bool-cases (log_up_to_date n args.last_log_index args.last_log_term)) [
        | inr behind ↦ rw (valid, may, behind, cast_vote) (Advances-refl n.storage)
        | inl fits ↦ rw (valid, may, fits, cast_vote) (can_vote-Advances n args.candidate_id may)
      ]
    ]
  ]

  SameBallot-Advances : {s s' : Storage C} → SameBallot s s' → Advances s s'
  SameBallot-Advances b = same_vote b.term b.vote

  handle_request_vote-Advances :
      (args : RequestVoteArgs) (now : ℕ) (n : Node C S)
      → Advances n.storage (handle_request_vote cfg args now n).0.storage
  unfolding handle_request_vote
  handle_request_vote-Advances args now n =
      Advances-trans (adopt_term-Advances args.term now n)
        (cast_vote-Advances args now (adopt_term cfg args.term now n))

  handle_append_entries-Advances :
      (args : AppendEntriesArgs C) (now : ℕ) (n : Node C S) {r : Node C S × AppendEntriesReply}
      → handle_append_entries cfg args now n ≡ ok r
      → Advances n.storage r.0.storage
  unfolding handle_append_entries follow_leader reset_election_deadline
  handle_append_entries-Advances args now n {r} h =
      let n' = adopt_term cfg args.term now n in
      elim (Bool-cases (ltb args.term (current_term n'))) [
        | inl stale ↦
            Advances-trans (adopt_term-Advances args.term now n)
              (SameBallot-Advances (SameRole-eq n' (rw (stale, handle_append_entries) at h)).ballot)
        | inr valid ↦ Advances-trans (adopt_term-Advances args.term now n) (
            SameBallot-Advances
              (replicate-SameRole cfg args (follow_leader cfg args.leader_id now n')
                (rw (valid, handle_append_entries) at h)).ballot)
      ]

  become_follower_or :
      (term now : ℕ) (n n' : Node C S)
      → Advances n.storage n'.storage
      → Advances n.storage
          (if ltb (current_term n) term then become_follower cfg term now n else n').storage
  become_follower_or term now n n' a = elim (Bool-cases (ltb (current_term n) term)) [
    | inl newer ↦ rw newer (become_follower-Advances term now n (ltb→lt _ _ newer))
    | inr older ↦ rw older a
  ]

  handle_prevote_reply-Advances :
      (reply : PreVoteReply) (now : ℕ) (n : Node C S)
      → Advances n.storage (handle_prevote_reply cfg reply now n).storage
  unfolding handle_prevote_reply
  handle_prevote_reply-Advances reply now n = become_follower_or reply.term now n _ (
      if_Advances n _ n _ (Advances-refl n.storage) (
        if_Advances n reply.vote_granted _ n
          (maybe_win_prevote-Advances now
            (record n { prevotes_received = add reply.voter_id n.prevotes_received }))
          (Advances-refl n.storage)))

  maybe_leader-Advances :
      (now : ℕ) (n : Node C S)
      → Advances n.storage (maybe_become_leader_from_votes cfg now n).storage
  maybe_leader-Advances now n = rw storage-maybe_leader (Advances-refl n.storage)

  handle_request_vote_reply-Advances :
      (reply : RequestVoteReply) (now : ℕ) (n : Node C S)
      → Advances n.storage (handle_request_vote_reply cfg reply now n).storage
  unfolding handle_request_vote_reply
  handle_request_vote_reply-Advances reply now n = become_follower_or reply.term now n _ (
      if_Advances n _ n _ (Advances-refl n.storage) (
        if_Advances n reply.vote_granted _ n
          (maybe_leader-Advances now
            (record n { votes_received = add reply.voter_id n.votes_received }))
          (Advances-refl n.storage)))

  handle_append_entries_reply-Advances :
      (sender : String) (reply : AppendEntriesReply) (now : ℕ) (n : Node C S) {n' : Node C S}
      → handle_append_entries_reply cfg sender reply now n ≡ ok n'
      → Advances n.storage n'.storage
  unfolding handle_append_entries_reply note_refusal send_append_entries_to
  handle_append_entries_reply-Advances sender reply now n {n'} h =
      elim (Bool-cases (ltb (current_term n) reply.term)) [
        | inl newer ↦
            ok_Advances n (become_follower-Advances reply.term now n (ltb→lt _ _ newer))
              (rw (newer, handle_append_entries_reply) at h)
        | inr older ↦
            elim (Bool-cases (not (is_leader n.state) || not (reply.term == current_term n))) [
              | inl stale ↦
                  ok_Advances n (Advances-refl n.storage)
                    (rw (older, stale, handle_append_entries_reply) at h)
              | inr live ↦ elim (Bool-cases reply.success) [
                | inl success ↦
                    SameBallot-Advances
                      (note_match-SameRole cfg sender reply.match_index n
                        (rw (older, live, success, handle_append_entries_reply) at h)).ballot
                | inr refused ↦
                    ok_Advances n (Advances-refl n.storage)
                      (rw (older, live, refused, handle_append_entries_reply) at h)
              ]
            ]
      ]

  tick-Advances : (now : ℕ) (n : Node C S) → Advances n.storage (tick cfg now n).storage
  unfolding tick start_prevote broadcast_append_entries reset_election_deadline
  tick-Advances now n =
      if_Advances n (is_leader n.state) _ _
        (if_Advances n _ (broadcast_append_entries cfg now n) n (Advances-refl n.storage)
          (Advances-refl n.storage))
        (if_Advances n _ (start_prevote cfg now n) n (maybe_win_prevote-Advances now _)
          (Advances-refl n.storage))

  receive-Advances :
      (sender_id recipient_id : String) (message : Message C) (now : ℕ) (n : Node C S)
      {n' : Node C S}
      → receive cfg
          (record { sender_id = sender_id; recipient_id = recipient_id; message = message })
          now
          n
        ≡ ok n'
      → Advances n.storage n'.storage
  unfolding receive
  receive-Advances s r (request_vote args) now n h =
      ok_Advances n (handle_request_vote-Advances args now n) h
  receive-Advances s r (request_vote_reply reply) now n h =
      ok_Advances n (handle_request_vote_reply-Advances reply now n) h
  receive-Advances s r (append_entries args) now n h =
      let (_, handled, last) = bind-eq-ok (handle_append_entries cfg args now n) _ h in
      ok_Advances n (handle_append_entries-Advances args now n handled) last
  receive-Advances s r (append_entries_reply reply) now n h =
      handle_append_entries_reply-Advances s reply now n h
  receive-Advances s r (prevote args) now n h = ok_Advances n (Advances-refl n.storage) h
  receive-Advances s r (prevote_reply reply) now n h =
      ok_Advances n (handle_prevote_reply-Advances reply now n) h

  propose-Advances :
      (command : C) (now : ℕ) (n : Node C S)
      → Advances n.storage (propose cfg command now n).0.storage
  unfolding propose broadcast_append_entries
  propose-Advances command now n = elim (Bool-cases (is_leader n.state)) [
    | inl leads ↦ rw (leads, propose) (same_vote refl refl)
    | inr follows ↦ rw (follows, propose) (Advances-refl n.storage)
  ]

  -- No call into a node that returns takes its term back, and within a term no call takes back or replaces the
  -- vote that the node has cast.
  pub step-Advances :
      (event : Event C) (n n' : Node C S) → step cfg event n ≡ ok n' → Advances n.storage n'.storage
  unfolding step
  step-Advances (ticked now) n n' h = ok_Advances n (tick-Advances now n) h
  step-Advances (received envelope now) n n' h =
      receive-Advances envelope.sender_id envelope.recipient_id envelope.message now n h
  step-Advances (proposed command now) n n' h = ok_Advances n (propose-Advances command now n) h
