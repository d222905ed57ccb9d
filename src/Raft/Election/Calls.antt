-- ===== src/Raft/Election/Calls.antt =====
-- Every call into a node keeps it honest.
use distributed_transaction.Prelude.{
  All-append, ℕ, ◌+◌, ◌≡◌, refl, String, string_eq, ◌==◌, nat_eq, Bool, true, false, not, ◌&&◌,
  ◌||◌, some, [], ◌∷◌, arith, add, Bool-cases, inl, inr, Result, ok, bind-eq-ok, ltb, leb,
}
use native.Mathlib.Nat.{le_trans}
use distributed_transaction.Raft.Types.{
  is_leader, is_candidate, is_follower, Message, request_vote, request_vote_reply, append_entries,
  append_entries_reply, prevote, prevote_reply, RequestVoteArgs, RequestVoteReply, PreVoteReply,
  AppendEntriesArgs, AppendEntriesReply, RaftError,
}
use distributed_transaction.Raft.Storage.{append}
use distributed_transaction.Raft.Node.{
  Config, Node, current_term, send, append_entries_for, send_append_entries_to,
  reset_election_deadline, log_up_to_date,
}
use distributed_transaction.Raft.Handlers.{
  same_term, handle_request_vote, cast_vote, can_vote, adopt_term, handle_prevote,
}
use distributed_transaction.Raft.Append.{
  handle_append_entries, handle_append_entries_reply, handle_request_vote_reply,
  handle_prevote_reply, follow_leader, note_refusal,
}
use distributed_transaction.Raft.Append.Frames.{
  SameRole-eq, note_match-SameRole, replicate-SameRole,
}
use distributed_transaction.Raft.Driver.{
  Event, ticked, received, proposed, tick, receive, propose, step, is_due, proposal,
}
use distributed_transaction.Raft.Election.Honest.{
  Votes, TrueMessage, TrueEnvelope, Honest, Covers, All-add, Distinct-add, length-add_le,
  broadcast-Honest, maybe_leader-Honest, maybe_win_prevote-Honest, start_prevote-Honest,
  become_follower-Honest, adopt_term-Honest, send-Honest, SameRole-Honest,
}

no_grant : false ≡ true → ⊥
no_grant h = cc

same_term_of :
    {C S : Type 0} (n : Node C S) (term : ℕ)
    → (not (is_candidate n.state) || not (term == current_term n)) ≡ false
    → term ≡ current_term n
same_term_of n term h = ground arith

module _ {C S : Type 0} (cfg : Config C S) (B : Votes) where
  reset-Honest :
      (now : ℕ) (n : Node C S) → Honest cfg B n → Honest cfg B (reset_election_deadline cfg now n)
  unfolding reset_election_deadline
  reset-Honest now n h = record {
    votes = h.votes;
    distinct = h.distinct;
    quorum = h.quorum;
    sent = h.sent;
  }

  -- what an event brings in is true
  abbrev pub TrueEvent : Event C → Type 0
  TrueEvent (received envelope now) = TrueMessage B envelope.sender_id cfg.node_id envelope.message
  TrueEvent _ = Unit

  ok_Honest :
      {n n' : Node C S}
      → ◌≡◌ {A = Result RaftError (Node C S)} (ok n) (ok n')
      → Honest cfg B n
      → Honest cfg B n'
  ok_Honest {n} {n'} e h = let same : n' ≡ n = ground arith in rw same h

  ok_Covers :
      {n n' : Node C S}
      → ◌≡◌ {A = Result RaftError (Node C S)} (ok n) (ok n')
      → Covers cfg B n'.storage
      → Covers cfg B n.storage
  ok_Covers {n} {n'} e h = let same : n ≡ n' = ground arith in rw same h

  -- the test on the right to vote and on the log
  abbrev grants : RequestVoteArgs → Node C S → Bool
  grants args n =
      can_vote n.storage.voted_for args.candidate_id
      && log_up_to_date n args.last_log_index args.last_log_term

  cast_vote-Honest :
      (args : RequestVoteArgs) (now : ℕ) (n : Node C S)
      → Honest cfg B n
      → Honest cfg B (cast_vote cfg args now n).0
  unfolding cast_vote reset_election_deadline
  cast_vote-Honest args now n h = elim (Bool-cases (ltb args.term (current_term n))) [
    | inl stale ↦ rw (stale, cast_vote) h
    | inr valid ↦ elim (Bool-cases (grants args n)) [
      | inl granted ↦
          rw (valid, granted, cast_vote)
            (record { votes = h.votes; distinct = h.distinct; quorum = h.quorum; sent = h.sent })
      | inr denied ↦ rw (valid, denied, cast_vote) h
    ]
  ]

  -- a granted answer tells of a vote that the node now holds
  cast_vote-TrueMessage :
      (args : RequestVoteArgs) (now : ℕ) (n : Node C S)
      → Covers cfg B (cast_vote cfg args now n).0.storage
      → (cast_vote cfg args now n).1.vote_granted ≡ true
      → B (cast_vote cfg args now n).1.voter_id (cast_vote cfg args now n).1.term args.candidate_id
  unfolding cast_vote reset_election_deadline
  cast_vote-TrueMessage args now n covers granted =
      elim (Bool-cases (ltb args.term (current_term n))) [
        | inl stale ↦ absurd (no_grant (rw (stale, cast_vote) at granted))
        | inr valid ↦ elim (Bool-cases (grants args n)) [
          | inl fits ↦
              rw (valid, fits, cast_vote)
                ((rw (valid, fits, cast_vote) at covers) args.candidate_id refl)
          | inr denied ↦ absurd (no_grant (rw (valid, denied, cast_vote) at granted))
        ]
      ]

  request_vote-Honest :
      (sender : String) (args : RequestVoteArgs) (now : ℕ) (n : Node C S)
      → args.candidate_id ≡ sender
      → Honest cfg B n
      → Covers cfg B (handle_request_vote cfg args now n).0.storage
      → Honest cfg B (
          send cfg sender
            (request_vote_reply (handle_request_vote cfg args now n).1)
            (handle_request_vote cfg args now n).0)
  unfolding handle_request_vote
  request_vote-Honest sender args now n own h covers =
      let n' = adopt_term cfg args.term now n in
      send-Honest cfg B sender (request_vote_reply (cast_vote cfg args now n').1)
        (cast_vote cfg args now n').0
        (cast_vote-Honest args now n' (adopt_term-Honest cfg B args.term now n h))
        (rw (← own) (cast_vote-TrueMessage args now n' covers))

  request_vote_reply-Honest :
      (reply : RequestVoteReply) (now : ℕ) (n : Node C S)
      → (reply.vote_granted ≡ true → B reply.voter_id reply.term cfg.node_id)
      → Honest cfg B n
      → Honest cfg B (handle_request_vote_reply cfg reply now n)
  unfolding handle_request_vote_reply
  request_vote_reply-Honest reply now n t h = elim (Bool-cases (ltb (current_term n) reply.term)) [
    | inl newer ↦
        rw (newer, handle_request_vote_reply) (become_follower-Honest cfg B reply.term now n h)
    | inr older ↦
        elim (Bool-cases (not (is_candidate n.state) || not (reply.term == current_term n))) [
          | inl stale ↦ rw (older, stale, handle_request_vote_reply) h
          | inr live ↦ elim (Bool-cases reply.vote_granted) [
            | inr denied ↦ rw (older, live, denied, handle_request_vote_reply) h
            | inl granted ↦
                rw (older, live, granted, handle_request_vote_reply)
                  (maybe_leader-Honest cfg B now
                    (record n { votes_received = add reply.voter_id n.votes_received })
                    (record {
                      votes =
                          All-add (λ u. B u (current_term n) cfg.node_id) reply.voter_id
                            n.votes_received (rw (← same_term_of n reply.term live) (t granted))
                            h.votes;
                      distinct = Distinct-add reply.voter_id n.votes_received h.distinct;
                      quorum = λ e.
                          le_trans (h.quorum e) (length-add_le reply.voter_id n.votes_received);
                      sent = h.sent;
                    }))
          ]
        ]
  ]

  prevote_reply-Honest :
      (reply : PreVoteReply) (now : ℕ) (n : Node C S)
      → Honest cfg B n
      → Covers cfg B (handle_prevote_reply cfg reply now n).storage
      → Honest cfg B (handle_prevote_reply cfg reply now n)
  unfolding handle_prevote_reply
  prevote_reply-Honest reply now n h covers = elim (Bool-cases (ltb (current_term n) reply.term)) [
    | inl newer ↦ rw (newer, handle_prevote_reply) (become_follower-Honest cfg B reply.term now n h)
    | inr older ↦
        elim (Bool-cases (
          not (is_follower n.state)
          || not (same_term n.prevote_target_term (some (current_term n + 1))))) [
            | inl stale ↦ rw (older, stale, handle_prevote_reply) h
            | inr live ↦ elim (Bool-cases reply.vote_granted) [
              | inr denied ↦ rw (older, live, denied, handle_prevote_reply) h
              | inl granted ↦
                  rw (older, live, granted, handle_prevote_reply)
                    (maybe_win_prevote-Honest cfg B now
                      (record n { prevotes_received = add reply.voter_id n.prevotes_received })
                      (record {
                        votes = h.votes;
                        distinct = h.distinct;
                        quorum = h.quorum;
                        sent = h.sent;
                      })
                      (rw (older, live, granted, handle_prevote_reply) at covers))
            ]
          ]
  ]

  append_entries-Honest :
      (args : AppendEntriesArgs C) (now : ℕ) (n : Node C S) {r : Node C S × AppendEntriesReply}
      → handle_append_entries cfg args now n ≡ ok r
      → Honest cfg B n
      → Honest cfg B r.0
  unfolding handle_append_entries follow_leader reset_election_deadline
  append_entries-Honest args now n {r} e h =
      let n' = adopt_term cfg args.term now n in
      let h' = adopt_term-Honest cfg B args.term now n h in
      elim (Bool-cases (ltb args.term (current_term n'))) [
        | inl stale ↦
            SameRole-Honest cfg B (SameRole-eq n' (rw (stale, handle_append_entries) at e)) h'
        | inr valid ↦
            SameRole-Honest cfg B
              (replicate-SameRole cfg args (follow_leader cfg args.leader_id now n')
                (rw (valid, handle_append_entries) at e))
              (record {
                votes = h'.votes;
                distinct = h'.distinct;
                quorum = λ x. cc;
                sent = h'.sent;
              })
      ]

  note_refusal-Honest :
      (sender : String) (reply : AppendEntriesReply) (n : Node C S)
      → Honest cfg B n
      → Honest cfg B (note_refusal cfg sender reply n)
  unfolding note_refusal send_append_entries_to append_entries_for
  note_refusal-Honest sender reply n h = record {
    votes = h.votes;
    distinct = h.distinct;
    quorum = h.quorum;
    sent = All-append (TrueEnvelope B) n.sent _ h.sent (tt, tt);
  }

  append_entries_reply-Honest :
      (sender : String) (reply : AppendEntriesReply) (now : ℕ) (n : Node C S) {n' : Node C S}
      → handle_append_entries_reply cfg sender reply now n ≡ ok n'
      → Honest cfg B n
      → Honest cfg B n'
  unfolding handle_append_entries_reply
  append_entries_reply-Honest sender reply now n {n'} e h =
      elim (Bool-cases (ltb (current_term n) reply.term)) [
        | inl newer ↦
            ok_Honest (rw (newer, handle_append_entries_reply) at e)
              (become_follower-Honest cfg B reply.term now n h)
        | inr older ↦
            elim (Bool-cases (not (is_leader n.state) || not (reply.term == current_term n))) [
              | inl stale ↦ ok_Honest (rw (older, stale, handle_append_entries_reply) at e) h
              | inr live ↦ elim (Bool-cases reply.success) [
                | inl success ↦
                    SameRole-Honest cfg B
                      (note_match-SameRole cfg sender reply.match_index n
                        (rw (older, live, success, handle_append_entries_reply) at e))
                      h
                | inr refused ↦
                    ok_Honest (rw (older, live, refused, handle_append_entries_reply) at e)
                      (note_refusal-Honest sender _ n h)
              ]
            ]
      ]

  tick-Honest :
      (now : ℕ) (n : Node C S)
      → Honest cfg B n
      → Covers cfg B (tick cfg now n).storage
      → Honest cfg B (tick cfg now n)
  unfolding tick
  tick-Honest now n h covers = elim (Bool-cases (is_leader n.state)) [
    | inl leads ↦ elim (Bool-cases (is_due now n.next_heartbeat_deadline)) [
      | inl due ↦ rw (leads, due, tick) (broadcast-Honest cfg B now n h)
      | inr early ↦ rw (leads, early, tick) h
    ]
    | inr follows ↦ elim (Bool-cases (leb n.election_deadline now)) [
      | inl due ↦
          rw (follows, due, tick)
            (start_prevote-Honest cfg B now n h (rw (follows, due, tick) at covers))
      | inr early ↦ rw (follows, early, tick) h
    ]
  ]

  propose-Honest :
      (command : C) (now : ℕ) (n : Node C S)
      → Honest cfg B n
      → Honest cfg B (propose cfg command now n).0
  unfolding propose
  propose-Honest command now n h = elim (Bool-cases (is_leader n.state)) [
    | inl leads ↦
        rw (leads, propose)
          (broadcast-Honest cfg B now
            (record n { storage = append n.storage (proposal cfg command n ∷ []) })
            (record { votes = h.votes; distinct = h.distinct; quorum = h.quorum; sent = h.sent }))
    | inr follows ↦ rw (follows, propose) h
  ]

  receive-Honest :
      (sender recipient : String) (message : Message C) (now : ℕ) (n : Node C S) {n' : Node C S}
      → receive cfg
          (record { sender_id = sender; recipient_id = recipient; message = message })
          now
          n
        ≡ ok n'
      → TrueMessage B sender cfg.node_id message
      → Honest cfg B n
      → Covers cfg B n'.storage
      → Honest cfg B n'
  unfolding receive
  receive-Honest s r (request_vote args) now n e t h covers =
      ok_Honest e (request_vote-Honest s args now n t h (ok_Covers e covers))
  receive-Honest s r (request_vote_reply reply) now n e t h covers =
      ok_Honest e (request_vote_reply-Honest reply now n t h)
  receive-Honest s r (append_entries args) now n e t h covers =
      let (r', handled, last) = bind-eq-ok (handle_append_entries cfg args now n) _ e in
      ok_Honest last (
        send-Honest cfg B s (append_entries_reply r'.1) r'.0
          (append_entries-Honest args now n handled h) tt)
  receive-Honest s r (append_entries_reply reply) now n e t h covers =
      append_entries_reply-Honest s reply now n e h
  receive-Honest s r (prevote args) now n e t h covers =
      ok_Honest e (send-Honest cfg B s (prevote_reply (handle_prevote cfg args now n)) n h tt)
  receive-Honest s r (prevote_reply reply) now n e t h covers =
      ok_Honest e (prevote_reply-Honest reply now n h (ok_Covers e covers))

  -- A call keeps the node honest, if the message that it takes in is true and if the votes cast
  -- cover the vote that the node holds afterwards.
  pub step-Honest :
      (event : Event C) (n n' : Node C S)
      → step cfg event n ≡ ok n'
      → TrueEvent event
      → Honest cfg B n
      → Covers cfg B n'.storage
      → Honest cfg B n'
  unfolding step
  step-Honest (ticked now) n n' e t h covers =
      ok_Honest e (tick-Honest now n h (ok_Covers e covers))
  step-Honest (received envelope now) n n' e t h covers =
      receive-Honest envelope.sender_id envelope.recipient_id envelope.message now n e t h covers
  step-Honest (proposed command now) n n' e t h covers =
      ok_Honest e (propose-Honest command now n h)
