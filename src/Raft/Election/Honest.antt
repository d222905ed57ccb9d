-- ===== src/Raft/Election/Honest.antt =====
-- What a node's votes, its leadership and its messages rest on, kept by every call.
use distributed_transaction.Prelude.{
  Distinct, All, All-append, All-map, ℕ, ◌+◌, ◌≤◌, ◌≡◌, refl, String, string_eq, nat_eq, true, some,
  List, arith, contains, add, length, Bool-cases, inl, inr, ltb, leb, leb→le,
}
use distributed_transaction.Raft.Types.{
  is_candidate, leader, Message, Envelope, request_vote, request_vote_reply,
}
use distributed_transaction.Raft.Storage.{Storage}
use distributed_transaction.Raft.Node.{
  Config, Node, current_term, majority, send, append_entries_for, reset_election_deadline,
  broadcast_append_entries, broadcast_request_vote, become_follower, become_leader,
  maybe_become_leader_from_votes, become_candidate, maybe_win_prevote, start_prevote,
}
use distributed_transaction.Raft.Handlers.{adopt_term}
use distributed_transaction.Raft.Append.Frames.{SameRole}
use distributed_transaction.Raft.Driver.Ballots.{storage-maybe_leader}

-- a relation between voters, terms and candidates: the votes cast so far
abbrev pub Votes : Type 1
Votes = String → ℕ → String → Type 0

-- A message in flight is true: who asks for a vote asks for itself, and a granted vote was cast
-- for the node that the answer goes to.
abbrev pub TrueMessage : {C : Type 0} → Votes → String → String → Message C → Type 0
TrueMessage B sender recipient (request_vote args) = args.candidate_id ≡ sender
TrueMessage B sender recipient (request_vote_reply r) =
    r.vote_granted ≡ true → B r.voter_id r.term recipient
TrueMessage B sender recipient _ = Unit

abbrev pub TrueEnvelope : {C : Type 0} → Votes → Envelope C → Type 0
TrueEnvelope B e = TrueMessage B e.sender_id e.recipient_id e.message

pub All-add :
    (P : String → Type 0) (x : String) (xs : List String) → P x → All P xs → All P (add x xs)
All-add P x xs p a = elim (Bool-cases (contains x xs)) [
  | inl old ↦ rw old a
  | inr new ↦ rw new (p, a)
]

pub Distinct-add : (x : String) (xs : List String) → Distinct xs → Distinct (add x xs)
Distinct-add x xs d = elim (Bool-cases (contains x xs)) [
  | inl old ↦ rw old d
  | inr new ↦ rw new (new, d)
]

pub length-add_le : (x : String) (xs : List String) → length xs ≤ length (add x xs)
length-add_le x xs = ground arith

module _ {C S : Type 0} (cfg : Config C S) (B : Votes) where
  pub record Honest (n : Node C S) : Type 0 where
    -- every vote that the node counts was cast for it, in its present term
    pub votes : All (λ u. B u (current_term n) cfg.node_id) n.votes_received
    pub distinct : Distinct n.votes_received
    pub quorum : n.state ≡ leader → majority cfg ≤ length n.votes_received
    pub sent : All (TrueEnvelope B) n.sent

  -- the node's own vote is among the votes cast
  abbrev pub Covers : Storage C → Type 0
  Covers s = (c : String) → s.voted_for ≡ some c → B cfg.node_id s.current_term c

  pub broadcast-Honest :
      (now : ℕ) (n : Node C S) → Honest n → Honest (broadcast_append_entries cfg now n)
  unfolding broadcast_append_entries append_entries_for
  broadcast-Honest now n h = record {
    votes = h.votes;
    distinct = h.distinct;
    quorum = h.quorum;
    sent =
        All-append (TrueEnvelope B) n.sent _ h.sent
          (All-map (TrueEnvelope B) _ cfg.peer_ids (λ p. tt));
  }

  pub become_leader-Honest :
      (now : ℕ) (n : Node C S)
      → Honest n
      → majority cfg ≤ length n.votes_received
      → Honest (become_leader cfg now n)
  unfolding become_leader
  become_leader-Honest now n h q =
      broadcast-Honest now _
        (record { votes = h.votes; distinct = h.distinct; quorum = λ _. q; sent = h.sent })

  pub maybe_leader-Honest :
      (now : ℕ) (n : Node C S) → Honest n → Honest (maybe_become_leader_from_votes cfg now n)
  unfolding maybe_become_leader_from_votes
  maybe_leader-Honest now n h = elim (Bool-cases (is_candidate n.state)) [
    | inr other ↦ rw (other, maybe_become_leader_from_votes) h
    | inl runs ↦ elim (Bool-cases (leb (majority cfg) (length n.votes_received))) [
      | inl won ↦
          rw (runs, won, maybe_become_leader_from_votes)
            (become_leader-Honest now n h (leb→le _ _ won))
      | inr lost ↦ rw (runs, lost, maybe_become_leader_from_votes) h
    ]
  ]

  pub become_candidate-Honest :
      (now : ℕ) (n : Node C S)
      → Honest n
      → B cfg.node_id (current_term n + 1) cfg.node_id
      → Honest (become_candidate cfg now n)
  unfolding become_candidate broadcast_request_vote reset_election_deadline
  become_candidate-Honest now n h own = maybe_leader-Honest now _ (record {
    votes = (own, tt);
    distinct = (refl, tt);
    quorum = λ e. cc;
    sent =
        All-append (TrueEnvelope B) n.sent _ h.sent
          (All-map (TrueEnvelope B) _ cfg.peer_ids (λ p. refl));
  })

  -- a candidate has voted for itself
  become_candidate-Covers :
      (now : ℕ) (n : Node C S)
      → Covers (become_candidate cfg now n).storage
      → B cfg.node_id (current_term n + 1) cfg.node_id
  unfolding become_candidate broadcast_request_vote reset_election_deadline
  become_candidate-Covers now n covers =
      (rw (become_candidate, storage-maybe_leader) at covers) cfg.node_id refl

  pub maybe_win_prevote-Honest :
      (now : ℕ) (n : Node C S)
      → Honest n
      → Covers (maybe_win_prevote cfg now n).storage
      → Honest (maybe_win_prevote cfg now n)
  unfolding maybe_win_prevote
  maybe_win_prevote-Honest now n h covers =
      elim (Bool-cases (leb (majority cfg) (length n.prevotes_received))) [
        | inl won ↦
            rw (won, maybe_win_prevote)
              (become_candidate-Honest now n h
                (become_candidate-Covers now n (rw (won, maybe_win_prevote) at covers)))
        | inr lost ↦ rw (lost, maybe_win_prevote) h
      ]

  pub start_prevote-Honest :
      (now : ℕ) (n : Node C S)
      → Honest n
      → Covers (start_prevote cfg now n).storage
      → Honest (start_prevote cfg now n)
  unfolding start_prevote reset_election_deadline
  start_prevote-Honest now n h covers =
      maybe_win_prevote-Honest now _
        (record {
          votes = h.votes;
          distinct = h.distinct;
          quorum = λ e. cc;
          sent =
              All-append (TrueEnvelope B) n.sent _ h.sent
                (All-map (TrueEnvelope B) _ cfg.peer_ids (λ p. tt));
        })
        covers

  pub become_follower-Honest :
      (term now : ℕ) (n : Node C S) → Honest n → Honest (become_follower cfg term now n)
  unfolding become_follower
  become_follower-Honest term now n h = record {
    votes = tt;
    distinct = tt;
    quorum = λ e. cc;
    sent = h.sent;
  }

  pub adopt_term-Honest :
      (term now : ℕ) (n : Node C S) → Honest n → Honest (adopt_term cfg term now n)
  unfolding adopt_term
  adopt_term-Honest term now n h = elim (Bool-cases (ltb (current_term n) term)) [
    | inl newer ↦ rw (newer, adopt_term) (become_follower-Honest term now n h)
    | inr older ↦ rw (older, adopt_term) h
  ]

  pub send-Honest :
      (to : String) (m : Message C) (n : Node C S)
      → Honest n
      → TrueMessage B cfg.node_id to m
      → Honest (send cfg to m n)
  send-Honest to m n h t = record {
    votes = h.votes;
    distinct = h.distinct;
    quorum = h.quorum;
    sent = All-append (TrueEnvelope B) n.sent _ h.sent (t, tt);
  }

  pub SameRole-Honest : {n n' : Node C S} → SameRole n n' → Honest n → Honest n'
  SameRole-Honest r h = record {
    votes = rw (r.votes, r.ballot.term) h.votes;
    distinct = rw r.votes h.distinct;
    quorum = rw (r.votes, r.state) h.quorum;
    sent = rw r.sent h.sent;
  }
