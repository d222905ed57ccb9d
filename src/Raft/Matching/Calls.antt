-- ===== src/Raft/Matching/Calls.antt =====
-- The calls that leave a node's log as it is.
use distributed_transaction.Prelude.{
  ℕ, ◌+◌, ◌<◌, ◌≡◌, refl, ap, String, string_eq, nat_eq, ◌==◌, true, not, ◌||◌, ◌&&◌, some, length,
  arith, inl, inr, All-append, All-map, Result, ok, raise, ltb, leb, ltb→lt, if◌then◌else◌,
  Bool-cases, Option-cases, add, get, put,
}
use distributed_transaction.Raft.Types.{
  is_candidate, is_leader, Message, RequestVoteArgs, RequestVoteReply, PreVoteReply,
  AppendEntriesReply, RaftError,
}
use distributed_transaction.Raft.Storage.{Storage}
use distributed_transaction.Raft.Node.{
  Config, Node, current_term, majority, send, send_to_peers, append_entries_for,
  send_append_entries_to, reset_election_deadline, broadcast_append_entries, broadcast_request_vote,
  become_follower, become_leader, maybe_become_leader_from_votes, become_candidate,
  maybe_win_prevote, start_prevote, log_up_to_date,
}
use distributed_transaction.Raft.Handlers.{handle_request_vote, can_vote, cast_vote, adopt_term}
use distributed_transaction.Raft.Handlers.Frames.{Committed, Committed-advance}
use distributed_transaction.Raft.Append.{
  handle_request_vote_reply, handle_prevote_reply, handle_append_entries_reply, note_match,
  note_refusal, record_match,
}
use distributed_transaction.Raft.Append.Frames.{Committed-storage, Committed-SameRole}
use distributed_transaction.Raft.Driver.{tick, is_due}
use distributed_transaction.Raft.Matching.Trails.{
  Made, Grown, Sound, SoundMessage, append_entries_for-Sound,
}
use distributed_transaction.Raft.Matching.Moves.{
  later, same, Steady, Steady-refl, Steady-trans, Steady-calm, Steady-ok, Steady-if,
}

module _ {C S : Type 0} (cfg : Config C S) (made : Made C) where
  pub send-Steady :
      (to : String) (m : Message C) (n : Node C S)
      → SoundMessage made m
      → Steady made n (send cfg to m n)
  send-Steady to m n s = record {
    log = refl;
    role = same refl (λ h. ground arith) (λ h. h);
    sent = λ g a. All-append (Sound made) n.sent _ a (s, tt);
  }

  send_to_peers-Steady :
      (m : String → Message C) (n : Node C S)
      → (Grown made n.storage.log → (p : String) → SoundMessage made (m p))
      → Steady made n (send_to_peers cfg m n)
  send_to_peers-Steady m n s = record {
    log = refl;
    role = same refl (λ h. ground arith) (λ h. h);
    sent = λ g a. All-append (Sound made) n.sent _ a (All-map (Sound made) _ cfg.peer_ids (s g));
  }

  pub broadcast-Steady :
      (now : ℕ) (n : Node C S) → Steady made n (broadcast_append_entries cfg now n)
  unfolding broadcast_append_entries
  broadcast-Steady now n =
      let armed : Node C S = record n {
        next_heartbeat_deadline = some (now + cfg.heartbeat_interval);
      } in
      Steady-trans made (Steady-calm made n armed refl refl (inl refl) refl) (
        send_to_peers-Steady (append_entries_for cfg n) armed
          (λ g p. append_entries_for-Sound cfg made n p g))

  reset-Steady : (now : ℕ) (n : Node C S) → Steady made n (reset_election_deadline cfg now n)
  unfolding reset_election_deadline
  reset-Steady now n = Steady-calm made n _ refl refl (inl refl) refl

  become_follower-Steady :
      (term now : ℕ) (n : Node C S)
      → current_term n < term
      → Steady made n (become_follower cfg term now n)
  unfolding become_follower reset_election_deadline
  become_follower-Steady term now n h = record { log = refl; role = later h; sent = λ g a. a }

  pub adopt_term-Steady : (term now : ℕ) (n : Node C S) → Steady made n (adopt_term cfg term now n)
  unfolding adopt_term
  adopt_term-Steady term now n = elim (Bool-cases (ltb (current_term n) term)) [
    | inl newer ↦ rw (newer, adopt_term) (become_follower-Steady term now n (ltb→lt _ _ newer))
    | inr older ↦ rw (older, adopt_term) (Steady-refl made n)
  ]

  become_leader-Steady :
      (now : ℕ) (n : Node C S)
      → is_candidate n.state ≡ true
      → Steady made n (become_leader cfg now n)
  unfolding become_leader
  become_leader-Steady now n h =
      Steady-trans made
        (record { log = refl; role = same refl (λ e. ground arith) (λ e. h); sent = λ g a. a })
        (broadcast-Steady now _)

  maybe_leader-Steady :
      (now : ℕ) (n : Node C S) → Steady made n (maybe_become_leader_from_votes cfg now n)
  unfolding maybe_become_leader_from_votes
  maybe_leader-Steady now n = elim (Bool-cases (is_candidate n.state)) [
    | inr other ↦ rw (other, maybe_become_leader_from_votes) (Steady-refl made n)
    | inl runs ↦ elim (Bool-cases (leb (majority cfg) (length n.votes_received))) [
      | inl won ↦ rw (runs, won, maybe_become_leader_from_votes) (become_leader-Steady now n runs)
      | inr lost ↦ rw (runs, lost, maybe_become_leader_from_votes) (Steady-refl made n)
    ]
  ]

  become_candidate-Steady : (now : ℕ) (n : Node C S) → Steady made n (become_candidate cfg now n)
  unfolding become_candidate broadcast_request_vote reset_election_deadline
  become_candidate-Steady now n =
      Steady-trans made
        (record {
          log = refl;
          role = later (omega arith);
          sent = λ g a.
              All-append (Sound made) n.sent _ a (All-map (Sound made) _ cfg.peer_ids (λ p. tt));
        })
        (maybe_leader-Steady now _)

  maybe_win_prevote-Steady : (now : ℕ) (n : Node C S) → Steady made n (maybe_win_prevote cfg now n)
  unfolding maybe_win_prevote
  maybe_win_prevote-Steady now n =
      Steady-if made n _ _ n (become_candidate-Steady now n) (Steady-refl made n)

  start_prevote-Steady : (now : ℕ) (n : Node C S) → Steady made n (start_prevote cfg now n)
  unfolding start_prevote reset_election_deadline
  start_prevote-Steady now n =
      Steady-trans made
        (record {
          log = refl;
          role = same refl (λ e. cc) (λ e. cc);
          sent = λ g a.
              All-append (Sound made) n.sent _ a (All-map (Sound made) _ cfg.peer_ids (λ p. tt));
        })
        (maybe_win_prevote-Steady now _)

  cast_vote-Steady :
      (args : RequestVoteArgs) (now : ℕ) (n : Node C S) → Steady made n (cast_vote cfg args now n).0
  unfolding cast_vote reset_election_deadline
  cast_vote-Steady args now n = elim (Bool-cases (ltb args.term (current_term n))) [
    | inl stale ↦ rw (stale, cast_vote) (Steady-refl made n)
    | inr valid ↦
        elim (Bool-cases (
          can_vote n.storage.voted_for args.candidate_id
          && log_up_to_date n args.last_log_index args.last_log_term)) [
            | inl granted ↦
                rw (valid, granted, cast_vote) (Steady-calm made n _ refl refl (inl refl) refl)
            | inr denied ↦ rw (valid, denied, cast_vote) (Steady-refl made n)
          ]
  ]

  pub request_vote-Steady :
      (args : RequestVoteArgs) (now : ℕ) (n : Node C S)
      → Steady made n (handle_request_vote cfg args now n).0
  unfolding handle_request_vote
  request_vote-Steady args now n =
      Steady-trans made (adopt_term-Steady args.term now n)
        (cast_vote-Steady args now (adopt_term cfg args.term now n))

  newer_or :
      (term now : ℕ) (n n' : Node C S)
      → Steady made n n'
      → Steady made n (if ltb (current_term n) term then become_follower cfg term now n else n')
  newer_or term now n n' a = elim (Bool-cases (ltb (current_term n) term)) [
    | inl newer ↦ rw newer (become_follower-Steady term now n (ltb→lt _ _ newer))
    | inr older ↦ rw older a
  ]

  pub request_vote_reply-Steady :
      (reply : RequestVoteReply) (now : ℕ) (n : Node C S)
      → Steady made n (handle_request_vote_reply cfg reply now n)
  unfolding handle_request_vote_reply
  request_vote_reply-Steady reply now n = newer_or reply.term now n _ (
      Steady-if made n _ n _ (Steady-refl made n) (
        Steady-if made n reply.vote_granted _ n
          (Steady-trans made (Steady-calm made n _ refl refl (inl refl) refl) (
            maybe_leader-Steady now
              (record n { votes_received = add reply.voter_id n.votes_received })))
          (Steady-refl made n)))

  pub prevote_reply-Steady :
      (reply : PreVoteReply) (now : ℕ) (n : Node C S)
      → Steady made n (handle_prevote_reply cfg reply now n)
  unfolding handle_prevote_reply
  prevote_reply-Steady reply now n = newer_or reply.term now n _ (
      Steady-if made n _ n _ (Steady-refl made n) (
        Steady-if made n reply.vote_granted _ n
          (Steady-trans made (Steady-calm made n _ refl refl (inl refl) refl) (
            maybe_win_prevote-Steady now
              (record n { prevotes_received = add reply.voter_id n.prevotes_received })))
          (Steady-refl made n)))

  note_refusal-Steady :
      (sender : String) (reply : AppendEntriesReply) (n : Node C S)
      → Steady made n (note_refusal cfg sender reply n)
  unfolding note_refusal send_append_entries_to
  note_refusal-Steady sender reply n = record {
    log = refl;
    role = same refl (λ h. ground arith) (λ h. h);
    sent = λ g a.
        All-append (Sound made) n.sent _ a (append_entries_for-Sound cfg made _ sender g, tt);
  }

  pub tick-Steady : (now : ℕ) (n : Node C S) → Steady made n (tick cfg now n)
  unfolding tick
  tick-Steady now n =
      Steady-if made n (is_leader n.state) _ _
        (Steady-if made n (is_due now n.next_heartbeat_deadline) _ n (broadcast-Steady now n)
          (Steady-refl made n))
        (Steady-if made n _ _ n (start_prevote-Steady now n) (Steady-refl made n))

  Committed-Steady : (n : Node C S) {n' : Node C S} → Committed n n' → Steady made n n'
  Committed-Steady n {n'} c =
      Steady-calm made n n' (ap (λ (s : Storage C). s.log) (Committed-storage n c))
        (ap (λ (s : Storage C). s.current_term) (Committed-storage n c))
        (inl (Committed-SameRole n c).state) (Committed-SameRole n c).sent

  raised :
      {e : RaftError} {n : Node C S} → ◌≡◌ {A = Result RaftError (Node C S)} (raise e) (ok n) → ⊥
  raised h = cc

  note_match-Steady :
      (sender : String) (m : ℕ) (n : Node C S) {n' : Node C S}
      → note_match cfg sender m n ≡ ok n'
      → Steady made n n'
  unfolding note_match
  note_match-Steady sender m n {n'} h =
      let seen = record_match sender m n in
      elim (Option-cases (get sender seen.match_index)) [
        | inl missing ↦ absurd (raised (rw (missing, note_match) at h))
        | inr (k, e) ↦
            let next : Node C S = record seen { next_index = put sender (k + 1) seen.next_index } in
            Steady-trans made (Steady-calm made n next refl refl (inl refl) refl) (
              Committed-Steady next {n' = n'}
                (Committed-advance cfg next (rw (e, note_match) at h)))
      ]

  pub append_entries_reply-Steady :
      (sender : String) (reply : AppendEntriesReply) (now : ℕ) (n : Node C S) {n' : Node C S}
      → handle_append_entries_reply cfg sender reply now n ≡ ok n'
      → Steady made n n'
  unfolding handle_append_entries_reply
  append_entries_reply-Steady sender reply now n {n'} h =
      elim (Bool-cases (ltb (current_term n) reply.term)) [
        | inl newer ↦
            Steady-ok made (become_follower-Steady reply.term now n (ltb→lt _ _ newer))
              (rw (newer, handle_append_entries_reply) at h)
        | inr older ↦
            elim (Bool-cases (not (is_leader n.state) || not (reply.term == current_term n))) [
              | inl stale ↦
                  Steady-ok made (Steady-refl made n)
                    (rw (older, stale, handle_append_entries_reply) at h)
              | inr live ↦ elim (Bool-cases reply.success) [
                | inl success ↦
                    note_match-Steady sender reply.match_index n
                      (rw (older, live, success, handle_append_entries_reply) at h)
                | inr refused ↦
                    Steady-ok made (note_refusal-Steady sender _ n)
                      (rw (older, live, refused, handle_append_entries_reply) at h)
              ]
            ]
      ]
