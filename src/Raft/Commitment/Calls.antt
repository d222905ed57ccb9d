-- ===== src/Raft/Commitment/Calls.antt =====
-- The calls that store nothing and count nothing.
use distributed_transaction.Prelude.{
  ℕ, ◌+◌, ◌-◌, ◌<◌, ◌≡◌, refl, sym, ap, String, Bool, string_eq, nat_eq, true, false, some, none,
  [], ◌∷◌, arith, inl, inr, All, ltb, ◌==◌, ltb→lt, leb→le, ◌≤◌, if◌then◌else◌, Bool-cases, add,
  get_default, put,
}
use distributed_transaction.Raft.Types.{
  NodeState, follower, leader, candidate, prevote, is_candidate, is_leader, RequestVoteArgs,
  RequestVoteReply, PreVoteReply, is_follower, request_vote, AppendEntriesReply,
}
use distributed_transaction.Raft.Storage.{
  Storage, last_index, last_term, set_current_term, set_voted_for,
}
use distributed_transaction.Raft.Node.{
  Config, Node, current_term, send_to_peers, append_entries_for, send_append_entries_to,
  reset_election_deadline, broadcast_append_entries, broadcast_request_vote, become_follower,
  become_leader, maybe_become_leader_from_votes, become_candidate, maybe_win_prevote, start_prevote,
  log_up_to_date,
}
use distributed_transaction.Raft.Handlers.{handle_request_vote, can_vote, cast_vote, adopt_term}
use distributed_transaction.Raft.Append.{
  handle_request_vote_reply, handle_prevote_reply, follow_leader, note_refusal, next_after_conflict,
}
use distributed_transaction.Raft.Driver.{tick, is_due}
use distributed_transaction.Raft.Election.Votes.{not_cast, some_eq}
use distributed_transaction.Raft.Matching.Moves.{later, same}
use distributed_transaction.Raft.Commitment.Sending.{
  Scope, kept, stands, granted, Outdone, IsPlain, May, request, May-earlier, Sends, Sends-mono,
  Sends-same, Sends-trans, Sends-peers, Sends-send, Out, Quiet, Plain, Plain-refl, Plain-after,
  Plain-calm, not_leader,
}

leads_state : {C S : Type 0} (n : Node C S) → is_leader n.state ≡ true → n.state ≡ leader
leads_state n h = ground arith

candidate_leads : ◌≡◌ {A = NodeState} candidate leader → ⊥
candidate_leads h = cc

outdone :
    {C S : Type 0} (n : Node C S) (args : RequestVoteArgs)
    → log_up_to_date n args.last_log_index args.last_log_term ≡ true
    → Outdone args n.storage.log
unfolding log_up_to_date
outdone n args h = elim (Bool-cases (args.last_log_term == last_term n.storage)) [
  | inl one ↦ ground (arith, leb→le (last_index n.storage) args.last_log_index)
  | inr other ↦ ground (arith, ltb→lt (last_term n.storage) args.last_log_term)
]

module _ {C S : Type 0} (cfg : Config C S) (T : Scope) where
  Plain-if :
      (n : Node C S) (b : Bool) (m m' : Node C S)
      → (b ≡ true → Plain cfg T n m)
      → (b ≡ false → Plain cfg T n m')
      → Plain cfg T n (if b then m else m')
  Plain-if n true m m' a a' = a refl
  Plain-if n false m m' a a' = a' refl

  Quiet-same : (n n' : Node C S) → n'.sent ≡ n.sent → Quiet cfg T n n'
  Quiet-same = Sends-same cfg T IsPlain

  reset-Plain : (now : ℕ) (n : Node C S) → Plain cfg T n (reset_election_deadline cfg now n)
  unfolding reset_election_deadline
  reset-Plain now n = Plain-calm cfg T n _ refl refl refl (inl refl) refl refl (Quiet-same n _ refl)

  become_follower-Plain :
      (term now : ℕ) (n : Node C S)
      → current_term n < term
      → Plain cfg T n (become_follower cfg term now n)
  unfolding become_follower reset_election_deadline
  become_follower-Plain term now n h = record {
    log = refl;
    role = later h;
    commit = refl;
    matched = λ lead. absurd (not_leader lead);
    out = Sends-same cfg T _ n _ refl;
    polled = λ x h. absurd (not_cast h);
  }

  -- a message of a later term leaves the node in that term
  pub newer_or :
      (term now : ℕ) (n n' : Node C S)
      → Plain cfg T n n'
      → Plain cfg T n (if ltb (current_term n) term then become_follower cfg term now n else n')
  newer_or term now n n' a =
      Plain-if n _ _ n' (λ newer. become_follower-Plain term now n (ltb→lt _ _ newer)) (λ older. a)

  pub become_follower_newer :
      (term now : ℕ) (n : Node C S)
      → ltb (current_term n) term ≡ true
      → Plain cfg T n (become_follower cfg term now n)
  become_follower_newer term now n newer = become_follower-Plain term now n (ltb→lt _ _ newer)

  pub adopt_term-Plain : (term now : ℕ) (n : Node C S) → Plain cfg T n (adopt_term cfg term now n)
  unfolding adopt_term
  adopt_term-Plain term now n = newer_or term now n n (Plain-refl cfg T n)

  pub adopt_term-Quiet : (term now : ℕ) (n : Node C S) → Quiet cfg T n (adopt_term cfg term now n)
  unfolding adopt_term become_follower reset_election_deadline
  adopt_term-Quiet term now n = Quiet-same n _ (ground arith)

  pub follow_leader-Plain :
      (leader_id : String) (now : ℕ) (n : Node C S)
      → Plain cfg T n (follow_leader cfg leader_id now n)
  unfolding follow_leader reset_election_deadline
  follow_leader-Plain leader_id now n =
      Plain-calm cfg T n _ refl refl refl (inr refl) refl refl (Quiet-same n _ refl)

  grant :
      (args : RequestVoteArgs) (now : ℕ) (n : Node C S)
      → T.asks args
      → args.term ≡ current_term n
      → log_up_to_date n args.last_log_index args.last_log_term ≡ true
      → Plain cfg T n (
          reset_election_deadline cfg now
            (record n { storage = set_voted_for n.storage (some args.candidate_id) }))
  unfolding reset_election_deadline
  grant args now n q t fits = record {
    log = refl;
    role = same refl (λ h. ground arith) (λ h. h);
    commit = refl;
    matched = λ l. inl (l, refl, refl);
    out = Sends-same cfg T _ n _ refl;
    polled = λ x h. granted args q t (some_eq h) (outdone n args fits);
  }

  cast_vote-Plain :
      (args : RequestVoteArgs) (now : ℕ) (n : Node C S)
      → T.asks args
      → args.term ≤ current_term n
      → Plain cfg T n (cast_vote cfg args now n).0
  unfolding cast_vote
  cast_vote-Plain args now n q past = elim (Bool-cases (ltb args.term (current_term n))) [
    | inl stale ↦ rw (stale, cast_vote) (Plain-refl cfg T n)
    | inr valid ↦ elim (Bool-cases (can_vote n.storage.voted_for args.candidate_id)) [
      | inr used ↦ rw (valid, used, cast_vote) (Plain-refl cfg T n)
      | inl may ↦ elim (Bool-cases (log_up_to_date n args.last_log_index args.last_log_term)) [
        | inr behind ↦ rw (valid, may, behind, cast_vote) (Plain-refl cfg T n)
        | inl fits ↦ rw (valid, may, fits, cast_vote) (grant args now n q (ground arith) fits)
      ]
    ]
  ]

  pub adopt_term_le :
      (term now : ℕ) (n : Node C S) → term ≤ current_term (adopt_term cfg term now n)
  unfolding adopt_term become_follower reset_election_deadline
  adopt_term_le term now n = ground arith

  pub request_vote-Plain :
      (args : RequestVoteArgs) (now : ℕ) (n : Node C S)
      → T.asks args
      → Plain cfg T n (handle_request_vote cfg args now n).0
  unfolding handle_request_vote
  request_vote-Plain args now n q =
      Plain-after cfg T (adopt_term-Quiet args.term now n) (adopt_term-Plain args.term now n) (
        cast_vote-Plain args now (adopt_term cfg args.term now n) q (adopt_term_le args.term now n))

  -- a call after the node has noted something that does not count here
  after_note :
      (n m : Node C S) {u : Node C S}
      → m.storage ≡ n.storage
      → m.state ≡ n.state
      → m.commit_index ≡ n.commit_index
      → m.match_index ≡ n.match_index
      → m.sent ≡ n.sent
      → Plain cfg T m u
      → Plain cfg T n u
  after_note n m s st k mi se a =
      Plain-after cfg T (Quiet-same n m se)
        (Plain-calm cfg T n m (ap (λ (x : Storage C). x.log) s)
          (ap (λ (x : Storage C). x.current_term) s) (ap (λ (x : Storage C). x.voted_for) s)
          (inl st) k mi (Quiet-same n m se))
        a

  module _ (peers : All T.reach cfg.peer_ids) where
    broadcast-Out :
        (now : ℕ) (n : Node C S)
        → n.state ≡ leader
        → Out cfg T n (broadcast_append_entries cfg now n)
    unfolding broadcast_append_entries append_entries_for
    broadcast-Out now n lead =
        let armed : Node C S = record n {
          next_heartbeat_deadline = some (now + cfg.heartbeat_interval);
        } in
        let done = broadcast_append_entries cfg now n in
        Sends-trans cfg T (May cfg T (current_term n) done)
          (Sends-same cfg T (May cfg T (current_term n) done) n armed refl)
          (Sends-peers cfg T (May cfg T (current_term n) done) (append_entries_for cfg n) armed
            peers (λ to. (lead, get_default to (last_index n.storage + 1) n.next_index - 1, refl)))

    pub broadcast-Plain :
        (now : ℕ) (n : Node C S)
        → n.state ≡ leader
        → Plain cfg T n (broadcast_append_entries cfg now n)
    unfolding broadcast_append_entries
    broadcast-Plain now n lead = record {
      log = refl;
      role = same refl (λ h. ground arith) (λ h. h);
      commit = refl;
      matched = λ l. inl (lead, refl, refl);
      out = broadcast-Out now n lead;
      polled = λ x. kept refl;
    }

    become_leader-Out : (now : ℕ) (n : Node C S) → Out cfg T n (become_leader cfg now n)
    unfolding become_leader
    become_leader-Out now n =
        Sends-trans cfg T (May cfg T (current_term n) (become_leader cfg now n))
          (Sends-same cfg T _ n _ refl) (broadcast-Out now _ refl)

    become_leader-Plain :
        (now : ℕ) (n : Node C S)
        → is_candidate n.state ≡ true
        → Plain cfg T n (become_leader cfg now n)
    unfolding become_leader
    become_leader-Plain now n h =
        Plain-after cfg T (Quiet-same n _ refl)
          (record {
            log = refl;
            role = same refl (λ e. ground arith) (λ e. h);
            commit = refl;
            matched = λ l. inr refl;
            out = Sends-same cfg T _ n _ refl;
            polled = λ x. kept refl;
          })
          (broadcast-Plain now _ refl)

    maybe_leader-Plain :
        (now : ℕ) (n : Node C S) → Plain cfg T n (maybe_become_leader_from_votes cfg now n)
    unfolding maybe_become_leader_from_votes
    maybe_leader-Plain now n = elim (Bool-cases (is_candidate n.state)) [
      | inr other ↦ rw (other, maybe_become_leader_from_votes) (Plain-refl cfg T n)
      | inl runs ↦
          rw (runs, maybe_become_leader_from_votes)
            (Plain-if n _ _ n (λ won. become_leader-Plain now n runs) (λ lost. Plain-refl cfg T n))
    ]

    -- a candidate before it asks for votes
    abbrev standing : ℕ → Node C S → Node C S
    standing now n = reset_election_deadline cfg now (record n {
      storage = set_voted_for (set_current_term n.storage (current_term n + 1)) (some cfg.node_id);
      state = candidate;
      leader_id = none;
      votes_received = cfg.node_id ∷ [];
    })

    asking-Sends :
        (now : ℕ) (n u : Node C S)
        → u.storage ≡ (standing now n).storage
        → is_follower u.state ≡ false
        → Sends cfg T (May cfg T (current_term n) u) n (broadcast_request_vote cfg (standing now n))
    unfolding broadcast_request_vote reset_election_deadline
    asking-Sends now n u s f =
        Sends-trans cfg T (May cfg T (current_term n) u)
          (Sends-same cfg T (May cfg T (current_term n) u) n (standing now n) refl)
          (Sends-peers cfg T (May cfg T (current_term n) u)
            (λ to. request_vote (request cfg T (standing now n))) (standing now n) peers
            (λ to. (
              f,
              rw s (omega arith),
              ap
                  (λ (x : Storage C). record {
                    term = x.current_term;
                    candidate_id = cfg.node_id;
                    last_log_index = last_index x;
                    last_log_term = last_term x;
                  })
                  (sym s),
            )))

    won_at_once :
        (now : ℕ) (n : Node C S)
        → Plain cfg T n (become_leader cfg now (broadcast_request_vote cfg (standing now n)))
    unfolding broadcast_request_vote reset_election_deadline become_leader broadcast_append_entries
    won_at_once now n =
        let asked = broadcast_request_vote cfg (standing now n) in
        let u = become_leader cfg now asked in
        record {
          log = refl;
          role = later (omega arith);
          commit = refl;
          matched = λ l. inr refl;
          polled = λ x h. stands (omega arith) (sym (some_eq h));
          out = Sends-trans cfg T (May cfg T (current_term n) u) (asking-Sends now n u refl refl) (
              Sends-mono cfg T (May cfg T (current_term asked) u) (May cfg T (current_term n) u)
                (May-earlier cfg T (current_term n) (current_term asked) u (omega arith))
                (become_leader-Out now asked));
        }

    still_asking :
        (now : ℕ) (n : Node C S) → Plain cfg T n (broadcast_request_vote cfg (standing now n))
    unfolding broadcast_request_vote reset_election_deadline
    still_asking now n = record {
      log = refl;
      role = later (omega arith);
      commit = refl;
      matched = λ l. absurd (candidate_leads l);
      polled = λ x h. stands (omega arith) (sym (some_eq h));
      out = asking-Sends now n (broadcast_request_vote cfg (standing now n)) refl refl;
    }

    become_candidate-Plain : (now : ℕ) (n : Node C S) → Plain cfg T n (become_candidate cfg now n)
    unfolding become_candidate maybe_become_leader_from_votes broadcast_request_vote
        reset_election_deadline
    become_candidate-Plain now n =
        Plain-if n _ _ _ (λ won. won_at_once now n) (λ lost. still_asking now n)

    maybe_win_prevote-Plain : (now : ℕ) (n : Node C S) → Plain cfg T n (maybe_win_prevote cfg now n)
    unfolding maybe_win_prevote
    maybe_win_prevote-Plain now n =
        Plain-if n _ _ n (λ won. become_candidate-Plain now n) (λ lost. Plain-refl cfg T n)

    -- a node before it counts its own promise of a vote
    abbrev preparing : ℕ → Node C S → Node C S
    preparing now n = reset_election_deadline cfg now (record n {
      state = follower;
      leader_id = none;
      prevote_target_term = some (current_term n + 1);
      prevotes_received = cfg.node_id ∷ [];
    })

    start_prevote-Plain : (now : ℕ) (n : Node C S) → Plain cfg T n (start_prevote cfg now n)
    unfolding start_prevote reset_election_deadline
    start_prevote-Plain now n =
        let first = preparing now n in
        let asked =
          send_to_peers cfg
            (λ peer. prevote (record {
              term = current_term n + 1;
              candidate_id = cfg.node_id;
              last_log_index = last_index n.storage;
              last_log_term = last_term n.storage;
            }))
            first in
        let quiet =
          Sends-trans cfg T IsPlain (Quiet-same n first refl)
            (Sends-peers cfg T IsPlain _ first peers (λ to. tt)) in
        Plain-after cfg T quiet (Plain-calm cfg T n asked refl refl refl (inr refl) refl refl quiet)
          (maybe_win_prevote-Plain now asked)

    pub tick-Plain : (now : ℕ) (n : Node C S) → Plain cfg T n (tick cfg now n)
    unfolding tick
    tick-Plain now n =
        Plain-if n (is_leader n.state) _ _
          (λ lead.
            Plain-if n (is_due now n.next_heartbeat_deadline) _ n
              (λ due. broadcast-Plain now n (leads_state n lead)) (λ early. Plain-refl cfg T n))
          (λ follows.
            Plain-if n _ _ n (λ due. start_prevote-Plain now n) (λ early. Plain-refl cfg T n))

    pub request_vote_reply-Plain :
        (reply : RequestVoteReply) (now : ℕ) (n : Node C S)
        → Plain cfg T n (handle_request_vote_reply cfg reply now n)
    unfolding handle_request_vote_reply
    request_vote_reply-Plain reply now n =
        let noted : Node C S = record n { votes_received = add reply.voter_id n.votes_received } in
        newer_or reply.term now n _ (
          Plain-if n _ n _ (λ stale. Plain-refl cfg T n)
            (λ live.
              Plain-if n reply.vote_granted _ n
                (λ granted.
                  after_note n noted refl refl refl refl refl (maybe_leader-Plain now noted))
                (λ denied. Plain-refl cfg T n)))

    pub prevote_reply-Plain :
        (reply : PreVoteReply) (now : ℕ) (n : Node C S)
        → Plain cfg T n (handle_prevote_reply cfg reply now n)
    unfolding handle_prevote_reply
    prevote_reply-Plain reply now n =
        let noted : Node C S = record n {
          prevotes_received = add reply.voter_id n.prevotes_received;
        } in
        newer_or reply.term now n _ (
          Plain-if n _ n _ (λ stale. Plain-refl cfg T n)
            (λ live.
              Plain-if n reply.vote_granted _ n
                (λ granted.
                  after_note n noted refl refl refl refl refl (maybe_win_prevote-Plain now noted))
                (λ denied. Plain-refl cfg T n)))

  -- a leader answers a refusal with entries from further back
  pub note_refusal-Plain :
      (sender : String) (reply : AppendEntriesReply) (n : Node C S)
      → T.reach sender
      → n.state ≡ leader
      → Plain cfg T n (note_refusal cfg sender reply n)
  unfolding note_refusal send_append_entries_to append_entries_for
  note_refusal-Plain sender reply n t lead =
      let noted : Node C S = record n {
        next_index = put sender (next_after_conflict reply n) n.next_index;
      } in
      after_note n noted refl refl refl refl refl (record {
        log = refl;
        role = same refl (λ h. ground arith) (λ h. h);
        commit = refl;
        polled = λ x. kept refl;
        matched = λ l. inl (lead, refl, refl);
        out =
            Sends-send cfg T _ sender (append_entries_for cfg noted sender) noted t
              (lead, get_default sender (last_index n.storage + 1) noted.next_index - 1, refl);
      })
