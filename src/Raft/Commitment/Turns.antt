-- ===== src/Raft/Commitment/Turns.antt =====
-- What any call makes of a node, with what it sends: nothing that counts, an entry of a leader's
-- own, a leader's entries with the word that they are stored, or the count of such a word.
use distributed_transaction.Prelude.{
  ℕ, suc, ◌+◌, ◌<◌, ◌≤◌, ◌≡◌, refl, sym, ap, ◌∙◌, String, string_eq, nat_eq, ◌==◌, Bool, true,
  false, not, ◌||◌, some, none, List, [], ◌∷◌, ◌++◌, length, min, arith, ◌⊎◌, inl, inr, All, Result,
  ok, raise, bind-eq-ok, ltb, Bool-cases, Option-cases, get, put,
}
use mathlib.Core.List.{append_assoc, append-nil}
use distributed_transaction.Raft.Types.{
  follower, leader, is_leader, LogEntry, Message, Envelope, request_vote, request_vote_reply,
  append_entries, append_entries_reply, prevote, prevote_reply, AppendEntriesArgs,
  AppendEntriesReply, RequestVoteArgs, RaftError,
}
use distributed_transaction.Raft.Storage.{Storage, append, term_at, last_index}
use distributed_transaction.Raft.Node.{
  Config, Node, current_term, send, broadcast_append_entries, reset_election_deadline,
}
use distributed_transaction.Raft.Handlers.{adopt_term, store_entries}
use distributed_transaction.Raft.Handlers.Frames.{
  SameBallot-store_entries, Committed, Committed-advance,
}
use distributed_transaction.Raft.Handlers.Committing.{
  Commits, advance_commit_index_lem, commit_index-apply_committed,
}
use distributed_transaction.Raft.Append.{
  handle_append_entries, handle_append_entries_reply, follow_leader, replicate, accept_entries,
  prev_conflict, follow_commit, append_done, note_match, record_match,
}
use distributed_transaction.Raft.Append.Frames.{
  Committed-storage, Committed-SameRole, Committed-follow,
}
use distributed_transaction.Raft.Driver.{
  Event, ticked, received, proposed, receive, propose, proposal, step,
}
use distributed_transaction.Raft.Matching.Steps.{
  Takes, prev_fits, state-follow_leader, no_term, leads_state,
}
use distributed_transaction.Raft.Commitment.Sending.{
  Scope, to_peer, Out, Plain, Plain-refl, Plain-after, Plain-send, Plain-ok,
}
use distributed_transaction.Raft.Commitment.Calls.{
  adopt_term_le, become_follower_newer, adopt_term-Plain, adopt_term-Quiet, follow_leader-Plain,
  request_vote-Plain, broadcast-Plain, tick-Plain, request_vote_reply-Plain, prevote_reply-Plain,
  note_refusal-Plain,
}

-- the event brings in a reply to entries
abbrev pub Tells : {C : Type 0} → Event C → String → AppendEntriesReply → Type 0
Tells (received e now) sender reply =
    (e.sender_id ≡ sender) × (e.message ≡ append_entries_reply reply)
Tells _ sender reply = ⊥

-- who sent what the event brings in
abbrev pub From : {C : Type 0} → Scope → Event C → Type 0
From {C} T (received e now) =
    T.reach e.sender_id × ((args : RequestVoteArgs) → e.message ≡ request_vote args → T.asks args)
From T _ = Unit

module _ {C S : Type 0} (cfg : Config C S) (T : Scope) where
  -- A leader adds an entry of its term.
  pub record Grown (n n' : Node C S) : Type 0 where
    pub entry : LogEntry C
    pub led : n.state ≡ leader
    pub leads : n'.state ≡ leader
    pub term : current_term n' ≡ current_term n
    pub own : entry.term ≡ current_term n
    pub log : n'.storage.log ≡ n.storage.log ++ entry ∷ []
    pub vote : n'.storage.voted_for ≡ n.storage.voted_for
    pub commit : n'.commit_index ≡ n.commit_index
    pub matched : n'.match_index ≡ n.match_index
    pub out : Out cfg T n n'

  -- the commit index of a follower that has stored what a leader sent
  abbrev pub Follows : AppendEntriesArgs C → Node C S → Node C S → Type 0
  Follows args n n' =
      (n'.commit_index ≡ n.commit_index)
      ⊎ ((n.commit_index < args.leader_commit)
          × (n'.commit_index ≡ min args.leader_commit (length n'.storage.log)))

  -- A follower of the leader of its term stores entries after those that they are to follow.
  pub record Stored (args : AppendEntriesArgs C) (n n' : Node C S) : Type 0 where
    pub at : Node C S
    pub reached : Plain cfg T n at
    pub now : args.term ≡ current_term at
    pub follows : at.state ≡ follower
    pub state : n'.state ≡ follower
    pub fits :
        (0 < args.prev_log_index) → term_at at.storage args.prev_log_index ≡ args.prev_log_term
    pub known : (0 < args.prev_log_index) → args.prev_log_term ≡ none → ⊥
    pub stored : Storage C
    pub storing : store_entries at.storage (suc args.prev_log_index) args.entries ≡ ok stored
    pub log : n'.storage.log ≡ stored.log
    pub same_term : current_term n' ≡ current_term at
    pub vote : n'.storage.voted_for ≡ at.storage.voted_for
    pub commit : Follows args at n'
    pub out : n'.sent ≡ at.sent

  -- A leader notes how far a peer has come.
  pub record Counted (sender : String) (reply : AppendEntriesReply) (n n' : Node C S) : Type 0 where
    pub leads : n.state ≡ leader
    pub term : reply.term ≡ current_term n
    pub success : reply.success ≡ true
    pub storage : n'.storage ≡ n.storage
    pub state : n'.state ≡ n.state
    pub matched : n'.match_index ≡ (record_match sender reply.match_index n).match_index
    pub commit : Commits cfg (record_match sender reply.match_index n) n'.commit_index
    pub sent : n'.sent ≡ n.sent

is_live : (a b : Bool) → (not a || not b) ≡ false → (a ≡ true) × (b ≡ true)
is_live true true h = (refl, refl)
is_live true false h = cc
is_live false b h = cc

raised :
    {C S : Type 0} {e : RaftError} {n : Node C S}
    → ◌≡◌ {A = Result RaftError (Node C S)} (raise e) (ok n)
    → ⊥
raised h = cc

module _ {C S : Type 0} (cfg : Config C S) where
  commit_index-follow_commit :
      (m : ℕ) (n : Node C S) {n' : Node C S}
      → follow_commit cfg m n ≡ ok n'
      → (n'.commit_index ≡ n.commit_index)
        ⊎ ((n.commit_index < m) × (n'.commit_index ≡ min m (last_index n.storage)))
  unfolding follow_commit
  commit_index-follow_commit m n {n'} h = elim (Bool-cases (ltb n.commit_index m)) [
    | inl more ↦ inr (
      ground arith,
      commit_index-apply_committed cfg (record n { commit_index = min m (last_index n.storage) })
          (rw (more, follow_commit) at h),
    )
    | inr done ↦ inl (ground arith)
  ]

  match_index-Committed :
      (n : Node C S) {n' : Node C S} → Committed n n' → n'.match_index ≡ n.match_index
  match_index-Committed n c = ap (λ (m : Node C S). m.match_index) c

module _ {C S : Type 0} (cfg : Config C S) (T : Scope) where
  Stored-accept :
      (args : AppendEntriesArgs C) (n m : Node C S) {r : Node C S × AppendEntriesReply}
      → Plain cfg T n m
      → args.term ≤ current_term m
      → ltb args.term (current_term m) ≡ false
      → m.state ≡ follower
      → prev_conflict cfg args m ≡ none
      → accept_entries cfg args m ≡ ok r
      → Stored cfg T args n r.0
        × (r.1 ≡ append_done cfg r.0 (args.prev_log_index + length args.entries))
  unfolding accept_entries
  Stored-accept args n m {r} reached past valid state fits h =
      let (storage, stored, rest) =
        bind-eq-ok (store_entries m.storage (suc args.prev_log_index) args.entries) _ h in
      let m' : Node C S = record m { storage = storage } in
      let (n', followed, last) = bind-eq-ok (follow_commit cfg args.leader_commit m') _ rest in
      let c = Committed-follow cfg args.leader_commit m' followed in
      let b = SameBallot-store_entries m.storage (suc args.prev_log_index) args.entries stored in
      let e : r.0 ≡ n' = ground arith in
      let reply : r.1 ≡ append_done cfg n' (args.prev_log_index + length args.entries) =
        ground arith in
      rw (e, reply)
        (
          record {
            at = m;
            reached = reached;
            follows = state;
            now = ground arith;
            state = (Committed-SameRole m' c).state ∙ state;
            fits = λ inside.
                let (t, found, sent) = prev_fits cfg args m fits inside in found ∙ sym sent;
            known = λ inside gone.
                let (t, found, sent) = prev_fits cfg args m fits inside in
                no_term (sym gone ∙ sent);
            stored = storage;
            storing = stored;
            log = ap (λ (s : Storage C). s.log) (Committed-storage m' c);
            same_term = (Committed-SameRole m' c).ballot.term ∙ b.term;
            vote = (Committed-SameRole m' c).ballot.vote ∙ b.vote;
            commit =
                rw (Committed-storage m' c)
                  (commit_index-follow_commit cfg args.leader_commit m' followed);
            out = (Committed-SameRole m' c).sent;
          },
          refl,
        )

module _ {C S : Type 0} (cfg : Config C S) (T : Scope) (peers : All T.reach cfg.peer_ids) where
  -- what handling entries makes of a node, with its answer
  abbrev Handled : AppendEntriesArgs C → Node C S → Node C S × AppendEntriesReply → Type 0
  Handled args n r =
      (Plain cfg T n r.0 × (r.1.success ≡ false))
      ⊎ (Stored cfg T args n r.0
          × (r.1 ≡ append_done cfg r.0 (args.prev_log_index + length args.entries)))

  refused :
      {n m : Node C S} {a : AppendEntriesReply} (args : AppendEntriesArgs C)
      {r : Node C S × AppendEntriesReply}
      → Plain cfg T n m
      → a.success ≡ false
      → ◌≡◌ {A = Result RaftError (Node C S × AppendEntriesReply)} (ok (m, a)) (ok r)
      → Handled args n r
  refused {n} {m} {a} args {r} s f h =
      let e : r.0 ≡ m = ground arith in let e' : r.1 ≡ a = ground arith in inl (rw e s, rw e' f)

  prev_conflict-refuses :
      (args : AppendEntriesArgs C) (m : Node C S) (a : AppendEntriesReply)
      → prev_conflict cfg args m ≡ some a
      → a.success ≡ false
  unfolding prev_conflict
  prev_conflict-refuses args m a h = ground arith

  term-follow_leader :
      (leader_id : String) (now : ℕ) (m : Node C S)
      → current_term (follow_leader cfg leader_id now m) ≡ current_term m
  unfolding follow_leader reset_election_deadline
  term-follow_leader leader_id now m = refl

  append_entries-Handled :
      (args : AppendEntriesArgs C) (now : ℕ) (n : Node C S) {r : Node C S × AppendEntriesReply}
      → handle_append_entries cfg args now n ≡ ok r
      → Handled args n r
  unfolding handle_append_entries replicate
  append_entries-Handled args now n {r} h =
      let n' = adopt_term cfg args.term now n in
      let m = follow_leader cfg args.leader_id now n' in
      let adopted = adopt_term-Plain cfg T args.term now n in
      let followed =
        Plain-after cfg T (adopt_term-Quiet cfg T args.term now n) adopted
          (follow_leader-Plain cfg T args.leader_id now n') in
      elim (Bool-cases (ltb args.term (current_term n'))) [
        | inl stale ↦ refused args adopted refl (rw (stale, handle_append_entries) at h)
        | inr valid ↦
            let e = rw (valid, handle_append_entries) at h in
            elim (Option-cases (prev_conflict cfg args m)) [
              | inr (refusal, c) ↦
                  refused args followed (prev_conflict-refuses args m refusal c)
                    (rw (c, replicate) at e)
              | inl fits ↦ inr (
                  Stored-accept cfg T args n m followed
                    (rw (term-follow_leader args.leader_id now n')
                      (adopt_term_le cfg T args.term now n))
                    (rw (term-follow_leader args.leader_id now n') valid)
                    (state-follow_leader cfg args.leader_id now n') fits
                    (rw (fits, replicate) at e))
            ]
      ]

  Counted-note :
      (sender : String) (reply : AppendEntriesReply) (n : Node C S) {n' : Node C S}
      → n.state ≡ leader
      → reply.term ≡ current_term n
      → reply.success ≡ true
      → note_match cfg sender reply.match_index n ≡ ok n'
      → Counted cfg T sender reply n n'
  unfolding note_match
  Counted-note sender reply n {n'} lead now success h =
      let seen = record_match sender reply.match_index n in
      elim (Option-cases (get sender seen.match_index)) [
        | inl missing ↦ absurd (raised (rw (missing, note_match) at h))
        | inr (k, e) ↦
            let next : Node C S = record seen { next_index = put sender (k + 1) seen.next_index } in
            let advanced = rw (e, note_match) at h in
            let c : Committed next n' = Committed-advance cfg next advanced in
            record {
              leads = lead;
              term = now;
              success = success;
              storage = Committed-storage next c;
              state = (Committed-SameRole next c).state;
              matched = match_index-Committed cfg next c;
              commit = advance_commit_index_lem cfg next n' advanced;
              sent = (Committed-SameRole next c).sent;
            }
      ]

  append_entries_reply-Counted :
      (sender : String) (reply : AppendEntriesReply) (now : ℕ) (n : Node C S) {n' : Node C S}
      → T.reach sender
      → handle_append_entries_reply cfg sender reply now n ≡ ok n'
      → Plain cfg T n n' ⊎ Counted cfg T sender reply n n'
  unfolding handle_append_entries_reply
  append_entries_reply-Counted sender reply now n {n'} t h =
      elim (Bool-cases (ltb (current_term n) reply.term)) [
        | inl newer ↦ inl (
            Plain-ok cfg T (become_follower_newer cfg T reply.term now n newer)
              (rw (newer, handle_append_entries_reply) at h))
        | inr older ↦
            elim (Bool-cases (not (is_leader n.state) || not (reply.term == current_term n))) [
              | inl stale ↦ inl (
                  Plain-ok cfg T (Plain-refl cfg T n)
                    (rw (older, stale, handle_append_entries_reply) at h))
              | inr live ↦
                  let (lead, now') = is_live _ _ live in
                  elim (Bool-cases reply.success) [
                    | inl success ↦ inr (
                        Counted-note sender reply n (leads_state n.state lead)
                          ((nat_eq.same_iff reply.term (current_term n)).0 now') success
                          (rw (older, live, success, handle_append_entries_reply) at h))
                    | inr refused ↦ inl (
                        Plain-ok cfg T
                          (note_refusal-Plain cfg T sender _ n t (leads_state n.state lead))
                          (rw (older, live, refused, handle_append_entries_reply) at h))
                  ]
            ]
      ]

  -- What any call makes of a node.
  pub data Turn (event : Event C) (n n' : Node C S) : Type 0 where
    plain : Plain cfg T n n' → Turn event n n'
    grown : Grown cfg T n n' → Turn event n n'
    stored :
        (args : AppendEntriesArgs C) (m : Node C S) (sender : String)
        → Takes event args
        → Stored cfg T args n m
        → T.reach sender
        → n'
          ≡ send cfg sender
              (append_entries_reply (append_done cfg m (args.prev_log_index + length args.entries)))
              m
        → Turn event n n'
    counted :
        (sender : String) (reply : AppendEntriesReply)
        → Tells event sender reply
        → Counted cfg T sender reply n n'
        → Turn event n n'

  answered :
      {event : Event C} (sender : String) (args : AppendEntriesArgs C) (n n' : Node C S)
      (r : Node C S × AppendEntriesReply)
      → Takes event args
      → T.reach sender
      → Handled args n r
      → ◌≡◌ {A = Result RaftError (Node C S)}
          (ok (send cfg sender (append_entries_reply r.1) r.0))
          (ok n')
      → Turn event n n'
  answered sender args n n' r takes t (inl (s, f)) h =
      plain (Plain-ok cfg T (Plain-send cfg T sender (append_entries_reply r.1) t f s) h)
  answered sender args n n' r takes t (inr (s, done)) h =
      let e : n' ≡ send cfg sender (append_entries_reply r.1) r.0 = ground arith in
      stored args r.0 sender takes s t (rw (← done) e)

  counts :
      {event : Event C} (sender : String) (reply : AppendEntriesReply) {n n' : Node C S}
      → Tells event sender reply
      → Plain cfg T n n' ⊎ Counted cfg T sender reply n n'
      → Turn event n n'
  counts sender reply tells (inl s) = plain s
  counts sender reply tells (inr s) = counted sender reply tells s

  receive-Turn :
      (sender recipient : String) (message : Message C) (now : ℕ) (n n' : Node C S)
      → T.reach sender
      → ((args : RequestVoteArgs) → message ≡ request_vote args → T.asks args)
      → receive cfg
          (record { sender_id = sender; recipient_id = recipient; message = message })
          now
          n
        ≡ ok n'
      → Turn
          (received
            (record { sender_id = sender; recipient_id = recipient; message = message })
            now)
          n
          n'
  unfolding receive
  receive-Turn s r (request_vote args) now n n' t q e = plain (
      Plain-ok cfg T (Plain-send cfg T s _ t tt (request_vote-Plain cfg T args now n (q args refl)))
        e)
  receive-Turn s r (request_vote_reply reply) now n n' t q e =
      plain (Plain-ok cfg T (request_vote_reply-Plain cfg T peers reply now n) e)
  receive-Turn s r (append_entries args) now n n' t q e =
      let (r', handled, last) = bind-eq-ok (handle_append_entries cfg args now n) _ e in
      answered s args n n' r' refl t (append_entries-Handled args now n handled) last
  receive-Turn s r (append_entries_reply reply) now n n' t q e =
      counts s reply (refl, refl) (append_entries_reply-Counted s reply now n t e)
  receive-Turn s r (prevote args) now n n' t q e =
      plain (Plain-ok cfg T (Plain-send cfg T s _ t tt (Plain-refl cfg T n)) e)
  receive-Turn s r (prevote_reply reply) now n n' t q e =
      plain (Plain-ok cfg T (prevote_reply-Plain cfg T peers reply now n) e)

  propose-Turn :
      {event : Event C} (command : C) (now : ℕ) (n : Node C S)
      → Turn event n (propose cfg command now n).0
  unfolding propose broadcast_append_entries
  propose-Turn command now n = elim (Bool-cases (is_leader n.state)) [
    | inr follows ↦ plain (rw (follows, propose) (Plain-refl cfg T n))
    | inl leads ↦
        let added : Node C S = record n {
          storage = append n.storage (proposal cfg command n ∷ []);
        } in
        let lead = leads_state n.state leads in
        let b = broadcast-Plain cfg T peers now added lead in
        grown (
          rw (leads, propose)
            (record {
              entry = proposal cfg command n;
              led = lead;
              leads = lead;
              term = refl;
              own = refl;
              log = refl;
              commit = refl;
              vote = refl;
              matched = refl;
              out = record { fresh = b.out.fresh; split = b.out.split; each = b.out.each };
            }))
  ]

  Turn-ok :
      {event : Event C} (n m : Node C S) {n' : Node C S}
      → Turn event n m
      → ◌≡◌ {A = Result RaftError (Node C S)} (ok m) (ok n')
      → Turn event n n'
  Turn-ok n m {n'} a h = let e : n' ≡ m = ground arith in rw e a

  pub step-Turn :
      (event : Event C) (n n' : Node C S)
      → From T event
      → step cfg event n ≡ ok n'
      → Turn event n n'
  unfolding step
  step-Turn (ticked now) n n' f h = Turn-ok n _ (plain (tick-Plain cfg T peers now n)) h
  step-Turn (received e now) n n' f h =
      receive-Turn e.sender_id e.recipient_id e.message now n n' f.0 f.1 h
  step-Turn (proposed command now) n n' f h = Turn-ok n _ (propose-Turn command now n) h

  -- A call only adds to what a node has sent.
  pub step_sends :
      (event : Event C) (n n' : Node C S)
      → From T event
      → step cfg event n ≡ ok n'
      → (xs : List (Envelope C)) × (n'.sent ≡ n.sent ++ xs)
  step_sends event n n' f h = elim (step-Turn event n n' f h) [
    | plain s ↦ (s.out.fresh, s.out.split)
    | grown s ↦ (s.out.fresh, s.out.split)
    | stored args m sender takes s t e ↦
        let o : Out cfg T n s.at = s.reached.out in
        let reply =
          append_entries_reply (append_done cfg m (args.prev_log_index + length args.entries)) in
        (
          o.fresh ++ to_peer cfg T sender reply ∷ [],
          ap (λ (x : Node C S). x.sent) e
              ∙ rw (s.out, o.split) (append_assoc n.sent o.fresh (to_peer cfg T sender reply ∷ [])),
        )
    | counted sender reply tells s ↦ ([], s.sent ∙ sym (append-nil n.sent))
  ]
