-- ===== src/Raft/Matching/Steps.antt =====
-- What any call makes of a node's log: nothing, one entry of the leader's own, or a leader's entries.
use distributed_transaction.Prelude.{
  ℕ, suc, ◌<◌, ◌≡◌, refl, sym, ap, ◌∙◌, String, string_eq, nat_eq, true, Option, some, none, [],
  ◌∷◌, ◌++◌, arith, ◌⊎◌, inl, inr, All, All-append, Result, ok, bind-eq-ok, ltb, lt→ltb, Bool-cases,
  Option-cases,
}
use distributed_transaction.Raft.Types.{
  NodeState, follower, candidate, leader, is_leader, LogEntry, Message, request_vote,
  request_vote_reply, append_entries, append_entries_reply, prevote, prevote_reply,
  AppendEntriesArgs, AppendEntriesReply, RaftError,
}
use distributed_transaction.Raft.Storage.{Storage, append, term_at}
use distributed_transaction.Raft.Node.{
  Config, Node, current_term, send, broadcast_append_entries, reset_election_deadline,
}
use distributed_transaction.Raft.Handlers.{handle_prevote, adopt_term, store_entries, same_term}
use distributed_transaction.Raft.Handlers.Frames.{SameBallot-store_entries}
use distributed_transaction.Raft.Append.{
  handle_append_entries, follow_leader, replicate, accept_entries, prev_conflict, follow_commit,
}
use distributed_transaction.Raft.Append.Frames.{
  Committed-storage, Committed-SameRole, Committed-follow,
}
use distributed_transaction.Raft.Driver.{
  Event, ticked, received, proposed, receive, propose, proposal, step,
}
use distributed_transaction.Raft.Matching.Trails.{Made, Grown, Sound}
use distributed_transaction.Raft.Matching.Moves.{
  Role, same, Role-trans, Steady, Steady-refl, Steady-trans, Steady-calm, Steady-ok,
}
use distributed_transaction.Raft.Matching.Calls.{
  send-Steady, broadcast-Steady, adopt_term-Steady, request_vote-Steady, request_vote_reply-Steady,
  prevote_reply-Steady, append_entries_reply-Steady, tick-Steady,
}

-- the event brings in entries
abbrev pub Takes : {C : Type 0} → Event C → AppendEntriesArgs C → Type 0
Takes (received e now) args = e.message ≡ append_entries args
Takes _ args = ⊥

module _ {C S : Type 0} where
  -- A follower of a leader stores its entries after those that the message is to follow.
  pub record Stores (made : Made C) (args : AppendEntriesArgs C) (n n' : Node C S) : Type 0 where
    pub at : Node C S
    pub reached : Steady made n at
    pub state : n'.state ≡ follower
    pub fits :
        (0 < args.prev_log_index) → term_at at.storage args.prev_log_index ≡ args.prev_log_term
    pub known : (0 < args.prev_log_index) → args.prev_log_term ≡ none → ⊥
    pub stored : Storage C
    pub storing : store_entries at.storage (suc args.prev_log_index) args.entries ≡ ok stored
    pub log : n'.storage.log ≡ stored.log
    pub role : Role at n'
    pub sent : All (Sound made) at.sent → All (Sound made) n'.sent

  -- A leader adds an entry of its term.
  pub record Grows (n n' : Node C S) : Type 1 where
    pub entry : LogEntry C
    pub led : n.state ≡ leader
    pub leads : n'.state ≡ leader
    pub term : current_term n' ≡ current_term n
    pub own : entry.term ≡ current_term n
    pub log : n'.storage.log ≡ n.storage.log ++ entry ∷ []
    pub sent :
        (made' : Made C)
        → Grown made' n'.storage.log
        → All (Sound made') n.sent
        → All (Sound made') n'.sent

  pub data Move (made : Made C) (event : Event C) (n n' : Node C S) : Type 1 where
    steady : Steady made n n' → Move made event n n'
    grows : Grows n n' → Move made event n n'
    stores :
        (args : AppendEntriesArgs C)
        → Takes event args
        → Stores made args n n'
        → Move made event n n'

same_term_known : (t : ℕ) (o : Option ℕ) → same_term (some t) o ≡ true → o ≡ some t
same_term_known t none h = cc
same_term_known t (some u) h = ground arith

pub no_term : {t : ℕ} → ◌≡◌ {A = Option ℕ} none (some t) → ⊥
no_term h = cc

pub leads_state : (s : NodeState) → is_leader s ≡ true → s ≡ leader
leads_state leader h = refl
leads_state candidate h = cc
leads_state follower h = cc

some_conflict : {r : AppendEntriesReply} → some r ≡ none → ⊥
some_conflict h = cc

pub Role-follower :
    {C S : Type 0} (n n' : Node C S)
    → current_term n' ≡ current_term n
    → n'.state ≡ follower
    → Role n n'
Role-follower n n' t f = same t (λ h. ground arith) (λ h. ground arith)

module _ {C S : Type 0} (cfg : Config C S) where
  -- the entry before the new ones, where there is one, is that of the message
  pub prev_fits :
      (args : AppendEntriesArgs C) (m : Node C S)
      → prev_conflict cfg args m ≡ none
      → 0 < args.prev_log_index
      → (t : ℕ) × (term_at m.storage args.prev_log_index ≡ some t) × (args.prev_log_term ≡ some t)
  unfolding prev_conflict
  prev_fits args m h inside =
      let e = rw (lt→ltb 0 args.prev_log_index inside, prev_conflict) at h in
      elim (Option-cases (term_at m.storage args.prev_log_index)) [
        | inl missing ↦ absurd (some_conflict (rw (missing, prev_conflict) at e))
        | inr (t, found) ↦ elim (Bool-cases (same_term (some t) args.prev_log_term)) [
          | inl agrees ↦ (t, found, same_term_known t args.prev_log_term agrees)
          | inr differs ↦ absurd (some_conflict (rw (found, differs, prev_conflict) at e))
        ]
      ]

  pub state-follow_leader :
      (leader_id : String) (now : ℕ) (n : Node C S)
      → (follow_leader cfg leader_id now n).state ≡ follower
  unfolding follow_leader reset_election_deadline
  state-follow_leader leader_id now n = refl

module _ {C S : Type 0} (cfg : Config C S) (made : Made C) where
  Stores-accept :
      (args : AppendEntriesArgs C) (n m : Node C S) {r : Node C S × AppendEntriesReply}
      → Steady made n m
      → m.state ≡ follower
      → prev_conflict cfg args m ≡ none
      → accept_entries cfg args m ≡ ok r
      → Stores made args n r.0
  unfolding accept_entries
  Stores-accept args n m {r} reached state fits h =
      let (storage, stored, rest) =
        bind-eq-ok (store_entries m.storage (suc args.prev_log_index) args.entries) _ h in
      let m' : Node C S = record m { storage = storage } in
      let (n', followed, last) = bind-eq-ok (follow_commit cfg args.leader_commit m') _ rest in
      let c = Committed-follow cfg args.leader_commit m' followed in
      let b = SameBallot-store_entries m.storage (suc args.prev_log_index) args.entries stored in
      let e : r.0 ≡ n' = ground arith in
      rw e (record {
        at = m;
        reached = reached;
        state = (Committed-SameRole m' c).state ∙ state;
        fits =
            λ inside. let (t, found, sent) = prev_fits cfg args m fits inside in found ∙ sym sent;
        known = λ inside gone.
            let (t, found, sent) = prev_fits cfg args m fits inside in no_term (sym gone ∙ sent);
        stored = storage;
        storing = stored;
        log = ap (λ (s : Storage C). s.log) (Committed-storage m' c);
        role =
            Role-follower m n' ((Committed-SameRole m' c).ballot.term ∙ b.term)
              ((Committed-SameRole m' c).state ∙ state);
        sent = λ a. rw (Committed-SameRole m' c).sent a;
      })

  follow_leader-Steady :
      (leader_id : String) (now : ℕ) (n : Node C S)
      → Steady made n (follow_leader cfg leader_id now n)
  unfolding follow_leader reset_election_deadline
  follow_leader-Steady leader_id now n = Steady-calm made n _ refl refl (inr refl) refl

  Steady-answer :
      {n m : Node C S} {a : AppendEntriesReply} {r : Node C S × AppendEntriesReply}
      → Steady made n m
      → ◌≡◌ {A = Result RaftError (Node C S × AppendEntriesReply)} (ok (m, a)) (ok r)
      → Steady made n r.0
  Steady-answer {n} {m} {a} {r} s h = let e : r.0 ≡ m = ground arith in rw e s

  -- entries are refused, or stored
  append_entries-Move :
      (args : AppendEntriesArgs C) (now : ℕ) (n : Node C S) {r : Node C S × AppendEntriesReply}
      → handle_append_entries cfg args now n ≡ ok r
      → Steady made n r.0 ⊎ Stores made args n r.0
  unfolding handle_append_entries replicate
  append_entries-Move args now n {r} h =
      let n' = adopt_term cfg args.term now n in
      let m = follow_leader cfg args.leader_id now n' in
      let adopted = adopt_term-Steady cfg made args.term now n in
      let followed = Steady-trans made adopted (follow_leader-Steady args.leader_id now n') in
      elim (Bool-cases (ltb args.term (current_term n'))) [
        | inl stale ↦ inl (Steady-answer adopted (rw (stale, handle_append_entries) at h))
        | inr valid ↦
            let e = rw (valid, handle_append_entries) at h in
            elim (Option-cases (prev_conflict cfg args m)) [
              | inr (refusal, c) ↦ inl (Steady-answer followed (rw (c, replicate) at e))
              | inl fits ↦ inr (
                  Stores-accept args n m followed (state-follow_leader cfg args.leader_id now n')
                    fits (rw (fits, replicate) at e))
            ]
      ]

  propose-Move :
      (command : C) (now : ℕ) (n : Node C S)
      → Steady made n (propose cfg command now n).0 ⊎ Grows n (propose cfg command now n).0
  unfolding propose broadcast_append_entries
  propose-Move command now n = elim (Bool-cases (is_leader n.state)) [
    | inr follows ↦ inl (rw (follows, propose) (Steady-refl made n))
    | inl leads ↦
        let added : Node C S = record n {
          storage = append n.storage (proposal cfg command n ∷ []);
        } in
        inr (
          rw (leads, propose)
            (record {
              entry = proposal cfg command n;
              led = leads_state n.state leads;
              leads = leads_state n.state leads;
              term = refl;
              own = refl;
              log = refl;
              sent = λ made' g a. (broadcast-Steady cfg made' now added).sent g a;
            }))
  ]

  Stores-answer :
      (sender : String) (args : AppendEntriesArgs C) (n m : Node C S) (a : AppendEntriesReply)
      → Stores made args n m
      → Stores made args n (send cfg sender (append_entries_reply a) m)
  Stores-answer sender args n m a s = record {
    at = s.at;
    reached = s.reached;
    state = s.state;
    fits = s.fits;
    known = s.known;
    stored = s.stored;
    storing = s.storing;
    log = s.log;
    role = Role-trans s.role (send-Steady cfg made sender (append_entries_reply a) m tt).role;
    sent = λ b. All-append (Sound made) m.sent _ (s.sent b) (tt, tt);
  }

  answered :
      (sender : String) (args : AppendEntriesArgs C) (n : Node C S) {m n' : Node C S}
      (a : AppendEntriesReply)
      → Steady made n m ⊎ Stores made args n m
      → ◌≡◌ {A = Result RaftError (Node C S)}
          (ok (send cfg sender (append_entries_reply a) m))
          (ok n')
      → Steady made n n' ⊎ Stores made args n n'
  answered sender args n {m} {n'} a (inl s) h = inl (
      Steady-ok made
        (Steady-trans made s (send-Steady cfg made sender (append_entries_reply a) m tt)) h)
  answered sender args n {m} {n'} a (inr s) h =
      let e : n' ≡ send cfg sender (append_entries_reply a) m = ground arith in
      rw e (inr (Stores-answer sender args n m a s))

  Move-Stores :
      {event : Event C} (args : AppendEntriesArgs C) {n n' : Node C S}
      → Takes event args
      → Steady made n n' ⊎ Stores made args n n'
      → Move made event n n'
  Move-Stores args t (inl s) = steady s
  Move-Stores args t (inr s) = stores args t s

  receive-Move :
      (sender recipient : String) (message : Message C) (now : ℕ) (n : Node C S) {n' : Node C S}
      → receive cfg
          (record { sender_id = sender; recipient_id = recipient; message = message })
          now
          n
        ≡ ok n'
      → Move made
          (received
            (record { sender_id = sender; recipient_id = recipient; message = message })
            now)
          n
          n'
  unfolding receive
  receive-Move s r (request_vote args) now n e = steady (
      Steady-ok made
        (Steady-trans made (request_vote-Steady cfg made args now n)
          (send-Steady cfg made s _ _ tt))
        e)
  receive-Move s r (request_vote_reply reply) now n e =
      steady (Steady-ok made (request_vote_reply-Steady cfg made reply now n) e)
  receive-Move s r (append_entries args) now n e =
      let (r', handled, last) = bind-eq-ok (handle_append_entries cfg args now n) _ e in
      Move-Stores args refl (answered s args n r'.1 (append_entries-Move args now n handled) last)
  receive-Move s r (append_entries_reply reply) now n e =
      steady (append_entries_reply-Steady cfg made s reply now n e)
  receive-Move s r (prevote args) now n e = steady (
      Steady-ok made (send-Steady cfg made s (prevote_reply (handle_prevote cfg args now n)) n tt)
        e)
  receive-Move s r (prevote_reply reply) now n e =
      steady (Steady-ok made (prevote_reply-Steady cfg made reply now n) e)

  proposed-Move :
      (command : C) (now : ℕ) (n : Node C S) {n' : Node C S}
      → ◌≡◌ {A = Result RaftError (Node C S)} (ok (propose cfg command now n).0) (ok n')
      → Steady made n n' ⊎ Grows n n'
  proposed-Move command now n {n'} h =
      let e : n' ≡ (propose cfg command now n).0 = ground arith in rw e (propose-Move command now n)

  Move-Grows :
      {event : Event C} {n n' : Node C S} → Steady made n n' ⊎ Grows n n' → Move made event n n'
  Move-Grows (inl s) = steady s
  Move-Grows (inr g) = grows g

  pub step-Move :
      (event : Event C) (n n' : Node C S) → step cfg event n ≡ ok n' → Move made event n n'
  unfolding step
  step-Move (ticked now) n n' h = steady (Steady-ok made (tick-Steady cfg made now n) h)
  step-Move (received e now) n n' h = receive-Move e.sender_id e.recipient_id e.message now n h
  step-Move (proposed command now) n n' h = Move-Grows (proposed-Move command now n h)
