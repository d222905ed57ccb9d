-- ===== src/Raft/Commitment/Sending.antt =====
-- What a call sends, by the node that it leaves, and what it makes of the log, the role, the commit
-- index and the match indices.
use distributed_transaction.Prelude.{
  ℕ, ◌<◌, ◌≤◌, ◌≡◌, refl, sym, ◌∙◌, String, string_eq, false, some, List, [], ◌∷◌, ◌++◌, length,
  map, from_keys, arith, ◌⊎◌, inl, inr, All, All-append, All-mono, Result, ok,
}
use mathlib.Core.List.{append_assoc, append-nil}
use distributed_transaction.Raft.Types.{
  NodeState, follower, leader, is_follower, Message, Envelope, request_vote, request_vote_reply,
  append_entries, append_entries_reply, prevote, prevote_reply, RequestVoteArgs, LogEntry,
  RaftError,
}
use distributed_transaction.Raft.Storage.{last_index, last_term, last_entry_term}
use distributed_transaction.Raft.Node.{Config, Node, current_term, send, send_to_peers}
use distributed_transaction.Raft.Matching.Moves.{Role, Role-term, same, Role-refl, Role-trans}
use distributed_transaction.Raft.Matching.Trails.{slice}

-- neither a request for a vote, nor entries, nor word that entries are stored
abbrev pub IsPlain : {C : Type 0} → Message C → Type 0
IsPlain (append_entries _) = ⊥
IsPlain (request_vote _) = ⊥
IsPlain (append_entries_reply r) = r.success ≡ false
IsPlain _ = Unit

pub not_leader : ◌≡◌ {A = NodeState} follower leader → ⊥
not_leader h = cc

-- who may get a message, and which requests for a vote may be granted
pub record Scope : Type 1 where
  pub reach : String → Type 0
  pub asks : RequestVoteArgs → Type 0

-- the log that a request speaks of is at least as up to date
abbrev pub Outdone : {C : Type 0} → RequestVoteArgs → List (LogEntry C) → Type 0
Outdone args log =
    (last_entry_term log < args.last_log_term)
    ⊎ ((args.last_log_term ≡ last_entry_term log) × (length log ≤ args.last_log_index))

module _ {C S : Type 0} (T : Scope) where
  -- where a node's vote comes from: it has it from before, stands for election, or grants a request
  pub data Polled (me : String) (n n' : Node C S) (x : String) : Type 0 where
    kept : current_term n' ≡ current_term n → n.storage.voted_for ≡ some x → Polled me n n' x
    stands : current_term n < current_term n' → x ≡ me → Polled me n n' x
    granted :
        (args : RequestVoteArgs)
        → T.asks args
        → args.term ≡ current_term n'
        → args.candidate_id ≡ x
        → Outdone args n.storage.log
        → Polled me n n' x

module _ {C S : Type 0} (cfg : Config C S) (T : Scope) where
  -- the request for votes of a node
  abbrev pub request : Node C S → RequestVoteArgs
  request n = record {
    term = current_term n;
    candidate_id = cfg.node_id;
    last_log_index = last_index n.storage;
    last_log_term = last_term n.storage;
  }

  abbrev pub to_peer : String → Message C → Envelope C
  to_peer recipient message = record {
    sender_id = cfg.node_id;
    recipient_id = recipient;
    message = message;
  }

  -- what a node in its state may send
  abbrev pub May : ℕ → Node C S → Message C → Type 0
  May t n (append_entries args) = (n.state ≡ leader) × (k : ℕ) × (args ≡ slice cfg n k)
  May t n (request_vote args) =
      (is_follower n.state ≡ false) × (t < current_term n) × (args ≡ request n)
  May t n (append_entries_reply r) = r.success ≡ false
  May t n _ = Unit

  pub IsPlain-May : (t : ℕ) (n : Node C S) (m : Message C) → IsPlain m → May t n m
  IsPlain-May t n (append_entries _) p = absurd p
  IsPlain-May t n (request_vote _) p = absurd p
  IsPlain-May t n (append_entries_reply r) p = p
  IsPlain-May t n (request_vote_reply _) p = tt
  IsPlain-May t n (prevote _) p = tt
  IsPlain-May t n (prevote_reply _) p = tt

  pub May-earlier : (s t : ℕ) (n : Node C S) → s ≤ t → (m : Message C) → May t n m → May s n m
  May-earlier s t n h (append_entries _) a = a
  May-earlier s t n h (request_vote _) (f, b, e) = (f, omega arith, e)
  May-earlier s t n h (append_entries_reply r) a = a
  May-earlier s t n h (request_vote_reply _) a = tt
  May-earlier s t n h (prevote _) a = tt
  May-earlier s t n h (prevote_reply _) a = tt

  -- the new envelopes are the node's own, go to certain nodes, and hold certain messages
  abbrev pub Fresh : (Message C → Type 0) → Envelope C → Type 0
  Fresh P e = (e.sender_id ≡ cfg.node_id) × T.reach e.recipient_id × P e.message

  pub record Sends (P : Message C → Type 0) (n n' : Node C S) : Type 0 where
    pub fresh : List (Envelope C)
    pub split : n'.sent ≡ n.sent ++ fresh
    pub each : All (Fresh P) fresh

  abbrev pub Out : Node C S → Node C S → Type 0
  Out n n' = Sends (May (current_term n) n') n n'

  abbrev pub Quiet : Node C S → Node C S → Type 0
  Quiet = Sends IsPlain

  -- the match indices of a leader: those of before, or of its election
  abbrev pub Tallies : Node C S → Node C S → Type 0
  Tallies n n' =
      ((n.state ≡ leader) × (current_term n' ≡ current_term n) × (n'.match_index ≡ n.match_index))
      ⊎ (n'.match_index ≡ from_keys cfg.peer_ids 0 [])

  -- a call that stores nothing and counts nothing
  pub record Plain (n n' : Node C S) : Type 0 where
    pub log : n'.storage.log ≡ n.storage.log
    pub role : Role n n'
    pub commit : n'.commit_index ≡ n.commit_index
    pub matched : n'.state ≡ leader → Tallies n n'
    pub out : Out n n'
    pub polled : (x : String) → n'.storage.voted_for ≡ some x → Polled T cfg.node_id n n' x

  pub Sends-same : (P : Message C → Type 0) (n n' : Node C S) → n'.sent ≡ n.sent → Sends P n n'
  Sends-same P n n' e = record { fresh = []; split = e ∙ sym (append-nil n.sent); each = tt }

  pub Sends-mono :
      (P Q : Message C → Type 0) {n n' : Node C S}
      → ((x : Message C) → P x → Q x)
      → Sends P n n'
      → Sends Q n n'
  Sends-mono P Q f a = record {
    fresh = a.fresh;
    split = a.split;
    each = All-mono (Fresh P) (Fresh Q) a.fresh (λ x (s, t, p). (s, t, f x.message p)) a.each;
  }

  pub Sends-trans :
      (P : Message C → Type 0) {n m u : Node C S} → Sends P n m → Sends P m u → Sends P n u
  Sends-trans P {n} a b = record {
    fresh = a.fresh ++ b.fresh;
    split = b.split ∙ rw a.split (append_assoc n.sent a.fresh b.fresh);
    each = All-append (Fresh P) a.fresh b.fresh a.each b.each;
  }

  pub Out-Quiet : {n n' : Node C S} → Quiet n n' → Out n n'
  Out-Quiet {n} {n'} q =
      Sends-mono IsPlain (May (current_term n) n') (IsPlain-May (current_term n) n') q

  pub Plain-refl : (n : Node C S) → Plain n n
  Plain-refl n = record {
    log = refl;
    role = Role-refl n;
    commit = refl;
    matched = λ lead. inl (lead, refl, refl);
    out = Sends-same (May (current_term n) n) n n refl;
    polled = λ x. kept refl;
  }

  pub Plain-after : {n m u : Node C S} → Quiet n m → Plain n m → Plain m u → Plain n u
  Plain-after {n} {m} {u} q a b = record {
    log = b.log ∙ a.log;
    role = Role-trans a.role b.role;
    commit = b.commit ∙ a.commit;
    matched = λ lead. joined (b.matched lead);
    out =
        Sends-trans (May (current_term n) u)
          (Sends-mono IsPlain (May (current_term n) u) (IsPlain-May (current_term n) u) q)
          (Sends-mono (May (current_term m) u) (May (current_term n) u)
            (May-earlier (current_term n) (current_term m) u (Role-term a.role)) b.out);
    polled = λ x h. traced x (b.polled x h);
  }
    where
      first :
          (n'' : Node C S)
          → Tallies n m
          → current_term n'' ≡ current_term m
          → n''.match_index ≡ m.match_index
          → Tallies n n''
      first n'' (inl (l, t, e)) t' e' = inl (l, t' ∙ t, e' ∙ e)
      first n'' (inr e) t' e' = inr (e' ∙ e)

      joined : Tallies m u → Tallies n u
      joined (inl (l, t, e)) = first u (a.matched l) t e
      joined (inr e) = inr e

      from_first :
          (x : String)
          → current_term u ≡ current_term m
          → Polled T cfg.node_id n m x
          → Polled T cfg.node_id n u x
      from_first x t (kept t' e) = kept (t ∙ t') e
      from_first x t (stands h e) = stands (omega arith) e
      from_first x t (granted args q t' e o) = granted args q (t' ∙ sym t) e o

      traced : (x : String) → Polled T cfg.node_id m u x → Polled T cfg.node_id n u x
      traced x (kept t e) = from_first x t (a.polled x e)
      traced x (stands h e) = stands (omega (arith, Role-term a.role)) e
      traced x (granted args q t e o) = granted args q t e (rw a.log at o)

  -- nothing that counts has changed, but that the node may have become a follower
  pub Plain-calm :
      (n n' : Node C S)
      → n'.storage.log ≡ n.storage.log
      → current_term n' ≡ current_term n
      → n'.storage.voted_for ≡ n.storage.voted_for
      → (n'.state ≡ n.state) ⊎ (n'.state ≡ follower)
      → n'.commit_index ≡ n.commit_index
      → n'.match_index ≡ n.match_index
      → Quiet n n'
      → Plain n n'
  Plain-calm n n' l t p (inl s) k m q = record {
    log = l;
    role = same t (λ h. ground arith) (λ h. ground arith);
    commit = k;
    matched = λ lead. inl (sym s ∙ lead, t, m);
    out = Out-Quiet q;
    polled = λ x h. kept t (sym p ∙ h);
  }
  Plain-calm n n' l t p (inr s) k m q = record {
    log = l;
    role = same t (λ h. ground arith) (λ h. ground arith);
    commit = k;
    matched = λ lead. absurd (not_leader (sym s ∙ lead));
    out = Out-Quiet q;
    polled = λ x h. kept t (sym p ∙ h);
  }

  pub Sends-send :
      (P : Message C → Type 0) (to : String) (m : Message C) (n : Node C S)
      → T.reach to
      → P m
      → Sends P n (send cfg to m n)
  Sends-send P to m n t p = record {
    fresh = to_peer to m ∷ [];
    split = refl;
    each = ((refl, t, p), tt);
  }

  pub Sends-peers :
      (P : Message C → Type 0) (m : String → Message C) (n : Node C S)
      → All T.reach cfg.peer_ids
      → ((to : String) → P (m to))
      → Sends P n (send_to_peers cfg m n)
  Sends-peers P m n ts p = record {
    fresh = map (λ peer. to_peer peer (m peer)) cfg.peer_ids;
    split = refl;
    each = to_all cfg.peer_ids ts;
  }
    where
      to_all :
          (vs : List String)
          → All T.reach vs
          → All (Fresh P) (map (λ peer. to_peer peer (m peer)) vs)
      to_all [] a = tt
      to_all (v ∷ vs) (a, rest) = ((refl, a, p v), to_all vs rest)

  -- a plain message after a call
  pub Plain-send :
      (to : String) (m : Message C) {n n' : Node C S}
      → T.reach to
      → IsPlain m
      → Plain n n'
      → Plain n (send cfg to m n')
  Plain-send to m {n} {n'} t p a = record {
    log = a.log;
    role = Role-trans a.role (same refl (λ h. ground arith) (λ h. h));
    commit = a.commit;
    matched = a.matched;
    out =
        Sends-trans (May (current_term n) (send cfg to m n'))
          (Sends-mono (May (current_term n) n') (May (current_term n) (send cfg to m n')) Still
            a.out)
          (Sends-send (May (current_term n) (send cfg to m n')) to m n' t
            (IsPlain-May (current_term n) (send cfg to m n') m p));
    polled = λ x h. still_polled x (a.polled x h);
  }
    where
      Still :
          (x : Message C) → May (current_term n) n' x → May (current_term n) (send cfg to m n') x
      Still (append_entries _) h = h
      Still (request_vote _) h = h
      Still (append_entries_reply r) h = h
      Still (request_vote_reply _) h = tt
      Still (prevote _) h = tt
      Still (prevote_reply _) h = tt

      still_polled :
          (x : String) → Polled T cfg.node_id n n' x → Polled T cfg.node_id n (send cfg to m n') x
      still_polled x (kept t' e) = kept t' e
      still_polled x (stands h e) = stands h e
      still_polled x (granted args q t' e o) = granted args q t' e o

  pub Plain-ok :
      {n m n' : Node C S}
      → Plain n m
      → ◌≡◌ {A = Result RaftError (Node C S)} (ok m) (ok n')
      → Plain n n'
  Plain-ok {n} {m} {n'} a h = let e : n' ≡ m = ground arith in rw e a
