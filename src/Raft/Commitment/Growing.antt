-- ===== src/Raft/Commitment/Growing.antt =====
-- What has held goes on holding, as more happens.
use native.Mathlib.Nat.{le_trans}
use distributed_transaction.Prelude.{
  ℕ, ◌≤◌, ◌≡◌, refl, String, string_eq, true, false, List, ◌++◌, arith, ◌⊎◌, inl, inr, All-mono,
  Dict,
}
use distributed_transaction.Raft.Types.{
  is_follower, is_leader, is_candidate, NodeState, LogEntry, Message, append_entries,
  append_entries_reply, request_vote,
}
use distributed_transaction.Raft.Node.{Node}
use distributed_transaction.Raft.Cluster.{ClusterConfig, World}
use distributed_transaction.Raft.Election.Honest.{Votes}
use distributed_transaction.Raft.Matching.Trails.{Made, Grown-mono}
use distributed_transaction.Raft.Matching.Moves.{Role, later, same}
use distributed_transaction.Raft.Matching.Worlds.{Settled-Role, led_still}
use distributed_transaction.Raft.Commitment.Prefixes.{Prefix, Prefix-trans}
use distributed_transaction.Raft.Commitment.History.{Ruled, Acked, Heeded, Loyal}
use distributed_transaction.Raft.Commitment.Completeness.{IsCommitted, Holds, Elector}
use distributed_transaction.Raft.Commitment.States.{
  Bid, Ballot, Rules, Commit, Reached, Tally, Letter,
}

stood_before :
    (s s' : NodeState)
    → (is_leader s' ≡ true → is_follower s ≡ false)
    → (is_candidate s' ≡ true → is_candidate s ≡ true)
    → is_follower s' ≡ false
    → is_follower s ≡ false
stood_before s s' f g h = ground arith

-- what a call makes of a node's log: a node that leads or stands for election keeps it
pub record Onward {C S : Type 0} (n n' : Node C S) : Type 0 where
  pub role : Role n n'
  pub log : is_follower n'.state ≡ false → Prefix n.storage.log n'.storage.log

module _ {C S : Type 0} {n n' : Node C S} (o : Onward n n') where
  pub Bid-Onward :
      (made : Made C) (s : ℕ) (own : List (LogEntry C)) → Bid made s own n → Bid made s own n'
  Bid-Onward made s own b = elim o.role [
    | later h ↦ record {
      grown = b.grown;
      below = b.below;
      past = omega (arith, b.past);
      kept = λ f e. absurd (omega (arith, b.past));
    }
    | same t f g ↦ record {
      grown = b.grown;
      below = b.below;
      past = omega (arith, b.past);
      kept = λ h e.
          Prefix-trans own n.storage.log n'.storage.log
            (b.kept (stood_before n.state n'.state f g h) (omega arith)) (o.log h);
    }
  ]

  pub Rules-Onward : (t : ℕ) (l : List (LogEntry C)) → Rules t l n → Rules t l n'
  Rules-Onward t l (s, p) = (
    Settled-Role t o.role s,
    λ lead now.
        let (led, before) = led_still t o.role s now lead in
        Prefix-trans l n.storage.log n'.storage.log (p led before) (o.log (rw lead refl)),
  )

module _ {C : Type 0} (ruled ruled' : Ruled C) (acked acked' : Acked C)
    (ur : (t : ℕ) (x : String) (l : List (LogEntry C)) → ruled t x l → ruled' t x l)
    (ua : (u : String) (t : ℕ) (p : List (LogEntry C)) → acked u t p → acked' u t p) where
  pub Heeded-anti : (q : List (LogEntry C)) (r : ℕ) → Heeded ruled' q r → Heeded ruled q r
  Heeded-anti q r h y l a = h y l (ur r y l a)

  -- what is stored anew is stored in a later term
  pub Loyal-mono :
      (u : String) (s : ℕ) (l : List (LogEntry C))
      → ((t : ℕ) (p : List (LogEntry C)) → acked' u t p → acked u t p ⊎ (s ≤ t))
      → Loyal ruled acked u s l
      → Loyal ruled' acked' u s l
  Loyal-mono u s l new h t p q a b i heeded = elim (new t p a) [
    | inl before ↦ h t p q before b i (λ r x y. Heeded-anti q r (heeded r x y))
    | inr late ↦ absurd (omega arith)
  ]

  IsCommitted-mono :
      (ids : List String) (t : ℕ) (q : List (LogEntry C))
      → IsCommitted ruled acked ids t q
      → IsCommitted ruled' acked' ids t q
  IsCommitted-mono ids t q k = record {
    last = k.last;
    inside = k.inside;
    leader = k.leader;
    log = k.log;
    by = ur t k.leader k.log k.by;
    part = k.part;
    holders = k.holders;
    majority = k.majority;
    held =
        All-mono (Holds ruled acked t q) (Holds ruled' acked' t q) k.holders
          (λ u (p, a, i). (p, ua u t p a, i)) k.held;
  }

  pub Commit-mono :
      (ids : List String) (t t' k : ℕ) (log : List (LogEntry C))
      → t ≤ t'
      → Commit ids ruled acked t k log
      → Commit ids ruled' acked' t' k log
  Commit-mono ids t t' k log h (inl e) = inl e
  Commit-mono ids t t' k log h (inr x) = inr (record {
    term = x.term;
    entries = x.entries;
    held = IsCommitted-mono ids x.term x.entries x.held;
    past = omega (arith, x.past);
    inside = x.inside;
    same = x.same;
  })

  pub Tally-mono :
      (ids : List String) (v : String) (t : ℕ) (m : Dict String ℕ)
      → Tally ids ruled acked v t m
      → Tally ids ruled' acked' v t m
  Tally-mono ids v t m x = record {
    distinct = x.distinct;
    others = x.others;
    reached = All-mono (Reached ids ruled acked t) (Reached ids ruled' acked' t) m still x.reached;
  }
    where
      still : (p : String × ℕ) → Reached ids ruled acked t p → Reached ids ruled' acked' t p
      still p (inl e) = inl e
      still p (inr (q, a, h)) = inr (q, ua p.0 t q a, h)

  module _ (made made' : Made C)
      (um : (t : ℕ) (x : String) (q : List (LogEntry C)) → made t x q → made' t x q) where
    pub Bid-mono :
        {S : Type 0} (s : ℕ) (own : List (LogEntry C)) (n : Node C S)
        → Bid made s own n
        → Bid made' s own n
    Bid-mono s own n b = record {
      grown = Grown-mono made made' um own b.grown;
      below = b.below;
      past = b.past;
      kept = b.kept;
    }

    pub Letter-mono :
        {S : Type 0} (c : ClusterConfig C S) (w w' : World C S) (u : String)
        → ((s : ℕ) (own : List (LogEntry C)) → Bid made s own (w u) → Bid made s own (w' u))
        → (m : Message C) → Letter c made ruled acked w u m
        → Letter c made' ruled' acked' w' u m
    Letter-mono c w w' u ub (request_vote args) (own, b, size, last) =
        (own, Bid-mono args.term own (w' u) (ub args.term own b), size, last)
    Letter-mono c w w' u ub (append_entries args) (inl gap) = inl gap
    Letter-mono c w w' u ub (append_entries args) (inr x) = inr (record {
      before = x.before;
      size = x.size;
      ends = x.ends;
      grown = Grown-mono made made' um (x.before ++ args.entries) x.grown;
      bounded = x.bounded;
      by = ur args.term u (x.before ++ args.entries) x.by;
      commit =
          Commit-mono c.node_ids args.term args.term args.leader_commit (x.before ++ args.entries)
            (omega arith) x.commit;
    })
    Letter-mono c w w' u ub (append_entries_reply reply) h =
        λ success. let (q, a, k) = h success in (q, ua u reply.term q a, k)
    Letter-mono c w w' u ub _ h = tt

    pub Ballot-mono :
        {S : Type 0} (u : String) (s : ℕ) (n n' : Node C S)
        → ((t : ℕ) (p : List (LogEntry C)) → acked' u t p → acked u t p ⊎ (s ≤ t))
        → ((own : List (LogEntry C)) → Bid made s own n → Bid made s own n')
        → Ballot made ruled acked u s n
        → Ballot made' ruled' acked' u s n'
    Ballot-mono u s n n' new ub b = record {
      own = b.own;
      voters = b.voters;
      bid = Bid-mono s b.own n' (ub b.own b.bid);
      voters_grown = Grown-mono made made' um b.voters b.voters_grown;
      fresh = b.fresh;
      loyal = Loyal-mono u s b.voters new b.loyal;
    }

    -- an elector stays one, of a longer log too
    pub Elector-mono :
        (votes votes' : Votes) (term_of term_of' : String → ℕ) (s : ℕ) (x : String)
        (l l' : List (LogEntry C))
        → ((u : String) (t : ℕ) (y : String) → votes u t y → votes' u t y)
        → ((u : String) → term_of u ≤ term_of' u)
        → ((u : String) (t : ℕ) (p : List (LogEntry C))
            → acked' u t p
            → acked u t p ⊎ (term_of u ≤ t))
        → Prefix l l'
        → (u : String) → Elector votes term_of made ruled acked s x l u
        → Elector votes' term_of' made' ruled' acked' s x l' u
    Elector-mono votes votes' term_of term_of' s x l l' uv ut new longer u e = record {
      vote = uv u s x e.vote;
      late = le_trans e.late (ut u);
      own = e.own;
      voters = e.voters;
      own_grown = Grown-mono made made' um e.own e.own_grown;
      voters_grown = Grown-mono made made' um e.voters e.voters_grown;
      own_below = e.own_below;
      fresh = e.fresh;
      loyal = Loyal-mono u s e.voters (λ t p a. later_than t (new u t p a)) e.loyal;
      kept = Prefix-trans e.own l l' e.kept longer;
    }
      where
        later_than : {A : Type 0} (t : ℕ) → A ⊎ (term_of u ≤ t) → A ⊎ (s ≤ t)
        later_than t (inl a) = inl a
        later_than t (inr h) = inr (le_trans e.late h)
