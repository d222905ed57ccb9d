-- ===== src/Raft/Commitment/States.antt =====
-- What holds of every reachable state of a cluster, over what has happened so far.
use distributed_transaction.Prelude.{
  ℕ, ◌≤◌, ◌<◌, ◌≡◌, String, string_eq, ◌==◌, true, false, Option, none, List, ◌++◌, length, take,
  map, Distinct, contains, ◌⊎◌, All, Dict,
}
use distributed_transaction.Raft.Types.{
  leader, is_follower, LogEntry, Message, Envelope, append_entries, append_entries_reply,
  request_vote,
}
use distributed_transaction.Raft.Storage.{last_entry_term}
use distributed_transaction.Raft.Node.{Node, current_term}
use distributed_transaction.Raft.Cluster.{ClusterConfig, World, IsMember}
use distributed_transaction.Raft.Matching.Trails.{Made, Grown, term_in}
use distributed_transaction.Raft.Matching.Worlds.{Settled, IsMatched}
use distributed_transaction.Raft.Commitment.Prefixes.{Prefix}
use distributed_transaction.Raft.Commitment.History.{Ruled, Acked, Heeded, Bounded, UpToDate, Loyal}
use distributed_transaction.Raft.Commitment.Completeness.{IsCommitted, Lawful}

module _ {C S : Type 0} where
  -- a node's log that has been offered for an election of a term
  pub record Bid (made : Made C) (s : ℕ) (own : List (LogEntry C)) (n : Node C S) : Type 0 where
    pub grown : Grown made own
    pub below : last_entry_term own < s
    pub past : s ≤ current_term n
    pub kept : is_follower n.state ≡ false → current_term n ≡ s → Prefix own n.storage.log

  -- what a vote for a node in a term says, as long as the term has no leader
  pub record Ballot (made : Made C) (ruled : Ruled C) (acked : Acked C) (u : String) (s : ℕ)
      (n : Node C S) : Type 0 where
    pub own : List (LogEntry C)
    pub voters : List (LogEntry C)
    pub bid : Bid made s own n
    pub voters_grown : Grown made voters
    pub fresh : UpToDate own voters
    pub loyal : Loyal ruled acked u s voters

  -- the log of a leader of a term is a beginning of its log, as long as it leads
  abbrev pub Rules : ℕ → List (LogEntry C) → Node C S → Type 0
  Rules t l n = Settled t n × (n.state ≡ leader → t ≡ current_term n → Prefix l n.storage.log)

  -- what a node has stored for a leader, it keeps as far as all later leaders have had it
  pub record Keeps (ruled : Ruled C) (t : ℕ) (p : List (LogEntry C)) (n : Node C S) : Type 0 where
    pub past : t ≤ current_term n
    pub leader : String
    pub log : List (LogEntry C)
    pub by : ruled t leader log
    pub part : Prefix p log
    pub kept :
        (q : List (LogEntry C))
        → Prefix q p
        → ((r : ℕ) → t < r → r ≤ current_term n → Heeded ruled q r)
        → Prefix q n.storage.log

module _ {C : Type 0} (ids : List String) (ruled : Ruled C) (acked : Acked C) where
  -- what is committed, up to a commit index, is a beginning of the log
  pub record Certain (t : ℕ) (k : ℕ) (log : List (LogEntry C)) : Type 0 where
    pub term : ℕ
    pub entries : List (LogEntry C)
    pub held : IsCommitted ruled acked ids term entries
    pub past : term ≤ t
    pub inside : k ≤ length entries
    pub same : take k entries ≡ take k log

  abbrev pub Commit : ℕ → ℕ → List (LogEntry C) → Type 0
  Commit t k log = (k ≡ 0) ⊎ Certain t k log

  -- the match index of a peer
  abbrev pub Reached : ℕ → String × ℕ → Type 0
  Reached t p = (p.1 ≡ 0) ⊎ ((q : List (LogEntry C)) × acked p.0 t q × (p.1 ≤ length q))

  pub record Tally (v : String) (t : ℕ) (matches : Dict String ℕ) : Type 0 where
    pub distinct : Distinct (map (λ p. p.0) matches)
    pub others : contains v (map (λ p. p.0) matches) ≡ false
    pub reached : All (Reached t) matches

module _ {C : Type 0} (ids : List String) (made : Made C) (ruled : Ruled C) (acked : Acked C) where
  -- entries come with the whole log of their leader
  pub record Whole (u : String) (t prev : ℕ) (last : Option ℕ) (entries : List (LogEntry C)) (k : ℕ)
      : Type 0 where
    pub before : List (LogEntry C)
    pub size : length before ≡ prev
    pub ends : term_in before prev ≡ last
    pub grown : Grown made (before ++ entries)
    pub bounded : Bounded t (before ++ entries)
    pub by : ruled t u (before ++ entries)
    pub commit : Commit ids ruled acked t k (before ++ entries)

module _ {C S : Type 0} (c : ClusterConfig C S) (made : Made C) (ruled : Ruled C)
    (acked : Acked C) where
  abbrev pub Letter : World C S → String → Message C → Type 0
  Letter w u (request_vote args) =
      (own : List (LogEntry C)) × Bid made args.term own (w u)
      × (length own ≡ args.last_log_index)
      × (last_entry_term own ≡ args.last_log_term)
  Letter w u (append_entries args) =
      ((0 < args.prev_log_index) × (args.prev_log_term ≡ none))
      ⊎ Whole c.node_ids made ruled acked u args.term args.prev_log_index args.prev_log_term
          args.entries args.leader_commit
  Letter w u (append_entries_reply reply) =
      reply.success ≡ true
      → (q : List (LogEntry C)) × acked u reply.term q × (reply.match_index ≤ length q)
  Letter w u _ = Unit

  abbrev pub Posted : World C S → String → Envelope C → Type 0
  Posted w u e = (e.sender_id ≡ u) × ((u == e.recipient_id) ≡ false) × Letter w u e.message

module _ {C S : Type 0} (c : ClusterConfig C S) where
  pub record IsKept (w : World C S) : Type 1 where
    pub matched : IsMatched c w
    pub ruled : Ruled C
    pub acked : Acked C
    pub law :
        Lawful matched.safe.votes (λ u. current_term (w u)) matched.made ruled acked c.node_ids
    pub leads :
        (v : String)
        → IsMember c v
        → (w v).state ≡ leader
        → ruled (current_term (w v)) v (w v).storage.log
          × acked v (current_term (w v)) (w v).storage.log
    pub rules : (t : ℕ) (x : String) (l : List (LogEntry C)) → ruled t x l → Rules t l (w x)
    pub bounded : (v : String) → IsMember c v → Bounded (current_term (w v)) (w v).storage.log
    pub members : (u : String) (t : ℕ) (p : List (LogEntry C)) → acked u t p → IsMember c u
    pub keeps : (u : String) (t : ℕ) (p : List (LogEntry C)) → acked u t p → Keeps ruled t p (w u)
    pub ballots :
        (u : String) (s : ℕ) (x : String)
        → matched.safe.votes u s x
        → ((y : String) (l : List (LogEntry C)) → ruled s y l → ⊥)
        → Ballot matched.made ruled acked u s (w x)
    pub sent : (u : String) → IsMember c u → All (Posted c matched.made ruled acked w u) (w u).sent
    pub tally :
        (v : String)
        → IsMember c v
        → (w v).state ≡ leader
        → Tally c.node_ids ruled acked v (current_term (w v)) (w v).match_index
    pub commit :
        (v : String)
        → IsMember c v
        → Commit c.node_ids ruled acked (current_term (w v)) (w v).commit_index (w v).storage.log
