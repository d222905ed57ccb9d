-- ===== src/Raft/Commitment/Completeness.antt =====
-- Leader completeness: what a majority has stored for a leader stands in the logs of all later
-- leaders.
use distributed_transaction.Prelude.{
  Distinct, ℕ, zero, suc, ◌+◌, ◌/◌, ◌≤◌, ◌<◌, ◌≡◌, String, List, length, arith, inl, inr, All,
}
use distributed_transaction.Raft.Types.{LogEntry}
use distributed_transaction.Raft.Storage.{last_entry_term}
use distributed_transaction.Raft.Election.Quorum.{Within, majorities_meet}
use distributed_transaction.Raft.Election.Votes.{All-contains}
use distributed_transaction.Raft.Election.Honest.{Votes}
use distributed_transaction.Raft.Matching.Trails.{Made, Grown}
use distributed_transaction.Raft.Commitment.Prefixes.{
  Prefix, Prefix-trans, Chain, Chain-length, length-Prefix, All-Prefix,
}
use distributed_transaction.Raft.Commitment.History.{
  Ruled, Acked, Heeded, Bounded, UpToDate, Loyal, last_entry_term_le, term_inside, made_whole,
}

abbrev pub IsMajority : List String → List String → Type 0
IsMajority ids xs = Distinct xs × Within xs ids × (length ids / 2 + 1 ≤ length xs)

module _ {C : Type 0} (ruled : Ruled C) (acked : Acked C) where
  -- the node has stored at least these entries for the leader of the term
  abbrev pub Holds : ℕ → List (LogEntry C) → String → Type 0
  Holds t q u = (p : List (LogEntry C)) × acked u t p × Prefix q p

  -- Entries that end with one of their leader's term, and that a majority holds.
  pub record IsCommitted (ids : List String) (t : ℕ) (q : List (LogEntry C)) : Type 0 where
    pub last : last_entry_term q ≡ t
    pub inside : 0 < length q
    pub leader : String
    pub log : List (LogEntry C)
    pub by : ruled t leader log
    pub part : Prefix q log
    pub holders : List String
    pub majority : IsMajority ids holders
    pub held : All (Holds t q) holders

module _ {C : Type 0} (votes : Votes) (term_of : String → ℕ) (made : Made C) (ruled : Ruled C)
    (acked : Acked C) where
  -- A voter of a leader of a term with a log: the leader's log at its election, and the voter's.
  pub record Elector (s : ℕ) (x : String) (log : List (LogEntry C)) (u : String) : Type 0 where
    pub vote : votes u s x
    pub late : s ≤ term_of u
    pub own : List (LogEntry C)
    pub voters : List (LogEntry C)
    pub own_grown : Grown made own
    pub voters_grown : Grown made voters
    pub own_below : last_entry_term own < s
    pub fresh : UpToDate own voters
    pub loyal : Loyal ruled acked u s voters
    pub kept : Prefix own log

  -- What leader completeness rests on.
  pub record Lawful (ids : List String) : Type 0 where
    pub chain :
        (t : ℕ) (x y : String) (l m : List (LogEntry C)) → ruled t x l → ruled t y m → Chain l m
    pub made_ruled : (t : ℕ) (x : String) (q : List (LogEntry C)) → made t x q → ruled t x q
    pub bounded : (t : ℕ) (x : String) (l : List (LogEntry C)) → ruled t x l → Bounded t l
    pub elected :
        (s : ℕ) (x : String) (l : List (LogEntry C))
        → ruled s x l
        → (xs : List String) × IsMajority ids xs × All (Elector s x l) xs

  module _ (ids : List String) (law : Lawful ids) (t : ℕ) (q : List (LogEntry C))
      (k : IsCommitted ruled acked ids t q) where
    q-Bounded : (l : List (LogEntry C)) (τ : ℕ) → Bounded τ l → Prefix q l → t ≤ τ
    q-Bounded l τ b p = rw k.last at (last_entry_term_le τ q (All-Prefix _ q l p b))

    -- the candidate's log began with the entries, if the voter's did
    through_voter :
        (s : ℕ) (x : String) (log : List (LogEntry C)) (u : String) (e : Elector s x log u)
        → ((r : ℕ) → t < r → r < s → Heeded ruled q r)
        → Prefix q e.voters
        → Prefix q e.own
    through_voter s x log u e heeded p =
        let longer = length-Prefix q e.voters p in
        let (y, m) = made_whole made e.voters e.voters_grown (omega (arith, k.inside)) in
        let their = law.made_ruled _ y e.voters m in
        let reached = q-Bounded e.voters _ (law.bounded _ y e.voters their) p in
        elim e.fresh [
          | inl newer ↦
              let (z, own) = made_whole made e.own e.own_grown (term_inside e.own (omega arith)) in
              heeded (last_entry_term e.own) (omega arith) e.own_below z e.own
                (law.made_ruled _ z e.own own)
          | inr (same, long) ↦
              let (z, own) = made_whole made e.own e.own_grown (omega (arith, k.inside)) in
              Prefix-trans q e.voters e.own p (
                Chain-length e.voters e.own
                  (law.chain _ y z e.voters e.own their (rw same at (law.made_ruled _ z e.own own)))
                  long)
        ]

    meets : (s : ℕ) → t < s → ((r : ℕ) → t < r → r < s → Heeded ruled q r) → Heeded ruled q s
    meets s h heeded x l r =
        let (xs, (dx, wx, mx), electors) = law.elected s x l r in
        let (dy, wy, my) = k.majority in
        let (u, here, there) = majorities_meet xs k.holders ids dx dy wx wy mx my in
        let e = All-contains (Elector s x l) u xs electors here in
        let (p, acks, part) = All-contains (Holds ruled acked t q) u k.holders k.held there in
        Prefix-trans q e.own l (through_voter s x l u e heeded (e.loyal t p q acks h part heeded))
          e.kept

    complete_to : (n s : ℕ) → s ≤ n → t < s → Heeded ruled q s
    complete_to zero s b h = absurd (omega arith)
    complete_to (suc n) s b h = meets s h (λ r after before. complete_to n r (omega arith) after)

    -- All leaders of later terms have the entries.
    pub complete : (s : ℕ) → t < s → Heeded ruled q s
    complete s h = complete_to s s (omega arith) h
