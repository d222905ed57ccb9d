-- ===== src/Raft/Matching/Worlds.antt =====
-- What holds of the logs and the messages of a reachable state.
use distributed_transaction.Prelude.{
  ℕ, ◌≤◌, ◌<◌, ◌≡◌, refl, sym, ◌∙◌, String, string_eq, eq_iff, ◌==◌, true, false, List, length,
  Bool-cases, ◌⊎◌, inl, inr, arith, All, All-mono,
}
use distributed_transaction.Raft.Types.{
  NodeState, leader, follower, candidate, is_candidate, is_follower, LogEntry,
}
use distributed_transaction.Raft.Node.{Node, current_term}
use distributed_transaction.Raft.Election.Votes.{apart}
use distributed_transaction.Raft.Election.Safety.{IsSafe, Voters}
use distributed_transaction.Raft.Cluster.{ClusterConfig, World, update, IsMember}
use distributed_transaction.Raft.Matching.Trails.{Made, Grown, Grown-mono, Sound, Sound-mono}
use distributed_transaction.Raft.Matching.Moves.{Role, later, same}
use distributed_transaction.Raft.Matching.Merge.{Unique}

only_leader : (s : NodeState) → is_follower s ≡ false → is_candidate s ≡ false → s ≡ leader
only_leader leader h k = refl
only_leader candidate h k = cc
only_leader follower h k = cc

module _ {C S : Type 0} where
  -- a node that made an entry in a term has gone on to a later one, or has stood for its election
  abbrev pub Settled : ℕ → Node C S → Type 0
  Settled t n = (t < current_term n) ⊎ ((t ≡ current_term n) × (is_candidate n.state ≡ false))

  pub Settled-Role : (t : ℕ) {n n' : Node C S} → Role n n' → Settled t n → Settled t n'
  Settled-Role t (later a) (inl b) = inl (omega arith)
  Settled-Role t (later a) (inr (b, s)) = inl (omega arith)
  Settled-Role t (same a f g) (inl b) = inl (omega arith)
  Settled-Role t {n} {n'} (same a f g) (inr (b, s)) = inr (
    b ∙ sym a,
    elim (Bool-cases (is_candidate n'.state)) [
      | inl runs ↦ absurd (clash (sym s ∙ g runs))
      | inr other ↦ other
    ],
  )
    where
      clash : false ≡ true → ⊥
      clash h = cc

  -- a node that leads now, and has settled the term, led before
  pub led_still :
      (t : ℕ) {n n' : Node C S}
      → Role n n'
      → Settled t n
      → t ≡ current_term n'
      → n'.state ≡ leader
      → (n.state ≡ leader) × (t ≡ current_term n)
  led_still t (later a) (inl b) e lead = absurd (omega arith)
  led_still t (later a) (inr (b, s)) e lead = absurd (omega arith)
  led_still t (same a f g) (inl b) e lead = absurd (omega arith)
  led_still t {n} {n'} (same a f g) (inr (b, s)) e lead =
      (only_leader n.state (f (rw lead refl)) s, b)

module _ {C S : Type 0} (c : ClusterConfig C S) where
  -- The entries made so far: each by a leader with a majority, and one at a term and a place.
  -- Logs and messages hold such entries only.
  pub record IsMatched (w : World C S) : Type 1 where
    pub safe : IsSafe c w
    pub made : Made C
    pub led :
        (t : ℕ) (x : String) (q : List (LogEntry C))
        → made t x q
        → (xs : List String) × Voters c safe.votes t x xs
    pub unique : Unique made
    pub grown : (v : String) → IsMember c v → Grown made (w v).storage.log
    pub sent : (v : String) → IsMember c v → All (Sound made) (w v).sent
    pub settled : (t : ℕ) (x : String) (q : List (LogEntry C)) → made t x q → Settled t (w x)
    pub longest :
        (t : ℕ) (x : String) (q : List (LogEntry C))
        → made t x q
        → (w x).state ≡ leader
        → t ≡ current_term (w x)
        → length q ≤ length (w x).storage.log

  -- One node moves, and perhaps makes entries.
  module _ {w : World C S} (mt : IsMatched w) (v : String) (n : Node C S) (new : Made C) where
    abbrev pub both : Made C
    both t x q = mt.made t x q ⊎ new t x q

    pub record Moved : Type 1 where
      pub safe : IsSafe c (update w v n)
      pub more : (u : String) (t : ℕ) (x : String) → mt.safe.votes u t x → safe.votes u t x
      pub own : (t : ℕ) (x : String) (q : List (LogEntry C)) → new t x q → x ≡ v
      pub led :
          (t : ℕ) (x : String) (q : List (LogEntry C))
          → new t x q
          → (xs : List String) × Voters c mt.safe.votes t x xs
      pub unique : Unique both
      pub grown : Grown both n.storage.log
      pub sent : All (Sound both) n.sent
      pub settled : (t : ℕ) (q : List (LogEntry C)) → both t v q → Settled t n
      pub longest :
          (t : ℕ) (q : List (LogEntry C))
          → both t v q
          → n.state ≡ leader
          → t ≡ current_term n
          → length q ≤ length n.storage.log

    module _ (h : Moved) where
      Voters-later :
          (t : ℕ) (x : String) (q : List (LogEntry C))
          → both t x q
          → (xs : List String) × Voters c h.safe.votes t x xs
      Voters-later t x q b =
          let (xs, (dx, wx, mx, ax)) = old t x q b in
          (
            xs,
            (
              dx,
              wx,
              mx,
              All-mono (λ u. mt.safe.votes u t x) (λ u. h.safe.votes u t x) xs (λ u. h.more u t x)
                  ax,
            ),
          )
        where
          old :
              (t : ℕ) (x : String) (q : List (LogEntry C))
              → both t x q
              → (xs : List String) × Voters c mt.safe.votes t x xs
          old t x q (inl o) = mt.led t x q o
          old t x q (inr o) = h.led t x q o

      elsewhere :
          (t : ℕ) (u : String) (q : List (LogEntry C))
          → (v == u) ≡ false
          → both t u q
          → mt.made t u q
      elsewhere t u q e (inl o) = o
      elsewhere t u q e (inr o) = absurd (apart v u e (h.own t u q o))

      moved-Grown : (u : String) → IsMember c u → Grown both (update w v n u).storage.log
      moved-Grown u m = elim (Bool-cases (v == u)) [
        | inl e ↦ rw e h.grown
        | inr e ↦ rw e (Grown-mono mt.made both (λ t x q. inl) (w u).storage.log (mt.grown u m))
      ]

      moved-sent : (u : String) → IsMember c u → All (Sound both) (update w v n u).sent
      moved-sent u m = elim (Bool-cases (v == u)) [
        | inl e ↦ rw e h.sent
        | inr e ↦ rw e (Sound-mono mt.made both (λ t x q. inl) (w u).sent (mt.sent u m))
      ]

      moved-Settled :
          (t : ℕ) (u : String) (q : List (LogEntry C)) → both t u q → Settled t (update w v n u)
      moved-Settled t u q b = elim (Bool-cases (v == u)) [
        | inl e ↦ rw e (h.settled t q (rw (← (eq_iff v u).0 e) at b))
        | inr e ↦ rw e (mt.settled t u q (elsewhere t u q e b))
      ]

      moved-longest :
          (t : ℕ) (u : String) (q : List (LogEntry C))
          → both t u q
          → (update w v n u).state ≡ leader
          → t ≡ current_term (update w v n u)
          → length q ≤ length (update w v n u).storage.log
      moved-longest t u q b = elim (Bool-cases (v == u)) [
        | inl e ↦ rw e (h.longest t q (rw (← (eq_iff v u).0 e) at b))
        | inr e ↦ rw e (mt.longest t u q (elsewhere t u q e b))
      ]

      -- the matched state after the move, with its votes and the entries made
      pub moved-IsMatched :
          (mt' : IsMatched (update w v n)) × ((t : ℕ) (x : String) (q : List (LogEntry C))
            → both t x q
            → mt'.made t x q)
          × ((t : ℕ) (x : String) (q : List (LogEntry C)) → mt'.made t x q → both t x q)
          × ((u : String) (t : ℕ) (x : String) → h.safe.votes u t x → mt'.safe.votes u t x)
          × ((u : String) (t : ℕ) (x : String) → mt'.safe.votes u t x → h.safe.votes u t x)
      moved-IsMatched = (
        record {
          safe = h.safe;
          made = both;
          led = Voters-later;
          unique = h.unique;
          grown = moved-Grown;
          sent = moved-sent;
          settled = moved-Settled;
          longest = moved-longest;
        },
        λ t x q a. a,
        λ t x q a. a,
        λ u t x a. a,
        λ u t x a. a,
      )
