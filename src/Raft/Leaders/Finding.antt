-- ===== src/Raft/Leaders/Finding.antt =====
-- What a search for the leader comes to.
use distributed_transaction.Prelude.{
  ℕ, zero, suc, ◌+◌, ◌≤◌, ◌<◌, ◌≡◌, refl, sym, String, string_eq, eq_iff, ◌==◌, Bool, true, false,
  ◌&&◌, Option, none, some, List, [], ◌∷◌, contains, leb, leb→le, Bool-cases, Option-cases, inl,
  inr, arith,
}
use distributed_transaction.Raft.Cluster.{ClusterConfig, IsMember}
use distributed_transaction.Raft.Leaders.{
  RaftCluster, leads, first_leader, is_cached, look, poll, find_leader,
}

no_name : {v : String} → ◌≡◌ {A = Option String} none (some v) → ⊥
no_name h = cc

same_name : {u v : String} → ◌≡◌ {A = Option String} (some u) (some v) → u ≡ v
same_name h = cc

both_true : (a b : Bool) → (a && b) ≡ true → (a ≡ true) × (b ≡ true)
both_true true b h = (refl, h)
both_true false b h = cc

module _ {C S : Type 0} where
  first_leader-some :
      (vs : List String) (s : RaftCluster C S) (v : String)
      → first_leader vs s ≡ some v
      → (contains v vs ≡ true) × (leads s v ≡ true)
  unfolding first_leader
  first_leader-some [] s v h = absurd (no_name h)
  first_leader-some (u ∷ us) s v h = elim (Bool-cases (leads s u)) [
    | inl here ↦ let e = same_name (rw here at h) in (rw ((eq_iff u v).1 e) refl, rw (← e) here)
    | inr there ↦ let (a, b) = first_leader-some us s v (rw there at h) in (ground arith, b)
  ]

  first_leader-none :
      (vs : List String) (s : RaftCluster C S)
      → first_leader vs s ≡ none
      → (v : String) → contains v vs ≡ true
      → leads s v ≡ false
  unfolding first_leader
  first_leader-none [] s h v m = cc
  first_leader-none (u ∷ us) s h v m = elim (Bool-cases (leads s u)) [
    | inl here ↦ absurd (no_name (sym (rw here at h)))
    | inr there ↦ elim (Bool-cases (u == v)) [
      | inl e ↦ rw (← (eq_iff u v).0 e) there
      | inr e ↦ first_leader-none us s (rw there at h) v (rw e at m)
    ]
  ]

module _ {C S : Type 0} (c : ClusterConfig C S) where
  -- the leader that is named is a member that is alive and leads, and it is noted; where none is
  -- named, no member does
  abbrev pub Sees : RaftCluster C S → Option String → Type 0
  Sees s none = (v : String) → IsMember c v → leads s v ≡ false
  Sees s (some v) = IsMember c v × (leads s v ≡ true) × (s.last_known_leader ≡ some v)

  cached-Sees :
      (s : RaftCluster C S) (o : Option String)
      → s.last_known_leader ≡ o
      → is_cached c o s ≡ true
      → Sees s o
  cached-Sees s none e h = cc
  cached-Sees s (some v) e h =
      let (m, l) = both_true (contains v c.node_ids) (leads s v) h in (m, l, e)

  pub look-Sees : (s : RaftCluster C S) → Sees (look c s).0 (look c s).1
  unfolding look
  look-Sees s = elim (Bool-cases (is_cached c s.last_known_leader s)) [
    | inl cached ↦ rw cached (cached-Sees s s.last_known_leader refl cached)
    | inr other ↦ elim (Option-cases (first_leader c.node_ids s)) [
      | inl missing ↦ rw (other, missing) (first_leader-none c.node_ids s missing)
      | inr (v, found) ↦
          rw (other, found) (let (m, l) = first_leader-some c.node_ids s v found in (m, l, refl))
    ]
  ]

  module _ (clock : ℕ → ℕ) (others : ℕ → RaftCluster C S → RaftCluster C S) where
    -- an answer of a search with a deadline, from a turn on
    abbrev pub Answers : ℕ → ℕ → ℕ × RaftCluster C S × Option String → Type 0
    Answers deadline k (k', s, none) =
        (k < k') × Sees s none × ((j : ℕ) × (k' ≡ suc j) × (deadline ≤ clock j))
    Answers deadline k (k', s, some v) = (k < k') × Sees s (some v)

    Answers-later :
        (deadline k : ℕ) (r : ℕ × RaftCluster C S × Option String)
        → Answers deadline (suc k) r
        → Answers deadline k r
    Answers-later deadline k (k', s, none) (a, b, j) = (omega arith, b, j)
    Answers-later deadline k (k', s, some v) (a, b) = (omega arith, b)

    abbrev pub Ends : ℕ → ℕ → ℕ → RaftCluster C S → Type 0
    Ends deadline k fuel s =
        (r : ℕ × RaftCluster C S × Option String) × (poll c clock others deadline k fuel s ≡ some r)
        × Answers deadline k r

    later-Ends :
        (deadline k fuel : ℕ) (s : RaftCluster C S)
        → (look c (others k s)).1 ≡ none
        → leb deadline (clock k) ≡ false
        → Ends deadline (suc k) fuel (look c (others k s)).0
        → Ends deadline k (suc fuel) s
    unfolding poll
    later-Ends deadline k fuel s missing early (r, e, a) =
        (r, rw (missing, early, poll) e, Answers-later deadline k r a)

    look-Ends :
        (deadline k fuel : ℕ) (s : RaftCluster C S)
        → ((s' : RaftCluster C S) → clock k < deadline → Ends deadline (suc k) fuel s')
        → Ends deadline k (suc fuel) s
    unfolding poll
    look-Ends deadline k fuel s rest =
        let seen = look c (others k s) in
        elim (Option-cases seen.1) [
          | inr (v, found) ↦ (
            (suc k, seen.0, some v),
            rw (found, poll) refl,
            (omega arith, rw found at (look-Sees (others k s))),
          )
          | inl missing ↦ elim (Bool-cases (leb deadline (clock k))) [
            | inl late ↦ (
              (suc k, seen.0, none),
              rw (missing, late, poll) refl,
              (
                omega arith,
                rw missing at (look-Sees (others k s)),
                (k, refl, leb→le deadline (clock k) late),
              ),
            )
            | inr early ↦ later-Ends deadline k fuel s missing early (rest seen.0 (ground arith))
          ]
        ]

    pub poll_total :
        (deadline k fuel : ℕ) (s : RaftCluster C S)
        → ((j : ℕ) → clock j < clock (suc j))
        → deadline ≤ clock k + fuel
        → Ends deadline k (suc fuel) s
    poll_total deadline k zero s grows enough =
        look-Ends deadline k zero s (λ s' early. absurd (omega arith))
    poll_total deadline k (suc fuel) s grows enough =
        look-Ends deadline k (suc fuel) s
          (λ s' early. poll_total deadline (suc k) fuel s' grows (omega (arith, grows k)))

    -- Where the clock advances from turn to turn, whatever the threads do in between, `find_leader`
    -- ends after at most one turn more than its timeout counts. The node that it names is a node of
    -- the cluster that is alive and leads when it is looked at, and the cluster notes it; where it
    -- names none, the timeout has passed and no node that is alive leads in its last look.
    pub find_leader_total :
        (timeout k : ℕ) (s : RaftCluster C S)
        → ((j : ℕ) → clock j < clock (suc j))
        → (r : ℕ × RaftCluster C S × Option String) × (find_leader c clock others timeout k
              (suc timeout)
              s
            ≡ some r)
          × Answers (clock k + timeout) (suc k) r
    unfolding find_leader
    find_leader_total timeout k s grows =
        poll_total (clock k + timeout) (suc k) timeout s grows (omega (arith, grows k))
