-- ===== src/Raft/Election/Safety.antt =====
-- Election safety: in every state that the cluster can reach, a term has at most one leader.
use distributed_transaction.Prelude.{
  Distinct, All, All-mono, ℕ, ◌+◌, ◌/◌, ◌≤◌, ◌≡◌, refl, sym, ◌∙◌, String, string_eq, eq_iff, ◌==◌,
  false, some, List, arith, discard, length, Bool-cases, inl, inr, ok,
}
use distributed_transaction.Raft.Types.{leader}
use distributed_transaction.Raft.Node.{Node, current_term, reset_election_deadline}
use distributed_transaction.Raft.Driver.{Event, received, step}
use distributed_transaction.Raft.Driver.Ballots.{Advances, Advances-refl, step-Advances}
use distributed_transaction.Raft.Election.Quorum.{Within, majorities_meet}
use distributed_transaction.Raft.Election.Honest.{Votes, TrueEnvelope, Honest, Covers}
use distributed_transaction.Raft.Election.Calls.{TrueEvent, step-Honest}
use distributed_transaction.Raft.Election.Votes.{
  not_cast, some_eq, apart, All-In, All-contains, All-Within, length-discard_once, TrueMessage-mono,
  Honest-mono, Advances-past, Advances-present, Cast,
}
use distributed_transaction.Raft.Cluster.{
  ClusterConfig, World, update, build_config, IsMember, initial, revive, Delivers, called, revived,
  Reachable, built, went,
}

module _ {C S : Type 0} (c : ClusterConfig C S) where
  -- What holds of a reachable state, over the votes cast so far: nodes and messages are honest,
  -- and a voter votes once in a term.
  pub record IsSafe (w : World C S) : Type 1 where
    pub votes : Votes
    pub honest : (v : String) → IsMember c v → Honest (build_config c v) votes (w v)
    pub covers : (v : String) → IsMember c v → Covers (build_config c v) votes (w v).storage
    pub known : (u : String) (t : ℕ) (x : String) → votes u t x → IsMember c u
    pub past : (u : String) (t : ℕ) (x : String) → votes u t x → t ≤ current_term (w u)
    pub present :
        (u : String) (t : ℕ) (x : String)
        → votes u t x
        → t ≡ current_term (w u)
        → (w u).storage.voted_for ≡ some x
    pub unique : (u : String) (t : ℕ) (x y : String) → votes u t x → votes u t y → x ≡ y

  -- a safe state after a move of a node, with the votes of before and the one that the node holds
  abbrev pub Later : {w : World C S} → IsSafe w → String → Node C S → Type 1
  Later {w} safe v n =
      (safe' : IsSafe (update w v n)) × ((u : String) (t : ℕ) (x : String)
        → safe.votes u t x
        → safe'.votes u t x)
      × ((u : String) (t : ℕ) (x : String) → safe'.votes u t x → Cast safe.votes v n.storage u t x)

  module _ {w : World C S} (safe : IsSafe w) (v : String) (n : Node C S)
      (adv : Advances (w v).storage n.storage) where
    abbrev after : Votes
    after = Cast safe.votes v n.storage

    self-past : (t : ℕ) (x : String) → after v t x → t ≤ current_term n
    self-past t x (inl old) = Advances-past t x adv (safe.past v t x old)
    self-past t x (inr (_, e, _)) = omega arith

    self-present :
        (t : ℕ) (x : String) → after v t x → t ≡ current_term n → n.storage.voted_for ≡ some x
    self-present t x (inl old) =
        Advances-present t x adv (safe.past v t x old) (safe.present v t x old)
    self-present t x (inr (_, _, cast)) = λ e. cast

    other_vote :
        (u : String) (t : ℕ) (x : String) → (v == u) ≡ false → after u t x → safe.votes u t x
    other_vote u t x e (inl old) = old
    other_vote u t x e (inr (same, _, _)) = absurd (apart v u e same)

    moved-past : (u : String) (t : ℕ) (x : String) → after u t x → t ≤ current_term (update w v n u)
    moved-past u t x b = elim (Bool-cases (v == u)) [
      | inl e ↦ rw e (self-past t x (rw (← (eq_iff v u).0 e) at b))
      | inr e ↦ rw e (safe.past u t x (other_vote u t x e b))
    ]

    moved-present :
        (u : String) (t : ℕ) (x : String)
        → after u t x
        → t ≡ current_term (update w v n u)
        → (update w v n u).storage.voted_for ≡ some x
    moved-present u t x b = elim (Bool-cases (v == u)) [
      | inl e ↦ rw e (self-present t x (rw (← (eq_iff v u).0 e) at b))
      | inr e ↦ rw e (safe.present u t x (other_vote u t x e b))
    ]

    moved_unique : (u : String) (t : ℕ) (x y : String) → after u t x → after u t y → x ≡ y
    moved_unique u t x y (inl a) (inl b) = safe.unique u t x y a b
    moved_unique u t x y a (inr (e, now, cast)) =
        some_eq (sym (self-present t x (rw e at a) now) ∙ cast)
    moved_unique u t x y (inr (e, now, cast)) b =
        some_eq (sym cast ∙ self-present t y (rw e at b) now)

    moved-known : IsMember c v → (u : String) (t : ℕ) (x : String) → after u t x → IsMember c u
    moved-known m u t x (inl old) = safe.known u t x old
    moved-known m u t x (inr (e, _, _)) = rw e m

    moved-Honest :
        Honest (build_config c v) after n
        → (u : String) → IsMember c u
        → Honest (build_config c u) after (update w v n u)
    moved-Honest h u m = elim (Bool-cases (v == u)) [
      | inl e ↦ rw (e, ← (eq_iff v u).0 e) h
      | inr e ↦
          rw e
            (Honest-mono (build_config c u) safe.votes after (w u) (λ a t x. inl) (safe.honest u m))
    ]

    moved-Covers :
        (u : String) → IsMember c u → Covers (build_config c u) after (update w v n u).storage
    moved-Covers u m = elim (Bool-cases (v == u)) [
      | inl e ↦ rw e (λ x cast. inr (sym ((eq_iff v u).0 e), refl, cast))
      | inr e ↦ rw e (λ x cast. inl (safe.covers u m x cast))
    ]

    -- A move of one node from a safe state ends in a safe state, with no vote lost.
    moved-IsSafe : IsMember c v → Honest (build_config c v) after n → Later safe v n
    moved-IsSafe m h = (
      record {
        votes = after;
        honest = moved-Honest h;
        covers = moved-Covers;
        known = moved-known m;
        past = moved-past;
        present = moved-present;
        unique = moved_unique;
      },
      λ u t x. inl,
      λ u t x a. a,
    )

  delivered-TrueEvent :
      {w : World C S} (safe : IsSafe w) (v : String) (event : Event C)
      → Delivers c w v event
      → TrueEvent (build_config c v) safe.votes event
  delivered-TrueEvent safe v (received e now) (sender, m, sent, to) =
      rw (← to) (All-In (TrueEnvelope safe.votes) e _ (safe.honest sender m).sent sent)
  delivered-TrueEvent safe v _ d = tt

  TrueEvent-mono :
      (v : String) (B B' : Votes)
      → ((u : String) (t : ℕ) (x : String) → B u t x → B' u t x)
      → (event : Event C) → TrueEvent (build_config c v) B event
      → TrueEvent (build_config c v) B' event
  TrueEvent-mono v B B' up (received e now) h = TrueMessage-mono B B' up e.sender_id v e.message h
  TrueEvent-mono v B B' up _ h = tt

  pub called-IsSafe :
      {w : World C S} (safe : IsSafe w) (v : String) (event : Event C) (n : Node C S)
      → IsMember c v
      → Delivers c w v event
      → step (build_config c v) event (w v) ≡ ok n
      → Later safe v n
  called-IsSafe {w} safe v event n m d e =
      let adv = step-Advances (build_config c v) event (w v) n e in
      let B = Cast safe.votes v n.storage in
      moved-IsSafe safe v n adv m (
        step-Honest (build_config c v) B event (w v) n e
          (TrueEvent-mono v safe.votes B (λ u t x. inl) event (delivered-TrueEvent safe v event d))
          (Honest-mono (build_config c v) safe.votes B (w v) (λ u t x. inl) (safe.honest v m))
          (λ x cast. inr (refl, refl, cast)))

  pub revived-IsSafe :
      {w : World C S} (safe : IsSafe w) (v : String) (now : ℕ)
      → IsMember c v
      → Later safe v (revive c v now (w v))
  unfolding revive reset_election_deadline
  revived-IsSafe {w} safe v now m =
      moved-IsSafe safe v (revive c v now (w v)) (Advances-refl (w v).storage) m (record {
        votes = tt;
        distinct = tt;
        quorum = λ e. cc;
        sent =
            (Honest-mono (build_config c v) safe.votes (Cast safe.votes v (w v).storage) (w v)
              (λ u t x. inl) (safe.honest v m)).sent;
      })

  pub initial-IsSafe : (now : ℕ) → IsSafe (initial c now)
  unfolding reset_election_deadline
  initial-IsSafe now = record {
    votes = λ u t x. ⊥;
    honest = λ v m. record { votes = tt; distinct = tt; quorum = λ e. cc; sent = tt };
    covers = λ v m x cast. not_cast cast;
    known = λ u t x. absurd;
    past = λ u t x. absurd;
    present = λ u t x. absurd;
    unique = λ u t x y. absurd;
  }

  Reachable-IsSafe : {w : World C S} → Reachable c w → IsSafe w
  Reachable-IsSafe (built now) = initial-IsSafe now
  Reachable-IsSafe (went r (called w v event n m d e)) =
      (called-IsSafe (Reachable-IsSafe r) v event n m d e).0
  Reachable-IsSafe (went r (revived w v now m)) = (revived-IsSafe (Reachable-IsSafe r) v now m).0

  -- the voters of a leader are a majority of the cluster's nodes
  abbrev pub Voters : Votes → ℕ → String → List String → Type 0
  Voters B t v xs =
      Distinct xs
      × Within xs c.node_ids
      × (length c.node_ids / 2 + 1 ≤ length xs)
      × All (λ u. B u t v) xs

  pub size_of_peers :
      (v : String)
      → Distinct c.node_ids
      → IsMember c v
      → length (discard v c.node_ids) + 1 ≡ length c.node_ids
  size_of_peers v d m = rw m at (length-discard_once v c.node_ids d)

  pub leader-Voters :
      {w : World C S} (safe : IsSafe w) (v : String)
      → Distinct c.node_ids
      → IsMember c v
      → (w v).state ≡ leader
      → Voters safe.votes (current_term (w v)) v (w v).votes_received
  leader-Voters {w} safe v d m lead =
      let h = safe.honest v m in
      let t = current_term (w v) in
      let known =
        All-mono (λ u. safe.votes u t v) (λ u. IsMember c u) (w v).votes_received
          (λ u. safe.known u t v) h.votes in
      (
        h.distinct,
        All-Within c.node_ids (w v).votes_received known,
        rw (← size_of_peers v d m) (h.quorum lead),
        h.votes,
      )

  -- two candidates with majorities in one term are one
  pub one_leader :
      {w : World C S} (safe : IsSafe w) (t : ℕ) (x y : String) (xs ys : List String)
      → Voters safe.votes t x xs
      → Voters safe.votes t y ys
      → x ≡ y
  one_leader safe t x y xs ys (dx, wx, mx, ax) (dy, wy, my, ay) =
      let (u, here, there) = majorities_meet xs ys c.node_ids dx dy wx wy mx my in
      safe.unique u t x y (All-contains (λ a. safe.votes a t x) u xs ax here)
        (All-contains (λ a. safe.votes a t y) u ys ay there)

  -- In every state that a cluster of nodes with different names can reach, whatever was lost,
  -- delayed, repeated or reordered and whichever nodes were restarted, two of its nodes that lead
  -- in the same term are one node.
  pub election_safety :
      {w : World C S} (v v' : String)
      → Distinct c.node_ids
      → Reachable c w
      → IsMember c v
      → IsMember c v'
      → (w v).state ≡ leader
      → (w v').state ≡ leader
      → current_term (w v) ≡ current_term (w v')
      → v ≡ v'
  election_safety {w} v v' d r m m' lead lead' same =
      let safe = Reachable-IsSafe r in
      one_leader safe (current_term (w v)) v v' (w v).votes_received (w v').votes_received
        (leader-Voters safe v d m lead) (rw (← same) at (leader-Voters safe v' d m' lead'))
