-- ===== src/Raft/Matching/Safety.antt =====
-- Log matching in every state that the cluster can reach.
use native.Mathlib.Nat.{le_trans}
use distributed_transaction.Prelude.{
  Distinct, ℕ, suc, ◌≤◌, ◌≡◌, refl, sym, ap, ◌∙◌, String, string_eq, Option, some, List, [], ◌∷◌,
  length, length-append, get_elem?, take, Bool-cases, ltb, ltb→lt, ◌⊎◌, inl, inr, arith, All, ok,
}
use distributed_transaction.Raft.Types.{NodeState, leader, follower, LogEntry, AppendEntriesArgs}
use distributed_transaction.Raft.Node.{Node, current_term, reset_election_deadline}
use distributed_transaction.Raft.Driver.{Event, received, step}
use distributed_transaction.Raft.Election.Votes.{All-In, Cast}
use distributed_transaction.Raft.Election.Safety.{
  Later, Voters, called-IsSafe, revived-IsSafe, initial-IsSafe, leader-Voters, one_leader,
}
use distributed_transaction.Raft.Handlers.Storing.{
  get_elem?-append_left, get_elem?-append_at, some_before,
}
use distributed_transaction.Raft.Cluster.{
  ClusterConfig, World, update, build_config, IsMember, Delivers, Reachable, built, went, called,
  revived, initial, revive,
}
use distributed_transaction.Raft.Matching.Trails.{
  term_at-term_in, Made, Grown, Grown-mono, Sound, Sound-mono, Carries,
}
use distributed_transaction.Raft.Matching.Moves.{Role, Role-trans, same, Steady, Steady-calm}
use distributed_transaction.Raft.Matching.Steps.{
  steady, grows, stores, Stores, Grows, Takes, step-Move,
}
use distributed_transaction.Raft.Matching.Merge.{
  take_all, take_front, Unique, same_prefix, stored-Grown,
}
use distributed_transaction.Raft.Matching.Worlds.{
  Settled, Settled-Role, led_still, IsMatched, Moved, moved-IsMatched, both,
}

old : {A : Type 0} → A ⊎ ⊥ → A
old (inl a) = a
old (inr b) = absurd b

not_both : ◌≡◌ {A = NodeState} leader follower → ⊥
not_both h = cc

no_entry : {C : Type 0} (i : ℕ) {e : LogEntry C} → get_elem? [] i ≡ some e → ⊥
no_entry i h = cc

one_entry :
    {C : Type 0} {x y : LogEntry C} → ◌≡◌ {A = Option (LogEntry C)} (some x) (some y) → x ≡ y
one_entry h = cc

module _ {C : Type 0} where
  -- no entry is made
  abbrev nothing : Made C
  nothing t x q = ⊥

  Unique-nothing : (made : Made C) → Unique made → Unique (λ t x q. made t x q ⊎ ⊥)
  Unique-nothing made u t x y p q (inl a) (inl b) e = u t x y p q a b e
  Unique-nothing made u t x y p q (inr a) b e = absurd a
  Unique-nothing made u t x y p q a (inr b) e = absurd b

module _ {C S : Type 0} (c : ClusterConfig C S) where
  -- The matched state after a move of a node: a leader may have made its log, and the node may have
  -- cast a vote.
  pub record Grew {w : World C S} (mt : IsMatched c w) (v : String) (n : Node C S) : Type 1 where
    pub matched : IsMatched c (update w v n)
    pub more_made :
        (t : ℕ) (x : String) (q : List (LogEntry C)) → mt.made t x q → matched.made t x q
    pub new_made :
        (t : ℕ) (x : String) (q : List (LogEntry C))
        → matched.made t x q
        → mt.made t x q
          ⊎ ((n.state ≡ leader) × (t ≡ current_term n) × (x ≡ v) × (q ≡ n.storage.log))
    pub more_votes :
        (u : String) (t : ℕ) (x : String) → mt.safe.votes u t x → matched.safe.votes u t x
    pub new_votes :
        (u : String) (t : ℕ) (x : String)
        → matched.safe.votes u t x
        → Cast mt.safe.votes v n.storage u t x

  module _ {w : World C S} (mt : IsMatched c w) (v : String) (m : IsMember c v) (n : Node C S)
      (later_safe : Later c mt.safe v n) where
    -- the new entries are those of the log that a leader has made
    grew :
        (new : Made C) (h : Moved c mt v n new)
        → ((t : ℕ) (x : String) (q : List (LogEntry C))
            → new t x q
            → (n.state ≡ leader) × (t ≡ current_term n) × (x ≡ v) × (q ≡ n.storage.log))
        → ((u : String) (t : ℕ) (x : String) → later_safe.0.votes u t x → h.safe.votes u t x)
        → ((u : String) (t : ℕ) (x : String) → h.safe.votes u t x → later_safe.0.votes u t x)
        → Grew mt v n
    grew new h own into from =
        let (mt', made_in, made_out, votes_in, votes_out) = moved-IsMatched c mt v n new h in
        record {
          matched = mt';
          more_made = λ t x q a. made_in t x q (inl a);
          new_made = λ t x q a. of_leader t x q (made_out t x q a);
          more_votes = λ u t x a. votes_in u t x (into u t x (later_safe.1 u t x a));
          new_votes = λ u t x a. later_safe.2 u t x (from u t x (votes_out u t x a));
        }
      where
        of_leader :
            (t : ℕ) (x : String) (q : List (LogEntry C))
            → both c mt v n new t x q
            → mt.made t x q
              ⊎ ((n.state ≡ leader) × (t ≡ current_term n) × (x ≡ v) × (q ≡ n.storage.log))
        of_leader t x q (inl a) = inl a
        of_leader t x q (inr b) = inr (own t x q b)

    -- a move that makes no entry
    plain_move :
        Role (w v) n
        → Grown mt.made n.storage.log
        → All (Sound mt.made) n.sent
        → (n.state ≡ leader → length (w v).storage.log ≤ length n.storage.log)
        → Grew mt v n
    plain_move role grown sent longer =
        grew nothing
          (record {
            safe = later_safe.0;
            more = later_safe.1;
            own = λ t x q b. absurd b;
            led = λ t x q b. absurd b;
            unique = Unique-nothing mt.made mt.unique;
            grown = Grown-mono mt.made (both c mt v n nothing) (λ t x q. inl) n.storage.log grown;
            sent = Sound-mono mt.made (both c mt v n nothing) (λ t x q. inl) n.sent sent;
            settled = λ t q b. Settled-Role t role (mt.settled t v q (old b));
            longest = λ t q b lead now.
                let (led, before) = led_still t role (mt.settled t v q (old b)) now lead in
                le_trans (mt.longest t v q (old b) led before) (longer lead);
          })
          (λ t x q b. absurd b) (λ u t x a. a) (λ u t x a. a)

    Steady-move : Steady mt.made (w v) n → Grew mt v n
    Steady-move s =
        plain_move s.role (rw s.log (mt.grown v m)) (s.sent (mt.grown v m) (mt.sent v m))
          (λ lead. rw s.log (omega arith))

    Stores-move :
        (args : AppendEntriesArgs C)
        → Carries mt.made args
        → Stores mt.made args (w v) n
        → Grew mt v n
    Stores-move args carried s =
        let at_grown : Grown mt.made s.at.storage.log = rw s.reached.log (mt.grown v m) in
        plain_move (Role-trans s.reached.role s.role)
          (rw s.log (
            stored-Grown mt.made mt.unique s.at.storage args at_grown carried
              (λ inside. sym (term_at-term_in s.at.storage args.prev_log_index) ∙ s.fits inside)
              s.known s.storing))
          (s.sent (s.reached.sent (mt.grown v m) (mt.sent v m)))
          (λ lead. absurd (not_both (sym lead ∙ s.state)))

    module _ (d : Distinct c.node_ids) (g : Grows (w v) n) where
      -- the leader's new entry
      abbrev newest : Made C
      newest t x q = (t ≡ current_term (w v)) × (x ≡ v) × (q ≡ n.storage.log)

      length_grown : length n.storage.log ≡ suc (length (w v).storage.log)
      length_grown = rw g.log (omega (arith, length-append (w v).storage.log (g.entry ∷ [])))

      voters : Voters c mt.safe.votes (current_term (w v)) v (w v).votes_received
      voters = leader-Voters c mt.safe v d m g.led

      newest_led :
          (t : ℕ) (x : String) (q : List (LogEntry C))
          → newest t x q
          → (xs : List String) × Voters c mt.safe.votes t x xs
      newest_led t x q (now, own, log) = ((w v).votes_received, rw (now, own) voters)

      newest_longer :
          (t : ℕ) (x y : String) (p q : List (LogEntry C))
          → mt.made t x p
          → newest t y q
          → length p ≡ length q
          → ⊥
      newest_longer t x y p q a (now, own, log) e =
          let (xs, vs) = mt.led t x p a in
          let one = one_leader c mt.safe t x v xs (w v).votes_received vs (rw now voters) in
          let short = mt.longest t v p (rw one at a) g.led now in
          let long = e ∙ ap length log ∙ length_grown in omega arith

      newest-Unique : Unique (both c mt v n newest)
      newest-Unique t x y p q (inl a) (inl b) e = mt.unique t x y p q a b e
      newest-Unique t x y p q (inl a) (inr b) e = absurd (newest_longer t x y p q a b e)
      newest-Unique t x y p q (inr a) (inl b) e = absurd (newest_longer t y x q p b a (sym e))
      newest-Unique t x y p q (inr a) (inr b) e = a.2 ∙ sym b.2

      newest-Grown : Grown (both c mt v n newest) n.storage.log
      newest-Grown i e h = elim (Bool-cases (ltb i (length (w v).storage.log))) [
        | inl before ↦
            let inside = ltb→lt i (length (w v).storage.log) before in
            let kept = get_elem?-append_left (w v).storage.log (g.entry ∷ []) i inside in
            let (x, p) = mt.grown v m i e (sym kept ∙ rw g.log at h) in
            (x, inl (rw (g.log, take_front (w v).storage.log (g.entry ∷ []) (suc i) inside) p))
        | inr after ↦
            let inside = some_before n.storage.log i e h in
            let here : i ≡ length (w v).storage.log = ground (arith, length_grown) in
            let found = get_elem?-append_at (w v).storage.log [] g.entry in
            let one : e ≡ g.entry = one_entry (sym (rw (g.log, here) at h) ∙ found) in
            (
              v,
              inr (
                rw one g.own,
                refl,
                take_all n.storage.log (suc i) (omega (arith, length_grown)),
              ),
            )
      ]

      led_on : Role (w v) n
      led_on = same g.term (λ h. rw g.led refl) (λ h. ground (arith, g.leads))

      newest-Settled : (t : ℕ) (q : List (LogEntry C)) → both c mt v n newest t v q → Settled t n
      newest-Settled t q (inl a) = Settled-Role t led_on (mt.settled t v q a)
      newest-Settled t q (inr a) = inr (a.0 ∙ sym g.term, rw g.leads refl)

      newest_longest :
          (t : ℕ) (q : List (LogEntry C))
          → both c mt v n newest t v q
          → t ≡ current_term n
          → length q ≤ length n.storage.log
      newest_longest t q (inl a) now =
          omega (arith, mt.longest t v q a g.led (now ∙ g.term), length_grown)
      newest_longest t q (inr a) now = rw a.2 (omega arith)

      Grows-move : Grew mt v n
      Grows-move =
          grew newest
            (record {
              safe = later_safe.0;
              more = later_safe.1;
              own = λ t x q b. b.1;
              led = newest_led;
              unique = newest-Unique;
              grown = newest-Grown;
              sent = g.sent (both c mt v n newest) newest-Grown (
                  Sound-mono mt.made (both c mt v n newest) (λ t x q. inl) (w v).sent
                    (mt.sent v m));
              settled = newest-Settled;
              longest = λ t q b lead now. newest_longest t q b now;
            })
            (λ t x q b. (g.leads, b.0 ∙ sym g.term, b.1, b.2)) (λ u t x a. a) (λ u t x a. a)

  revived-Steady :
      (made : Made C) (v : String) (now : ℕ) (n : Node C S) → Steady made n (revive c v now n)
  unfolding revive reset_election_deadline
  revived-Steady made v now n = Steady-calm made n _ refl refl (inr refl) refl

  carried :
      {w : World C S} (mt : IsMatched c w) (v : String) (event : Event C)
      (args : AppendEntriesArgs C)
      → Delivers c w v event
      → Takes event args
      → Carries mt.made args
  carried {w} mt v (received e now) args (sender, m, sent, to) takes =
      rw takes at (All-In (Sound mt.made) e (w sender).sent (mt.sent sender m) sent)
  carried mt v _ args d takes = absurd takes

  pub called-IsMatched :
      {w : World C S} (mt : IsMatched c w) (v : String) (event : Event C) (n : Node C S)
      → Distinct c.node_ids
      → IsMember c v
      → Delivers c w v event
      → step (build_config c v) event (w v) ≡ ok n
      → Grew mt v n
  called-IsMatched {w} mt v event n distinct m d e =
      let safe = called-IsSafe c mt.safe v event n m d e in
      elim (step-Move (build_config c v) mt.made event (w v) n e) [
        | steady s ↦ Steady-move mt v m n safe s
        | grows g ↦ Grows-move mt v m n safe distinct g
        | stores args takes s ↦ Stores-move mt v m n safe args (carried mt v event args d takes) s
      ]

  pub revived-IsMatched :
      {w : World C S} (mt : IsMatched c w) (v : String) (now : ℕ)
      → IsMember c v
      → Grew mt v (revive c v now (w v))
  revived-IsMatched {w} mt v now m =
      Steady-move mt v m (revive c v now (w v)) (revived-IsSafe c mt.safe v now m)
        (revived-Steady mt.made v now (w v))

  pub initial-IsMatched : (now : ℕ) → IsMatched c (initial c now)
  unfolding reset_election_deadline
  initial-IsMatched now = record {
    safe = initial-IsSafe c now;
    made = nothing;
    led = λ t x q b. absurd b;
    unique = λ t x y p q a b e. absurd a;
    grown = λ v m i e h. absurd (no_entry i h);
    sent = λ v m. tt;
    settled = λ t x q b. absurd b;
    longest = λ t x q b. absurd b;
  }

  Reachable-IsMatched : {w : World C S} → Distinct c.node_ids → Reachable c w → IsMatched c w
  Reachable-IsMatched d (built now) = initial-IsMatched now
  Reachable-IsMatched d (went r (called w v event n m s e)) =
      (called-IsMatched (Reachable-IsMatched d r) v event n d m s e).matched
  Reachable-IsMatched d (went r (revived w v now m)) =
      (revived-IsMatched (Reachable-IsMatched d r) v now m).matched

  -- In every state that a cluster of nodes with different names can reach, whatever was lost,
  -- delayed, repeated or reordered and whichever nodes were restarted: where the logs of two of
  -- its nodes hold entries of the same term at the same place, the two logs are the same up to
  -- and including that place.
  pub log_matching :
      {w : World C S} (v v' : String) (i : ℕ) (e e' : LogEntry C)
      → Distinct c.node_ids
      → Reachable c w
      → IsMember c v
      → IsMember c v'
      → get_elem? (w v).storage.log i ≡ some e
      → get_elem? (w v').storage.log i ≡ some e'
      → e.term ≡ e'.term
      → take (suc i) (w v).storage.log ≡ take (suc i) (w v').storage.log
  log_matching {w} v v' i e e' d r m m' h h' one =
      let mt = Reachable-IsMatched d r in
      same_prefix mt.made mt.unique (w v).storage.log (w v').storage.log i e e' (mt.grown v m)
        (mt.grown v' m') h h' one
