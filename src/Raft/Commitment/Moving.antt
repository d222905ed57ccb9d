-- ===== src/Raft/Commitment/Moving.antt =====
-- One node moves: what has happened grows, and all that holds of a reachable state still does.
use distributed_transaction.Prelude.{
  Distinct, ℕ, ◌≤◌, ◌<◌, ◌≡◌, refl, String, string_eq, eq_iff, ◌==◌, true, false, List, arith, ◌⊎◌,
  inl, inr, All, All-mono, Bool-cases, ltb, ltb→lt,
}
use distributed_transaction.Raft.Types.{leader, candidate, follower, NodeState, LogEntry}
use distributed_transaction.Raft.Node.{Node, current_term}
use distributed_transaction.Raft.Cluster.{ClusterConfig, World, update, IsMember}
use distributed_transaction.Raft.Election.Safety.{Voters, leader-Voters, one_leader}
use distributed_transaction.Raft.Matching.Moves.{later, same}
use distributed_transaction.Raft.Matching.Worlds.{Settled, IsMatched}
use distributed_transaction.Raft.Commitment.Prefixes.{
  Prefix, Prefix-refl, Prefix-trans, Prefix-Chain, Chain, Chain-Prefix,
}
use distributed_transaction.Raft.Commitment.History.{Ruled, Acked, Heeded, Bounded}
use distributed_transaction.Raft.Commitment.Completeness.{Lawful, Elector, IsMajority}
use distributed_transaction.Raft.Commitment.States.{
  Bid, Ballot, Rules, Keeps, Commit, Tally, Posted, IsKept,
}
use distributed_transaction.Raft.Commitment.Growing.{
  Onward, Bid-Onward, Rules-Onward, Heeded-anti, Commit-mono, Tally-mono, Letter-mono, Ballot-mono,
  Elector-mono,
}

pub Chain-of_Prefix : {C : Type 0} (q p l : List (LogEntry C)) → Prefix p l → Chain q l → Chain q p
Chain-of_Prefix q p l h (inl a) = Prefix-Chain q p l a h
Chain-of_Prefix q p l h (inr b) = inr (Prefix-trans p l q h b)

state_cases : (s : NodeState) → (s ≡ leader) ⊎ ((s ≡ candidate) ⊎ (s ≡ follower))
state_cases leader = inl refl
state_cases candidate = inr (inl refl)
state_cases follower = inr (inr refl)

clash : true ≡ false → ⊥
clash h = cc

-- a node is another one, or the one that moves
module _ {C S : Type 0} (w : World C S) (v : String) (n : Node C S) where
  at_moved :
      (P : String → Node C S → Type 0)
      → P v n
      → ((u : String) → (v == u) ≡ false → P u (w u))
      → (u : String) → P u (update w v n u)
  at_moved P here there u = elim (Bool-cases (v == u)) [
    | inl e ↦ rw (e, ← (eq_iff v u).0 e) here
    | inr e ↦ rw e (there u e)
  ]

module _ {C S : Type 0} (c : ClusterConfig C S) where
  module _ {w : World C S} (k : IsKept c w) (v : String) (n : Node C S) where
    -- the log of the node, where it leads
    abbrev pub Ruled-after : Ruled C
    Ruled-after t x l =
        k.ruled t x l ⊎ ((n.state ≡ leader) × (t ≡ current_term n) × (x ≡ v) × (l ≡ n.storage.log))

    -- what the node has stored: its log where it leads, and perhaps what came in
    abbrev pub Acked-after : (List (LogEntry C) → Type 0) → Acked C
    Acked-after extra u t p =
        k.acked u t p
        ⊎ ((u ≡ v) × (t ≡ current_term n) × (((n.state ≡ leader) × (p ≡ n.storage.log)) ⊎ extra p))

    -- what a move of the node has to say
    pub record Moves : Type 1 where
      pub extra : List (LogEntry C) → Type 0
      pub matched : IsMatched c (update w v n)
      pub more_made :
          (t : ℕ) (x : String) (q : List (LogEntry C)) → k.matched.made t x q → matched.made t x q
      pub new_made :
          (t : ℕ) (x : String) (q : List (LogEntry C))
          → matched.made t x q
          → k.matched.made t x q
            ⊎ ((n.state ≡ leader) × (t ≡ current_term n) × (x ≡ v) × (q ≡ n.storage.log))
      pub more_votes :
          (u : String) (t : ℕ) (x : String) → k.matched.safe.votes u t x → matched.safe.votes u t x
      pub onward : Onward (w v) n
      pub from_leader :
          (p : List (LogEntry C))
          → extra p
          → (y : String) × (l : List (LogEntry C)) × k.ruled (current_term n) y l × Prefix p l
      pub in_log : (p : List (LogEntry C)) → extra p → Prefix p n.storage.log
      pub holds :
          (q : List (LogEntry C))
          → Prefix q (w v).storage.log
          → ((p : List (LogEntry C)) → extra p → Chain q p)
          → Prefix q n.storage.log
      pub bounded : Bounded (current_term n) n.storage.log
      pub ballots :
          (u : String) (s : ℕ) (x : String)
          → matched.safe.votes u s x
          → k.matched.safe.votes u s x
            ⊎ (((y : String) (l : List (LogEntry C)) → k.ruled s y l → ⊥)
                → Ballot matched.made Ruled-after (Acked-after extra) u s (update w v n x))
      pub sent : All (Posted c matched.made Ruled-after (Acked-after extra) (update w v n) v) n.sent
      pub tally :
          n.state ≡ leader
          → Tally c.node_ids Ruled-after (Acked-after extra) v (current_term n) n.match_index
      pub commit :
          Commit c.node_ids Ruled-after
            (Acked-after extra)
            (current_term n)
            n.commit_index
            n.storage.log

    module _ (d : Distinct c.node_ids) (m : IsMember c v) (h : Moves) where
      abbrev acked' : Acked C
      acked' = Acked-after h.extra

      term_le : current_term (w v) ≤ current_term n
      term_le = elim h.onward.role [ later a ↦ omega arith | same a f g ↦ omega arith ]

      terms_le : (u : String) → current_term (w u) ≤ current_term (update w v n u)
      terms_le u = elim (Bool-cases (v == u)) [
        | inl e ↦ rw (e, ← (eq_iff v u).0 e) term_le
        | inr e ↦ rw e (omega arith)
      ]

      stored_late :
          (u : String) (t : ℕ) (p : List (LogEntry C))
          → acked' u t p
          → k.acked u t p ⊎ (current_term (w u) ≤ t)
      stored_late u t p (inl a) = inl a
      stored_late u t p (inr (own, now, a)) = inr (rw (own, now) term_le)

      bids :
          (x : String) (s : ℕ) (own : List (LogEntry C))
          → Bid k.matched.made s own (w x)
          → Bid k.matched.made s own (update w v n x)
      bids x s own b = elim (Bool-cases (v == x)) [
        | inl e ↦ rw e (Bid-Onward h.onward k.matched.made s own (rw (← (eq_iff v x).0 e) at b))
        | inr e ↦ rw e b
      ]

      -- in a term that has had no leader, every vote says what it is to say
      ballots-after :
          (u : String) (s : ℕ) (x : String)
          → h.matched.safe.votes u s x
          → ((y : String) (l : List (LogEntry C)) → k.ruled s y l → ⊥)
          → Ballot h.matched.made Ruled-after acked' u s (update w v n x)
      ballots-after u s x vote free = elim (h.ballots u s x vote) [
        | inr new ↦ new free
        | inl before ↦
            Ballot-mono k.ruled Ruled-after k.acked acked' (λ t y l. inl) (λ a t p. inl)
              k.matched.made h.matched.made h.more_made u s (w x) (update w v n x)
              (λ t p a. late_for u s x before t p a) (λ own. bids x s own)
              (k.ballots u s x before free)
      ]
        where
          late_for :
              (u : String) (s : ℕ) (x : String)
              → k.matched.safe.votes u s x
              → (t : ℕ) (p : List (LogEntry C)) → acked' u t p
              → k.acked u t p ⊎ (s ≤ t)
          late_for u s x before t p a = elim (stored_late u t p a) [
            | inl old ↦ inl old
            | inr late ↦ inr (omega (arith, k.matched.safe.past u s x before))
          ]

      voters_of :
          (t : ℕ) (x : String) (l : List (LogEntry C))
          → k.ruled t x l
          → (xs : List String) × Voters c h.matched.safe.votes t x xs
      voters_of t x l a =
          let (xs, (dx, wx, mx), es) = k.law.elected t x l a in
          (
            xs,
            (
              dx,
              wx,
              mx,
              All-mono
                  (Elector k.matched.safe.votes (λ u. current_term (w u)) k.matched.made k.ruled
                    k.acked t x l)
                  (λ u. h.matched.safe.votes u t x) xs (λ u e. h.more_votes u t x e.vote) es,
            ),
          )

      -- the voters of the node, where it leads
      own_voters :
          n.state ≡ leader → Voters c h.matched.safe.votes (current_term n) v n.votes_received
      own_voters lead =
          let at_v : update w v n v ≡ n = rw ((eq_iff v v).1 refl) refl in
          rw at_v at (leader-Voters c h.matched.safe v d m (rw at_v lead))

      -- another leader of its term is the node itself
      ruled_self :
          (t : ℕ) (x : String) (l : List (LogEntry C))
          → n.state ≡ leader
          → t ≡ current_term n
          → k.ruled t x l
          → x ≡ v
      ruled_self t x l lead now a =
          let (xs, vs) = voters_of t x l a in
          one_leader c h.matched.safe t x v xs n.votes_received vs (rw now (own_voters lead))

      ruled-Rules : (t : ℕ) (l : List (LogEntry C)) → k.ruled t v l → Rules t l n
      ruled-Rules t l a = Rules-Onward h.onward t l (k.rules t v l a)

      ruled_prefix :
          (t : ℕ) (x : String) (l : List (LogEntry C))
          → n.state ≡ leader
          → t ≡ current_term n
          → k.ruled t x l
          → Prefix l n.storage.log
      ruled_prefix t x l lead now a =
          (ruled-Rules t l (rw (ruled_self t x l lead now a) at a)).1 lead now

      after-Chain :
          (t : ℕ) (x y : String) (l l' : List (LogEntry C))
          → Ruled-after t x l
          → Ruled-after t y l'
          → Chain l l'
      after-Chain t x y l l' (inl a) (inl b) = k.law.chain t x y l l' a b
      after-Chain t x y l l' (inl a) (inr (lead, now, own, e)) =
          inl (rw e (ruled_prefix t x l lead now a))
      after-Chain t x y l l' (inr (lead, now, own, e)) (inl b) =
          inr (rw e (ruled_prefix t y l' lead now b))
      after-Chain t x y l l' (inr (_, _, _, e)) (inr (_, _, _, e')) =
          inl (rw (e, e') (Prefix-refl n.storage.log))

      made_ruled-after :
          (t : ℕ) (x : String) (q : List (LogEntry C)) → h.matched.made t x q → Ruled-after t x q
      made_ruled-after t x q a = elim (h.new_made t x q a) [
        | inl old ↦ inl (k.law.made_ruled t x q old)
        | inr new ↦ inr new
      ]

      after-Bounded : (t : ℕ) (x : String) (l : List (LogEntry C)) → Ruled-after t x l → Bounded t l
      after-Bounded t x l (inl a) = k.law.bounded t x l a
      after-Bounded t x l (inr (lead, now, own, e)) = rw (now, e) h.bounded

      abbrev Elector-after : ℕ → String → List (LogEntry C) → String → Type 0
      Elector-after =
          Elector h.matched.safe.votes (λ u. current_term (update w v n u)) h.matched.made
            Ruled-after acked'

      electors-on :
          (s : ℕ) (x : String) (l l' : List (LogEntry C))
          → Prefix l l'
          → k.ruled s x l
          → (xs : List String) × IsMajority c.node_ids xs × All (Elector-after s x l') xs
      electors-on s x l l' p a =
          let (xs, most, es) = k.law.elected s x l a in
          (
            xs,
            most,
            All-mono
                (Elector k.matched.safe.votes (λ u. current_term (w u)) k.matched.made k.ruled
                  k.acked s x l)
                (Elector-after s x l') xs
                (Elector-mono k.ruled Ruled-after k.acked acked' (λ t y q. inl) (λ u t q. inl)
                  k.matched.made h.matched.made h.more_made k.matched.safe.votes
                  h.matched.safe.votes (λ u. current_term (w u))
                  (λ u. current_term (update w v n u)) s x l l' h.more_votes terms_le stored_late p)
                es,
          )

      -- the votes of a leader whose term has had no leader before
      electors-new :
          n.state ≡ leader
          → ((y : String) (l : List (LogEntry C)) → k.ruled (current_term n) y l → ⊥)
          → (xs : List String) × IsMajority c.node_ids xs
            × All (Elector-after (current_term n) v n.storage.log) xs
      electors-new lead free =
          let (dx, wx, mx, votes) = own_voters lead in
          (
            n.votes_received,
            (dx, wx, mx),
            All-mono (λ u. h.matched.safe.votes u (current_term n) v)
                (Elector-after (current_term n) v n.storage.log) n.votes_received elector votes,
          )
        where
          elector :
              (u : String)
              → h.matched.safe.votes u (current_term n) v
              → Elector-after (current_term n) v n.storage.log u
          elector u vote =
              let b = ballots-after u (current_term n) v vote free in
              let bid = rw ((eq_iff v v).1 refl) at b.bid in
              record {
                vote = vote;
                late = h.matched.safe.past u (current_term n) v vote;
                own = b.own;
                voters = b.voters;
                own_grown = b.bid.grown;
                voters_grown = b.voters_grown;
                own_below = b.bid.below;
                fresh = b.fresh;
                loyal = b.loyal;
                kept = bid.kept (rw lead refl) refl;
              }

      -- the node has led in its term before, or its term has had no leader
      led_or_free :
          n.state ≡ leader
          → (((w v).state ≡ leader) × (current_term n ≡ current_term (w v)))
            ⊎ ((y : String) (l : List (LogEntry C)) → k.ruled (current_term n) y l → ⊥)
      led_or_free lead = elim h.onward.role [
        | later a ↦ inr (λ y l r. not_yet (inl a) (settled y l r))
        | same t f g ↦ elim (state_cases (w v).state) [
          | inl led ↦ inl (led, t)
          | inr (inl runs) ↦ inr (λ y l r. not_yet (inr runs) (settled y l r))
          | inr (inr follows) ↦ absurd (clash (rw follows at (f (rw lead refl))))
        ]
      ]
        where
          settled :
              (y : String) (l : List (LogEntry C))
              → k.ruled (current_term n) y l
              → Settled (current_term n) (w v)
          settled y l r =
              (k.rules (current_term n) v l
                (rw (ruled_self (current_term n) y l lead refl r) at r)).0

          not_yet :
              (current_term (w v) < current_term n) ⊎ ((w v).state ≡ candidate)
              → Settled (current_term n) (w v)
              → ⊥
          not_yet (inl a) (inl b) = omega arith
          not_yet (inl a) (inr (b, s)) = omega arith
          not_yet (inr a) (inl b) = omega (arith, term_le)
          not_yet (inr a) (inr (b, s)) = clash (rw a at s)

      elected-after :
          (s : ℕ) (x : String) (l : List (LogEntry C))
          → Ruled-after s x l
          → (xs : List String) × IsMajority c.node_ids xs × All (Elector-after s x l) xs
      elected-after s x l (inl a) = electors-on s x l l (Prefix-refl l) a
      elected-after s x l (inr (lead, now, own, e)) =
          rw (now, own, e)
            (elim (led_or_free lead) [
              | inr free ↦ electors-new lead free
              | inl (led, t) ↦
                  electors-on (current_term n) v (w v).storage.log n.storage.log
                    (h.onward.log (rw lead refl)) (rw t (k.leads v m led).0)
            ])

      law-after :
          Lawful h.matched.safe.votes
            (λ u. current_term (update w v n u))
            h.matched.made
            Ruled-after
            acked'
            c.node_ids
      law-after = record {
        chain = after-Chain;
        made_ruled = made_ruled-after;
        bounded = after-Bounded;
        elected = elected-after;
      }

      after-Rules :
          (t : ℕ) (x : String) (l : List (LogEntry C))
          → Ruled-after t x l
          → Rules t l (update w v n x)
      after-Rules t x l (inl a) = elim (Bool-cases (v == x)) [
        | inl e ↦ rw e (ruled-Rules t l (rw (← (eq_iff v x).0 e) at a))
        | inr e ↦ rw e (k.rules t x l a)
      ]
      after-Rules t x l (inr (lead, now, own, e)) =
          rw (own, (eq_iff v v).1 refl, e)
            (inr (now, rw lead refl), λ l' t'. Prefix-refl n.storage.log)

      -- what the node has stored before, it keeps
      kept-after :
          (t : ℕ) (p : List (LogEntry C)) (a : Keeps k.ruled t p (w v)) (q : List (LogEntry C))
          → Prefix q p
          → ((r : ℕ) → t < r → r ≤ current_term n → Heeded Ruled-after q r)
          → Prefix q n.storage.log
      kept-after t p a q i heeded =
          h.holds q
            (a.kept q i (λ r x y.
              Heeded-anti k.ruled Ruled-after k.acked acked' (λ t y l. inl) (λ u t p. inl) q r
                (heeded r x (omega (arith, term_le)))))
            (λ e x.
              let (y, l, r, j) = h.from_leader e x in Chain-of_Prefix q e l j (with_leader y l r))
        where
          with_leader :
              (y : String) (l : List (LogEntry C)) → k.ruled (current_term n) y l → Chain q l
          with_leader y l r = elim (Bool-cases (ltb t (current_term n))) [
            | inl before ↦
                inl (heeded (current_term n) (ltb→lt t _ before) (omega arith) y l (inl r))
            | inr now ↦
                let at_now : t ≡ current_term n = ground (arith, a.past, term_le) in
                Chain-Prefix q a.log l (Prefix-trans q p a.log i a.part)
                  (k.law.chain (current_term n) a.leader y a.log l (rw at_now at a.by) r)
          ]

      stored-Keeps :
          (t : ℕ) (p : List (LogEntry C))
          → t ≡ current_term n
          → ((n.state ≡ leader) × (p ≡ n.storage.log)) ⊎ h.extra p
          → Keeps Ruled-after t p n
      stored-Keeps t p now (inl (lead, e)) = record {
        past = omega arith;
        leader = v;
        log = n.storage.log;
        by = inr (lead, now, refl, refl);
        part = rw e (Prefix-refl n.storage.log);
        kept = λ q i heeded. rw e at i;
      }
      stored-Keeps t p now (inr x) =
          let (y, l, r, j) = h.from_leader p x in
          record {
            past = omega arith;
            leader = y;
            log = l;
            by = inl (rw now r);
            part = j;
            kept = λ q i heeded. Prefix-trans q p n.storage.log i (h.in_log p x);
          }

      after-Keeps :
          (u : String) (t : ℕ) (p : List (LogEntry C))
          → acked' u t p
          → Keeps Ruled-after t p (update w v n u)
      after-Keeps u t p (inr (own, now, x)) = rw (own, (eq_iff v v).1 refl) (stored-Keeps t p now x)
      after-Keeps u t p (inl a) = elim (Bool-cases (v == u)) [
        | inl e ↦
            let old : Keeps k.ruled t p (w v) = k.keeps v t p (rw (← (eq_iff v u).0 e) at a) in
            rw e (record {
              past = omega (arith, old.past, term_le);
              leader = old.leader;
              log = old.log;
              by = inl old.by;
              part = old.part;
              kept = kept-after t p old;
            })
        | inr e ↦
            let old = k.keeps u t p a in
            rw e (record {
              past = old.past;
              leader = old.leader;
              log = old.log;
              by = inl old.by;
              part = old.part;
              kept = λ q i heeded. old.kept q i (λ r x y.
                  Heeded-anti k.ruled Ruled-after k.acked acked' (λ t y l. inl) (λ u t p. inl) q r
                    (heeded r x y));
            })
      ]

      sent-after :
          (u : String)
          → (v == u) ≡ false
          → IsMember c u
          → All (Posted c h.matched.made Ruled-after acked' (update w v n) u) (w u).sent
      sent-after u e mu =
          All-mono (Posted c k.matched.made k.ruled k.acked w u)
            (Posted c h.matched.made Ruled-after acked' (update w v n) u) (w u).sent
            (λ x (s, r, l). (
              s,
              r,
              Letter-mono k.ruled Ruled-after k.acked acked' (λ t y l. inl) (λ a t p. inl)
                  k.matched.made h.matched.made h.more_made c w (update w v n) u (bids u) x.message
                  l,
            ))
            (k.sent u mu)

      -- After a move, all that holds of a reachable state still holds.
      pub moved-IsKept : IsKept c (update w v n)
      moved-IsKept = record {
        matched = h.matched;
        ruled = Ruled-after;
        acked = acked';
        law = law-after;
        leads =
            at_moved w v n
              (λ u x.
                IsMember c u
                → x.state ≡ leader
                → Ruled-after (current_term x) u x.storage.log
                  × acked' u (current_term x) x.storage.log)
              (λ mv lead. (inr (lead, refl, refl, refl), inr (refl, refl, inl (lead, refl))))
              (λ u e mu lead. let (r, a) = k.leads u mu lead in (inl r, inl a));
        rules = after-Rules;
        bounded =
            at_moved w v n (λ u x. IsMember c u → Bounded (current_term x) x.storage.log)
              (λ mv. h.bounded) (λ u e mu. k.bounded u mu);
        members = members-after;
        keeps = after-Keeps;
        ballots = λ u s x vote free. ballots-after u s x vote (λ y l r. free y l (inl r));
        sent =
            at_moved w v n
              (λ u x.
                IsMember c u
                → All (Posted c h.matched.made Ruled-after acked' (update w v n) u) x.sent)
              (λ mv. h.sent) sent-after;
        tally =
            at_moved w v n
              (λ u x.
                IsMember c u
                → x.state ≡ leader
                → Tally c.node_ids Ruled-after acked' u (current_term x) x.match_index)
              (λ mv. h.tally)
              (λ u e mu lead.
                Tally-mono k.ruled Ruled-after k.acked acked' (λ t y l. inl) (λ a t p. inl)
                  c.node_ids u (current_term (w u)) (w u).match_index (k.tally u mu lead));
        commit =
            at_moved w v n
              (λ u x.
                IsMember c u
                → Commit c.node_ids Ruled-after acked' (current_term x) x.commit_index
                    x.storage.log)
              (λ mv. h.commit)
              (λ u e mu.
                Commit-mono k.ruled Ruled-after k.acked acked' (λ t y l. inl) (λ a t p. inl)
                  c.node_ids (current_term (w u)) (current_term (w u)) (w u).commit_index
                  (w u).storage.log (omega arith) (k.commit u mu));
      }
        where
          members-after : (u : String) (t : ℕ) (p : List (LogEntry C)) → acked' u t p → IsMember c u
          members-after u t p (inl a) = k.members u t p a
          members-after u t p (inr (own, now, x)) = rw own m
