-- ===== src/Raft/Commitment/Standing.antt =====
-- Calls that store nothing for a leader keep all that holds of a reachable state.
use mathlib.Core.Path.{subst}
use distributed_transaction.Prelude.{
  Distinct, ℕ, ◌≤◌, ◌<◌, ◌≡◌, refl, sym, ap, ◌∙◌, String, string_eq, eq_iff, ◌==◌, true, false,
  some, List, [], ◌∷◌, length, take, length-take, map, contains, discard, put, from_keys, Dict,
  arith, inl, inr, All, All-append, Bool-cases, if◌then◌else◌,
}
use distributed_transaction.Raft.Types.{leader, LogEntry}
use distributed_transaction.Raft.Storage.{last_entry_term}
use distributed_transaction.Raft.Node.{Node, current_term}
use distributed_transaction.Raft.Cluster.{ClusterConfig, World, update, IsMember, build_config}
use distributed_transaction.Raft.Matching.Moves.{Role, Role-term, same}
use distributed_transaction.Raft.Matching.Safety.{Grew}
use distributed_transaction.Raft.Commitment.Prefixes.{
  Prefix, Prefix-refl, Prefix-trans, Prefix-append, take-Prefix,
}
use distributed_transaction.Raft.Commitment.History.{
  Ruled, Acked, Bounded, Bounded-mono, last_entry_term_le,
}
use distributed_transaction.Raft.Commitment.Sending.{Polled, kept, May, Sends, Tallies, Plain}
use distributed_transaction.Raft.Commitment.States.{Commit, Reached, Tally, IsKept}
use distributed_transaction.Raft.Commitment.Growing.{Onward, Commit-mono, Tally-mono}
use distributed_transaction.Raft.Commitment.Turns.{Grown}
use distributed_transaction.Raft.Commitment.Outcomes.{scope, votes-Say, after-Posted}
use distributed_transaction.Raft.Commitment.Moving.{Ruled-after, Acked-after, moved-IsKept}

abbrev keys : Dict String ℕ → List String
keys d = map (λ p. p.0) d

contains-keys :
    (y u : String) (j : ℕ) (d : Dict String ℕ)
    → contains y (keys (put u j d)) ≡ (if u == y then true else contains y (keys d))
contains-keys y u j [] = ground arith
contains-keys y u j ((x, i) ∷ d) = ground (arith, contains-keys y u j d, eq_iff x u, eq_iff u y)

Distinct-put :
    (u : String) (j : ℕ) (d : Dict String ℕ) → Distinct (keys d) → Distinct (keys (put u j d))
Distinct-put u j [] a = (refl, tt)
Distinct-put u j ((x, i) ∷ d) a = elim (Bool-cases (x == u)) [
  | inl here ↦ rw here a
  | inr there ↦
      rw there
        (ground (arith, contains-keys x u j d, a.0, eq_iff u x, eq_iff x u), Distinct-put u j d a.1)
]

All-put :
    (P : String × ℕ → Type 0) (u : String) (j : ℕ) (d : Dict String ℕ)
    → P (u, j)
    → All P d
    → All P (put u j d)
All-put P u j [] p a = (p, tt)
All-put P u j ((x, i) ∷ d) p a = elim (Bool-cases (x == u)) [
  | inl here ↦ rw here (rw (← (eq_iff x u).0 here) at p, a.1)
  | inr there ↦ rw there (a.0, All-put P u j d p a.1)
]

module _ {C : Type 0} (ids : List String) (ruled : Ruled C) (acked : Acked C) where
  -- a longer log has what is committed in the shorter one
  pub Commit-longer :
      (t k : ℕ) (l m : List (LogEntry C))
      → Prefix l m
      → Commit ids ruled acked t k l
      → Commit ids ruled acked t k m
  Commit-longer t k l m p (inl e) = inl e
  Commit-longer t k l m p (inr x) = inr (record {
    term = x.term;
    entries = x.entries;
    held = x.held;
    past = x.past;
    inside = x.inside;
    same = x.same ∙ take-Prefix k l m p (inside_of k x.entries l x.inside x.same);
  })
    where
      inside_of :
          (k : ℕ) (q l : List (LogEntry C)) → k ≤ length q → take k q ≡ take k l → k ≤ length l
      inside_of k q l h e =
          let a = length-take k q in let b = length-take k l in let s = ap length e in omega arith

  pub Commit-at :
      (t k k' : ℕ) (l l' : List (LogEntry C))
      → k' ≡ k
      → l' ≡ l
      → Commit ids ruled acked t k l
      → Commit ids ruled acked t k' l'
  Commit-at t k k' l l' e f h = rw (e, f) h

  -- a peer's new match index
  pub Tally-put :
      (v : String) (t : ℕ) (u : String) (j : ℕ) (d : Dict String ℕ)
      → (v == u) ≡ false
      → Reached ids ruled acked t (u, j)
      → Tally ids ruled acked v t d
      → Tally ids ruled acked v t (put u j d)
  Tally-put v t u j d e r a = record {
    distinct = Distinct-put u j d a.distinct;
    others = ground (arith, contains-keys v u j d, a.others, eq_iff u v, eq_iff v u);
    reached = All-put (Reached ids ruled acked t) u j d r a.reached;
  }

  pub Tally-from_keys :
      (v : String) (t : ℕ) (us : List String) (d : Dict String ℕ)
      → All (λ u. (v == u) ≡ false) us
      → Tally ids ruled acked v t d
      → Tally ids ruled acked v t (from_keys us 0 d)
  Tally-from_keys v t [] d e a = a
  Tally-from_keys v t (u ∷ us) d e a =
      Tally-from_keys v t us (put u 0 d) e.1 (Tally-put v t u 0 d e.0 (inl refl) a)

-- the peers of a node are other nodes
pub elsewhere : (v : String) (us : List String) → All (λ u. (v == u) ≡ false) (discard v us)
elsewhere v [] = tt
elsewhere v (u ∷ us) = elim (Bool-cases (u == v)) [
  | inl here ↦ rw here (elsewhere v us)
  | inr there ↦ rw there (ground (arith, eq_iff u v, eq_iff v u), elsewhere v us)
]

module _ {C S : Type 0} (c : ClusterConfig C S) {w : World C S} (k : IsKept c w)
    (d : Distinct c.node_ids) (v : String) (m : IsMember c v) (n : Node C S)
    (g : Grew c k.matched v n) where
  abbrev Nothing : List (LogEntry C) → Type 0
  Nothing p = ⊥

  abbrev ruled' : Ruled C
  ruled' = Ruled-after c k v n

  abbrev acked' : Acked C
  acked' = Acked-after c k v n Nothing

  -- the log is the same: the log's terms, what is committed in it, and its offers
  module _ (log : n.storage.log ≡ (w v).storage.log) (role : Role (w v) n) where
    same-Onward : Onward (w v) n
    same-Onward = record { role = role; log = λ f. rw log (Prefix-refl (w v).storage.log) }

    same-Bounded : Bounded (current_term n) n.storage.log
    same-Bounded = rw log (
        Bounded-mono (current_term (w v)) (current_term n) (Role-term role) (w v).storage.log
          (k.bounded v m))

    same_commit :
        Commit c.node_ids k.ruled k.acked (current_term (w v)) n.commit_index (w v).storage.log
        → Commit c.node_ids ruled' acked' (current_term n) n.commit_index n.storage.log
    same_commit h = Commit-at c.node_ids ruled' acked' (current_term n) _ _ _ _ refl log (
        Commit-mono k.ruled ruled' k.acked acked' (λ t y l. inl) (λ u t p. inl) c.node_ids
          (current_term (w v)) (current_term n) n.commit_index (w v).storage.log (Role-term role) h)

    same-Tally :
        Tallies (build_config c v) (scope c k v) (w v) n
        → Tally c.node_ids ruled' acked' v (current_term n) n.match_index
    same-Tally (inl (lead, t, e)) =
        subst (λ d. Tally c.node_ids ruled' acked' v (current_term n) d) (sym e)
          (subst (λ s. Tally c.node_ids ruled' acked' v s (w v).match_index) (sym t)
            (Tally-mono k.ruled ruled' k.acked acked' (λ t y l. inl) (λ u t p. inl) c.node_ids v
              (current_term (w v)) (w v).match_index (k.tally v m lead)))
    same-Tally (inr e) =
        subst (λ d. Tally c.node_ids ruled' acked' v (current_term n) d) (sym e)
          (Tally-from_keys c.node_ids ruled' acked' v (current_term n) (discard v c.node_ids) []
            (elsewhere v c.node_ids) (record { distinct = tt; others = refl; reached = tt }))

    below_now : current_term (w v) < current_term n → last_entry_term n.storage.log < current_term n
    below_now newer =
        let old = last_entry_term_le (current_term (w v)) (w v).storage.log (k.bounded v m) in
        rw log (omega arith)

    pub standing-IsKept :
        Commit c.node_ids k.ruled k.acked (current_term (w v)) n.commit_index (w v).storage.log
        → ((x : String) → n.storage.voted_for ≡ some x → Polled (scope c k v) v (w v) n x)
        → (n.state ≡ leader → Tally c.node_ids ruled' acked' v (current_term n) n.match_index)
        → Sends
            (build_config c v)
            (scope c k v)
            (May (build_config c v) (scope c k v) (current_term (w v)) n)
            (w v)
            n
        → IsKept c (update w v n)
    standing-IsKept commit polled tally sends = moved-IsKept c k v n d m (record {
      extra = Nothing;
      matched = g.matched;
      more_made = g.more_made;
      new_made = g.new_made;
      more_votes = g.more_votes;
      onward = same-Onward;
      from_leader = λ p x. absurd x;
      in_log = λ p x. absurd x;
      holds = λ q i h. rw log i;
      bounded = same-Bounded;
      ballots = votes-Say c k v m n g Nothing same-Onward polled;
      sent =
          after-Posted c k v m n g Nothing same-Onward same-Bounded (same_commit commit) below_now
            sends;
      tally = tally;
      commit = same_commit commit;
    })

  pub Plain-IsKept : Plain (build_config c v) (scope c k v) (w v) n → IsKept c (update w v n)
  Plain-IsKept s =
      standing-IsKept s.log s.role
        (Commit-at c.node_ids k.ruled k.acked (current_term (w v)) _ _ _ _ s.commit refl
          (k.commit v m))
        s.polled (λ lead. same-Tally s.log s.role (s.matched lead)) s.out

  module _ (s : Grown (build_config c v) (scope c k v) (w v) n) where
    grown-Onward : Onward (w v) n
    grown-Onward = record {
      role = same s.term (λ h. rw s.led refl) (λ h. ground (arith, s.leads));
      log = λ f. rw s.log (Prefix-append (w v).storage.log (s.entry ∷ []));
    }

    grown_longer : Prefix (w v).storage.log n.storage.log
    grown_longer = rw s.log (Prefix-append (w v).storage.log (s.entry ∷ []))

    grown-Bounded : Bounded (current_term n) n.storage.log
    grown-Bounded =
        subst (λ l. Bounded (current_term n) l) (sym s.log)
          (All-append (λ e. e.term ≤ current_term n) (w v).storage.log (s.entry ∷ [])
            (rw s.term (k.bounded v m)) (omega (arith, s.own, s.term), tt))

    grown_commit : Commit c.node_ids ruled' acked' (current_term n) n.commit_index n.storage.log
    grown_commit =
        Commit-longer c.node_ids ruled' acked' (current_term n) n.commit_index (w v).storage.log
          n.storage.log grown_longer
          (Commit-at c.node_ids ruled' acked' (current_term n) _ _ _ _ s.commit refl (
            Commit-mono k.ruled ruled' k.acked acked' (λ t y l. inl) (λ u t p. inl) c.node_ids
              (current_term (w v)) (current_term n) (w v).commit_index (w v).storage.log
              (omega (arith, s.term)) (k.commit v m)))

    pub Grown-IsKept : IsKept c (update w v n)
    Grown-IsKept = moved-IsKept c k v n d m (record {
      extra = Nothing;
      matched = g.matched;
      more_made = g.more_made;
      new_made = g.new_made;
      more_votes = g.more_votes;
      onward = grown-Onward;
      from_leader = λ p x. absurd x;
      in_log = λ p x. absurd x;
      holds = λ q i h. Prefix-trans q (w v).storage.log n.storage.log i grown_longer;
      bounded = grown-Bounded;
      ballots =
          votes-Say c k v m n g Nothing grown-Onward (λ x cast. kept s.term (sym s.vote ∙ cast));
      sent =
          after-Posted c k v m n g Nothing grown-Onward grown-Bounded grown_commit
            (λ newer. absurd (omega (arith, s.term))) s.out;
      tally = λ lead. grown_tally;
      commit = grown_commit;
    })
      where
        grown_tally : Tally c.node_ids ruled' acked' v (current_term n) n.match_index
        grown_tally =
            subst (λ d. Tally c.node_ids ruled' acked' v (current_term n) d) (sym s.matched)
              (subst (λ t. Tally c.node_ids ruled' acked' v t (w v).match_index) (sym s.term)
                (Tally-mono k.ruled ruled' k.acked acked' (λ t y l. inl) (λ u t p. inl) c.node_ids v
                  (current_term (w v)) (w v).match_index (k.tally v m s.led)))
