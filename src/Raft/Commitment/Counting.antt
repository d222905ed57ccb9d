-- ===== src/Raft/Commitment/Counting.antt =====
-- A leader that counts how far its peers have come commits what a majority has stored.
use mathlib.Core.Path.{subst}
use distributed_transaction.Prelude.{
  Distinct, ℕ, zero, suc, ◌+◌, ◌/◌, ◌≤◌, ◌<◌, ◌≡◌, refl, sym, ap, ◌∙◌, String, string_eq, ◌==◌,
  false, Option, some, none, List, [], ◌∷◌, length, take, length-take, map, contains, get_default,
  Dict, arith, inl, inr, All, All-mono, Bool-cases, ltb, leb, leb→le, if◌then◌else◌,
}
use distributed_transaction.Raft.Types.{leader, LogEntry, AppendEntriesReply}
use distributed_transaction.Raft.Storage.{Storage, last_entry_term}
use distributed_transaction.Raft.Node.{Node, current_term}
use distributed_transaction.Raft.Append.{record_match}
use distributed_transaction.Raft.Handlers.Committing.{Commits, count_from}
use distributed_transaction.Raft.Cluster.{ClusterConfig, World, update, IsMember, build_config}
use distributed_transaction.Raft.Election.Votes.{All-Within}
use distributed_transaction.Raft.Election.Safety.{size_of_peers}
use distributed_transaction.Raft.Matching.Trails.{term_in, term_at-term_in}
use distributed_transaction.Raft.Commitment.Prefixes.{
  Prefix, Prefix-trans, Prefix-take, take-Prefix, Chain, Chain-Prefix,
}
use distributed_transaction.Raft.Commitment.Completeness.{Holds, IsCommitted}
use distributed_transaction.Raft.Matching.Moves.{same}
use distributed_transaction.Raft.Matching.Safety.{Grew}
use distributed_transaction.Raft.Commitment.Sending.{kept, Sends-same}
use distributed_transaction.Raft.Commitment.Growing.{Tally-mono}
use distributed_transaction.Raft.Commitment.Turns.{Counted}
use distributed_transaction.Raft.Commitment.Outcomes.{scope}
use distributed_transaction.Raft.Commitment.Moving.{Ruled-after, Acked-after}
use distributed_transaction.Raft.Commitment.Standing.{Commit-at, Tally-put, standing-IsKept}
use distributed_transaction.Raft.Commitment.States.{Commit, Reached, Tally, IsKept}

-- the peers that have come at least so far
abbrev named : ℕ → Dict String ℕ → List String
named j [] = []
named j ((u, i) ∷ d) = let rest = named j d in if leb j i then u ∷ rest else rest

abbrev keys : Dict String ℕ → List String
keys d = map (λ p. p.0) d

length-named : (j : ℕ) (d : Dict String ℕ) → length (named j d) ≡ count_from j (map (λ p. p.1) d)
length-named j [] = refl
length-named j ((u, i) ∷ d) = ground (arith, length-named j d)

not_named :
    (v : String) (j : ℕ) (d : Dict String ℕ)
    → contains v (keys d) ≡ false
    → contains v (named j d) ≡ false
not_named v j [] h = refl
not_named v j ((u, i) ∷ d) h = ground (arith, not_named v j d)

Distinct-named : (j : ℕ) (d : Dict String ℕ) → Distinct (keys d) → Distinct (named j d)
Distinct-named j [] h = tt
Distinct-named j ((u, i) ∷ d) h = elim (Bool-cases (leb j i)) [
  | inl far ↦ rw far (not_named u j d h.0, Distinct-named j d h.1)
  | inr near ↦ rw near (Distinct-named j d h.1)
]

All-named :
    (P : String × ℕ → Type 0) (Q : String → Type 0) (j : ℕ) (d : Dict String ℕ)
    → ((p : String × ℕ) → j ≤ p.1 → P p → Q p.0)
    → All P d
    → All Q (named j d)
All-named P Q j [] f a = tt
All-named P Q j ((u, i) ∷ d) f a = elim (Bool-cases (leb j i)) [
  | inl far ↦ rw far (f (u, i) (leb→le j i far) a.0, All-named P Q j d f a.1)
  | inr near ↦ rw near (All-named P Q j d f a.1)
]

module _ {C : Type 0} where
  last-take :
      (l : List (LogEntry C)) (i t : ℕ)
      → term_in l (suc i) ≡ some t
      → (last_entry_term (take (suc i) l) ≡ t) × (suc i ≤ length l)
  last-take [] i t h = absurd (none_there h)
    where
      none_there : {t : ℕ} → ◌≡◌ {A = Option ℕ} none (some t) → ⊥
      none_there h = cc
  last-take (e ∷ l) zero t h = (ground arith, omega arith)
  last-take (e ∷ []) (suc i) t h = cc
  last-take (e ∷ x ∷ l) (suc i) t h =
      let (last, inside) = last-take (x ∷ l) i t h in (last, omega arith)

  pub take_twice : (j : ℕ) (l : List (LogEntry C)) → take j (take j l) ≡ take j l
  take_twice zero l = refl
  take_twice (suc j) [] = refl
  take_twice (suc j) (e ∷ l) = ap (λ (x : List (LogEntry C)). e ∷ x) (take_twice j l)

  take-Chain : (j : ℕ) (p l : List (LogEntry C)) → Chain p l → j ≤ length p → Prefix (take j l) p
  take-Chain j p l (inl a) h = rw (← take-Prefix j p l a h) (Prefix-take j p)
  take-Chain j p l (inr b) h = Prefix-trans (take j l) l p (Prefix-take j l) b

module _ {C S : Type 0} (c : ClusterConfig C S) {w : World C S} (k : IsKept c w)
    (d : Distinct c.node_ids) (v : String) (m : IsMember c v) (lead : (w v).state ≡ leader) where
  abbrev t : ℕ
  t = current_term (w v)

  abbrev log : List (LogEntry C)
  log = (w v).storage.log

  held_by :
      (j : ℕ) (u : String) (p : List (LogEntry C))
      → k.acked u t p
      → j ≤ length p
      → Holds k.ruled k.acked t (take j log) u
  held_by j u p a h =
      let s = k.keeps u t p a in
      let (r, own) = k.leads v m lead in
      (
        p,
        a,
        take-Chain j p log
            (Chain-Prefix p s.log log s.part (k.law.chain t s.leader v s.log log s.by r)) h,
      )

  holder-IsMember : (j : ℕ) (u : String) → Holds k.ruled k.acked t (take j log) u → IsMember c u
  holder-IsMember j u (p, a, i) = k.members u t p a

  far_enough :
      (j : ℕ)
      → 0 < j
      → (p : String × ℕ) → j ≤ p.1
      → Reached c.node_ids k.ruled k.acked t p
      → Holds k.ruled k.acked t (take j log) p.0
  far_enough j inside p h (inl e) = absurd (omega arith)
  far_enough j inside p h (inr (q, a, b)) = held_by j p.0 q a (omega arith)

  -- what the leader commits is held by a majority
  counted-IsCommitted :
      (j : ℕ) (matches : Dict String ℕ)
      → 0 < j
      → Tally c.node_ids k.ruled k.acked v t matches
      → term_in log j ≡ some t
      → length c.node_ids / 2 + 1 ≤ count_from j (length log ∷ map (λ p. p.1) matches)
      → IsCommitted k.ruled k.acked c.node_ids t (take j log) × (j ≤ length log)
  counted-IsCommitted zero matches inside a own most = absurd (omega arith)
  counted-IsCommitted (suc i) matches inside a own most =
      let (last, within) = last-take log i t own in
      let (r, mine) = k.leads v m lead in
      let others = named (suc i) matches in
      let held =
        All-named (Reached c.node_ids k.ruled k.acked t)
          (Holds k.ruled k.acked t (take (suc i) log)) (suc i) matches (far_enough (suc i) inside)
          a.reached in
      let all : All (Holds k.ruled k.acked t (take (suc i) log)) (v ∷ others) =
        (held_by (suc i) v log mine within, held) in
      let members =
        All-mono (Holds k.ruled k.acked t (take (suc i) log)) (λ u. IsMember c u) (v ∷ others)
          (holder-IsMember (suc i)) all in
      (
        record {
          last = last;
          inside = omega (arith, length-take (suc i) log);
          leader = v;
          log = log;
          by = r;
          part = Prefix-take (suc i) log;
          holders = v ∷ others;
          majority = (
            (not_named v (suc i) matches a.others, Distinct-named (suc i) matches a.distinct),
            All-Within c.node_ids (v ∷ others) members,
            ground (arith, length-named (suc i) matches),
          );
          held = all;
        },
        within,
      )

  -- the match indices after a reply
  module _ (sender : String) (j : ℕ) (apart : (v == sender) ≡ false)
      (reached : Reached c.node_ids k.ruled k.acked t (sender, j)) where
    noted : Tally c.node_ids k.ruled k.acked v t (record_match sender j (w v)).match_index
    noted = elim (Bool-cases (ltb (get_default sender 0 (w v).match_index) j)) [
      | inl more ↦ rw more (
          Tally-put c.node_ids k.ruled k.acked v t sender j (w v).match_index apart reached
            (k.tally v m lead))
      | inr less ↦ rw less (k.tally v m lead)
    ]

    commit_of :
        (n : Node C S)
        → Commits (build_config c v) (record_match sender j (w v)) n.commit_index
        → Commit c.node_ids k.ruled k.acked t n.commit_index log
    commit_of n (inl e) = Commit-at c.node_ids k.ruled k.acked t _ _ _ _ e refl (k.commit v m)
    commit_of n (inr (more, own, most)) =
        let found = sym (term_at-term_in (w v).storage n.commit_index) ∙ own in
        let (held, inside) =
          counted-IsCommitted n.commit_index (record_match sender j (w v)).match_index (omega arith)
            noted found (rw (size_of_peers c v d m) at most) in
        inr (record {
          term = t;
          entries = take n.commit_index log;
          held = held;
          past = omega arith;
          inside = omega (arith, length-take n.commit_index log);
          same = take_twice n.commit_index log;
        })

    pub Counted-IsKept :
        (reply : AppendEntriesReply) (n : Node C S) (g : Grew c k.matched v n)
        → j ≡ reply.match_index
        → Counted (build_config c v) (scope c k v) sender reply (w v) n
        → IsKept c (update w v n)
    Counted-IsKept reply n g e s =
        let term : current_term n ≡ t = ap (λ (x : Storage C). x.current_term) s.storage in
        let matches : n.match_index ≡ (record_match sender j (w v)).match_index = rw e s.matched in
        standing-IsKept c k d v m n g (ap (λ (x : Storage C). x.log) s.storage)
          (same term (λ h. rw s.leads refl) (λ h. rw (← s.state) h)) (commit_of n (rw e s.commit))
          (λ x cast. kept term (sym (ap (λ (y : Storage C). y.voted_for) s.storage) ∙ cast))
          (λ l. noted_after n g term matches)
          (Sends-same (build_config c v) (scope c k v) _ (w v) n s.sent)
      where
        noted_after :
            (n : Node C S) (g : Grew c k.matched v n)
            → current_term n ≡ t
            → n.match_index ≡ (record_match sender j (w v)).match_index
            → Tally c.node_ids
                (Ruled-after c k v n)
                (Acked-after c k v n (λ p. ⊥))
                v
                (current_term n)
                n.match_index
        noted_after n g term matches =
            let primes = Acked-after c k v n (λ p. ⊥) in
            subst (λ y. Tally c.node_ids (Ruled-after c k v n) primes v (current_term n) y)
              (sym matches)
              (subst
                (λ y.
                  Tally c.node_ids (Ruled-after c k v n) primes v y
                    (record_match sender j (w v)).match_index)
                (sym term)
                (Tally-mono k.ruled (Ruled-after c k v n) k.acked primes (λ t y l. inl)
                  (λ u t p. inl) c.node_ids v t (record_match sender j (w v)).match_index noted))
