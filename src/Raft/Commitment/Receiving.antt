-- ===== src/Raft/Commitment/Receiving.antt =====
-- A follower that stores its leader's log keeps what is committed.
use mathlib.Core.Path.{subst}
use distributed_transaction.Prelude.{
  Distinct, ℕ, ◌+◌, ◌≤◌, ◌≡◌, refl, sym, ◌∙◌, String, string_eq, ◌==◌, true, false, List, ◌++◌,
  length, length-append, take, length-take, arith, inl, inr, All, All-append, All-mono, Bool-cases,
  ltb, ltb→lt,
}
use distributed_transaction.Raft.Types.{
  NodeState, leader, follower, LogEntry, Message, Envelope, AppendEntriesArgs, append_entries,
  append_entries_reply, request_vote, request_vote_reply, prevote, prevote_reply,
}
use distributed_transaction.Raft.Node.{Node, current_term, send}
use distributed_transaction.Raft.Append.{append_done}
use distributed_transaction.Raft.Cluster.{ClusterConfig, World, update, IsMember, build_config}
use distributed_transaction.Raft.Matching.Trails.{term_at-term_in}
use distributed_transaction.Raft.Matching.Merge.{Merged, stored_cases}
use distributed_transaction.Raft.Matching.Moves.{Role, Role-term, Role-trans, same}
use distributed_transaction.Raft.Matching.Safety.{Grew}
use distributed_transaction.Raft.Matching.Steps.{Role-follower}
use distributed_transaction.Raft.Commitment.Prefixes.{
  Prefix, Prefix-refl, Prefix-trans, Prefix-take, take-Prefix, Prefix-shorter, Chain, Chain-Prefix,
}
use distributed_transaction.Raft.Commitment.History.{Ruled, Acked, Bounded, Bounded-mono}
use distributed_transaction.Raft.Commitment.Completeness.{complete}
use distributed_transaction.Raft.Commitment.Sending.{Polled, kept, stands, granted, May}
use distributed_transaction.Raft.Commitment.States.{Commit, Certain, Whole, Letter, Posted, IsKept}
use distributed_transaction.Raft.Commitment.Growing.{Onward, Commit-mono}
use distributed_transaction.Raft.Commitment.Turns.{Stored, Follows}
use distributed_transaction.Raft.Commitment.Outcomes.{scope, votes-Say, sent-Posted}
use distributed_transaction.Raft.Commitment.Moving.{Ruled-after, Acked-after, moved-IsKept}
use distributed_transaction.Raft.Commitment.Counting.{take_twice}

not_leading : ◌≡◌ {A = NodeState} leader follower → ⊥
not_leading h = cc

not_following : true ≡ false → ⊥
not_following h = cc

module _ {C : Type 0} (ids : List String) (ruled : Ruled C) (acked : Acked C) where
  -- what is committed up to an index, in a log that has it
  Certain-onto :
      (t t' j j' : ℕ) (l l' : List (LogEntry C)) (x : Certain ids ruled acked t j l)
      → t ≤ t'
      → j' ≤ j
      → Prefix (take j x.entries) l'
      → Certain ids ruled acked t' j' l'
  Certain-onto t t' j j' l l' x h less p = record {
    term = x.term;
    entries = x.entries;
    held = x.held;
    past = omega (arith, x.past);
    inside = omega (arith, x.inside);
    same =
        sym (take_twice j' x.entries)
        ∙ take-Prefix j' (take j' x.entries) l' shorter
            (omega (arith, length-take j' x.entries, x.inside));
  }
    where
      shorter : Prefix (take j' x.entries) l'
      shorter =
          Prefix-trans (take j' x.entries) (take j x.entries) l'
            (Prefix-shorter (take j' x.entries) (take j x.entries) x.entries
              (Prefix-take j' x.entries) (Prefix-take j x.entries)
              (omega (arith, length-take j x.entries, length-take j' x.entries)))
            p

module _ {C S : Type 0} (c : ClusterConfig C S) {w : World C S} (k : IsKept c w)
    (d : Distinct c.node_ids) (v : String) (m : IsMember c v) (sender : String)
    (args : AppendEntriesArgs C) (n : Node C S)
    (s : Stored (build_config c v) (scope c k v) args (w v) n)
    (x : Whole c.node_ids k.matched.made k.ruled k.acked sender args.term args.prev_log_index
      args.prev_log_term args.entries args.leader_commit) where
  -- the leader's log
  abbrev whole : List (LogEntry C)
  whole = x.before ++ args.entries

  abbrev log : List (LogEntry C)
  log = (w v).storage.log

  now : args.term ≡ current_term n
  now = s.now ∙ sym s.same_term

  by_leader : k.ruled (current_term n) sender whole
  by_leader = rw now at x.by

  merged : Merged k.matched.made k.matched.unique log whole n.storage.log
  merged =
      rw (s.log, ← s.reached.log)
        (stored_cases k.matched.made k.matched.unique s.at.storage args x.before {s' = s.stored}
          x.size x.ends x.grown (rw s.reached.log (k.matched.grown v m))
          (λ inside. sym (term_at-term_in s.at.storage args.prev_log_index) ∙ s.fits inside) s.known
          s.storing)

  whole_kept : Prefix whole n.storage.log
  whole_kept = elim merged [ inl (e, p) ↦ rw e p | inr (e, p) ↦ rw e (Prefix-refl whole) ]

  chained : (q : List (LogEntry C)) → Prefix q log → Chain q whole → Prefix q n.storage.log
  chained q i (inl a) = Prefix-trans q whole n.storage.log a whole_kept
  chained q i (inr b) = elim merged [
    | inl (e, p) ↦ rw e i
    | inr (e, p) ↦ rw e (Prefix-trans q log whole i (p (Prefix-trans whole q log b i)))
  ]

  role : Role (w v) n
  role = Role-trans s.reached.role (Role-follower s.at n s.same_term s.state)

  onward : Onward (w v) n
  onward = record { role = role; log = λ f. absurd (not_following (rw s.state at f)) }

  stored-Bounded : Bounded (current_term n) n.storage.log
  stored-Bounded = elim merged [
    | inl (e, p) ↦
        subst (λ l. Bounded (current_term n) l) (sym e)
          (Bounded-mono (current_term (w v)) (current_term n) (Role-term role) log (k.bounded v m))
    | inr (e, p) ↦ subst (λ l. Bounded (current_term n) l) (sym e) (rw now at x.bounded)
  ]

  abbrev IsWhole : List (LogEntry C) → Type 0
  IsWhole p = p ≡ whole

  -- what was committed in the log before stays in it
  old-Certain :
      (j : ℕ)
      → Certain c.node_ids k.ruled k.acked (current_term (w v)) j log
      → Certain c.node_ids k.ruled k.acked (current_term n) j n.storage.log
  old-Certain j y =
      Certain-onto c.node_ids k.ruled k.acked (current_term (w v)) (current_term n) j j log
        n.storage.log y (Role-term role) (omega arith)
        (chained (take j y.entries) (rw y.same (Prefix-take j log))
          (Chain-Prefix (take j y.entries) y.entries whole (Prefix-take j y.entries) meets_leader))
    where
      meets_leader : Chain y.entries whole
      meets_leader = elim (Bool-cases (ltb y.term (current_term n))) [
        | inl before ↦ inl (
            complete k.matched.safe.votes (λ u. current_term (w u)) k.matched.made k.ruled k.acked
              c.node_ids k.law y.term y.entries y.held (current_term n) (ltb→lt y.term _ before)
              sender whole by_leader)
        | inr at_once ↦
            let one : y.term ≡ current_term n = ground (arith, y.past, Role-term role) in
            Chain-Prefix y.entries y.held.log whole y.held.part (
              k.law.chain (current_term n) y.held.leader sender y.held.log whole
                (rw one at y.held.by) by_leader)
      ]

  new_commit :
      Follows (build_config c v) (scope c k v) args s.at n
      → Commit c.node_ids k.ruled k.acked (current_term n) n.commit_index n.storage.log
  new_commit (inl e) = elim (k.commit v m) [
    | inl z ↦ inl (e ∙ s.reached.commit ∙ z)
    | inr y ↦ rw (e, s.reached.commit) (inr (old-Certain (w v).commit_index y))
  ]
  new_commit (inr (more, e)) = elim x.commit [
    | inl z ↦ absurd (omega arith)
    | inr y ↦ inr (
        Certain-onto c.node_ids k.ruled k.acked args.term (current_term n) args.leader_commit
          n.commit_index whole n.storage.log y (omega (arith, now)) (omega (arith, e))
          (rw y.same (
            Prefix-trans (take args.leader_commit whole) whole n.storage.log
              (Prefix-take args.leader_commit whole) whole_kept)))
  ]

  module _ (to : String) (apart : (v == to) ≡ false) where
    -- the node once it has answered
    abbrev answered : Node C S
    answered =
        send (build_config c v) to
          (append_entries_reply
            (append_done (build_config c v) n (args.prev_log_index + length args.entries)))
          n

    abbrev ruled' : Ruled C
    ruled' = Ruled-after c k v answered

    abbrev acked' : Acked C
    acked' = Acked-after c k v answered IsWhole

    module _ (g : Grew c k.matched v answered) where
      answered-Onward : Onward (w v) answered
      answered-Onward = record {
        role = Role-trans role (same refl (λ h. ground arith) (λ h. h));
        log = onward.log;
      }

      at-Polled :
          (y : String)
          → Polled (scope c k v) v (w v) s.at y
          → Polled (scope c k v) v (w v) answered y
      at-Polled y (kept t e) = kept (s.same_term ∙ t) e
      at-Polled y (stands h e) = stands (omega (arith, s.same_term)) e
      at-Polled y (granted a q t e o) = granted a q (t ∙ sym s.same_term) e o

      follower_Letter :
          (message : Message C)
          → May (build_config c v) (scope c k v) (current_term (w v)) s.at message
          → Letter c g.matched.made ruled' acked' (update w v answered) v message
      follower_Letter (append_entries a) (lead, j, e) = absurd (not_leading (sym lead ∙ s.follows))
      follower_Letter (request_vote a) (f, newer, e) = absurd (not_following (rw s.follows at f))
      follower_Letter (append_entries_reply r) h =
          λ success. absurd (not_following (sym success ∙ h))
      follower_Letter (request_vote_reply _) h = tt
      follower_Letter (prevote _) h = tt
      follower_Letter (prevote_reply _) h = tt

      abbrev Posted-after : Envelope C → Type 0
      Posted-after = Posted c g.matched.made ruled' acked' (update w v answered) v

      answered_sent : All Posted-after answered.sent
      answered_sent =
          All-append Posted-after n.sent _
            (subst (λ es. All Posted-after es) (sym (s.out ∙ s.reached.out.split))
              (All-append Posted-after (w v).sent s.reached.out.fresh
                (sent-Posted c k v m answered g IsWhole answered-Onward)
                (All-mono _ Posted-after s.reached.out.fresh
                  (λ e (own, to, l). (own, to, follower_Letter e.message l)) s.reached.out.each)))
            (
              (
                refl,
                apart,
                λ success. (
                  whole,
                  inr (refl, refl, inr refl),
                  omega (arith, length-append x.before args.entries, x.size),
                ),
              ),
              tt,
            )

      pub Stored-IsKept : IsKept c (update w v answered)
      Stored-IsKept = moved-IsKept c k v answered d m (record {
        extra = IsWhole;
        matched = g.matched;
        more_made = g.more_made;
        new_made = g.new_made;
        more_votes = g.more_votes;
        onward = answered-Onward;
        from_leader = λ p e. (sender, whole, by_leader, rw e (Prefix-refl whole));
        in_log = λ p e. rw e whole_kept;
        holds = λ q i h. chained q i (h whole refl);
        bounded = stored-Bounded;
        ballots =
            votes-Say c k v m answered g IsWhole answered-Onward
              (λ y cast. at-Polled y (s.reached.polled y (sym s.vote ∙ cast)));
        sent = answered_sent;
        tally = λ lead. absurd (not_leading (sym lead ∙ s.state));
        commit =
            Commit-mono k.ruled ruled' k.acked acked' (λ t y l. inl) (λ u t p. inl) c.node_ids
              (current_term n) (current_term n) n.commit_index n.storage.log (omega arith)
              (new_commit s.commit);
      })
