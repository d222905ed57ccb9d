-- ===== src/Raft/Commitment/Outcomes.antt =====
-- What a node that moves has voted and sent, by the history after the move.
use mathlib.Core.Path.{subst}
use distributed_transaction.Prelude.{
  ℕ, ◌≤◌, ◌<◌, ◌≡◌, refl, sym, ◌∙◌, String, string_eq, eq_iff, ◌==◌, true, false, some, List,
  length, take, take-append-drop, length-take, arith, ◌⊎◌, inl, inr, All, All-mono, All-append,
  Bool-cases, ltb, ltb→lt,
}
use distributed_transaction.Raft.Types.{
  leader, LogEntry, Message, append_entries, append_entries_reply, request_vote, request_vote_reply,
  prevote, prevote_reply,
}
use distributed_transaction.Raft.Storage.{last_entry_term}
use distributed_transaction.Raft.Node.{Node, current_term}
use distributed_transaction.Raft.Cluster.{ClusterConfig, World, update, IsMember, build_config}
use distributed_transaction.Raft.Matching.Trails.{
  Grown, Grown-mono, slice, term_at-term_in, term_in_past, term_in-take,
}
use distributed_transaction.Raft.Matching.Moves.{Role-term}
use distributed_transaction.Raft.Matching.Safety.{Grew}
use distributed_transaction.Raft.Commitment.Prefixes.{Prefix-refl}
use distributed_transaction.Raft.Commitment.History.{
  Ruled, Acked, Heeded, Bounded, UpToDate, Loyal, last_entry_term_le,
}
use distributed_transaction.Raft.Commitment.Sending.{
  Scope, Polled, kept, stands, granted, Outdone, May, Sends,
}
use distributed_transaction.Raft.Commitment.States.{Bid, Ballot, Commit, Posted, Letter, IsKept}
use distributed_transaction.Raft.Commitment.Growing.{
  Onward, Bid-Onward, Bid-mono, Heeded-anti, Letter-mono,
}
use distributed_transaction.Raft.Commitment.Moving.{Ruled-after, Acked-after}

not_both : true ≡ false → ⊥
not_both h = cc

module _ {C S : Type 0} (c : ClusterConfig C S) {w : World C S} (k : IsKept c w) (v : String) where
  -- whom the node may write to, and which requests may come in
  abbrev pub scope : Scope
  scope = record {
    reach = λ to. (v == to) ≡ false;
    asks = λ args.
        (own : List (LogEntry C)) × Bid k.matched.made args.term own (w args.candidate_id)
        × (length own ≡ args.last_log_index)
        × (last_entry_term own ≡ args.last_log_term);
  }

  module _ (m : IsMember c v) (n : Node C S) (g : Grew c k.matched v n)
      (extra : List (LogEntry C) → Type 0) (on : Onward (w v) n) where
    abbrev ruled' : Ruled C
    ruled' = Ruled-after c k v n

    abbrev acked' : Acked C
    acked' = Acked-after c k v n extra

    term_le : current_term (w v) ≤ current_term n
    term_le = Role-term on.role

    -- what the node had stored before its term stands in its log
    log-Loyal :
        ((y : String) (l : List (LogEntry C)) → k.ruled (current_term n) y l → ⊥)
        → Loyal ruled' acked' v (current_term n) (w v).storage.log
    log-Loyal free t p q (inr (own, now, x)) b i heeded = absurd (omega arith)
    log-Loyal free t p q (inl a) b i heeded = (k.keeps v t p a).kept q i at_all
      where
        at_all : (r : ℕ) → t < r → r ≤ current_term (w v) → Heeded k.ruled q r
        at_all r x y = elim (Bool-cases (ltb r (current_term n))) [
          | inl before ↦
              Heeded-anti k.ruled ruled' k.acked acked' (λ t y l. inl) (λ u t p. inl) q r
                (heeded r x (ltb→lt r _ before))
          | inr now ↦
              let at_now : r ≡ current_term n = ground (arith, term_le) in
              λ z l a. absurd (free z l (rw at_now at a))
        ]

    log-Grown : Grown g.matched.made (w v).storage.log
    log-Grown =
        Grown-mono k.matched.made g.matched.made g.more_made (w v).storage.log (k.matched.grown v m)

    bids :
        (x : String) (s : ℕ) (own : List (LogEntry C))
        → Bid k.matched.made s own (w x)
        → Bid g.matched.made s own (update w v n x)
    bids x s own b =
        Bid-mono k.ruled ruled' k.acked acked' (λ t y l. inl) (λ u t p. inl) k.matched.made
          g.matched.made g.more_made s own (update w v n x)
          (elim (Bool-cases (v == x)) [
            | inl e ↦ rw e (Bid-Onward on k.matched.made s own (rw (← (eq_iff v x).0 e) at b))
            | inr e ↦ rw e b
          ])

    -- what the node's vote says
    abbrev Says : String → ℕ → String → Type 0
    Says u s x =
        k.matched.safe.votes u s x
        ⊎ (((y : String) (l : List (LogEntry C)) → k.ruled s y l → ⊥)
            → Ballot g.matched.made ruled' acked' u s (update w v n x))

    at_self : update w v n v ≡ n
    at_self = rw ((eq_iff v v).1 refl) refl

    vote-Says : (x : String) → Polled scope v (w v) n x → Says v (current_term n) x
    vote-Says x (kept t cast) = inl (rw t (k.matched.safe.covers v m x cast))
    vote-Says x (stands newer e) = inr (λ free. record {
      own = (w v).storage.log;
      voters = (w v).storage.log;
      bid =
          rw (e, at_self)
            (record {
              grown = log-Grown;
              below = below;
              past = omega arith;
              kept = λ f t. on.log f;
            });
      voters_grown = log-Grown;
      fresh = inr (refl, omega arith);
      loyal = log-Loyal free;
    })
      where
        below : last_entry_term (w v).storage.log < current_term n
        below = omega (
          arith,
          last_entry_term_le (current_term (w v)) (w v).storage.log (k.bounded v m),
          newer,
        )
    vote-Says x (granted args (own, bid, size, last) t e o) = inr (λ free. record {
      own = own;
      voters = (w v).storage.log;
      bid =
          subst (λ s. Bid g.matched.made s own (update w v n x)) t
            (subst (λ y. Bid g.matched.made args.term own (update w v n y)) e
              (bids args.candidate_id args.term own bid));
      voters_grown = log-Grown;
      fresh = fresh_of o;
      loyal = log-Loyal free;
    })
      where
        fresh_of : Outdone args (w v).storage.log → UpToDate own (w v).storage.log
        fresh_of (inl newer) = inl (rw last newer)
        fresh_of (inr (one, long)) = inr (last ∙ one, rw size long)

    -- every vote cast so far was cast before, or says what it is to say
    pub votes-Say :
        ((x : String) → n.storage.voted_for ≡ some x → Polled scope v (w v) n x)
        → (u : String) (s : ℕ) (x : String) → g.matched.safe.votes u s x
        → Says u s x
    votes-Say polled u s x vote = elim (g.new_votes u s x vote) [
      | inl old ↦ inl old
      | inr (own, now, cast) ↦ rw (own, now) (vote-Says x (polled x cast))
    ]

    -- what was sent before still holds
    pub sent-Posted : All (Posted c g.matched.made ruled' acked' (update w v n) v) (w v).sent
    sent-Posted =
        All-mono (Posted c k.matched.made k.ruled k.acked w v)
          (Posted c g.matched.made ruled' acked' (update w v n) v) (w v).sent
          (λ x (s, r, l). (
            s,
            r,
            Letter-mono k.ruled ruled' k.acked acked' (λ t y l. inl) (λ a t p. inl) k.matched.made
                g.matched.made g.more_made c w (update w v n) v (λ s own b. still s own b) x.message
                l,
          ))
          (k.sent v m)
      where
        still :
            (s : ℕ) (own : List (LogEntry C))
            → Bid k.matched.made s own (w v)
            → Bid k.matched.made s own (update w v n v)
        still s own b = rw at_self (Bid-Onward on k.matched.made s own b)

    -- new messages say what they are to say
    module _ (bounded : Bounded (current_term n) n.storage.log)
        (commit : Commit c.node_ids ruled' acked' (current_term n) n.commit_index n.storage.log)
        (below : current_term (w v) < current_term n
          → last_entry_term n.storage.log < current_term n) where
      now-Grown : Grown g.matched.made n.storage.log
      now-Grown = rw at_self at (g.matched.grown v m)

      entries-Letter :
          (j : ℕ)
          → n.state ≡ leader
          → Letter c g.matched.made ruled' acked'
              (update w v n)
              v
              (append_entries (slice (build_config c v) n j))
      entries-Letter j lead = elim (Bool-cases (ltb (length n.storage.log) j)) [
        | inl past ↦
            let over = ltb→lt (length n.storage.log) j past in
            inl (omega arith, term_at-term_in n.storage j ∙ term_in_past n.storage.log j over)
        | inr inside ↦
            let whole = take-append-drop j n.storage.log in
            inr (record {
              before = take j n.storage.log;
              size = length-take j n.storage.log ∙ ground arith;
              ends = term_in-take n.storage.log j ∙ sym (term_at-term_in n.storage j);
              grown = rw whole now-Grown;
              bounded = rw whole bounded;
              by = rw whole (inr (lead, refl, refl, refl));
              commit = rw whole commit;
            })
      ]

      May-Letter :
          (message : Message C)
          → May (build_config c v) scope (current_term (w v)) n message
          → Letter c g.matched.made ruled' acked' (update w v n) v message
      May-Letter (append_entries args) (lead, j, e) = rw e (entries-Letter j lead)
      May-Letter (request_vote args) (f, newer, e) = rw e (
        n.storage.log,
        rw at_self (record {
          grown = now-Grown;
          below = below newer;
          past = omega arith;
          kept = λ a b. Prefix-refl n.storage.log;
        }),
        refl,
        refl,
      )
      May-Letter (append_entries_reply r) h = λ success. absurd (not_both (sym success ∙ h))
      May-Letter (request_vote_reply _) h = tt
      May-Letter (prevote _) h = tt
      May-Letter (prevote_reply _) h = tt

      pub after-Posted :
          Sends
            (build_config c v)
            scope
            (May (build_config c v) scope (current_term (w v)) n)
            (w v)
            n
          → All (Posted c g.matched.made ruled' acked' (update w v n) v) n.sent
      after-Posted s =
          subst (λ es. All (Posted c g.matched.made ruled' acked' (update w v n) v) es)
            (sym s.split)
            (All-append (Posted c g.matched.made ruled' acked' (update w v n) v) (w v).sent s.fresh
              sent-Posted
              (All-mono _ (Posted c g.matched.made ruled' acked' (update w v n) v) s.fresh
                (λ x (own, to, l). (own, to, May-Letter x.message l)) s.each))
