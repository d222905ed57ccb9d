-- ===== src/Raft/Commitment/Safety.antt =====
-- Commitment in every state that the cluster can reach.
use mathlib.Core.Path.{subst}
use distributed_transaction.Prelude.{
  Distinct, ℕ, ◌≤◌, ◌<◌, ◌≡◌, refl, sym, ap, ◌∙◌, String, string_eq, eq_iff, ◌==◌, true, false,
  none, List, [], ◌∷◌, ◌+◌, ◌/◌, length, take, length-take, arith, inl, inr, All, All-mono,
  Bool-cases, ltb, ltb→lt, ok,
}
use distributed_transaction.Raft.Types.{
  NodeState, leader, follower, LogEntry, Envelope, RequestVoteArgs, AppendEntriesArgs,
  AppendEntriesReply,
}
use distributed_transaction.Raft.Storage.{last_entry_term}
use distributed_transaction.Raft.Node.{Node, current_term, reset_election_deadline}
use distributed_transaction.Raft.Driver.{Event, ticked, received, proposed, step}
use distributed_transaction.Raft.Cluster.{
  ClusterConfig, World, update, build_config, IsMember, Delivers, Reachable, built, went, called,
  revived, initial, revive,
}
use distributed_transaction.Raft.Election.Honest.{TrueEnvelope, TrueMessage}
use distributed_transaction.Raft.Election.Votes.{not_cast, All-In, All-contains}
use distributed_transaction.Raft.Election.Quorum.{majorities_meet}
use distributed_transaction.Raft.Election.Safety.{IsSafe}
use distributed_transaction.Raft.Matching.Worlds.{IsMatched}
use distributed_transaction.Raft.Matching.Moves.{same}
use distributed_transaction.Raft.Matching.Steps.{Takes}
use distributed_transaction.Raft.Matching.Safety.{
  Grew, called-IsMatched, revived-IsMatched, initial-IsMatched,
}
use distributed_transaction.Raft.Commitment.Prefixes.{
  Prefix, Prefix-trans, Prefix-take, take-Prefix, length-Prefix, Chain, Chain-sym, Chain-Prefix,
}
use distributed_transaction.Raft.Commitment.Completeness.{complete, Elector}
use distributed_transaction.Raft.Commitment.Moving.{Chain-of_Prefix}
use distributed_transaction.Raft.Commitment.Sending.{kept, Sends-same}
use distributed_transaction.Raft.Commitment.States.{
  Bid, Reached, Commit, Certain, Whole, Letter, Posted, IsKept,
}
use distributed_transaction.Raft.Commitment.Turns.{
  From, Tells, plain, grown, stored, counted, step-Turn,
}
use distributed_transaction.Raft.Commitment.Outcomes.{scope}
use distributed_transaction.Raft.Commitment.Standing.{
  elsewhere, standing-IsKept, Plain-IsKept, Grown-IsKept,
}
use distributed_transaction.Raft.Commitment.Counting.{Counted-IsKept}
use distributed_transaction.Raft.Commitment.Receiving.{Stored-IsKept}

not_leading : ◌≡◌ {A = NodeState} follower leader → ⊥
not_leading h = cc

module _ {C S : Type 0} (c : ClusterConfig C S) where
  -- what is delivered was posted by a member
  delivered-Posted :
      {w : World C S} (k : IsKept c w) (v : String) (e : Envelope C) (now : ℕ)
      → Delivers c w v (received e now)
      → Posted c k.matched.made k.ruled k.acked w e.sender_id e
        × ((v == e.sender_id) ≡ false)
        × IsMember c e.sender_id
  delivered-Posted {w} k v e now (sender, m, sent, to) =
      let (own, other, l) =
        All-In (Posted c k.matched.made k.ruled k.acked w sender) e (w sender).sent
          (k.sent sender m) sent in
      rw own ((refl, other, l), ground (arith, eq_iff sender v, eq_iff v sender), m)

  scope-From :
      {w : World C S} (k : IsKept c w) (v : String) (event : Event C)
      → Delivers c w v event
      → From (scope c k v) event
  scope-From {w} k v (ticked now) del = tt
  scope-From {w} k v (proposed command now) del = tt
  scope-From {w} k v (received e now) del =
      let ((own, other, l), apart, m) = delivered-Posted k v e now del in
      (
        apart,
        λ args asks.
            asked (w e.sender_id) args
              (subst (λ x. Letter c k.matched.made k.ruled k.acked w e.sender_id x) asks l)
              (subst (λ x. TrueMessage k.matched.safe.votes e.sender_id e.recipient_id x) asks
                (All-In (TrueEnvelope k.matched.safe.votes) e (w del.0).sent
                  (k.matched.safe.honest del.0 del.1).sent del.2)),
      )
    where
      asked :
          (n : Node C S) (args : RequestVoteArgs)
          → (own : List (LogEntry C)) × Bid k.matched.made args.term own (w e.sender_id)
            × (length own ≡ args.last_log_index)
            × (last_entry_term own ≡ args.last_log_term)
          → args.candidate_id ≡ e.sender_id
          → (scope c k v).asks args
      asked n args (own, bid, size, last) by =
          (own, subst (λ x. Bid k.matched.made args.term own (w x)) (sym by) bid, size, last)

  -- entries come with the log of their leader
  carried :
      {w : World C S} (k : IsKept c w) (v : String) (event : Event C) (args : AppendEntriesArgs C)
      → Delivers c w v event
      → Takes event args
      → (0 < args.prev_log_index → args.prev_log_term ≡ none → ⊥)
      → (u : String) × Whole c.node_ids k.matched.made k.ruled k.acked u args.term
          args.prev_log_index args.prev_log_term args.entries args.leader_commit
  carried k v (ticked now) args del takes known = absurd takes
  carried k v (proposed command now) args del takes known = absurd takes
  carried {w} k v (received e now) args del takes known =
      let ((own, other, l), apart, m) = delivered-Posted k v e now del in
      elim (subst (λ x. Letter c k.matched.made k.ruled k.acked w e.sender_id x) takes l) [
        | inl (inside, gap) ↦ absurd (known inside gap)
        | inr x ↦ (e.sender_id, x)
      ]

  -- a peer's word that it has stored entries
  told :
      {w : World C S} (k : IsKept c w) (v : String) (event : Event C) (sender : String)
      (reply : AppendEntriesReply)
      → Delivers c w v event
      → Tells event sender reply
      → reply.success ≡ true
      → ((v == sender) ≡ false)
        × Reached c.node_ids k.ruled k.acked reply.term (sender, reply.match_index)
  told k v (ticked now) sender reply del tells success = absurd tells
  told k v (proposed command now) sender reply del tells success = absurd tells
  told {w} k v (received e now) sender reply del (by, says) success =
      let ((own, other, l), apart, m) = delivered-Posted k v e now del in
      let (q, a, h) =
        subst (λ x. Letter c k.matched.made k.ruled k.acked w e.sender_id x) says l success in
      (rw by at apart, inr (q, rw by at a, h))

  called-IsKept :
      {w : World C S} (k : IsKept c w) (v : String) (event : Event C) (n : Node C S)
      → Distinct c.node_ids
      → IsMember c v
      → Delivers c w v event
      → step (build_config c v) event (w v) ≡ ok n
      → IsKept c (update w v n)
  called-IsKept {w} k v event n d m del e =
      let g = called-IsMatched c k.matched v event n d m del e in
      elim (step-Turn (build_config c v) (scope c k v) (elsewhere v c.node_ids) event (w v) n
        (scope-From k v event del) e) [
          | plain s ↦ Plain-IsKept c k d v m n g s
          | grown s ↦ Grown-IsKept c k d v m n g s
          | stored args x to takes s apart one ↦
              let (sender, whole) = carried k v event args del takes s.known in
              let g' = subst (λ (y : Node C S). Grew c k.matched v y) one g in
              subst (λ (y : Node C S). IsKept c (update w v y)) (sym one)
                (Stored-IsKept c k d v m sender args x s whole to apart g')
          | counted sender reply tells s ↦
              let (apart, reached) = told k v event sender reply del tells s.success in
              Counted-IsKept c k d v m s.leads sender reply.match_index apart
                (subst (λ t. Reached c.node_ids k.ruled k.acked t (sender, reply.match_index))
                  s.term reached)
                reply n g refl s
        ]

  revived-IsKept :
      {w : World C S} (k : IsKept c w) (v : String) (now : ℕ)
      → Distinct c.node_ids
      → IsMember c v
      → IsKept c (update w v (revive c v now (w v)))
  unfolding revive reset_election_deadline
  revived-IsKept {w} k v now d m =
      standing-IsKept c k d v m (revive c v now (w v)) (revived-IsMatched c k.matched v now m) refl
        (same refl (λ h. ground arith) (λ h. ground arith)) (inl refl) (λ x cast. kept refl cast)
        (λ lead. absurd (not_leading lead))
        (Sends-same (build_config c v) (scope c k v) _ (w v) _ refl)

  -- no vote is cast, and no entry made, in the beginning
  none_cast :
      (now : ℕ) (safe : IsSafe c (initial c now)) (u : String) (t : ℕ) (x : String)
      → safe.votes u t x
      → ⊥
  unfolding reset_election_deadline
  none_cast now safe u t x vote =
      let p = safe.past u t x vote in not_cast (safe.present u t x vote (omega arith))

  none_made :
      (now : ℕ) (mt : IsMatched c (initial c now)) (t : ℕ) (x : String) (q : List (LogEntry C))
      → mt.made t x q
      → ⊥
  none_made now mt t x q a = let (xs, (d, i, most, votes)) = mt.led t x q a in none_of xs most votes
    where
      none_of :
          (xs : List String)
          → length c.node_ids / 2 + 1 ≤ length xs
          → All (λ u. mt.safe.votes u t x) xs
          → ⊥
      none_of [] most votes = omega arith
      none_of (u ∷ xs) most votes = none_cast now mt.safe u t x votes.0

  initial-IsKept : (now : ℕ) → IsKept c (initial c now)
  unfolding reset_election_deadline
  initial-IsKept now = record {
    matched = initial-IsMatched c now;
    ruled = λ t x l. ⊥;
    acked = λ u t p. ⊥;
    law = record {
      chain = λ t x y l m r. absurd r;
      made_ruled = λ t x q a. absurd (none_made now (initial-IsMatched c now) t x q a);
      bounded = λ t x l r. absurd r;
      elected = λ s x l r. absurd r;
    };
    leads = λ v m lead. absurd (not_leading lead);
    rules = λ t x l r. absurd r;
    bounded = λ v m. tt;
    members = λ u t p a. absurd a;
    keeps = λ u t p a. absurd a;
    ballots = λ u s x vote. absurd (none_cast now (initial-IsMatched c now).safe u s x vote);
    sent = λ u m. tt;
    tally = λ v m lead. absurd (not_leading lead);
    commit = λ v m. inl refl;
  }

  Reachable-IsKept : {w : World C S} → Distinct c.node_ids → Reachable c w → IsKept c w
  Reachable-IsKept d (built now) = initial-IsKept now
  Reachable-IsKept d (went r (called w v event n m del e)) =
      called-IsKept (Reachable-IsKept d r) v event n d m del e
  Reachable-IsKept d (went r (revived w v now m)) = revived-IsKept (Reachable-IsKept d r) v now d m

  module _ {w : World C S} (k : IsKept c w) where
    -- what is committed in a term stands in the log of a leader of that term or of a later one
    in_leader :
        (t s j : ℕ) (l : List (LogEntry C)) (y : String) (m : List (LogEntry C))
        → (x : Certain c.node_ids k.ruled k.acked t j l) → t ≤ s
        → k.ruled s y m
        → Chain x.entries m
    in_leader t s j l y m x h r = elim (Bool-cases (ltb x.term s)) [
      | inl before ↦ inl (
          complete k.matched.safe.votes (λ u. current_term (w u)) k.matched.made k.ruled k.acked
            c.node_ids k.law x.term x.entries x.held s (ltb→lt x.term s before) y m r)
      | inr at_once ↦
          let one : x.term ≡ s = ground (arith, x.past) in
          Chain-Prefix x.entries x.held.log m x.held.part
            (k.law.chain s x.held.leader y x.held.log m (rw one at x.held.by) r)
    ]

    -- of two committed lists of entries one begins the other
    Certain-Chain :
        (t t' j j' : ℕ) (l l' : List (LogEntry C))
        → (x : Certain c.node_ids k.ruled k.acked t j l)
        → (y : Certain c.node_ids k.ruled k.acked t' j' l') → Chain x.entries y.entries
    Certain-Chain t t' j j' l l' x y = elim (Bool-cases (ltb y.term x.term)) [
      | inr first ↦ Chain-of_Prefix x.entries y.entries y.held.log y.held.part (
          in_leader x.term y.term j l y.held.leader y.held.log (at_term t j l x) (ground arith)
            y.held.by)
      | inl first ↦ Chain-sym y.entries x.entries (
          Chain-of_Prefix y.entries x.entries x.held.log x.held.part (
            in_leader y.term x.term j' l' x.held.leader x.held.log (at_term t' j' l' y)
              (ground (arith, ltb→lt y.term x.term first)) x.held.by))
    ]
      where
        at_term :
            (t j : ℕ) (l : List (LogEntry C)) (x : Certain c.node_ids k.ruled k.acked t j l)
            → Certain c.node_ids k.ruled k.acked x.term j l
        at_term t j l x = record {
          term = x.term;
          entries = x.entries;
          held = x.held;
          past = omega arith;
          inside = x.inside;
          same = x.same;
        }

    both_begin :
        (j : ℕ) (a b : List (LogEntry C))
        → Chain a b
        → j ≤ length a
        → j ≤ length b
        → take j a ≡ take j b
    both_begin j a b (inl p) h h' = take-Prefix j a b p h
    both_begin j a b (inr p) h h' = sym (take-Prefix j b a p h')

    -- fewer of the first entries
    take_less :
        (j j' : ℕ) (a b : List (LogEntry C))
        → j ≤ j'
        → j' ≤ length a
        → take j' a ≡ take j' b
        → take j a ≡ take j b
    take_less j j' a b h inside e =
        let size = ap length e in
        sym (take-Prefix j (take j' a) a (Prefix-take j' a) (omega (arith, length-take j' a)))
        ∙ ap (λ (z : List (LogEntry C)). take j z) e
        ∙ take-Prefix j (take j' b) b (Prefix-take j' b)
            (omega (arith, length-take j' a, length-take j' b, size))

    -- two logs agree up to the lesser of two commit indices
    agree :
        (t t' j j' : ℕ) (l l' : List (LogEntry C))
        → Commit c.node_ids k.ruled k.acked t j l
        → Commit c.node_ids k.ruled k.acked t' j' l'
        → j ≤ j'
        → (take j l ≡ take j l') × (j ≤ length l)
    agree t t' j j' l l' (inl z) b h = rw z (refl, omega arith)
    agree t t' j j' l l' (inr x) (inl z) h =
        let zero_index : j ≡ 0 = omega arith in rw zero_index (refl, omega arith)
    agree t t' j j' l l' (inr x) (inr y) h = (
      sym x.same
          ∙ both_begin j x.entries y.entries (Certain-Chain t t' j j' l l' x y) x.inside
              (omega (arith, y.inside))
          ∙ take_less j j' y.entries l' h y.inside y.same,
      omega (arith, ap length x.same, length-take j x.entries, length-take j l, x.inside),
    )

  -- a term has one leader, whenever it led
  ruled_once :
      {w : World C S} (k : IsKept c w) (s : ℕ) (x y : String) (l l' : List (LogEntry C))
      → k.ruled s x l
      → k.ruled s y l'
      → x ≡ y
  ruled_once {w} k s x y l l' a b =
      let (xs, (dx, wx, mx), ex) = k.law.elected s x l a in
      let (ys, (dy, wy, my), ey) = k.law.elected s y l' b in
      let (u, here, there) = majorities_meet xs ys c.node_ids dx dy wx wy mx my in
      k.matched.safe.unique u s x y
        (All-contains (λ z. k.matched.safe.votes z s x) u xs
          (All-mono
            (Elector k.matched.safe.votes (λ z. current_term (w z)) k.matched.made k.ruled k.acked s
              x l)
            (λ z. k.matched.safe.votes z s x) xs (λ z e. e.vote) ex)
          here)
        (All-contains (λ z. k.matched.safe.votes z s y) u ys
          (All-mono
            (Elector k.matched.safe.votes (λ z. current_term (w z)) k.matched.made k.ruled k.acked s
              y l')
            (λ z. k.matched.safe.votes z s y) ys (λ z e. e.vote) ey)
          there)

  -- the log of a leader has what is committed in its term or before
  leads_certain :
      {w : World C S} (k : IsKept c w) (v : String) (t j : ℕ) (l : List (LogEntry C))
      → (x : Certain c.node_ids k.ruled k.acked t j l) → IsMember c v
      → (w v).state ≡ leader
      → t ≤ current_term (w v)
      → Prefix x.entries (w v).storage.log
  leads_certain {w} k v t j l x m lead h =
      let (r, a) = k.leads v m lead in
      elim (Bool-cases (ltb x.term (current_term (w v)))) [
        | inl before ↦
            complete k.matched.safe.votes (λ u. current_term (w u)) k.matched.made k.ruled k.acked
              c.node_ids k.law x.term x.entries x.held (current_term (w v)) (ltb→lt x.term _ before)
              v (w v).storage.log r
        | inr at_once ↦
            let one : x.term ≡ current_term (w v) = ground (arith, x.past) in
            let by = rw one at x.held.by in
            let its =
              ruled_once k (current_term (w v)) x.held.leader v x.held.log (w v).storage.log by r in
            Prefix-trans x.entries x.held.log (w v).storage.log x.held.part
              ((k.rules (current_term (w v)) v x.held.log (rw its at by)).1 lead refl)
      ]

  -- In every state that a cluster of nodes with different names can reach, whatever was lost,
  -- delayed, repeated or reordered and whichever nodes were restarted: the log of a node that leads
  -- has all entries up to the commit index of any node that is in its term or in an earlier one, and
  -- they are the same there.
  pub leader_completeness :
      {w : World C S} (v u : String)
      → Distinct c.node_ids
      → Reachable c w
      → IsMember c v
      → IsMember c u
      → (w v).state ≡ leader
      → current_term (w u) ≤ current_term (w v)
      → (take (w u).commit_index (w u).storage.log ≡ take (w u).commit_index (w v).storage.log)
        × ((w u).commit_index ≤ length (w v).storage.log)
  leader_completeness {w} v u d r m mu lead h =
      let k = Reachable-IsKept d r in
      elim (k.commit u mu) [
        | inl z ↦ rw z (refl, omega arith)
        | inr x ↦
            let p =
              leads_certain k v (current_term (w u)) (w u).commit_index (w u).storage.log x m lead
                h in
            (
              sym x.same ∙ take-Prefix (w u).commit_index x.entries (w v).storage.log p x.inside,
              omega (arith, x.inside, length-Prefix x.entries (w v).storage.log p),
            )
      ]

  -- In every state that a cluster of nodes with different names can reach, whatever was lost,
  -- delayed, repeated or reordered and whichever nodes were restarted: a node's log has all entries
  -- up to its commit index, and the log of a node whose commit index is as great, or greater, has
  -- the same entries there. So no two nodes ever commit different entries at one place.
  pub state_machine_safety :
      {w : World C S} (v v' : String)
      → Distinct c.node_ids
      → Reachable c w
      → IsMember c v
      → IsMember c v'
      → (w v).commit_index ≤ (w v').commit_index
      → (take (w v).commit_index (w v).storage.log ≡ take (w v).commit_index (w v').storage.log)
        × ((w v).commit_index ≤ length (w v).storage.log)
  state_machine_safety {w} v v' d r m m' h =
      let k = Reachable-IsKept d r in
      agree k (current_term (w v)) (current_term (w v')) (w v).commit_index (w v').commit_index
        (w v).storage.log (w v').storage.log (k.commit v m) (k.commit v' m') h
