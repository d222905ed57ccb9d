-- ===== src/Raft/Runtime/Runs.antt =====
-- The runs of the cluster over `InMemoryTransport` are among those of Raft/Cluster.
use distributed_transaction.Prelude.{
  ℕ, ◌≡◌, refl, sym, ap, ◌∙◌, String, string_eq, eq_iff, ◌==◌, false, Option, none, some, put, List,
  [], ◌∷◌, ◌++◌, length, drop, get_default-put, add, Bool-cases, inl, inr, arith, All, All-append,
  All-mono, ok, bind-eq-ok,
}
use mathlib.Core.List.{append-nil}
use distributed_transaction.Raft.Types.{Envelope}
use distributed_transaction.Raft.Node.{Node}
use distributed_transaction.Raft.Driver.{Event, ticked, received, proposed, step}
use distributed_transaction.Raft.Transport.{
  Transport, new_transport, register, inbox, partition, take_next,
}
use distributed_transaction.Raft.Transport.Order.{send_all, passed, is_cut, inbox-send_all}
use distributed_transaction.Raft.Cluster.{
  ClusterConfig, World, In, update, build_config, IsMember, revive, Delivers, ClusterStep, called,
  revived, Reachable, built, went,
}
use distributed_transaction.Raft.Leaders.{RaftCluster, kill, revive_node}
use distributed_transaction.Raft.Commitment.Sending.{Scope}
use distributed_transaction.Raft.Commitment.Turns.{From, step_sends}
use distributed_transaction.Raft.Runtime.{
  Running, register_all, nodes_of, posted, call_node, drive, deliver, propose_node, RunStep, drives,
  delivers, proposes, kills, revives, cuts, heals, RunReachable, began, ran,
}

module _ {A : Type 0} where
  In-append : (x : A) (xs ys : List A) → In x xs → In x (xs ++ ys)
  In-append x [] ys i = absurd i
  In-append x (y ∷ xs) ys (inl e) = inl e
  In-append x (y ∷ xs) ys (inr i) = inr (In-append x xs ys i)

  All-In_later : (xs ys : List A) → All (λ x. In x (xs ++ ys)) ys
  All-In_later xs [] = tt
  All-In_later [] (y ∷ ys) = (inl refl, All-mono _ _ ys (λ x i. inr i) (All-In_later [] ys))
  All-In_later (x ∷ xs) (y ∷ ys) =
      All-mono (λ z. In z (xs ++ y ∷ ys)) _ (y ∷ ys) (λ z i. inr i) (All-In_later xs (y ∷ ys))

  drop-append : (xs ys : List A) → drop (length xs) (xs ++ ys) ≡ ys
  drop-append [] ys = refl
  drop-append (x ∷ xs) ys = drop-append xs ys

none_taken : {A : Type 0} {x : A} → ◌≡◌ {A = Option A} none (some x) → ⊥
none_taken h = cc

abbrev anyone : Scope
anyone = record { reach = λ v. Unit; asks = λ args. Unit }

everyone : (vs : List String) → All (λ v. Unit) vs
everyone [] = tt
everyone (v ∷ vs) = (tt, everyone vs)

module _ {C : Type 0} where
  -- what passes is sent, and goes to the node
  All-passed :
      (P : Envelope C → Type 0) (cut : List String) (v : String) (es : List (Envelope C))
      → All P es
      → All (λ e. P e × (e.recipient_id ≡ v)) (passed cut v es)
  All-passed P cut v [] a = tt
  All-passed P cut v (e ∷ es) a = elim (Bool-cases (is_cut cut e)) [
    | inl stopped ↦ rw stopped (All-passed P cut v es a.1)
    | inr whole ↦ elim (Bool-cases (e.recipient_id == v)) [
      | inl here ↦
          rw (whole, here) ((a.0, (eq_iff e.recipient_id v).0 here), All-passed P cut v es a.1)
      | inr other ↦ rw (whole, other) (All-passed P cut v es a.1)
    ]
  ]

  no_one : (event : Event C) → From anyone event
  no_one (received e now) = (tt, λ args h. tt)
  no_one (ticked now) = tt
  no_one (proposed command now) = tt

  taken_from :
      (v : String) (t : Transport C) (e : Envelope C) (rest : Transport C) (l : List (Envelope C))
      → inbox t v ≡ l
      → take_next v t ≡ some (e, rest)
      → (l ≡ e ∷ inbox rest v) × ((u : String) → (v == u) ≡ false → inbox rest u ≡ inbox t u)
  unfolding take_next
  taken_from v t e rest [] h taken = absurd (none_taken (rw (h, take_next) at taken))
  taken_from v t e rest (x ∷ xs) h taken =
      let after : Transport C = record t { inboxes = put v xs t.inboxes } in
      let found = rw (h, take_next) at taken in
      let first : e ≡ x = ground arith in
      let others : rest ≡ after = ground arith in
      let same_v = get_default-put v v [] xs t.inboxes in
      rw (first, others)
        (
          ap (λ (l : List (Envelope C)). x ∷ l) (sym (rw ((eq_iff v v).1 refl) at same_v)),
          λ u other. rw other at (get_default-put v u [] xs t.inboxes),
        )

  inbox-register : (v : String) (t : Transport C) (u : String) → inbox (register v t) u ≡ inbox t u
  inbox-register v t u = ground (arith, get_default-put v u [] [] t.inboxes, eq_iff v u)

  inbox-register_all :
      (vs : List String) (t : Transport C) (u : String) → inbox (register_all vs t) u ≡ inbox t u
  inbox-register_all [] t u = refl
  inbox-register_all (v ∷ vs) t u = inbox-register_all vs (register v t) u ∙ inbox-register v t u

module _ {C S : Type 0} (c : ClusterConfig C S) where
  -- an envelope that a member of the cluster has sent to a node
  abbrev Sent : World C S → String → Envelope C → Type 0
  Sent w u e = (s : String) × IsMember c s × In e (w s).sent × (e.recipient_id ≡ u)

  -- what is in an inbox was sent to its node
  abbrev Carried : World C S → Transport C → Type 0
  Carried w t = (u : String) → All (Sent w u) (inbox t u)

  Sent-update :
      (w : World C S) (v : String) (n : Node C S) (xs : List (Envelope C)) (u : String)
      (e : Envelope C)
      → n.sent ≡ (w v).sent ++ xs
      → Sent w u e
      → Sent (update w v n) u e
  Sent-update w v n xs u e split (s, m, i, to) = (s, m, kept, to)
    where
      kept : In e (update w v n s).sent
      kept = elim (Bool-cases (v == s)) [
        | inl here ↦ rw (here, split) (In-append e (w v).sent xs (rw (← (eq_iff v s).0 here) at i))
        | inr other ↦ rw other i
      ]

  Carried-posted :
      (w : World C S) (v : String) (n : Node C S) (t : Transport C) (xs : List (Envelope C))
      → IsMember c v
      → n.sent ≡ (w v).sent ++ xs
      → Carried w t
      → Carried (update w v n) (send_all (drop (length (w v).sent) n.sent) t)
  Carried-posted w v n t xs m split a u =
      let fresh : drop (length (w v).sent) n.sent ≡ xs = rw split (drop-append (w v).sent xs) in
      let new : All (λ e. In e n.sent) xs = rw split (All-In_later (w v).sent xs) in
      rw (fresh, inbox-send_all xs t u)
        (All-append (Sent (update w v n) u) (inbox t u) (passed t.partitioned u xs)
          (All-mono (Sent w u) (Sent (update w v n) u) (inbox t u)
            (λ e. Sent-update w v n xs u e split) (a u))
          (All-mono _ (Sent (update w v n) u) (passed t.partitioned u xs)
            (λ e (i, to). (v, m, rw ((eq_iff v v).1 refl) i, to))
            (All-passed (λ e. In e n.sent) t.partitioned u xs new)))

  -- a call of a node is a step of the cluster, and leaves inboxes with what was sent
  call_node-Carried :
      (s : RaftCluster C S) (t : Transport C) (v : String) (event : Event C) {s' : RaftCluster C S}
      → IsMember c v
      → Carried s.nodes t
      → Delivers c s.nodes v event
      → call_node c v event (record s { transport = t }) ≡ ok s'
      → ClusterStep c s.nodes s'.nodes × Carried s'.nodes s'.transport
  unfolding call_node posted
  call_node-Carried s t v event {s'} m a d h =
      let (n, stepped, last) = bind-eq-ok (step (build_config c v) event (s.nodes v)) _ h in
      let e : s' ≡ posted v n (record s { transport = t }) = ground arith in
      let (xs, split) =
        step_sends (build_config c v) anyone (everyone _) event (s.nodes v) n (no_one event)
          stepped in
      rw e (called s.nodes v event n m d stepped, Carried-posted s.nodes v n t xs m split a)

  Carried-rest :
      (w : World C S) (v : String) (t rest : Transport C) (e : Envelope C)
      → take_next v t ≡ some (e, rest)
      → Carried w t
      → Sent w v e × Carried w rest
  Carried-rest w v t rest e h a =
      let (first, others) = taken_from v t e rest (inbox t v) refl h in
      let here = rw first at (a v) in
      (
        here.0,
        λ u. elim (Bool-cases (v == u)) [
          | inl same ↦ rw (← (eq_iff v u).0 same) here.1
          | inr other ↦ rw (others u other) (a u)
        ],
      )

  Carried-revived :
      (w : World C S) (t : Transport C) (v : String) (now : ℕ)
      → Carried w t
      → Carried (update w v (revive c v now (w v))) t
  unfolding revive
  Carried-revived w t v now a u =
      All-mono (Sent w u) (Sent (update w v (revive c v now (w v))) u) (inbox t u)
        (λ e. Sent-update w v (revive c v now (w v)) [] u e (sym (append-nil (w v).sent))) (a u)

  inbox-partition :
      (vs : List String) (t : Transport C) (u : String) → inbox (partition vs t) u ≡ inbox t u
  inbox-partition [] t u = refl
  inbox-partition (v ∷ vs) t u =
      inbox-partition vs (record t { partitioned = add v t.partitioned }) u

  -- what holds of a running cluster
  abbrev Covered : Running C S → Type 0
  Covered s = Reachable c (nodes_of s) × Carried (nodes_of s) s.cluster.transport

  RunStep-Covered : {s s' : Running C S} → RunStep c s s' → Covered s → Covered s'
  unfolding drive deliver propose_node kill revive_node
  RunStep-Covered (drives s v now s' m r h) (reached, a) =
      let (went_on, a') = call_node-Carried s.cluster s.cluster.transport v (ticked now) m a tt h in
      (went reached went_on, a')
  RunStep-Covered (delivers s v now e rest s' m r taken h) (reached, a) =
      let (sent, left) = Carried-rest (nodes_of s) v s.cluster.transport rest e taken a in
      let (went_on, a') = call_node-Carried s.cluster rest v (received e now) m left sent h in
      (went reached went_on, a')
  RunStep-Covered (proposes s v command now s' m h) (reached, a) =
      let (went_on, a') =
        call_node-Carried s.cluster s.cluster.transport v (proposed command now) m a tt h in
      (went reached went_on, a')
  RunStep-Covered (kills s v m) (reached, a) = (reached, λ u. a u)
  RunStep-Covered (revives s v now m) (reached, a) = (
    went reached (revived (nodes_of s) v now m),
    Carried-revived (nodes_of s) s.cluster.transport v now a,
  )
  RunStep-Covered (cuts s vs) (reached, a) =
      (reached, λ u. rw (inbox-partition vs s.cluster.transport u) (a u))
  RunStep-Covered (heals s) (reached, a) = (reached, a)

  RunReachable-Covered : {s : Running C S} → RunReachable c s → Covered s
  RunReachable-Covered (began now) =
      (built now, λ u. rw (inbox-register_all c.node_ids new_transport u) tt)
  RunReachable-Covered (ran r h) = RunStep-Covered h (RunReachable-Covered r)

  -- Every state that the nodes of a running cluster reach, driven by their threads over the
  -- in-memory transport, with proposals, and with nodes killed, restarted or cut off at any time,
  -- is one that the cluster over a lossy network can reach: what holds of the latter's states holds
  -- of the former's.
  pub run_reachable : {s : Running C S} → RunReachable c s → Reachable c (nodes_of s)
  run_reachable r = (RunReachable-Covered r).0
