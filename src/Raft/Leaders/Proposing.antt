-- ===== src/Raft/Leaders/Proposing.antt =====
-- What a proposal to a running cluster comes to.
use distributed_transaction.Prelude.{
  ℕ, zero, suc, ◌+◌, ◌-◌, ◌≤◌, ◌<◌, ◌≡◌, refl, String, string_eq, eq_iff, true, false, Option, none,
  some, Result, ok, raise, get_elem?, ltb, ltb→lt, Bool-cases, Option-cases, inl, inr, ◌⊎◌, arith,
}
use distributed_transaction.Raft.Types.{LogEntry, leader}
use distributed_transaction.Raft.Node.{Node, current_term}
use distributed_transaction.Raft.Driver.{propose}
use distributed_transaction.Raft.Driver.Proposing.{Holds, propose-Holds}
use distributed_transaction.Raft.Cluster.{ClusterConfig, IsMember, update, build_config}
use distributed_transaction.Raft.Leaders.{
  RaftCluster, leads, find_leader, found_node, node_after, propose_to, propose_loop,
  propose_cluster, ClusterError, no_leader,
}
use distributed_transaction.Raft.Leaders.Clock.{clock_later}
use distributed_transaction.Raft.Leaders.Looking.{Looked, poll-Looked}
use distributed_transaction.Raft.Leaders.Finding.{Answers, poll_total}

module _ {C S : Type 0} (c : ClusterConfig C S) (clock : ℕ → ℕ)
    (others : ℕ → RaftCluster C S → RaftCluster C S) (replaced : ℕ → Option (Node C S))
    (command : C) where
  abbrev pub Outcome : Type 0
  Outcome = ℕ × RaftCluster C S × Result ClusterError (LogEntry C)

  -- the entry is of the node's term and stands at its index in the node's log; and the node leads,
  -- if it was not revived meanwhile
  abbrev pub Taken : LogEntry C → Option (Node C S) → Node C S → Type 0
  Taken e old n =
      (current_term n ≡ e.term)
      × (get_elem? n.storage.log (e.index - 1) ≡ some e)
      × (old ≡ none → n.state ≡ leader)

  -- the runtime's answer to the command, where it was found as `v` in the look of a turn
  abbrev pub answer_of : String → ℕ → RaftCluster C S → Node C S × Option (LogEntry C)
  answer_of v k s =
      propose (build_config c v) command (clock k)
        (found_node c clock others replaced v k (others k s))

  -- the cluster after it
  abbrev pub cluster_after : String → ℕ → RaftCluster C S → RaftCluster C S
  cluster_after v k s = record (others k s) {
    nodes =
        update (others k s).nodes v
          (node_after c clock others replaced v k (others k s) (answer_of v k s).0);
  }

  -- turns whose searches find a leader that no longer takes the command
  pub data Declined : ℕ → RaftCluster C S → ℕ → RaftCluster C S → Type 0 where
    no_turn : (k : ℕ) (s : RaftCluster C S) → Declined k s k s
    declined :
        (k k1 k' : ℕ) (s s1 s' : RaftCluster C S) (v : String)
        → Looked c others (suc (suc (suc k))) s k1 s1
        → leads s1 v ≡ true
        → (answer_of v k1 s1).1 ≡ none
        → Declined (suc k1) (record (cluster_after v k1 s1) { last_known_leader = none }) k' s'
        → Declined k s k' s'

  -- a turn that ends the loop: the deadline has passed at its start, or at the end of its search,
  -- whose last look sees no leader
  abbrev pub GaveUp : ℕ → ℕ → RaftCluster C S → ℕ → RaftCluster C S → Type 0
  GaveUp deadline i before k s =
      ((k ≡ suc i) × (s ≡ before) × (deadline ≤ clock i))
      ⊎ (Looked c others (suc (suc (suc i))) before k s
          × ((v : String) → IsMember c v → leads s v ≡ false)
          × ((j : ℕ) × (k ≡ suc j) × (deadline ≤ clock j)))

  -- What an outcome says of the turns taken from one on: all but the last found a leader that did not
  -- take the command. An entry that is returned has been taken in the last turn by a node that led
  -- in its look; an error is raised where the clock that was read last has passed the deadline.
  abbrev pub Justified : ℕ → ℕ → RaftCluster C S → Outcome → Type 0
  Justified deadline k s (k', s', ok e) =
      (i : ℕ) × (before : RaftCluster C S) × (v : String) × (j : ℕ) × (seen : RaftCluster C S)
      × Declined k s i before
      × Looked c others (suc (suc (suc i))) before j seen
      × IsMember c v
      × (leads seen v ≡ true)
      × (k' ≡ suc j)
      × (e.command ≡ command)
      × Taken e (replaced j) (s'.nodes v)
  Justified deadline k s (k', s', raise e) =
      (i : ℕ) × (before : RaftCluster C S) × Declined k s i before × GaveUp deadline i before k' s'

  abbrev Ends : ℕ → ℕ → RaftCluster C S → Option Outcome → Type 0
  Ends deadline k s o = (r : Outcome) × (o ≡ some r) × Justified deadline k s r

  -- what holds from a later turn on holds from an earlier one on
  Justified-before :
      (deadline k k1 : ℕ) (s s1 : RaftCluster C S) (r : Outcome)
      → ((j : ℕ) (s' : RaftCluster C S) → Declined k1 s1 j s' → Declined k s j s')
      → Justified deadline k1 s1 r
      → Justified deadline k s r
  Justified-before deadline k k1 s s1 (k', s', ok e) earlier
        (i, before, v, j, seen, turns, looked, m, l, at, own, taken) =
      (i, before, v, j, seen, earlier i before turns, looked, m, l, at, own, taken)
  Justified-before deadline k k1 s s1 (k', s', raise e) earlier (i, before, turns, last) =
      (i, before, earlier i before turns, last)

  Ends-before :
      (deadline k k1 : ℕ) (s s1 : RaftCluster C S) (o : Option Outcome)
      → ((j : ℕ) (s' : RaftCluster C S) → Declined k1 s1 j s' → Declined k s j s')
      → Ends deadline k1 s1 o
      → Ends deadline k s o
  Ends-before deadline k k1 s s1 o earlier (r, e, a) =
      (r, e, Justified-before deadline k k1 s s1 r earlier a)

  Taken-node_after :
      (e : LogEntry C) (v : String) (k : ℕ) (s : RaftCluster C S) (n : Node C S)
      → Holds e n
      → Taken e (replaced k) (node_after c clock others replaced v k s n)
  Taken-node_after e v k s n (leads, term, held) = at (replaced k)
    where
      at :
          (o : Option (Node C S))
          → Taken e o (elim o [
            | none ↦ n
            | some old ↦ record (s.nodes v) {
              storage = n.storage;
              machine = n.machine;
              sent = n.sent;
            }
          ])
      at none = (term, held, λ same. leads)
      at (some old) = (term, held, λ same. cc)

  propose_to-Ends :
      (deadline D k : ℕ) (s : RaftCluster C S) (again : ℕ → RaftCluster C S → Option Outcome)
      (r : ℕ × RaftCluster C S × Option String)
      → deadline ≤ D
      → ((k' : ℕ) (s' : RaftCluster C S) → k < k' → Ends deadline k' s' (again k' s'))
      → Looked c others (suc (suc (suc k))) s r.0 r.1
      → Answers c clock others D k r
      → Ends deadline k s (propose_to c clock others replaced command again r)
  propose_to-Ends deadline D k s again (k1, s1, none) enough rest looked (a, b, (j, e, d)) =
      ((k1, s1, raise no_leader), refl, (k, s, no_turn k s, inr (looked, b, (j, e, omega arith))))
  propose_to-Ends deadline D k s again (k1, s1, some v) enough rest looked (a, (m, l, n)) =
      let s2 = others k1 s1 in
      let before = found_node c clock others replaced v k1 s2 in
      let r = answer_of v k1 s1 in
      elim (Option-cases r.1) [
        | inr (e, found) ↦
            let (own, held) = propose-Holds (build_config c v) command (clock k1) before e found in
            (
              (suc k1, cluster_after v k1 s1, ok e),
              rw (found, propose_to) refl,
              (
                k,
                s,
                v,
                k1,
                s1,
                no_turn k s,
                looked,
                m,
                l,
                refl,
                own,
                rw ((eq_iff v v).1 refl) (Taken-node_after e v k1 s2 r.0 held),
              ),
            )
        | inl refused ↦
            let next = record (cluster_after v k1 s1) { last_known_leader = none } in
            rw (refused, propose_to)
              (Ends-before deadline k (suc k1) s next (again (suc k1) next)
                (λ i s' turns. declined k k1 i s s1 s' v looked l refused turns)
                (rest (suc k1) next (omega arith)))
      ]

  found_in_time :
      (deadline k inner : ℕ) (s : RaftCluster C S)
      → ((j : ℕ) → clock j < clock (suc j))
      → deadline ≤ clock k + inner
      → (r : ℕ × RaftCluster C S × Option String) × (find_leader c clock others
            (deadline - clock (suc k))
            (suc (suc k))
            (suc inner)
            s
          ≡ some r)
        × Answers c clock others
            (clock (suc (suc k)) + (deadline - clock (suc k)))
            (suc (suc (suc k)))
            r
  unfolding find_leader
  found_in_time deadline k inner s grows enough =
      poll_total c clock others (clock (suc (suc k)) + (deadline - clock (suc k)))
        (suc (suc (suc k))) inner s grows
        (omega (arith, grows k, grows (suc k), grows (suc (suc k))))

  Answers-earlier :
      (D k : ℕ) (r : ℕ × RaftCluster C S × Option String)
      → Answers c clock others D (suc (suc (suc k))) r
      → Answers c clock others D k r
  Answers-earlier D k (k', s, none) (a, b, j) = (omega arith, b, j)
  Answers-earlier D k (k', s, some v) (a, b) = (omega arith, b)

  find_leader-Looked :
      (deadline k inner : ℕ) (s : RaftCluster C S) (r : ℕ × RaftCluster C S × Option String)
      → find_leader c clock others (deadline - clock (suc k)) (suc (suc k)) (suc inner) s ≡ some r
      → Looked c others (suc (suc (suc k))) s r.0 r.1
  unfolding find_leader
  find_leader-Looked deadline k inner s r found =
      poll-Looked c clock others (clock (suc (suc k)) + (deadline - clock (suc k)))
        (suc (suc (suc k))) (suc inner) s r found

  turn-Ends :
      (deadline k inner fuel : ℕ) (s : RaftCluster C S)
      → ((j : ℕ) → clock j < clock (suc j))
      → deadline ≤ clock k + inner
      → ((k' : ℕ) (s' : RaftCluster C S)
          → clock k < deadline
          → k < k'
          → Ends deadline k' s'
              (propose_loop c clock others replaced command deadline k' (suc inner) fuel s'))
      → Ends deadline k s
          (propose_loop c clock others replaced command deadline k (suc inner) (suc fuel) s)
  unfolding propose_loop
  turn-Ends deadline k inner fuel s grows enough rest =
      let D = clock (suc (suc k)) + (deadline - clock (suc k)) in
      let (r, found, a) = found_in_time deadline k inner s grows enough in
      elim (Bool-cases (ltb (clock k) deadline)) [
        | inr late ↦ (
          (suc k, s, raise no_leader),
          rw (late, propose_loop) refl,
          (k, s, no_turn k s, inl (refl, refl, ground arith)),
        )
        | inl early ↦
            rw (early, found, propose_loop)
              (propose_to-Ends deadline D k s
                (λ k' s'.
                  propose_loop c clock others replaced command deadline k' (suc inner) fuel s')
                r (omega (arith, grows (suc k)))
                (λ k' s' h. rest k' s' (ltb→lt (clock k) deadline early) h)
                (find_leader-Looked deadline k inner s r found) (Answers-earlier D k r a))
      ]

  propose_loop_total :
      (deadline k inner fuel : ℕ) (s : RaftCluster C S)
      → ((j : ℕ) → clock j < clock (suc j))
      → deadline ≤ clock k + inner
      → deadline ≤ clock k + fuel
      → Ends deadline k s
          (propose_loop c clock others replaced command deadline k (suc inner) (suc fuel) s)
  propose_loop_total deadline k inner zero s grows enough_inner enough =
      turn-Ends deadline k inner zero s grows enough_inner (λ k' s' early h. absurd (omega arith))
  propose_loop_total deadline k inner (suc fuel) s grows enough_inner enough =
      turn-Ends deadline k inner (suc fuel) s grows enough_inner (λ k' s' early h.
        propose_loop_total deadline k' inner fuel s' grows
          (omega (arith, clock_later clock grows k k' (omega arith)))
          (omega (arith, clock_later clock grows k k' (omega arith))))

  -- Where the clock advances from turn to turn, whatever the threads do in between, `propose` ends
  -- after at most one turn more than its timeout counts, however often leaders change meanwhile.
  -- Every turn before its last one found a leader that then did not take the command. An entry that
  -- it returns has the command and was taken in the last turn by a node of the cluster that was
  -- alive and led in the last look: the entry has the node's term and stands at its index in the
  -- node's log, and the node leads, unless it was revived between the search and the proposal. It
  -- raises `TimeoutError` where the last reading of the clock has passed the deadline, at the start
  -- of a turn or after a search whose last look sees no leader that is alive.
  pub propose_cluster_total :
      (timeout k : ℕ) (s : RaftCluster C S)
      → ((j : ℕ) → clock j < clock (suc j))
      → (r : Outcome) × (propose_cluster c clock others replaced command timeout k (suc timeout) s
          ≡ some r)
        × Justified (clock k + timeout) (suc k) s r
  unfolding propose_cluster
  propose_cluster_total timeout k s grows =
      propose_loop_total (clock k + timeout) (suc k) timeout timeout s grows
        (omega (arith, grows k)) (omega (arith, grows k))
