-- ===== src/Raft/Leaders/Waiting.antt =====
-- chaos/fault_injection.py: `wait_for_new_leader`, over the turns of Raft/Leaders. `pause` is the
-- timeout of each search. A node that is revived keeps its storage, so the runtime that was found
-- reads the node's term there in any case.
use distributed_transaction.Prelude.{
  ℕ, zero, suc, ◌+◌, ◌≤◌, ◌<◌, ◌≡◌, refl, true, false, string_eq, String, not, Option, none, some,
  Result, ok, raise, ltb, ltb→lt, if◌then◌else◌, Bool-cases, inl, inr, arith,
}
use distributed_transaction.Raft.Node.{current_term}
use distributed_transaction.Raft.Cluster.{ClusterConfig, IsMember}
use distributed_transaction.Raft.Leaders.{RaftCluster, leads, find_leader, ClusterError, no_leader}
use distributed_transaction.Raft.Leaders.Finding.{Answers, poll_total}
use distributed_transaction.Raft.Leaders.Looking.{Looked, poll-Looked}
use distributed_transaction.Raft.Leaders.Clock.{clock_later}

module _ {C S : Type 0} (c : ClusterConfig C S) (clock : ℕ → ℕ)
    (others : ℕ → RaftCluster C S → RaftCluster C S) (exclude_term pause : ℕ) where
  abbrev pub Waited : Type 0
  Waited = ℕ × RaftCluster C S × Result ClusterError String

  -- what the loop makes of an answer; `again` is its next turn
  abbrev pub take_candidate :
      (ℕ → RaftCluster C S → Option Waited) → ℕ × RaftCluster C S × Option String → Option Waited
  take_candidate again (k, s, none) = again k s
  take_candidate again (k, s, some v) =
      let s' = others k s in
      let next = again k s' in
      if ltb exclude_term (current_term (s'.nodes v)) then some (suc k, s', ok v) else next

  -- the `while` loop
  unfoldable pub wait_loop : ℕ → ℕ → ℕ → ℕ → RaftCluster C S → Option Waited
  wait_loop deadline k inner zero s = none
  wait_loop deadline k inner (suc fuel) s =
      let found = find_leader c clock others pause (suc k) inner s in
      if not (ltb (clock k) deadline) then some (suc k, s, raise no_leader) else elim found [
        | none ↦ none
        | some r ↦ take_candidate (λ k' s'. wait_loop deadline k' inner fuel s') r
      ]

  -- `wait_for_new_leader`
  unfoldable pub wait_for_new_leader : ℕ → ℕ → ℕ → ℕ → RaftCluster C S → Option Waited
  wait_for_new_leader timeout k inner fuel s = wait_loop (clock k + timeout) (suc k) inner fuel s

  -- turns that name nobody: their searches find no leader, or one that is not in a later term
  pub data Waiting : ℕ → RaftCluster C S → ℕ → RaftCluster C S → Type 0 where
    no_turn : (k : ℕ) (s : RaftCluster C S) → Waiting k s k s
    none_found :
        (k k1 k' : ℕ) (s s1 s' : RaftCluster C S)
        → Looked c others (suc (suc k)) s k1 s1
        → ((v : String) → IsMember c v → leads s1 v ≡ false)
        → Waiting k1 s1 k' s'
        → Waiting k s k' s'
    old_leader :
        (k k1 k' : ℕ) (s s1 s' : RaftCluster C S) (v : String)
        → Looked c others (suc (suc k)) s k1 s1
        → leads s1 v ≡ true
        → current_term ((others k1 s1).nodes v) ≤ exclude_term
        → Waiting k1 (others k1 s1) k' s'
        → Waiting k s k' s'

  -- what an outcome says of the turns taken from one on. The node that is named is of the cluster,
  -- led in the last look, and is in a later term one turn on; an error is raised where the clock
  -- that was read last has passed the deadline.
  abbrev pub IsNewer : ℕ → ℕ → RaftCluster C S → Waited → Type 0
  IsNewer deadline k s (k', s', ok v) =
      (i : ℕ) × (before : RaftCluster C S) × (j : ℕ) × (seen : RaftCluster C S) × Waiting k s i
        before
      × Looked c others (suc (suc i)) before j seen
      × (k' ≡ suc j)
      × IsMember c v
      × (leads seen v ≡ true)
      × (s' ≡ others j seen)
      × (exclude_term < current_term (s'.nodes v))
  IsNewer deadline k s (k', s', raise e) =
      (j : ℕ) × (k' ≡ suc j) × (deadline ≤ clock j) × Waiting k s j s'

  abbrev Ends : ℕ → ℕ → RaftCluster C S → Option Waited → Type 0
  Ends deadline k s o = (r : Waited) × (o ≡ some r) × IsNewer deadline k s r

  -- what holds from a later turn on holds from an earlier one on
  IsNewer-before :
      (deadline k k1 : ℕ) (s s1 : RaftCluster C S) (r : Waited)
      → ((j : ℕ) (s' : RaftCluster C S) → Waiting k1 s1 j s' → Waiting k s j s')
      → IsNewer deadline k1 s1 r
      → IsNewer deadline k s r
  IsNewer-before deadline k k1 s s1 (k', s', ok v) earlier
        (i, before, j, seen, turns, looked, at, m, l, e, newer) =
      (i, before, j, seen, earlier i before turns, looked, at, m, l, e, newer)
  IsNewer-before deadline k k1 s s1 (k', s', raise e) earlier (j, at, late, turns) =
      (j, at, late, earlier j s' turns)

  Ends-before :
      (deadline k k1 : ℕ) (s s1 : RaftCluster C S) (o : Option Waited)
      → ((j : ℕ) (s' : RaftCluster C S) → Waiting k1 s1 j s' → Waiting k s j s')
      → Ends deadline k1 s1 o
      → Ends deadline k s o
  Ends-before deadline k k1 s s1 o earlier (r, e, a) =
      (r, e, IsNewer-before deadline k k1 s s1 r earlier a)

  candidate-Ends :
      (deadline D k : ℕ) (s : RaftCluster C S) (again : ℕ → RaftCluster C S → Option Waited)
      (r : ℕ × RaftCluster C S × Option String)
      → ((k' : ℕ) (s' : RaftCluster C S) → k < k' → Ends deadline k' s' (again k' s'))
      → Looked c others (suc (suc k)) s r.0 r.1
      → Answers c clock others D (suc k) r
      → Ends deadline k s (take_candidate again r)
  candidate-Ends deadline D k s again (k1, s1, none) rest looked (a, b, j) =
      Ends-before deadline k k1 s s1 (again k1 s1)
        (λ i s' turns. none_found k k1 i s s1 s' looked b turns) (rest k1 s1 (omega arith))
  candidate-Ends deadline D k s again (k1, s1, some v) rest looked (a, (m, l, n)) =
      let s2 = others k1 s1 in
      elim (Bool-cases (ltb exclude_term (current_term (s2.nodes v)))) [
        | inl newer ↦ (
          (suc k1, s2, ok v),
          rw (newer, take_candidate) refl,
          (k, s, k1, s1, no_turn k s, looked, refl, m, l, refl, ltb→lt _ _ newer),
        )
        | inr older ↦
            rw (older, take_candidate)
              (Ends-before deadline k k1 s s2 (again k1 s2)
                (λ i s' turns. old_leader k k1 i s s1 s' v looked l (ground arith) turns)
                (rest k1 s2 (omega arith)))
      ]

  Answers-after :
      (D k : ℕ) (r : ℕ × RaftCluster C S × Option String)
      → Answers c clock others D (suc (suc k)) r
      → Answers c clock others D (suc k) r
  Answers-after D k (k', s, none) (a, b, j) = (omega arith, b, j)
  Answers-after D k (k', s, some v) (a, b) = (omega arith, b)

  turn-Ends :
      (deadline k inner fuel : ℕ) (s : RaftCluster C S)
      → ((j : ℕ) → clock j < clock (suc j))
      → pause ≤ inner
      → ((k' : ℕ) (s' : RaftCluster C S)
          → clock k < deadline
          → k < k'
          → Ends deadline k' s' (wait_loop deadline k' (suc inner) fuel s'))
      → Ends deadline k s (wait_loop deadline k (suc inner) (suc fuel) s)
  unfolding wait_loop find_leader
  turn-Ends deadline k inner fuel s grows enough rest =
      let D = clock (suc k) + pause in
      let (r, found, a) =
        poll_total c clock others D (suc (suc k)) inner s grows (omega (arith, grows (suc k))) in
      let looked = poll-Looked c clock others D (suc (suc k)) (suc inner) s r found in
      elim (Bool-cases (ltb (clock k) deadline)) [
        | inr late ↦ (
          (suc k, s, raise no_leader),
          rw (late, wait_loop) refl,
          (k, refl, ground arith, no_turn k s),
        )
        | inl early ↦
            rw (early, found, wait_loop)
              (candidate-Ends deadline D k s (λ k' s'. wait_loop deadline k' (suc inner) fuel s') r
                (λ k' s' h. rest k' s' (ltb→lt (clock k) deadline early) h) looked
                (Answers-after D k r a))
      ]

  wait_loop_total :
      (deadline k inner fuel : ℕ) (s : RaftCluster C S)
      → ((j : ℕ) → clock j < clock (suc j))
      → pause ≤ inner
      → deadline ≤ clock k + fuel
      → Ends deadline k s (wait_loop deadline k (suc inner) (suc fuel) s)
  wait_loop_total deadline k inner zero s grows long enough =
      turn-Ends deadline k inner zero s grows long (λ k' s' early h. absurd (omega arith))
  wait_loop_total deadline k inner (suc fuel) s grows long enough =
      turn-Ends deadline k inner (suc fuel) s grows long (λ k' s' early h.
        wait_loop_total deadline k' inner fuel s' grows long
          (omega (arith, clock_later clock grows k k' (omega arith))))

  -- Where the clock advances from turn to turn, whatever the threads do in between,
  -- `wait_for_new_leader` ends. Every turn before its last one searched, and found no leader or one
  -- whose term was not above the excluded one. It returns a node of the cluster that was alive and
  -- led in the last look of its search and whose term, read in the next turn, is above the excluded
  -- one, or raises `TimeoutError` where the last reading of the clock has passed the deadline.
  pub wait_for_new_leader_total :
      (timeout k : ℕ) (s : RaftCluster C S)
      → ((j : ℕ) → clock j < clock (suc j))
      → (r : Waited) × (wait_for_new_leader timeout k (suc pause) (suc timeout) s ≡ some r)
        × IsNewer (clock k + timeout) (suc k) s r
  unfolding wait_for_new_leader
  wait_for_new_leader_total timeout k s grows =
      wait_loop_total (clock k + timeout) (suc k) pause timeout s grows (omega arith)
        (omega (arith, grows k))
