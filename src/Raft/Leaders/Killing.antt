-- ===== src/Raft/Leaders/Killing.antt =====
-- chaos/fault_injection.py: what killing the leader of a running cluster does.
use distributed_transaction.Prelude.{
  ℕ, suc, ◌+◌, ◌≤◌, ◌<◌, ◌≡◌, refl, String, string_eq, eq_iff, true, false, Option, none, some,
  Result, ok, raise, arith,
}
use distributed_transaction.Raft.Cluster.{ClusterConfig, IsMember}
use distributed_transaction.Raft.Leaders.{
  RaftCluster, is_alive, leads, find_leader, kill, strike, kill_raft_leader, ClusterError,
}
use distributed_transaction.Raft.Leaders.Finding.{Answers, find_leader_total}
use distributed_transaction.Raft.Leaders.Looking.{Looked, poll-Looked}

module _ {C S : Type 0} (c : ClusterConfig C S) (clock : ℕ → ℕ)
    (others : ℕ → RaftCluster C S → RaftCluster C S) where
  killed : (v : String) (s : RaftCluster C S) → is_alive (kill v s) v ≡ false
  unfolding kill
  killed v s = ground (arith, eq_iff v v)

  -- what is so after the leader has been killed, or has not been found: of the last look, and of
  -- the cluster that is left
  abbrev pub Struck :
      ℕ → ℕ → RaftCluster C S → ℕ × RaftCluster C S × Result ClusterError String → Type 0
  Struck deadline k s (k', s', ok v) =
      (j : ℕ) × (seen : RaftCluster C S) × (k' ≡ suc j)
      × Looked c others k s j seen
      × IsMember c v
      × (leads seen v ≡ true)
      × (s' ≡ kill v (others j seen))
      × (is_alive s' v ≡ false)
  Struck deadline k s (k', s', raise e) =
      (j : ℕ) × (k' ≡ suc j)
      × (deadline ≤ clock j)
      × Looked c others k s k' s'
      × ((v : String) → IsMember c v → leads s' v ≡ false)

  Struck-Answers :
      (deadline k : ℕ) (s : RaftCluster C S) (r : ℕ × RaftCluster C S × Option String)
      → Looked c others k s r.0 r.1
      → Answers c clock others deadline k r
      → Struck deadline k s (strike c clock others r)
  Struck-Answers deadline k s (k', s', none) looked (a, b, (j, e, d)) = (j, e, d, looked, b)
  Struck-Answers deadline k s (k', s', some v) looked (a, (m, l, n)) =
      (k', s', refl, looked, m, l, refl, killed v (others k' s'))

  -- Where the clock advances from turn to turn, whatever the threads do in between,
  -- `kill_raft_leader` ends. The node that it names is a node of the cluster that was alive and led
  -- in the last look of its search, the earlier looks having found none, and what is left is the
  -- cluster of the next turn with that node cut off. It raises `TimeoutError` only where the last
  -- reading of the clock has passed the deadline, and no node that is alive leads in the last look.
  pub kill_raft_leader_total :
      (timeout k : ℕ) (s : RaftCluster C S)
      → ((j : ℕ) → clock j < clock (suc j))
      → (r : ℕ × RaftCluster C S × Result ClusterError String) × (kill_raft_leader c clock others
            timeout k
            (suc timeout)
            s
          ≡ some r)
        × Struck (clock k + timeout) (suc k) s r
  unfolding kill_raft_leader find_leader
  kill_raft_leader_total timeout k s grows =
      let (r, found, a) = find_leader_total c clock others timeout k s grows in
      let looked = poll-Looked c clock others (clock k + timeout) (suc k) (suc timeout) s r found in
      (
        strike c clock others r,
        rw (found, kill_raft_leader) refl,
        Struck-Answers (clock k + timeout) (suc k) s r looked a,
      )
