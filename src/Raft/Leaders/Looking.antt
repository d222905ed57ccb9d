-- ===== src/Raft/Leaders/Looking.antt =====
-- The looks that a search for the leader takes before it answers.
use distributed_transaction.Prelude.{
  ℕ, zero, suc, ◌≡◌, String, Option, none, some, leb, Bool-cases, Option-cases, inl, inr,
}
use distributed_transaction.Raft.Cluster.{ClusterConfig}
use distributed_transaction.Raft.Leaders.{RaftCluster, look, poll}

-- the looks of a search: the turns, and the clusters as they are looked at
pub data Looked {C S : Type 0} (c : ClusterConfig C S)
    (others : ℕ → RaftCluster C S → RaftCluster C S)
    : ℕ → RaftCluster C S → ℕ → RaftCluster C S → Type 0 where
  last_look : (k : ℕ) (s : RaftCluster C S) → Looked c others k s (suc k) (look c (others k s)).0
  saw_none :
      (k k' : ℕ) (s s' : RaftCluster C S)
      → (look c (others k s)).1 ≡ none
      → Looked c others (suc k) (look c (others k s)).0 k' s'
      → Looked c others k s k' s'

module _ {C S : Type 0} (c : ClusterConfig C S) (clock : ℕ → ℕ)
    (others : ℕ → RaftCluster C S → RaftCluster C S) where
  same_answer :
      {x y : ℕ × RaftCluster C S × Option String}
      → ◌≡◌ {A = Option (ℕ × RaftCluster C S × Option String)} (some x) (some y)
      → x ≡ y
  same_answer h = cc

  no_answer :
      {x : ℕ × RaftCluster C S × Option String}
      → ◌≡◌ {A = Option (ℕ × RaftCluster C S × Option String)} none (some x)
      → ⊥
  no_answer h = cc

  pub poll-Looked :
      (deadline k fuel : ℕ) (s : RaftCluster C S) (r : ℕ × RaftCluster C S × Option String)
      → poll c clock others deadline k fuel s ≡ some r
      → Looked c others k s r.0 r.1
  unfolding poll
  poll-Looked deadline k zero s r h = absurd (no_answer h)
  poll-Looked deadline k (suc fuel) s r h =
      let seen = look c (others k s) in
      elim (Option-cases seen.1) [
        | inr (v, found) ↦ rw (← same_answer (rw (found, poll) at h)) (last_look k s)
        | inl missing ↦ elim (Bool-cases (leb deadline (clock k))) [
          | inl late ↦ rw (← same_answer (rw (missing, late, poll) at h)) (last_look k s)
          | inr early ↦
              saw_none k r.0 s r.1 missing
                (poll-Looked deadline (suc k) fuel seen.0 r (rw (missing, early, poll) at h))
        ]
      ]
