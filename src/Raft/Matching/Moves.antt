-- ===== src/Raft/Matching/Moves.antt =====
-- What a call makes of a node's log, its role and its messages.
use distributed_transaction.Prelude.{
  ◌<◌, ◌≤◌, ◌≡◌, refl, ◌∙◌, string_eq, nat_eq, Bool, true, false, arith, ◌⊎◌, inl, inr, All, Result,
  ok, if◌then◌else◌,
}
use distributed_transaction.Raft.Types.{
  NodeState, follower, candidate, leader, is_follower, is_candidate, is_leader, RaftError,
}
use distributed_transaction.Raft.Node.{Node, current_term}
use distributed_transaction.Raft.Matching.Trails.{Made, Grown, Sound}

-- The term has grown; or it is the same, a leader has led or stood for election before, and a
-- candidate was one before.
pub data Role {C S : Type 0} (n n' : Node C S) : Type 0 where
  later : current_term n < current_term n' → Role n n'
  same :
      current_term n' ≡ current_term n
      → (is_leader n'.state ≡ true → is_follower n.state ≡ false)
      → (is_candidate n'.state ≡ true → is_candidate n.state ≡ true)
      → Role n n'

led_before :
    (s s' : NodeState)
    → is_follower s' ≡ false
    → (is_leader s' ≡ true → is_follower s ≡ false)
    → (is_candidate s' ≡ true → is_candidate s ≡ true)
    → is_follower s ≡ false
led_before s leader h f g = f refl
led_before s candidate h f g = ground (arith, g refl)
led_before s follower h f g = cc

module _ {C S : Type 0} where
  pub Role-refl : (n : Node C S) → Role n n
  Role-refl n = same refl (λ h. ground arith) (λ h. h)

  pub Role-trans : {n m u : Node C S} → Role n m → Role m u → Role n u
  Role-trans (later a) (later b) = later (omega arith)
  Role-trans (later a) (same b f g) = later (omega arith)
  Role-trans (same a f g) (later b) = later (omega arith)
  Role-trans {n} {m} {u} (same a f g) (same b f' g') =
      same (b ∙ a) (λ h. led_before n.state m.state (f' h) f g) (λ h. g (g' h))

  pub Role-term : {n m : Node C S} → Role n m → current_term n ≤ current_term m
  Role-term (later a) = omega arith
  Role-term (same a f g) = omega arith

module _ {C S : Type 0} (made : Made C) where
  -- The log is the same, and new messages come from it.
  pub record Steady (n n' : Node C S) : Type 0 where
    pub log : n'.storage.log ≡ n.storage.log
    pub role : Role n n'
    pub sent : Grown made n.storage.log → All (Sound made) n.sent → All (Sound made) n'.sent

  pub Steady-refl : (n : Node C S) → Steady n n
  Steady-refl n = record { log = refl; role = Role-refl n; sent = λ g a. a }

  pub Steady-trans : {n m u : Node C S} → Steady n m → Steady m u → Steady n u
  Steady-trans a b = record {
    log = b.log ∙ a.log;
    role = Role-trans a.role b.role;
    sent = λ g s. b.sent (rw a.log g) (a.sent g s);
  }

  -- nothing that counts has changed, but that the node may have become a follower
  pub Steady-calm :
      (n n' : Node C S)
      → n'.storage.log ≡ n.storage.log
      → current_term n' ≡ current_term n
      → (n'.state ≡ n.state) ⊎ (n'.state ≡ follower)
      → n'.sent ≡ n.sent
      → Steady n n'
  Steady-calm n n' l t (inl s) m = record {
    log = l;
    role = same t (λ h. ground arith) (λ h. ground arith);
    sent = λ g a. rw m a;
  }
  Steady-calm n n' l t (inr s) m = record {
    log = l;
    role = same t (λ h. ground arith) (λ h. ground arith);
    sent = λ g a. rw m a;
  }

  pub Steady-ok :
      {n m n' : Node C S}
      → Steady n m
      → ◌≡◌ {A = Result RaftError (Node C S)} (ok m) (ok n')
      → Steady n n'
  Steady-ok {n} {m} {n'} a h = let e : n' ≡ m = ground arith in rw e a

  pub Steady-if :
      (n : Node C S) (b : Bool) (m m' : Node C S)
      → Steady n m
      → Steady n m'
      → Steady n (if b then m else m')
  Steady-if n true m m' a a' = a
  Steady-if n false m m' a a' = a'
