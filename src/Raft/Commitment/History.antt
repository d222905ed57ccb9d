-- ===== src/Raft/Commitment/History.antt =====
-- What has happened so far, as far as logs go: the logs that leaders have had, and those that nodes
-- have stored for a leader.
use distributed_transaction.Prelude.{
  ℕ, suc, ◌≤◌, ◌<◌, ◌≡◌, refl, String, List, [], ◌∷◌, length, some, get_elem?, arith, ◌⊎◌, All,
}
use distributed_transaction.Raft.Types.{LogEntry}
use distributed_transaction.Raft.Storage.{last_entry_term}
use distributed_transaction.Raft.Matching.Trails.{Made, Grown}
use distributed_transaction.Raft.Matching.Merge.{take_all}
use distributed_transaction.Raft.Commitment.Prefixes.{Prefix}

-- the logs of leaders, by their term and name
abbrev pub Ruled : Type 0 → Type 1
Ruled C = ℕ → String → List (LogEntry C) → Type 0

-- the logs that nodes have stored, by the node and the term of the leader
abbrev pub Acked : Type 0 → Type 1
Acked C = String → ℕ → List (LogEntry C) → Type 0

module _ {C : Type 0} where
  -- all leaders of a term have had the entries
  abbrev pub Heeded : Ruled C → List (LogEntry C) → ℕ → Type 0
  Heeded ruled q r = (y : String) (l : List (LogEntry C)) → ruled r y l → Prefix q l

  abbrev pub Bounded : ℕ → List (LogEntry C) → Type 0
  Bounded t = All (λ e. e.term ≤ t)

  -- the first log is at least as up to date as the second
  abbrev pub UpToDate : List (LogEntry C) → List (LogEntry C) → Type 0
  UpToDate l m =
      (last_entry_term m < last_entry_term l)
      ⊎ ((last_entry_term l ≡ last_entry_term m) × (length m ≤ length l))

  -- A voter's log had what the voter had stored before the term, as far as the leaders in between
  -- had it.
  abbrev pub Loyal : Ruled C → Acked C → String → ℕ → List (LogEntry C) → Type 0
  Loyal ruled acked u s l =
      (t : ℕ) (p q : List (LogEntry C))
      → acked u t p
      → t < s
      → Prefix q p
      → ((r : ℕ) → t < r → r < s → Heeded ruled q r)
      → Prefix q l

  pub Bounded-mono : (s t : ℕ) → s ≤ t → (l : List (LogEntry C)) → Bounded s l → Bounded t l
  Bounded-mono s t h [] a = tt
  Bounded-mono s t h (e ∷ l) a = (omega (arith, a.0), Bounded-mono s t h l a.1)

  pub last_entry_term_le : (t : ℕ) (l : List (LogEntry C)) → Bounded t l → last_entry_term l ≤ t
  last_entry_term_le t [] a = omega arith
  last_entry_term_le t (e ∷ []) a = a.0
  last_entry_term_le t (e ∷ d ∷ l) a = last_entry_term_le t (d ∷ l) a.1

  pub term_inside : (l : List (LogEntry C)) → 0 < last_entry_term l → 0 < length l
  term_inside [] h = absurd (omega arith)
  term_inside (e ∷ l) h = omega arith

  last_entry :
      (e : LogEntry C) (l : List (LogEntry C))
      → (d : LogEntry C) × (get_elem? (e ∷ l) (length l) ≡ some d)
        × (d.term ≡ last_entry_term (e ∷ l))
  last_entry e [] = (e, refl, refl)
  last_entry e (d ∷ l) = last_entry d l

  -- a log that is not empty was its leader's when its last entry was made
  pub made_whole :
      (made : Made C) (l : List (LogEntry C))
      → Grown made l
      → 0 < length l
      → (x : String) × made (last_entry_term l) x l
  made_whole made [] g h = absurd (omega arith)
  made_whole made (e ∷ l) g h =
      let (d, found, last) = last_entry e l in
      let (x, m) = g (length l) d found in
      (x, rw (← last) (rw (take_all (e ∷ l) (suc (length l)) (omega arith)) at m))
