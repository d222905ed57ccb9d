-- ===== src/Raft/Driver/Proposing.antt =====
-- `RaftNode.propose`: the entry that it returns is the leader's, and stands in its log.
use distributed_transaction.Prelude.{
  ℕ, ◌+◌, ◌-◌, ◌≡◌, refl, ap, ◌∙◌, true, Option, none, some, [], ◌∷◌, ◌++◌, length, Bool-cases, inl,
  inr, arith, get_elem?,
}
use distributed_transaction.Raft.Types.{LogEntry, leader, is_leader, candidate, follower, NodeState}
use distributed_transaction.Raft.Node.{Node, Config, current_term, broadcast_append_entries}
use distributed_transaction.Raft.Driver.{propose, proposal}
use distributed_transaction.Raft.Handlers.Storing.{get_elem?-append_at}

before_next : (k : ℕ) → k + 1 - 1 ≡ k
before_next k = omega arith

only_leads : (s : NodeState) → is_leader s ≡ true → s ≡ leader
only_leads leader h = refl
only_leads candidate h = cc
only_leads follower h = cc

no_proposal : {C : Type 0} {e : LogEntry C} → ◌≡◌ {A = Option (LogEntry C)} none (some e) → ⊥
no_proposal h = cc

same_proposal :
    {C : Type 0} {e e' : LogEntry C} → ◌≡◌ {A = Option (LogEntry C)} (some e) (some e') → e ≡ e'
same_proposal h = cc

module _ {C S : Type 0} where
  -- the node leads in the term of an entry, which stands in its log
  abbrev pub Holds : LogEntry C → Node C S → Type 0
  Holds e n =
      (n.state ≡ leader)
      × (current_term n ≡ e.term)
      × (get_elem? n.storage.log (e.index - 1) ≡ some e)

  pub propose-Holds :
      (cfg : Config C S) (command : C) (now : ℕ) (n : Node C S) (e : LogEntry C)
      → (propose cfg command now n).1 ≡ some e
      → (e.command ≡ command) × Holds e (propose cfg command now n).0
  unfolding propose broadcast_append_entries
  propose-Holds cfg command now n e h = elim (Bool-cases (is_leader n.state)) [
    | inr follows ↦ absurd (no_proposal (rw (follows, propose) at h))
    | inl leads ↦
        let one = same_proposal (rw (leads, propose) at h) in
        rw (← one, leads, propose)
          (
            refl,
            (
              only_leads n.state leads,
              refl,
              ap (λ (k : ℕ). get_elem? (n.storage.log ++ proposal cfg command n ∷ []) k)
                    (before_next (length n.storage.log))
                  ∙ get_elem?-append_at n.storage.log [] (proposal cfg command n),
            ),
          )
  ]
