-- ===== src/Raft/Handlers/Frames.antt =====
-- What the loops of the handlers leave alone: `_apply_committed`, `_advance_commit_index`, and the
-- loop that stores entries.
use distributed_transaction.Prelude.{
  ℕ, zero, suc, ◌+◌, ◌-◌, ◌≡◌, ◌∙◌, ap, some, List, [], ◌∷◌, inl, inr, arith, Result, ok, ltb, ◌&&◌,
  ◌==◌, nat_eq, Bool-cases, Option-cases, get_elem?,
}
use distributed_transaction.Raft.Types.{LogEntry, RaftError}
use distributed_transaction.Raft.Storage.{Storage, get_entry, term_at}
use distributed_transaction.Raft.Node.{Config, Node, current_term, majority}
use distributed_transaction.Raft.Handlers.{
  store_entries, apply_rounds, apply_committed, advance_commit_index, sort_desc, replicated,
  same_term,
}

-- Only the commit index, the applied index and the state machine may differ.
abbrev pub Committed : {C S : Type 0} → Node C S → Node C S → Type 0
Committed n n' = n' ≡ record n {
  commit_index = n'.commit_index;
  last_applied = n'.last_applied;
  machine = n'.machine;
}

-- The term and the vote are the same.
pub record SameBallot {C : Type 0} (s s' : Storage C) : Type 0 where
  pub term : s'.current_term ≡ s.current_term
  pub vote : s'.voted_for ≡ s.voted_for

module _ {C : Type 0} where
  pub SameBallot-store_entries :
      (s : Storage C) (idx : ℕ) (entries : List (LogEntry C)) {s' : Storage C}
      → store_entries s idx entries ≡ ok s'
      → SameBallot s s'
  unfolding store_entries
  SameBallot-store_entries s idx [] h = record { term = ground arith; vote = ground arith }
  SameBallot-store_entries s zero (e ∷ es) h = elim (Bool-cases (0 == e.term)) [
    | inl same ↦ SameBallot-store_entries s 1 es (rw (same, store_entries) at h)
    | inr other ↦ record { term = ground arith; vote = ground arith }
  ]
  SameBallot-store_entries s (suc i) (e ∷ es) h = elim (Option-cases (term_at s (suc i))) [
    | inl missing ↦ record { term = ground arith; vote = ground arith }
    | inr (t, found) ↦ elim (Bool-cases (t == e.term)) [
      | inl same ↦
          SameBallot-store_entries s (suc (suc i)) es (rw (found, same, store_entries) at h)
      | inr other ↦ record { term = ground arith; vote = ground arith }
    ]
  ]

module _ {C S : Type 0} (cfg : Config C S) where
  -- The loop changes the applied index, by the rounds it makes, and the machine.
  pub apply_rounds-frame :
      (k : ℕ) (n : Node C S) {n' : Node C S}
      → apply_rounds cfg k n ≡ ok n'
      → n' ≡ record n { last_applied = n.last_applied + k; machine = n'.machine }
  unfolding apply_rounds
  apply_rounds-frame zero n h = ground arith
  apply_rounds-frame (suc k) n {n'} h =
      elim (Option-cases (get_entry n.storage (suc n.last_applied))) [
        | inl missing ↦ ground arith
        | inr (e, found) ↦
            let m = record n {
              last_applied = suc n.last_applied;
              machine = cfg.apply_command n.machine e.command;
            } in
            let ih = apply_rounds-frame k m {n' = n'} (rw (found, apply_rounds) at h) in
            ih ∙ ap (λ (a : ℕ). record n { last_applied = a; machine = n'.machine }) (omega arith)
      ]

  Committed-refl :
      (n : Node C S) {n' : Node C S}
      → ◌≡◌ {A = Result RaftError (Node C S)} (ok n) (ok n')
      → Committed n n'
  Committed-refl n {n'} h = ground arith

  pub Committed-advance_more :
      (c : ℕ) (n : Node C S) {n' : Node C S}
      → Committed (record n { commit_index = c }) n'
      → Committed n n'
  Committed-advance_more c n h = h

  pub Committed-apply :
      (n : Node C S) {n' : Node C S} → apply_committed cfg n ≡ ok n' → Committed n n'
  unfolding apply_committed
  Committed-apply n {n'} h =
      let e = apply_rounds-frame (n.commit_index - n.last_applied) n h in ground arith

  pub Committed-advance :
      (n : Node C S) {n' : Node C S} → advance_commit_index cfg n ≡ ok n' → Committed n n'
  unfolding advance_commit_index
  Committed-advance n {n'} h =
      elim (Option-cases (get_elem? (sort_desc (replicated n)) (majority cfg - 1))) [
        | inl few ↦ ground arith
        | inr (c, e) ↦
            elim (Bool-cases
              (ltb n.commit_index c && same_term (term_at n.storage c) (some (current_term n)))) [
                | inl more ↦ Committed-advance_more c n (
                    Committed-apply (record n { commit_index = c })
                      (rw (e, more, advance_commit_index) at h))
                | inr done ↦ Committed-refl n (rw (e, done, advance_commit_index) at h)
              ]
      ]
