-- ===== src/Settlement/Submitter/Retries.antt =====
-- Submitting transactions again changes nothing.
use distributed_transaction.Prelude.{
  ℕ, ◌≡◌, ap, ◌∙◌, sym, Bool, true, List, [], ◌∷◌, ◌++◌, All, ok, Bool-cases, inl, inr, string_eq,
}
use mathlib.Core.List.{append_assoc, append-nil}
use distributed_transaction.Models.{ScoredTransaction, LedgerEntry}
use distributed_transaction.Ledger.{LedgerStateMachine, run}
use distributed_transaction.Ledger.Replay.{run-append, AllApplied, AllApplied-run, run_applied}
use distributed_transaction.Settlement.Submitter.{Submitter, handle_all}
use distributed_transaction.Settlement.Submitter.Accounts.{
  IsValid, cleared, cleared-append, propose_all, handle_all_total,
}

-- a cluster that commits every proposal: its log of entries
abbrev pub commit_all : LedgerEntry → List LedgerEntry → List LedgerEntry × Bool
commit_all entry log = (log ++ entry ∷ [], true)

-- the same scored transactions, dealt with at other times
abbrev pub again :
    (ScoredTransaction → ℕ) → List (ScoredTransaction × ℕ) → List (ScoredTransaction × ℕ)
again time [] = []
again time ((scored, now) ∷ rest) = (scored, time scored) ∷ again time rest

propose_all-commit_all : (es log : List LedgerEntry) → propose_all commit_all es log ≡ log ++ es
propose_all-commit_all [] log = sym (append-nil log)
propose_all-commit_all (e ∷ es) log =
    propose_all-commit_all es (log ++ e ∷ []) ∙ append_assoc log (e ∷ []) es

AllApplied-again :
    (time : ScoredTransaction → ℕ) (sm : LedgerStateMachine) (xs : List (ScoredTransaction × ℕ))
    → AllApplied sm (cleared xs)
    → AllApplied sm (cleared (again time xs))
AllApplied-again time sm [] a = tt
AllApplied-again time sm ((scored, now) ∷ rest) a = elim (Bool-cases scored.score.is_fraud) [
  | inl fraud ↦ rw (fraud, cleared) (AllApplied-again time sm rest (rw (fraud, cleared) at a))
  | inr clear ↦
      let b = rw (clear, cleared) at a in
      rw (clear, cleared) (b.0, AllApplied-again time sm rest b.1)
]

-- Where every proposal is committed, and valid transactions are submitted, then submitted again at
-- other times together with further ones, as when a batch is read again after a failure: nothing is
-- raised, and the ledger that applies the log is that of submitting the first ones once and then
-- the further ones.
pub resubmitted_once :
    (sm : LedgerStateMachine) (s : Submitter) (time : ScoredTransaction → ℕ)
    (xs rest : List (ScoredTransaction × ℕ))
    → All (λ x. IsValid x.0.transaction) (xs ++ (again time xs ++ rest))
    → All (λ x. IsValid x.0.transaction) (xs ++ rest)
    → (s1 : Submitter) × (log1 : List LedgerEntry) × (s2 : Submitter) × (log2 : List LedgerEntry)
      × (handle_all commit_all (xs ++ (again time xs ++ rest)) (s, []) ≡ ok (s1, log1))
      × (handle_all commit_all (xs ++ rest) (s, []) ≡ ok (s2, log2))
      × (run sm log1 ≡ run sm log2)
resubmitted_once sm s time xs rest twice once =
    let (s1, e1, n1) = handle_all_total commit_all (xs ++ (again time xs ++ rest)) s [] twice in
    let (s2, e2, n2) = handle_all_total commit_all (xs ++ rest) s [] once in
    (
      s1,
      _,
      s2,
      _,
      e1,
      e2,
      rw
          (
            propose_all-commit_all (cleared (xs ++ (again time xs ++ rest))) [],
            propose_all-commit_all (cleared (xs ++ rest)) [],
            cleared-append xs (again time xs ++ rest),
            cleared-append (again time xs) rest,
            cleared-append xs rest,
            run-append sm (cleared xs) (cleared (again time xs) ++ cleared rest),
            run-append sm (cleared xs) (cleared rest),
            run-append (run sm (cleared xs)) (cleared (again time xs)) (cleared rest),
          )
          (ap (λ (m : LedgerStateMachine). run m (cleared rest))
            (run_applied (run sm (cleared xs)) (cleared (again time xs))
              (AllApplied-again time (run sm (cleared xs)) xs (AllApplied-run sm (cleared xs))))),
    )
