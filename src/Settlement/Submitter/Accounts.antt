-- ===== src/Settlement/Submitter/Accounts.antt =====
-- Every transaction is accounted for, and only what was cleared is proposed.
use distributed_transaction.Prelude.{
  ℕ, ◌+◌, ◌≡◌, refl, Bool, true, false, string_eq, String, List, [], ◌∷◌, ◌++◌, length,
  length-append, if◌then◌else◌, All, Result, ok, ◌>>◌, raise_if, arith, Bool-cases, inl, inr,
}
use distributed_transaction.Prelude.Int.{ℤ, pos, neg_ℤ, leb_ℤ, eq_ℤ}
use distributed_transaction.Models.{
  Transaction, ScoredTransaction, LedgerEntry, ModelError, check_entry, check_transaction,
}
use distributed_transaction.Settlement.Submitter.{
  is_credit, Submitter, entry_for, count_proposal, settle, handle, handle_all,
}

-- a transaction that its `__post_init__` lets pass
abbrev pub IsValid : Transaction → Type 0
IsValid t = check_transaction t ≡ ok t

-- the entry of a transaction, its id filled in
abbrev pub entry_of : Transaction → ℕ → LedgerEntry
entry_of t now = record (entry_for t now) { entry_id = t.transaction_id }

-- the entries of the transactions of a list that were cleared
abbrev pub cleared : List (ScoredTransaction × ℕ) → List LedgerEntry
cleared [] = []
cleared ((scored, now) ∷ rest) =
    let more = cleared rest in
    if scored.score.is_fraud then more else entry_of scored.transaction now ∷ more

-- how many transactions a submitter has dealt with
abbrev pub handled : Submitter → ℕ
handled s = s.submitted_count + s.fraud_flagged_count + length s.failed_transaction_ids

-- a check that fails after another one
raise_after :
    (b c : Bool) (e f : ModelError) (t : Transaction) (k : Result ModelError Transaction)
    → ◌≡◌ {A = Result ModelError Transaction} (raise_if b e >> (raise_if c f >> k)) (ok t)
    → c ≡ false
raise_after false false e f t k h = refl
raise_after false true e f t k h = cc
raise_after true c e f t k h = cc

amount_positive : (t : Transaction) → IsValid t → leb_ℤ t.amount (pos 0) ≡ false
unfolding check_transaction
amount_positive t h = raise_after _ _ _ _ t _ h

sign_kept :
    (b : Bool) (a : ℤ) → leb_ℤ a (pos 0) ≡ false → eq_ℤ (if b then a else neg_ℤ a) (pos 0) ≡ false
sign_kept true a h = ground arith
sign_kept false a h = ground arith

check_entry_lem :
    (t : Transaction) (now : ℕ) → IsValid t → check_entry (entry_for t now) ≡ ok (entry_of t now)
unfolding check_entry
check_entry_lem t now h =
    rw (sign_kept (is_credit t.transaction_type) t.amount (amount_positive t h))

-- the cluster after proposals, in order
abbrev pub propose_all : {L : Type 0} → (LedgerEntry → L → L × Bool) → List LedgerEntry → L → L
propose_all propose [] l = l
propose_all propose (e ∷ es) l = propose_all propose es (propose e l).0

handled-count :
    (b : Bool) (k : String) (s : Submitter) → handled (count_proposal b k s) ≡ handled s + 1
handled-count true k s = omega arith
handled-count false k s = omega (arith, length-append s.failed_transaction_ids (k ∷ []))

module _ {L : Type 0} (propose : LedgerEntry → L → L × Bool) where
  -- Over valid transactions a submitter raises nothing: it counts every one of them as submitted,
  -- as flagged or as failed, and it proposes the entries of those that were cleared and of no
  -- others, in their order, each under its transaction's id.
  pub handle_all_total :
      (xs : List (ScoredTransaction × ℕ)) (s : Submitter) (l : L)
      → All (λ x. IsValid x.0.transaction) xs
      → (s' : Submitter) × (handle_all propose xs (s, l)
          ≡ ok (s', propose_all propose (cleared xs) l))
        × (handled s' ≡ handled s + length xs)
  unfolding handle_all handle settle
  handle_all_total [] s l valid = (s, refl, omega arith)
  handle_all_total ((scored, now) ∷ rest) s l valid = elim (Bool-cases scored.score.is_fraud) [
    | inl fraud ↦
        let s1 : Submitter = record s { fraud_flagged_count = s.fraud_flagged_count + 1 } in
        let (s', e, count) = handle_all_total rest s1 l valid.1 in rw (fraud) (s', e, omega arith)
    | inr clear ↦
        let p = propose (entry_of scored.transaction now) l in
        let s1 = count_proposal p.1 scored.transaction.transaction_id s in
        let (s', e, count) = handle_all_total rest s1 p.0 valid.1 in
        rw (clear, check_entry_lem scored.transaction now valid.0)
          (s', e, omega (arith, handled-count p.1 scored.transaction.transaction_id s))
  ]

pub cleared-append :
    (xs ys : List (ScoredTransaction × ℕ)) → cleared (xs ++ ys) ≡ cleared xs ++ cleared ys
cleared-append [] ys = refl
cleared-append ((scored, now) ∷ rest) ys = ground (arith, cleared-append rest ys)
