-- ===== src/Settlement/Submitter.antt =====
-- settlement/submitter.py. The cluster is what `propose` makes of it: `propose entry l` is the
-- cluster after the call, and whether the call returned or raised `TimeoutError`. Each item of the
-- queue comes with the time at which its entry is created.
pub mod Accounts
pub mod Retries
use distributed_transaction.Prelude.{
  ℕ, ◌+◌, Bool, true, false, String, List, [], ◌∷◌, ◌++◌, if◌then◌else◌, Result, ok, ◌>>=◌,
}
use distributed_transaction.Prelude.Int.{ℤ, neg_ℤ}
use distributed_transaction.Models.{
  Transaction, TransactionType, credit, ScoredTransaction, LedgerEntry, ModelError, check_entry,
}

abbrev pub is_credit : TransactionType → Bool
is_credit credit = true
is_credit _ = false

abbrev pub delta_for : Transaction → ℤ
delta_for t = if is_credit t.transaction_type then t.amount else neg_ℤ t.amount

-- the counters of a `SettlementSubmitter`
pub record Submitter : Type 0 where
  pub submitted_count : ℕ
  pub fraud_flagged_count : ℕ
  pub failed_transaction_ids : List String

-- the arguments of the `LedgerEntry` of a transaction; the entry id is left empty
abbrev pub entry_for : Transaction → ℕ → LedgerEntry
entry_for t now = record {
  transaction_id = t.transaction_id;
  account_id = t.account_id;
  delta = delta_for t;
  entry_id = "";
  created_at = now;
}

-- what `_handle` counts of a proposal
abbrev pub count_proposal : Bool → String → Submitter → Submitter
count_proposal true transaction_id s = record s { submitted_count = s.submitted_count + 1 }
count_proposal false transaction_id s = record s {
  failed_transaction_ids = s.failed_transaction_ids ++ transaction_id ∷ [];
}

module _ {L : Type 0} (propose : LedgerEntry → L → L × Bool) where
  -- `_handle` past the test for fraud
  unfoldable pub settle : Transaction → ℕ → Submitter × L → Result ModelError (Submitter × L)
  settle t now (s, l) = do
    entry ← check_entry (entry_for t now)
    let proposed = propose entry l
    ok (count_proposal proposed.1 t.transaction_id s, proposed.0)

  -- `_handle`
  unfoldable pub handle : ScoredTransaction → ℕ → Submitter × L → Result ModelError (Submitter × L)
  handle scored now (s, l) =
      if scored.score.is_fraud
      then ok (record s { fraud_flagged_count = s.fraud_flagged_count + 1 }, l)
      else settle scored.transaction now (s, l)

  -- the loop of `_run` over what the queue gives
  unfoldable pub handle_all :
      List (ScoredTransaction × ℕ) → Submitter × L → Result ModelError (Submitter × L)
  handle_all [] state = ok state
  handle_all ((scored, now) ∷ rest) state = do next ← handle scored now state; handle_all rest next
