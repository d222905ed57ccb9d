-- ===== src/Models.antt =====
-- common/models.py: the value objects that pass between the stages. Decimal amounts are integers
-- in a fixed smallest unit; fraud scores, floats in the source, are thousandths; a datetime is a
-- number; `new_id()` and `utc_now()` are read by the caller and passed in.
use distributed_transaction.Prelude.{
  ℕ, String, Bool, true, false, not, ◌&&◌, List, Option, none, some, ◌==◌, string_eq, Dict, Result,
  ok, ◌>>◌, raise_if, leb, if◌then◌else◌,
}
use distributed_transaction.Prelude.Int.{ℤ, pos, leb_ℤ, eq_ℤ}

pub data ModelError : Type 0 where
  empty_account_id amount_not_positive missing_counterparty score_out_of_range delta_zero :
      ModelError

pub data TransactionType : Type 0 where
  debit credit transfer : TransactionType

pub data TransactionStatus : Type 0 where
  pending scoring fraud_flagged cleared settled rejected : TransactionStatus

pub record Transaction : Type 0 where
  pub account_id : String
  pub transaction_type : TransactionType
  pub amount : ℤ
  pub counterparty_account_id : Option String
  pub currency : String
  pub region : String
  pub status : TransactionStatus
  pub transaction_id : String
  pub created_at : ℕ
  pub metadata : Dict String String

-- `not text`
abbrev pub is_empty : String → Bool
is_empty s = s == ""

abbrev pub is_blank : Option String → Bool
is_blank none = true
is_blank (some s) = is_empty s

abbrev pub is_transfer : TransactionType → Bool
is_transfer TransactionType.transfer = true
is_transfer _ = false

-- `Transaction.__post_init__`: the transaction, or the error of the first check that fails.
unfoldable pub check_transaction : Transaction → Result ModelError Transaction
check_transaction t = do
  raise_if (is_empty t.account_id) empty_account_id
  raise_if (leb_ℤ t.amount (pos 0)) amount_not_positive
  raise_if (is_transfer t.transaction_type && is_blank t.counterparty_account_id)
      missing_counterparty
  ok t

abbrev pub partition_key : Transaction → String
partition_key t = t.account_id

-- The texts that the scorer puts among a score's reasons, by the values formatted into them.
pub data Reason : Type 0 where
  large_amount : ℤ → ℤ → Reason
  device_flagged : Reason
  velocity : ℕ → String → ℕ → Reason

pub record FraudScore : Type 0 where
  pub transaction_id : String
  pub worker_id : String
  pub score : ℕ
  pub is_fraud : Bool
  pub reasons : List Reason
  pub scored_at : ℕ

-- 1.0
abbrev pub one : ℕ
one = 1000

-- `FraudScore.__post_init__`; a score below zero is not a number of the model.
unfoldable pub check_score : FraudScore → Result ModelError FraudScore
check_score s = do raise_if (not (leb s.score one)) score_out_of_range; ok s

pub record ScoredTransaction : Type 0 where
  pub transaction : Transaction
  pub score : FraudScore

pub record Account : Type 0 where
  pub account_id : String
  pub balance : ℤ
  pub region : String

-- `Account.__post_init__`
unfoldable pub check_account : Account → Result ModelError Account
check_account a = do raise_if (is_empty a.account_id) empty_account_id; ok a

pub record LedgerEntry : Type 0 where
  pub transaction_id : String
  pub account_id : String
  pub delta : ℤ
  pub entry_id : String
  pub created_at : ℕ

-- `LedgerEntry.__post_init__`: an empty entry id is replaced by the transaction's id, then the
-- amount is checked.
unfoldable pub check_entry : LedgerEntry → Result ModelError LedgerEntry
check_entry e = do
  let e' = if is_empty e.entry_id then record e { entry_id = e.transaction_id } else e
  raise_if (eq_ℤ e'.delta (pos 0)) delta_zero
  ok e'
