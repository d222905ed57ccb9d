-- ===== src/Fraud/Scorer.antt =====
-- fraud/scorer.py. Weights, thresholds and scores are thousandths; amounts and times are in the
-- units of Models. `now` is the call's reading of `now_fn`.
pub mod Verdict
pub mod Velocity
use distributed_transaction.Prelude.{
  ℕ, ◌+◌, ◌*◌, ◌≤◌, min, string_eq, ◌==◌, String, Bool, true, false, Option, none, some, List, [],
  ◌∷◌, ◌++◌, length, Dict, get, get_default, put, ltb, leb, if◌then◌else◌, Result, ok, ◌>>=◌,
}
use distributed_transaction.Prelude.Int.{ℤ, pos, leb_ℤ}
use distributed_transaction.Models.{
  Transaction, FraudScore, Reason, large_amount, device_flagged, velocity, ModelError, one,
  check_score,
}

pub record ScorerConfig : Type 0 where
  pub large_amount_threshold : ℤ
  pub velocity_window_seconds : ℕ
  pub velocity_max_transactions : ℕ
  pub device_flag_weight : ℕ
  pub large_amount_weight : ℕ
  pub velocity_weight : ℕ
  pub fraud_threshold : ℕ

-- the defaults of `ScorerConfig`, where a whole unit of the currency is so many smallest ones
abbrev pub default_config : ℕ → ScorerConfig
default_config whole = record {
  large_amount_threshold = pos (10000 * whole);
  velocity_window_seconds = 60;
  velocity_max_transactions = 5;
  device_flag_weight = 600;
  large_amount_weight = 500;
  velocity_weight = 600;
  fraud_threshold = 500;
}

pub record Scorer : Type 0 where
  pub worker_id : String
  pub config : ScorerConfig
  pub recent_by_account : Dict String (List ℕ)

-- `while window and window[0] < cutoff: window.popleft()`, at the cutoff `now - seconds`
abbrev pub drop_old : ℕ → ℕ → List ℕ → List ℕ
drop_old seconds now [] = []
drop_old seconds now (t ∷ ts) =
    let rest = drop_old seconds now ts in if ltb (t + seconds) now then rest else t ∷ ts

-- the account's window, with this transaction in it
unfoldable pub window_after : Scorer → String → ℕ → List ℕ
window_after s account_id now =
    drop_old s.config.velocity_window_seconds now
      (get_default account_id [] s.recent_by_account ++ now ∷ [])

-- `_record_and_count`
unfoldable pub record_and_count : Transaction → ℕ → Scorer → Scorer × ℕ
record_and_count txn now s =
    let window = window_after s txn.account_id now in
    (record s { recent_by_account = put txn.account_id window s.recent_by_account }, length window)

-- the three tests of `score`
abbrev pub is_large : ScorerConfig → Transaction → Bool
is_large config txn = leb_ℤ config.large_amount_threshold txn.amount

abbrev pub is_flagged : Transaction → Bool
is_flagged txn = elim (get "device_flagged" txn.metadata) [ none ↦ false | some v ↦ v == "true" ]

abbrev pub is_fast : ScorerConfig → ℕ → Bool
is_fast config count = ltb config.velocity_max_transactions count

-- what a rule that applies adds to the weight and to the reasons
abbrev pub add_rule : Bool → ℕ → Reason → ℕ × List Reason → ℕ × List Reason
add_rule applies weight reason acc = if applies then (acc.0 + weight, acc.1 ++ reason ∷ []) else acc

-- the weight and the reasons, for a number of recent transactions
unfoldable pub weigh : ScorerConfig → Transaction → ℕ → ℕ × List Reason
weigh config txn count =
    add_rule (is_fast config count) config.velocity_weight
      (velocity count txn.account_id config.velocity_window_seconds)
      (add_rule (is_flagged txn) config.device_flag_weight device_flagged (
        add_rule (is_large config txn) config.large_amount_weight
          (large_amount txn.amount config.large_amount_threshold) (0, [])))

-- the score of a transaction whose account has so many recent ones, before `__post_init__`
unfoldable pub verdict : Scorer → Transaction → ℕ → ℕ → FraudScore
verdict s txn count now =
    let weighed = weigh s.config txn count in
    let score = min weighed.0 one in
    record {
      transaction_id = txn.transaction_id;
      worker_id = s.worker_id;
      score = score;
      is_fraud = leb s.config.fraud_threshold score;
      reasons = weighed.1;
      scored_at = now;
    }

-- `score`
unfoldable pub score : Transaction → ℕ → Scorer → Result ModelError (Scorer × FraudScore)
score txn now s = do
  let counted = record_and_count txn now s
  checked ← check_score (verdict s txn counted.1 now)
  ok (counted.0, checked)
