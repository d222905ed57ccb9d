-- ===== src/Tests/Scores.antt =====
-- The fraud scorer at concrete inputs.
use distributed_transaction.Prelude.{
  ℕ, ok, ◌<◌, ◌↔◌, ◌⊎◌, ◌≡◌, refl, true, ◌==◌, Bool-cases, inl, inr, none, [], ◌∷◌, List, ◌++◌,
  arith, length, String, get_default, string_eq,
}
use distributed_transaction.Prelude.Int.{pos}
use distributed_transaction.Models.{Transaction, FraudScore, debit, pending}
use distributed_transaction.Fraud.Scorer.{
  Scorer, default_config, record_and_count, verdict, weigh, score,
}
use distributed_transaction.Fraud.Scorer.Verdict.{IsLarge, IsFlagged, score_fraud_iff}
use distributed_transaction.Fraud.Scorer.Velocity.{
  Tracks, Ascending, within, with_time, record_and_count-Tracks,
}

abbrev payment : Transaction
payment = record {
  account_id = "alice";
  transaction_type = debit;
  amount = pos 2000000;
  counterparty_account_id = none;
  currency = "USD";
  region = "us-east";
  status = pending;
  transaction_id = "t1";
  created_at = 0;
  metadata = [];
}

abbrev fresh : Scorer
fresh = record { worker_id = "w1"; config = default_config 100; recent_by_account = [] }

large_is_fraud : (verdict fresh payment 1 7).is_fraud ≡ true
unfolding verdict weigh
large_is_fraud = refl

-- a scorer that has seen the account at 10 and 50
abbrev seen : Scorer
seen = record {
  worker_id = "w1";
  config = default_config 100;
  recent_by_account = ("alice", 10 ∷ 50 ∷ []) ∷ [];
}

abbrev times : String → List ℕ
times a = get_default a [] (("alice", 10 ∷ 50 ∷ []) ∷ [])

seen_in_order : (a : String) → Ascending (times a) 50
seen_in_order a = elim (Bool-cases ("alice" == a)) [
  | inl e ↦ rw (e, times, Ascending) (omega arith, omega arith)
  | inr e ↦ rw (e, times, Ascending) tt
]

seen-Tracks : Tracks seen times 50
seen-Tracks = record { ascending = seen_in_order; keeps = λ a now h. refl }

record_and_count-Tracks_example :
    Tracks (record_and_count payment 80 seen).0 (with_time times "alice" 80) 80
    × ((record_and_count payment 80 seen).1 ≡ length (within 60 80 (times "alice" ++ 80 ∷ [])))
record_and_count-Tracks_example =
    record_and_count-Tracks payment 80 seen times 50 seen-Tracks (omega arith)

score_fraud_iff_example :
    (s' : Scorer) × (f : FraudScore) × (score payment 80 seen ≡ ok (s', f))
    × ((f.is_fraud ≡ true) ↔ (
        IsLarge 100 payment
        ⊎ (IsFlagged payment ⊎ (5 < length (within 60 80 (times "alice" ++ 80 ∷ []))))))
score_fraud_iff_example =
    score_fraud_iff 100 payment 80 seen times 50 refl seen-Tracks (omega arith)
