-- ===== src/Tests/Cycles.antt =====
-- A worker's cycle and a submitter's run at concrete inputs.
use distributed_transaction.Prelude.{
  drop, ℕ, zero, suc, ◌+◌, ◌≡◌, ◌≤◌, refl, Bool, true, false, none, some, get_elem?, [], ◌∷◌, List,
  ◌++◌, length, String, ok, inr, arith, string_eq, nat_eq, pair_eq,
}
use distributed_transaction.Prelude.Int.{pos}
use distributed_transaction.Models.{
  Transaction, debit, pending, ScoredTransaction, LedgerEntry, check_transaction,
}
use distributed_transaction.Streaming.Partitioner.{key_to_partition}
use distributed_transaction.Streaming.Broker.{
  LogRecord, PartitionedLog, records_of, append, produce,
}
use distributed_transaction.Streaming.Broker.Order.{produce-IsPlaced}
use distributed_transaction.Streaming.Group.{ConsumerGroup}
use distributed_transaction.Fraud.Scorer.{default_config}
use distributed_transaction.Fraud.Worker.{Worker, run_once}
use distributed_transaction.Fraud.Worker.Capacity.{HasRoom, put_all, run_once_total}
use distributed_transaction.Ledger.{init, run}
use distributed_transaction.Settlement.Submitter.{Submitter, handle_all}
use distributed_transaction.Settlement.Submitter.Accounts.{
  IsValid, cleared, handled, propose_all, handle_all_total,
}
use distributed_transaction.Settlement.Submitter.Retries.{commit_all, again, resubmitted_once}

abbrev md5 : String → List ℕ
md5 key = 0 ∷ 0 ∷ 1 ∷ 1 ∷ []

abbrev payment : Transaction
payment = record {
  account_id = "alice";
  transaction_type = debit;
  amount = pos 20;
  counterparty_account_id = none;
  currency = "USD";
  region = "us-east";
  status = pending;
  transaction_id = "t1";
  created_at = 0;
  metadata = [];
}

abbrev topic : PartitionedLog Transaction
topic = record { topic = "transactions"; partitions = [] ∷ [] ∷ []; committed_offsets = [] }

none_there :
    (p i : ℕ) (rs : List (LogRecord Transaction)) (r : LogRecord Transaction)
    → get_elem? topic.partitions p ≡ some rs
    → get_elem? rs i ≡ some r
    → (r.partition ≡ p) × (r.offset ≡ i) × (key_to_partition md5 r.key 2 ≡ ok p)
none_there zero i [] r e f = cc
none_there zero i (x ∷ rs) r e f = cc
none_there (suc zero) i [] r e f = cc
none_there (suc zero) i (x ∷ rs) r e f = cc
none_there (suc (suc p)) i rs r e f = cc

abbrev event : LogRecord Transaction
event = record { partition = 1; offset = 0; key = "alice"; value = payment; produced_at = 5 }

abbrev produced : PartitionedLog Transaction
produced = record topic { partitions = [] ∷ (event ∷ []) ∷ [] }

produced_once : produce md5 topic "alice" payment 5 ≡ ok (produced, event)
unfolding produce append key_to_partition records_of
produced_once = refl

abbrev group : ConsumerGroup
group = record {
  group_id = "scorers";
  num_partitions = 2;
  session_timeout_seconds = 10;
  members = [];
  assignment = ("w1", 0 ∷ 1 ∷ []) ∷ [];
}

abbrev worker : Worker
worker = record {
  member_id = "w1";
  max_batch = 50;
  maxsize = 4;
  clock = λ i. 7;
  others = λ i q. drop 1 q;
  scores_made = 0;
  log = produced;
  scorer = record { worker_id = "w1"; config = default_config 100; recent_by_account = [] };
  output_queue = [];
}

drop_shorter : (q : List ScoredTransaction) → length (drop 1 q) ≤ length q
drop_shorter [] = omega arith
drop_shorter (x ∷ q) = omega arith

run_once_total_example :
    (w' : Worker) × (out : List ScoredTransaction) × (run_once group worker ≡ ok (w', out))
    × (w'.output_queue ≡ put_all (λ i q. drop 1 q) 0 [] out)
    × (length out ≤ 50)
    × HasRoom 0 w'
run_once_total_example =
    run_once_total md5 group worker (λ i q. drop_shorter q)
      (produce-IsPlaced md5 topic "alice" payment 5 (produced, event) (record { at = none_there })
        produced_once).0
      (omega arith, (omega arith, tt)) (inr (omega arith))

abbrev scored : Bool → ScoredTransaction
scored is_fraud = record {
  transaction = payment;
  score = record {
    transaction_id = "t1";
    worker_id = "w1";
    score = 0;
    is_fraud = is_fraud;
    reasons = [];
    scored_at = 7;
  };
}

payment-IsValid : IsValid payment
unfolding check_transaction
payment-IsValid = refl

abbrev idle : Submitter
idle = record { submitted_count = 0; fraud_flagged_count = 0; failed_transaction_ids = [] }

handle_all_total_example :
    (s' : Submitter) × (handle_all commit_all ((scored false, 8) ∷ (scored true, 9) ∷ []) (idle, [])
      ≡ ok (s', propose_all commit_all (cleared ((scored false, 8) ∷ (scored true, 9) ∷ [])) []))
    × (handled s' ≡ handled idle + 2)
handle_all_total_example =
    handle_all_total commit_all ((scored false, 8) ∷ (scored true, 9) ∷ []) idle []
      (payment-IsValid, (payment-IsValid, tt))

abbrev first : List (ScoredTransaction × ℕ)
first = (scored false, 8) ∷ []

resubmitted_once_example :
    (s1 : Submitter) × (log1 : List LedgerEntry) × (s2 : Submitter) × (log2 : List LedgerEntry)
    × (handle_all commit_all (first ++ (again (λ x. 30) first ++ [])) (idle, []) ≡ ok (s1, log1))
    × (handle_all commit_all (first ++ []) (idle, []) ≡ ok (s2, log2))
    × (run (init (("alice", pos 100) ∷ [])) log1 ≡ run (init (("alice", pos 100) ∷ [])) log2)
resubmitted_once_example =
    resubmitted_once (init (("alice", pos 100) ∷ [])) idle (λ x. 30) first []
      (payment-IsValid, (payment-IsValid, tt)) (payment-IsValid, tt)
