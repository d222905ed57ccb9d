-- ===== src/Fraud/Worker.antt =====
-- fraud/worker.py: one cycle of a worker. The output queue is bounded by `maxsize`, and unbounded
-- where that is 0. Other threads use the queue while a cycle runs: `others k` is what they make of it
-- before the score numbered `k` is put there. `clock` gives the reading of the clock for each score
-- made so far.
pub mod Capacity
use distributed_transaction.Prelude.{
  ℕ, zero, ◌+◌, ◌-◌, min, Bool, true, false, not, ◌&&◌, String, List, [], ◌∷◌, ◌++◌, length, leb,
  ltb, if◌then◌else◌, Result, ok, raise, ◌>>=◌, ◌>>◌, raise_if, map_error,
}
use distributed_transaction.Models.{Transaction, ScoredTransaction, ModelError}
use distributed_transaction.Streaming.Partitioner.{StreamError}
use distributed_transaction.Streaming.Broker.{LogRecord, PartitionedLog}
use distributed_transaction.Streaming.Group.{ConsumerGroup, assignment_for}
use distributed_transaction.Streaming.Consumer.{poll_partition, commit}
use distributed_transaction.Fraud.Scorer.{Scorer, score}

pub data WorkerError : Type 0 where
  log_error : StreamError → WorkerError
  score_error : ModelError → WorkerError
  queue_full : WorkerError

-- a worker with what it shares: the log and its output queue
pub record Worker : Type 0 where
  pub member_id : String
  pub max_batch : ℕ
  pub maxsize : ℕ
  pub clock : ℕ → ℕ
  pub others : ℕ → List ScoredTransaction → List ScoredTransaction
  pub scores_made : ℕ
  pub log : PartitionedLog Transaction
  pub scorer : Scorer
  pub output_queue : List ScoredTransaction

-- `_available_capacity`; a queue holds at most `maxsize` items, so its room is not negative
abbrev pub available_capacity : Worker → ℕ
available_capacity w =
    if leb w.maxsize 0 then w.max_batch else min w.max_batch (w.maxsize - length w.output_queue)

-- the queue, when the next score is put there
abbrev pub queue_now : Worker → List ScoredTransaction
queue_now w = w.others w.scores_made w.output_queue

-- the test of `put_nowait`, which raises `queue.Full`
abbrev pub is_full : Worker → Bool
is_full w = ltb 0 w.maxsize && leb w.maxsize (length (queue_now w))

-- the body of the loop over the records of a partition
unfoldable pub handle_record :
    ConsumerGroup → LogRecord Transaction → Worker → Result WorkerError (Worker × ScoredTransaction)
handle_record g r w = do
  scored ← map_error score_error (score r.value (w.clock w.scores_made) w.scorer)
  let item : ScoredTransaction = record { transaction = r.value; score = scored.1 }
  raise_if (is_full w) queue_full
  log ← map_error log_error (commit w.log g r)
  ok (
    record w {
      scores_made = w.scores_made + 1;
      log = log;
      scorer = scored.0;
      output_queue = queue_now w ++ item ∷ [];
    },
    item,
  )

-- the loop over the records of a partition
unfoldable pub handle_records :
    ConsumerGroup
    → List (LogRecord Transaction)
    → Worker
    → Result WorkerError (Worker × List ScoredTransaction)
handle_records g [] w = ok (w, [])
handle_records g (r ∷ rs) w = do
  first ← handle_record g r w
  rest ← handle_records g rs first.0
  ok (rest.0, first.1 ∷ rest.1)

-- the loop over the partitions, with the capacity that is left
unfoldable pub handle_partitions :
    ConsumerGroup → List ℕ → ℕ → Worker → Result WorkerError (Worker × List ScoredTransaction)
handle_partitions g [] capacity w = ok (w, [])
handle_partitions g (p ∷ ps) capacity w =
    let body = (do
      records ← map_error log_error (poll_partition w.log g p capacity)
      here ← handle_records g records w
      rest ← handle_partitions g ps (capacity - length records) here.0
      ok (rest.0, here.1 ++ rest.1)) in
    if leb capacity 0 then ok (w, []) else body

unfoldable pub run_once :
    ConsumerGroup → Worker → Result WorkerError (Worker × List ScoredTransaction)
run_once g w =
    let capacity = available_capacity w in
    if leb capacity 0
    then ok (w, [])
    else handle_partitions g (assignment_for g w.member_id) capacity w
