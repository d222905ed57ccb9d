-- ===== src/Streaming/Broker.antt =====
-- streaming/broker.py. A lock per partition and one for the offsets make each call atomic.
pub mod Keys
pub mod Order
use distributed_transaction.Prelude.{
  ℕ, zero, suc, ◌+◌, max, nat_eq, string_eq, pair_eq, String, Option, none, some, List, [], ◌∷◌,
  ◌++◌, length, get_elem?, take, drop, set, replicate, Dict, get_default, put, ltb, Result, ok,
  raise, ◌>>=◌,
}
use distributed_transaction.Streaming.Partitioner.{
  StreamError, no_partitions, partition_out_of_range, key_to_partition,
}

pub record LogRecord (V : Type 0) : Type 0 where
  pub partition : ℕ
  pub offset : ℕ
  pub key : String
  pub value : V
  pub produced_at : ℕ

pub record PartitionedLog (V : Type 0) : Type 0 where
  pub topic : String
  pub partitions : List (List (LogRecord V))
  pub committed_offsets : Dict (String × ℕ) ℕ

-- `PartitionedLog.__init__`
abbrev pub new_log : {V : Type 0} → String → ℕ → Result StreamError (PartitionedLog V)
new_log topic zero = raise no_partitions
new_log topic (suc k) =
    ok (record { topic = topic; partitions = replicate (suc k) []; committed_offsets = [] })

module _ {V : Type 0} (log : PartitionedLog V) where
  abbrev pub num_partitions : ℕ
  num_partitions = length log.partitions

  -- the list of a partition; `_check_partition` raises where there is none
  unfoldable pub records_of : ℕ → Result StreamError (List (LogRecord V))
  records_of partition = elim (get_elem? log.partitions partition) [
    | none ↦ raise partition_out_of_range
    | some records ↦ ok records
  ]

  unfoldable pub append : ℕ → String → V → ℕ → Result StreamError (PartitionedLog V × LogRecord V)
  append partition key value now = do
    records ← records_of partition
    let added : LogRecord V = record {
      partition = partition;
      offset = length records;
      key = key;
      value = value;
      produced_at = now;
    }
    ok (record log { partitions = set log.partitions partition (records ++ added ∷ []) }, added)

  -- `partitions[partition][from_offset : from_offset + max_records]`
  unfoldable pub read : ℕ → ℕ → ℕ → Result StreamError (List (LogRecord V))
  read partition from_offset max_records = do
    records ← records_of partition
    ok (take max_records (drop from_offset records))

  unfoldable pub latest_offset : ℕ → Result StreamError ℕ
  latest_offset partition = do records ← records_of partition; ok (length records)

  unfoldable pub commit_offset : String → ℕ → ℕ → Result StreamError (PartitionedLog V)
  commit_offset group_id partition offset = do
    _ ← records_of partition
    let key : String × ℕ = (group_id, partition)
    ok (record log {
      committed_offsets =
          put key (max (get_default key 0 log.committed_offsets) offset) log.committed_offsets;
    })

  unfoldable pub committed_offset : String → ℕ → Result StreamError ℕ
  committed_offset group_id partition = do
    _ ← records_of partition
    ok (get_default (group_id, partition) 0 log.committed_offsets)

-- streaming/producer.py
unfoldable pub produce :
    {V : Type 0} (md5 : String → List ℕ)
    → PartitionedLog V
    → String
    → V
    → ℕ
    → Result StreamError (PartitionedLog V × LogRecord V)
produce md5 log key value now = do
  partition ← key_to_partition md5 key (num_partitions log)
  append log partition key value now
