-- ===== src/Streaming/Consumer.antt =====
-- streaming/consumer.py: the single consumer, and the reader that is a member of a group.
pub mod Resume
use distributed_transaction.Prelude.{
  ℕ, ◌+◌, max, nat_eq, String, List, [], ◌∷◌, ◌++◌, Dict, get, put, from_keys, Option, none, some,
  Result, ok, raise, ◌>>=◌,
}
use distributed_transaction.Streaming.Partitioner.{StreamError, unknown_partition}
use distributed_transaction.Streaming.Broker.{
  LogRecord, PartitionedLog, read, committed_offset, commit_offset,
}
use distributed_transaction.Streaming.Group.{ConsumerGroup, assignment_for}

pub record Consumer : Type 0 where
  pub partitions : List ℕ
  pub offsets : Dict ℕ ℕ

-- `Consumer.__init__` for the partitions that it is given
abbrev pub new_consumer : List ℕ → Consumer
new_consumer partitions = record { partitions = partitions; offsets = from_keys partitions 0 [] }

-- `self._offsets[partition]`, which is also `Consumer.offset`
abbrev pub offset_of : Consumer → ℕ → Result StreamError ℕ
offset_of c partition = elim (get partition c.offsets) [
  | none ↦ raise unknown_partition
  | some offset ↦ ok offset
]

module _ {V : Type 0} (log : PartitionedLog V) where
  -- the loop of `Consumer.poll`
  unfoldable pub poll_all : Consumer → ℕ → List ℕ → Result StreamError (List (LogRecord V))
  poll_all c max_records [] = ok []
  poll_all c max_records (partition ∷ rest) = do
    offset ← offset_of c partition
    records ← read log partition offset max_records
    more ← poll_all c max_records rest
    ok (records ++ more)

  -- `Consumer.poll`
  abbrev pub poll : Consumer → ℕ → Result StreamError (List (LogRecord V))
  poll c max_records = poll_all c max_records c.partitions

  -- `GroupConsumer.poll_partition`
  unfoldable pub poll_partition : ConsumerGroup → ℕ → ℕ → Result StreamError (List (LogRecord V))
  poll_partition g partition max_records = do
    offset ← committed_offset log g.group_id partition
    read log partition offset max_records

  -- `GroupConsumer.commit`
  unfoldable pub commit : ConsumerGroup → LogRecord V → Result StreamError (PartitionedLog V)
  commit g r = commit_offset log g.group_id r.partition (r.offset + 1)

-- `Consumer.commit`
unfoldable pub commit_local : {V : Type 0} → LogRecord V → Consumer → Result StreamError Consumer
commit_local r c = do
  offset ← offset_of c r.partition
  ok (record c { offsets = put r.partition (max offset (r.offset + 1)) c.offsets })
