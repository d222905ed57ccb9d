-- ===== src/Tests/Streams.antt =====
-- The log and the groups at concrete inputs.
use distributed_transaction.Prelude.{
  ◌<◌, ℕ, zero, suc, ◌+◌, some, get_elem?, ◌≡◌, refl, [], ◌∷◌, List, ok, String, string_eq, pair_eq,
  nat_eq,
}
use distributed_transaction.Streaming.Partitioner.{key_to_partition}
use distributed_transaction.Streaming.Broker.{
  LogRecord, PartitionedLog, records_of, read, append, produce, commit_offset, committed_offset,
}
use distributed_transaction.Streaming.Broker.Order.{
  IsPlaced, Grown, IsEvent, produce-IsPlaced, committed_offset-commit_offset,
}
use distributed_transaction.Streaming.Broker.Keys.{produce_all, same_key_ordered}
use distributed_transaction.Streaming.Group.{ConsumerGroup, MemberState, rebalance, assignment_for}
use distributed_transaction.Streaming.Group.Ownership.{assignment_for-rebalance}
use distributed_transaction.Streaming.Consumer.{poll_partition, commit}
use distributed_transaction.Streaming.Consumer.Resume.{poll_resumes}

-- a digest of constant bytes
abbrev md5 : String → List ℕ
md5 key = 0 ∷ 0 ∷ 1 ∷ 1 ∷ 9 ∷ []

abbrev log : PartitionedLog ℕ
log = record { topic = "transactions"; partitions = [] ∷ [] ∷ []; committed_offsets = [] }

abbrev event : ℕ → LogRecord ℕ
event i = record { partition = 1; offset = i; key = "alice"; value = 7 + i; produced_at = i }

abbrev log_of : List (LogRecord ℕ) → PartitionedLog ℕ
log_of rs = record log { partitions = [] ∷ rs ∷ [] }

abbrev Holds : ℕ → ℕ → LogRecord ℕ → Type 0
Holds p i r = (r.partition ≡ p) × (r.offset ≡ i) × (key_to_partition md5 r.key 2 ≡ ok p)

none_there :
    (p i : ℕ) (rs : List (LogRecord ℕ)) (r : LogRecord ℕ)
    → get_elem? log.partitions p ≡ some rs
    → get_elem? rs i ≡ some r
    → Holds p i r
none_there zero i [] r e f = cc
none_there zero i (x ∷ rs) r e f = cc
none_there (suc zero) i [] r e f = cc
none_there (suc zero) i (x ∷ rs) r e f = cc
none_there (suc (suc p)) i rs r e f = cc

log-IsPlaced : IsPlaced md5 log
log-IsPlaced = record { at = none_there }

-- two events of one key
abbrev one_event : PartitionedLog ℕ
one_event = log_of (event 0 ∷ [])

abbrev two_events : PartitionedLog ℕ
two_events = log_of (event 0 ∷ event 1 ∷ [])

produced : (i : ℕ) → produce md5 log "alice" 7 0 ≡ ok (one_event, event 0)
unfolding produce append key_to_partition records_of
produced i = refl

produce-IsPlaced_example :
    IsPlaced md5 one_event
    × Grown log one_event (event 0)
    × IsEvent "alice" 7 0 (event 0)
    × (read one_event 1 0 1 ≡ ok (event 0 ∷ []))
produce-IsPlaced_example =
    produce-IsPlaced md5 log "alice" 7 0 (one_event, event 0) log-IsPlaced (produced 0)

one_event-IsPlaced : IsPlaced md5 one_event
one_event-IsPlaced =
    (produce-IsPlaced md5 log "alice" 7 0 (one_event, event 0) log-IsPlaced (produced 0)).0

produced_next : produce md5 one_event "alice" 8 1 ≡ ok (two_events, event 1)
unfolding produce append key_to_partition records_of
produced_next = refl

two_events-IsPlaced : IsPlaced md5 two_events
two_events-IsPlaced =
    (produce-IsPlaced md5 one_event "alice" 8 1 (two_events, event 1) one_event-IsPlaced
      produced_next).0

abbrev three_events : PartitionedLog ℕ
three_events = log_of (event 0 ∷ event 1 ∷ event 2 ∷ [])

produced_between : produce_all md5 one_event (("alice", 8, 1) ∷ []) ≡ ok two_events
unfolding produce append key_to_partition records_of
produced_between = refl

produced_last : produce md5 two_events "alice" 9 2 ≡ ok (three_events, event 2)
unfolding produce append key_to_partition records_of
produced_last = refl

same_key_ordered_example : ((event 2).partition ≡ (event 0).partition) × (0 < 2)
same_key_ordered_example =
    same_key_ordered md5 log two_events "alice" 7 9 0 2 (("alice", 8, 1) ∷ []) (one_event, event 0)
      (three_events, event 2) (produced 0) produced_between produced_last

abbrev committed : ℕ → PartitionedLog ℕ
committed offset = record two_events { committed_offsets = (("scorers", 1), offset) ∷ [] }

committed_offset-commit_offset_example : committed_offset (committed 3) "scorers" 1 ≡ ok 3
unfolding committed_offset commit_offset records_of
committed_offset-commit_offset_example =
    committed_offset-commit_offset (committed 1) (committed 3) "scorers" "scorers" 1 1 3 1 refl refl

abbrev member : String → MemberState
member m = record { member_id = m; last_heartbeat = 0 }

abbrev group : ConsumerGroup
group = record {
  group_id = "scorers";
  num_partitions = 3;
  session_timeout_seconds = 10;
  members = ("w2", member "w2") ∷ ("w1", member "w1") ∷ [];
  assignment = [];
}

assignment_for-rebalance_example : assignment_for (rebalance group) "w1" ≡ 0 ∷ 2 ∷ []
assignment_for-rebalance_example = assignment_for-rebalance group "w1"

poll_resumes_example : poll_partition (committed 1) group 1 1 ≡ ok (event 1 ∷ [])
unfolding poll_partition committed_offset records_of read commit commit_offset
poll_resumes_example =
    poll_resumes md5 two_events (committed 1) group 1 1 (event 0) (event 1 ∷ []) two_events-IsPlaced
      refl refl
