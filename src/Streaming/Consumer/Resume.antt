-- ===== src/Streaming/Consumer/Resume.antt =====
-- Reading on after a commit.
use distributed_transaction.Prelude.{
  ℕ, suc, ◌+◌, max, ◌≡◌, ◌∙◌, String, some, List, ◌∷◌, arith, get_elem?, take, drop, take-drop_rest,
  eq_iff, ok, bind-eq-ok, ok-injective, ◌==◌, if◌then◌else◌, ap, string_eq, nat_eq, pair_eq,
}
use distributed_transaction.Streaming.Broker.{
  LogRecord, PartitionedLog, records_of, read, committed_offset, commit_offset,
}
use distributed_transaction.Streaming.Broker.Order.{
  IsPlaced, records_of-eq-ok, records_of_at, commit_offset_lem, committed_offset-commit_offset,
}
use distributed_transaction.Streaming.Group.{ConsumerGroup}
use distributed_transaction.Streaming.Consumer.{poll_partition, commit}

resume_at :
    {V : Type 0} (log log' : PartitionedLog V) (g : ConsumerGroup) (p off m q o : ℕ)
    (rs : List (LogRecord V))
    → get_elem? log.partitions p ≡ some rs
    → committed_offset log g.group_id p ≡ ok off
    → q ≡ p
    → o ≡ suc off
    → commit_offset log g.group_id q o ≡ ok log'
    → poll_partition log' g p m ≡ ok (take m (drop (suc off) rs))
unfolding poll_partition read
resume_at log log' g p off m q o rs found done same next committed =
    let e = commit_offset_lem log g.group_id q o committed in
    let before =
      committed_offset-commit_offset log log' g.group_id g.group_id q p o off done committed in
    let step : (if ◌==◌ {K = String × ℕ} (g.group_id, q) (g.group_id, p) then max off o else off)
        ≡ suc off =
      rw (same, next) (ground (arith, eq_iff g.group_id g.group_id)) in
    let here : records_of log' p ≡ ok rs =
      rw e (records_of_at (record log { committed_offsets = _ }) p found) in
    rw (before, step, here)

-- Over a log that keeps every record at its place, a group member that polls a partition and
-- commits the first record it got is given, at its next poll for one record less, exactly the
-- records that came after that one: none is skipped and none comes twice.
pub poll_resumes :
    {V : Type 0} (md5 : String → List ℕ) (log log' : PartitionedLog V) (g : ConsumerGroup) (p m : ℕ)
    (r : LogRecord V) (rest : List (LogRecord V))
    → IsPlaced md5 log
    → poll_partition log g p (suc m) ≡ ok (r ∷ rest)
    → commit log g r ≡ ok log'
    → poll_partition log' g p m ≡ ok rest
unfolding poll_partition read commit
poll_resumes md5 log log' g p m r rest placed polled committed =
    let (off, at, body) = bind-eq-ok (committed_offset log g.group_id p) _ polled in
    let (rs, found, slice) = bind-eq-ok (records_of log p) _ body in
    let (here, after) = take-drop_rest m off rs (ok-injective slice) in
    let (home, place, _) = placed.at p off rs r (records_of-eq-ok log p found) here in
    resume_at log log' g p off m r.partition (r.offset + 1) rs (records_of-eq-ok log p found) at
      home (omega arith) committed
    ∙ ap ok after
