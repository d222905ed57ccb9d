-- ===== src/Fraud/Worker/Capacity.antt =====
-- A cycle of a worker that alone puts scores into its output queue keeps within the room there, and
-- raises nothing.
use distributed_transaction.Prelude.{
  ℕ, suc, ◌+◌, ◌-◌, ◌≤◌, ◌<◌, ◌≡◌, refl, sym, ap, ◌∙◌, nat_eq, string_eq, pair_eq, false, String,
  List, [], ◌∷◌, ◌++◌, length, length-append, length-take, get_elem?, get_elem?-lt, take, drop,
  some, All, All-take, All-drop, All-get_elem?, All-mono, leb, Result, ok, arith, Bool-cases, inl,
  inr, ◌⊎◌, get_default,
}
use native.Mathlib.Nat.{le_trans}
use distributed_transaction.Models.{Transaction, ScoredTransaction}
use distributed_transaction.Streaming.Broker.{
  LogRecord, PartitionedLog, num_partitions, read, commit_offset, committed_offset,
}
use distributed_transaction.Streaming.Broker.Order.{IsPlaced, records_of_at}
use distributed_transaction.Streaming.Group.{ConsumerGroup, assignment_for}
use distributed_transaction.Streaming.Consumer.{poll_partition, commit}
use distributed_transaction.Fraud.Scorer.Verdict.{score_total}
use distributed_transaction.Fraud.Worker.{
  Worker, WorkerError, available_capacity, is_full, handle_record, handle_records,
  handle_partitions, run_once,
}

abbrev Partitions : Type 0
Partitions = List (List (LogRecord Transaction))

-- the partition that a record names exists
abbrev Found : Partitions → LogRecord Transaction → Type 0
Found partitions r =
    (rs : List (LogRecord Transaction)) × (get_elem? partitions r.partition ≡ some rs)

-- room in the output queue for so many more
abbrev pub HasRoom : ℕ → Worker → Type 0
HasRoom k w = (w.maxsize ≡ 0) ⊎ (length w.output_queue + k ≤ w.maxsize)

-- the queue after scores have been put there, from a number on, with what other threads do between
abbrev pub put_all :
    (ℕ → List ScoredTransaction → List ScoredTransaction)
    → ℕ
    → List ScoredTransaction
    → List ScoredTransaction
    → List ScoredTransaction
put_all others k q [] = q
put_all others k q (x ∷ xs) = put_all others (suc k) (others k q ++ x ∷ []) xs

-- the other threads put nothing into the queue: it is never longer after what they do
abbrev pub OnlyTake : (ℕ → List ScoredTransaction → List ScoredTransaction) → Type 0
OnlyTake others = (k : ℕ) (q : List ScoredTransaction) → length (others k q) ≤ length q

put_all-append :
    (others : ℕ → List ScoredTransaction → List ScoredTransaction) (k : ℕ)
    (q xs ys : List ScoredTransaction)
    → put_all others k q (xs ++ ys) ≡ put_all others (k + length xs) (put_all others k q xs) ys
put_all-append others k q [] ys = rw (plus_zero k) refl
  where
    plus_zero : (n : ℕ) → n + 0 ≡ n
    plus_zero n = omega arith
put_all-append others k q (x ∷ xs) ys =
    rw (plus_suc k (length xs)) (put_all-append others (suc k) (others k q ++ x ∷ []) xs ys)
  where
    plus_suc : (n m : ℕ) → n + suc m ≡ suc n + m
    plus_suc n m = omega arith

length-put_all :
    (others : ℕ → List ScoredTransaction → List ScoredTransaction) (k : ℕ)
    (q xs : List ScoredTransaction)
    → OnlyTake others
    → length (put_all others k q xs) ≤ length q + length xs
length-put_all others k q [] takes = omega arith
length-put_all others k q (x ∷ xs) takes = omega (
  arith,
  length-put_all others (suc k) (others k q ++ x ∷ []) xs takes,
  length-append (others k q) (x ∷ []),
  takes k q,
)

-- What a worker that has handled records leaves: it has put so many scores into its queue, in order.
pub record Emits (w w' : Worker) (out : List ScoredTransaction) : Type 0 where
  pub queue : w'.output_queue ≡ put_all w.others w.scores_made w.output_queue out
  pub count : w'.scores_made ≡ w.scores_made + length out
  pub others : w'.others ≡ w.others
  pub bound : w'.maxsize ≡ w.maxsize
  pub partitions : w'.log.partitions ≡ w.log.partitions

Emits-refl : (w : Worker) → Emits w w []
Emits-refl w = record {
  queue = refl;
  count = omega arith;
  others = refl;
  bound = refl;
  partitions = refl;
}

Emits-trans :
    {w v u : Worker} {xs ys : List ScoredTransaction}
    → Emits w v xs
    → Emits v u ys
    → Emits w u (xs ++ ys)
Emits-trans {w} {v} {u} {xs} {ys} a b = record {
  queue =
      rw (a.others, a.count, a.queue) at b.queue
      ∙ sym (put_all-append w.others w.scores_made w.output_queue xs ys);
  count = omega (arith, a.count, b.count, length-append xs ys);
  others = b.others ∙ a.others;
  bound = b.bound ∙ a.bound;
  partitions = b.partitions ∙ a.partitions;
}

HasRoom-after :
    (k : ℕ) {w v : Worker} {out : List ScoredTransaction}
    → OnlyTake w.others
    → Emits w v out
    → HasRoom (length out + k) w
    → HasRoom k v
HasRoom-after k {w} {v} {out} takes e (inl free) = inl (e.bound ∙ free)
HasRoom-after k {w} {v} {out} takes e (inr room) = inr (
    rw (e.queue, e.bound)
      (omega (arith, length-put_all w.others w.scores_made w.output_queue out takes)))

HasRoom-less : (k j : ℕ) (w : Worker) → j ≤ k → HasRoom k w → HasRoom j w
HasRoom-less k j w le (inl free) = inl free
HasRoom-less k j w le (inr room) = inr (omega arith)

not_full : (k : ℕ) (w : Worker) → OnlyTake w.others → HasRoom (suc k) w → is_full w ≡ false
not_full k w takes (inl free) = ground arith
not_full k w takes (inr room) = ground (arith, takes w.scores_made w.output_queue)

module _ (g : ConsumerGroup) where
  -- A call that returns, with what it emits, at most so many.
  abbrev Returns : Result WorkerError (Worker × List ScoredTransaction) → Worker → ℕ → Type 0
  Returns call w k =
      (w' : Worker) × (out : List ScoredTransaction) × (call ≡ ok (w', out))
      × Emits w w' out
      × (length out ≤ k)

  commit_succeeds :
      (log : PartitionedLog Transaction) (r : LogRecord Transaction)
      → Found log.partitions r
      → (log' : PartitionedLog Transaction) × (commit log g r ≡ ok log')
        × (log'.partitions ≡ log.partitions)
  unfolding commit commit_offset
  commit_succeeds log r (rs, found) = rw (records_of_at log r.partition found) (_, refl, refl)

  handle_record_lem :
      (r : LogRecord Transaction) (w : Worker)
      → Found w.log.partitions r
      → is_full w ≡ false
      → (w' : Worker) × (item : ScoredTransaction) × (handle_record g r w ≡ ok (w', item))
        × Emits w w' (item ∷ [])
  unfolding handle_record
  handle_record_lem r w found room =
      let (log, done, same) = commit_succeeds w.log r found in
      rw (score_total r.value (w.clock w.scores_made) w.scorer, room, done)
        (
          _,
          _,
          refl,
          record { queue = refl; count = refl; others = refl; bound = refl; partitions = same },
        )

  handle_records_lem :
      (rs : List (LogRecord Transaction)) (w : Worker)
      → OnlyTake w.others
      → All (Found w.log.partitions) rs
      → HasRoom (length rs) w
      → (w' : Worker) × (out : List ScoredTransaction) × (handle_records g rs w ≡ ok (w', out))
        × Emits w w' out
        × (length out ≡ length rs)
  unfolding handle_records
  handle_records_lem [] w takes found room = (w, [], refl, Emits-refl w, refl)
  handle_records_lem (r ∷ rs) w takes found room =
      let (v, item, e, emits) = handle_record_lem r w found.0 (not_full (length rs) w takes room) in
      let (u, out, f, more, size) =
        handle_records_lem rs v (rw emits.others takes) (rw emits.partitions found.1) (
          HasRoom-after (length rs) takes emits
            (HasRoom-less (suc (length rs)) (1 + length rs) w (omega arith) room)) in
      rw (e, f) (u, item ∷ out, refl, Emits-trans emits more, ap suc size)

  -- where the records of a partition name it
  abbrev Homed : Partitions → Type 0
  Homed partitions =
      (p : ℕ) (rs : List (LogRecord Transaction))
      → get_elem? partitions p ≡ some rs
      → All (λ r. r.partition ≡ p) rs

  poll_succeeds :
      (log : PartitionedLog Transaction) (p k : ℕ) (rs : List (LogRecord Transaction))
      → Homed log.partitions
      → get_elem? log.partitions p ≡ some rs
      → (out : List (LogRecord Transaction)) × (poll_partition log g p k ≡ ok out)
        × All (Found log.partitions) out
        × (length out ≤ k)
  unfolding poll_partition committed_offset read
  poll_succeeds log p k rs homed found =
      let off = get_default (g.group_id, p) 0 log.committed_offsets in
      let here =
        All-mono (λ (r : LogRecord Transaction). r.partition ≡ p) (Found log.partitions) rs
          (λ r e. (rs, rw e found)) (homed p rs found) in
      rw (records_of_at log p found) (
        take k (drop off rs),
        refl,
        All-take _ k (drop off rs) (All-drop _ off rs here),
        omega (arith, length-take k (drop off rs)),
      )

  -- the partition exists
  abbrev Inside : Partitions → ℕ → Type 0
  Inside partitions p = (rs : List (LogRecord Transaction)) × (get_elem? partitions p ≡ some rs)

  handle_partitions_lem :
      (ps : List ℕ) (k : ℕ) (w : Worker)
      → OnlyTake w.others
      → Homed w.log.partitions
      → All (Inside w.log.partitions) ps
      → HasRoom k w
      → Returns (handle_partitions g ps k w) w k
  unfolding handle_partitions
  handle_partitions_lem [] k w takes homed inside room = (w, [], refl, Emits-refl w, omega arith)
  handle_partitions_lem (p ∷ ps) k w takes homed inside room = elim (Bool-cases (leb k 0)) [
    | inl none_left ↦ rw (none_left, handle_partitions) (w, [], refl, Emits-refl w, omega arith)
    | inr some_left ↦
        let (rs, polled, found, few) = poll_succeeds w.log p k inside.0.0 homed inside.0.1 in
        let (v, out, e, emits, size) =
          handle_records_lem rs w takes found (HasRoom-less k (length rs) w few room) in
        let (u, rest, f, more, most) =
          handle_partitions_lem ps (k - length rs) v (rw emits.others takes)
            (rw emits.partitions homed) (rw emits.partitions inside.1)
            (HasRoom-after (k - length rs) takes emits
              (HasRoom-less k (length out + (k - length rs)) w (omega arith) room)) in
        rw (some_left, handle_partitions, polled, e, f)
          (u, out ++ rest, refl, Emits-trans emits more, omega (arith, length-append out rest))
  ]

  available_room : (w : Worker) → HasRoom 0 w → HasRoom (available_capacity w) w
  available_room w (inl free) = inl free
  available_room w (inr room) = elim (Bool-cases (leb w.maxsize 0)) [
    | inl unbounded ↦ inl (ground arith)
    | inr bounded ↦ inr (rw bounded (omega arith))
  ]

  capacity_le_batch : (w : Worker) → available_capacity w ≤ w.max_batch
  capacity_le_batch w = ground arith

IsPlaced-Homed :
    (md5 : String → List ℕ) (g : ConsumerGroup) (log : PartitionedLog Transaction)
    → IsPlaced md5 log
    → Homed g log.partitions
IsPlaced-Homed md5 g log placed p rs found =
    All-get_elem? (λ (r : LogRecord Transaction). r.partition ≡ p) rs
      (λ i r e. (placed.at p i rs r found e).0)

-- A worker whose assigned partitions exist, over a log that holds every record at its place, and
-- whose output queue is not over its bound, where other threads take from the queue as they like and
-- put nothing there while its cycle runs, and leave the log and the group: the cycle raises nothing,
-- puts what it returns into the queue, one after the other, returns at most `max_batch` scores, and
-- leaves the queue within its bound.
pub run_once_total :
    (md5 : String → List ℕ) (g : ConsumerGroup) (w : Worker)
    → OnlyTake w.others
    → IsPlaced md5 w.log
    → All (λ p. p < num_partitions w.log) (assignment_for g w.member_id)
    → HasRoom 0 w
    → (w' : Worker) × (out : List ScoredTransaction) × (run_once g w ≡ ok (w', out))
      × (w'.output_queue ≡ put_all w.others w.scores_made w.output_queue out)
      × (length out ≤ w.max_batch)
      × HasRoom 0 w'
unfolding run_once
run_once_total md5 g w takes placed inside room = elim (Bool-cases (leb (available_capacity w) 0)) [
  | inl full ↦ rw (full, run_once) (w, [], refl, refl, omega arith, room)
  | inr free ↦
      let (v, out, e, emits, most) =
        handle_partitions_lem g (assignment_for g w.member_id) (available_capacity w) w takes
          (IsPlaced-Homed md5 g w.log placed)
          (All-mono (λ p. p < num_partitions w.log) (Inside g w.log.partitions) _
            (λ p h. get_elem?-lt w.log.partitions p h) inside)
          (available_room g w room) in
      rw (free, run_once, e)
        (
          v,
          out,
          refl,
          emits.queue,
          le_trans most (capacity_le_batch g w),
          HasRoom-after 0 takes emits (
              HasRoom-less (available_capacity w) (length out + 0) w (omega arith)
                (available_room g w room)),
        )
]
