-- ===== src/Streaming/Broker/Order.antt =====
-- Where records stand in the log, and what a group reads after it has committed.
use distributed_transaction.Prelude.{
  ℕ, zero, suc, max, ◌≡◌, refl, false, sym, ap, nat_eq, string_eq, pair_eq, String, some, List, [],
  ◌∷◌, ◌++◌, inl, inr, arith, length, if◌then◌else◌, ◌==◌, get_elem?, get_elem?-set,
  get_elem?-set_self, get_elem?-snoc, length-set, drop-length, take, set, Dict, get_default,
  get_default-put, put, Bool-cases, ok, bind-eq-ok,
}
use distributed_transaction.Streaming.Partitioner.{key_to_partition}
use distributed_transaction.Streaming.Broker.{
  LogRecord, PartitionedLog, num_partitions, records_of, append, read, commit_offset,
  committed_offset, produce,
}

pub records_of-eq-ok :
    {V : Type 0} (log : PartitionedLog V) (p : ℕ) {rs : List (LogRecord V)}
    → records_of log p ≡ ok rs
    → get_elem? log.partitions p ≡ some rs
unfolding records_of
records_of-eq-ok log p h = ground arith

pub records_of_at :
    {V : Type 0} (log : PartitionedLog V) (p : ℕ) {rs : List (LogRecord V)}
    → get_elem? log.partitions p ≡ some rs
    → records_of log p ≡ ok rs
unfolding records_of
records_of_at log p h = rw (h, records_of)

-- Every record carries its partition and its place there, and its key belongs to the partition.
pub record IsPlaced {V : Type 0} (md5 : String → List ℕ) (log : PartitionedLog V) : Type 0 where
  pub at :
      (p i : ℕ) (rs : List (LogRecord V)) (r : LogRecord V)
      → get_elem? log.partitions p ≡ some rs
      → get_elem? rs i ≡ some r
      → (r.partition ≡ p)
        × (r.offset ≡ i)
        × (key_to_partition md5 r.key (num_partitions log) ≡ ok p)

module _ {V : Type 0} (log : PartitionedLog V) where
  abbrev added : ℕ → List (LogRecord V) → String → V → ℕ → LogRecord V
  added p rs key value now = record {
    partition = p;
    offset = length rs;
    key = key;
    value = value;
    produced_at = now;
  }

  -- What `append` does where it returns.
  pub append_lem :
      (p : ℕ) (key : String) (value : V) (now : ℕ) {r : PartitionedLog V × LogRecord V}
      → append log p key value now ≡ ok r
      → (rs : List (LogRecord V)) × (get_elem? log.partitions p ≡ some rs)
        × (r ≡ (
          record log { partitions = set log.partitions p (rs ++ added p rs key value now ∷ []) },
          added p rs key value now,
        ))
  unfolding append
  append_lem p key value now {r} h =
      let (rs, found, rest) = bind-eq-ok (records_of log p) _ h in
      (rs, records_of-eq-ok log p found, ground arith)

  append-IsPlaced :
      (md5 : String → List ℕ) (p : ℕ) (key : String) (value : V) (now : ℕ) (rs : List (LogRecord V))
      → IsPlaced md5 log
      → key_to_partition md5 key (num_partitions log) ≡ ok p
      → get_elem? log.partitions p ≡ some rs
      → IsPlaced md5
          (record log { partitions = set log.partitions p (rs ++ added p rs key value now ∷ []) })
  append-IsPlaced md5 p key value now rs placed home found = record {
    at = λ q i qs r fq fr.
        rw (length-set log.partitions p (rs ++ added p rs key value now ∷ []))
          (elim (get_elem?-set log.partitions p q _ qs found fq) [
            | inr (other, old) ↦ placed.at q i qs r old fr
            | inl (same, e) ↦ elim (get_elem?-snoc rs (added p rs key value now) r i (rw e at fr)) [
              | inl (last, new) ↦ rw new (same, sym last, rw (← same) home)
              | inr old ↦ rw (← same) (placed.at p i rs r found old)
            ]
          ]);
  }

-- the log and the record that an append to a partition leaves
abbrev with_record :
    {V : Type 0} → PartitionedLog V → ℕ → List (LogRecord V) → LogRecord V → PartitionedLog V
with_record log p rs r = record log { partitions = set log.partitions p (rs ++ r ∷ []) }

read_added :
    {V : Type 0} (log : PartitionedLog V) (p : ℕ) (rs : List (LogRecord V)) (r : LogRecord V)
    → get_elem? log.partitions p ≡ some rs
    → read (with_record log p rs r) p (length rs) 1 ≡ ok (r ∷ [])
unfolding read
read_added log p rs r found =
    rw
      (records_of_at (with_record log p rs r) p
        (get_elem?-set_self log.partitions p (rs ++ r ∷ []) found))
      (ap (λ (x : List (LogRecord _)). ok (take 1 x)) (drop-length rs (r ∷ [])))

-- the record is the last one of its partition, after those that it had, and no other has changed
abbrev pub Grown : {V : Type 0} → PartitionedLog V → PartitionedLog V → LogRecord V → Type 0
Grown log log' r =
    ((rs : List (LogRecord _)) × (records_of log r.partition ≡ ok rs)
      × (records_of log' r.partition ≡ ok (rs ++ r ∷ [])))
    × ((q : ℕ) → (r.partition == q) ≡ false → records_of log' q ≡ records_of log q)

-- what is produced
abbrev pub IsEvent : {V : Type 0} → String → V → ℕ → LogRecord V → Type 0
IsEvent key value now r = (r.key ≡ key) × (r.value ≡ value) × (r.produced_at ≡ now)

pub get_elem?-set_other :
    {A : Type 0} (xs : List A) (i j : ℕ) (v : A)
    → (i == j) ≡ false
    → get_elem? (set xs i v) j ≡ get_elem? xs j
get_elem?-set_other [] i j v h = refl
get_elem?-set_other (x ∷ xs) zero zero v h = cc
get_elem?-set_other (x ∷ xs) zero (suc j) v h = refl
get_elem?-set_other (x ∷ xs) (suc i) zero v h = refl
get_elem?-set_other (x ∷ xs) (suc i) (suc j) v h = get_elem?-set_other xs i j v (ground arith)

with_record-Grown :
    {V : Type 0} (log : PartitionedLog V) (rs : List (LogRecord V)) (r : LogRecord V)
    → get_elem? log.partitions r.partition ≡ some rs
    → Grown log (with_record log r.partition rs r) r
unfolding records_of
with_record-Grown log rs r found =
    let log' = with_record log r.partition rs r in
    let here = get_elem?-set_self log.partitions r.partition (rs ++ r ∷ []) found in
    (
      (rs, records_of_at log r.partition found, records_of_at log' r.partition here),
      λ q other.
          rw (get_elem?-set_other log.partitions r.partition q (rs ++ r ∷ []) other, records_of)
            refl,
    )

-- A producer keeps every record at the partition of its key and at the place that its offset says.
-- It adds one record to the end of the key's partition, with the key, the value and the time, keeps
-- all that the partition had and the records of every other partition, and the new record is
-- readable at its offset.
pub produce-IsPlaced :
    {V : Type 0} (md5 : String → List ℕ) (log : PartitionedLog V) (key : String) (value : V)
    (now : ℕ) (r : PartitionedLog V × LogRecord V)
    → IsPlaced md5 log
    → produce md5 log key value now ≡ ok r
    → IsPlaced md5 r.0
      × Grown log r.0 r.1
      × IsEvent key value now r.1
      × (read r.0 r.1.partition r.1.offset 1 ≡ ok (r.1 ∷ []))
unfolding produce
produce-IsPlaced md5 log key value now r placed h =
    let (p, home, appended) = bind-eq-ok (key_to_partition md5 key (num_partitions log)) _ h in
    let (rs, found, e) = append_lem log p key value now appended in
    rw e (
      append-IsPlaced log md5 p key value now rs placed home found,
      with_record-Grown log rs (added log p rs key value now) found,
      (refl, refl, refl),
      read_added log p rs (added log p rs key value now) found,
    )

-- What `commit_offset` and `committed_offset` do where they return.
pub commit_offset_lem :
    {V : Type 0} (log : PartitionedLog V) (group : String) (p offset : ℕ) {log' : PartitionedLog V}
    → commit_offset log group p offset ≡ ok log'
    → log' ≡ record log {
      committed_offsets =
          put
            (group, p)
            (max (get_default (group, p) 0 log.committed_offsets) offset)
            log.committed_offsets;
    }
unfolding commit_offset
commit_offset_lem log group p offset h =
    let (rs, found, rest) = bind-eq-ok (records_of log p) _ h in ground arith

pub committed_offset_lem :
    {V : Type 0} (log : PartitionedLog V) (group : String) (p : ℕ) {n : ℕ}
    → committed_offset log group p ≡ ok n
    → (rs : List (LogRecord V)) × (get_elem? log.partitions p ≡ some rs)
      × (n ≡ get_default (group, p) 0 log.committed_offsets)
unfolding committed_offset
committed_offset_lem log group p h =
    let (rs, found, rest) = bind-eq-ok (records_of log p) _ h in
    (rs, records_of-eq-ok log p found, ground arith)

pub committed_offset_at :
    {V : Type 0} (log : PartitionedLog V) (group : String) (p : ℕ) {rs : List (LogRecord V)}
    → get_elem? log.partitions p ≡ some rs
    → committed_offset log group p ≡ ok (get_default (group, p) 0 log.committed_offsets)
unfolding committed_offset
committed_offset_at log group p h = rw (records_of_at log p h)

-- where the keys are the same, so is the entry
if_same :
    (a b : String × ℕ) (d : Dict (String × ℕ) ℕ) (offset : ℕ)
    → (if a == b then max (get_default a 0 d) offset else get_default b 0 d)
      ≡ (if a == b then max (get_default b 0 d) offset else get_default b 0 d)
if_same a b d offset = elim (Bool-cases (a == b)) [
  | inl same ↦ rw (same, ((pair_eq {J = String} {K = ℕ}).same_iff a b).0 same)
  | inr other ↦ rw other
]

-- After a group has committed an offset of a partition, its progress there is the greater of that
-- offset and of its progress before, and the progress at every other group and partition is what
-- it was.
pub committed_offset-commit_offset :
    {V : Type 0} (log log' : PartitionedLog V) (group group' : String) (p p' offset before : ℕ)
    → committed_offset log group' p' ≡ ok before
    → commit_offset log group p offset ≡ ok log'
    → committed_offset log' group' p'
      ≡ ok (if ◌==◌ {K = String × ℕ} (group, p) (group', p') then max before offset else before)
committed_offset-commit_offset log log' group group' p p' offset before h c =
    let (rs, found, old) = committed_offset_lem log group' p' h in
    let done = get_default (group, p) 0 log.committed_offsets in
    let e = commit_offset_lem log group p offset c in
    rw
      (
        e,
        committed_offset_at
            (record log {
              committed_offsets = put (group, p) (max done offset) log.committed_offsets;
            })
            group' p' found,
        get_default-put {K = String × ℕ} (group, p) (group', p') 0 (max done offset)
            log.committed_offsets,
        old,
      )
      (ap ok (if_same (group, p) (group', p') log.committed_offsets offset))
