-- ===== src/Streaming/Broker/Keys.antt =====
-- The records of one key: where a producer puts them, and in which order.
use distributed_transaction.Prelude.{
  ℕ, ◌≤◌, ◌<◌, ◌≡◌, refl, sym, ap, ◌∙◌, nat_eq, ◌==◌, String, Option, some, List, [], ◌∷◌, ◌++◌,
  arith, length, length-append, get_elem?, get_elem?-set_self, length-set, set, Result, ok,
  ok-injective, bind-eq-ok, ◌>>=◌, Bool-cases, inl, inr,
}
use distributed_transaction.Streaming.Partitioner.{StreamError, key_to_partition}
use distributed_transaction.Streaming.Broker.{LogRecord, PartitionedLog, num_partitions, produce}
use distributed_transaction.Streaming.Broker.Order.{append_lem, get_elem?-set_other}

module _ {V : Type 0} where
  -- one call of a producer after the other, each with a key, a value and a time
  abbrev pub produce_all :
      (String → List ℕ)
      → PartitionedLog V
      → List (String × V × ℕ)
      → Result StreamError (PartitionedLog V)
  produce_all md5 log [] = ok log
  produce_all md5 log ((key, value, now) ∷ events) = do
    r ← produce md5 log key value now
    produce_all md5 r.0 events

  -- the partitions are as many, and none of them is shorter
  record Extends (log log' : PartitionedLog V) : Type 0 where
    pub same_number : num_partitions log' ≡ num_partitions log
    pub longer :
        (q : ℕ) (qs : List (LogRecord V))
        → get_elem? log.partitions q ≡ some qs
        → (qs' : List (LogRecord V)) × (get_elem? log'.partitions q ≡ some qs')
          × (length qs ≤ length qs')

  Extends-refl : (log : PartitionedLog V) → Extends log log
  Extends-refl log = record { same_number = refl; longer = λ q qs e. (qs, e, omega arith) }

  Extends-trans :
      {log log' log'' : PartitionedLog V}
      → Extends log log'
      → Extends log' log''
      → Extends log log''
  Extends-trans a b = record {
    same_number = b.same_number ∙ a.same_number;
    longer = λ q qs e.
        let (rs, found, le) = a.longer q qs e in
        let (ss, found', le') = b.longer q rs found in (ss, found', omega arith);
  }

  -- What a call of a producer does: the record stands at the end of its key's partition.
  record Produced (md5 : String → List ℕ) (log : PartitionedLog V) (key : String)
      (r : PartitionedLog V × LogRecord V) : Type 0 where
    pub home : key_to_partition md5 key (num_partitions log) ≡ ok r.1.partition
    pub before : List (LogRecord V)
    pub found : get_elem? log.partitions r.1.partition ≡ some before
    pub place : r.1.offset ≡ length before
    pub log_after : r.0.partitions ≡ set log.partitions r.1.partition (before ++ r.1 ∷ [])

  produce-Produced :
      (md5 : String → List ℕ) (log : PartitionedLog V) (key : String) (value : V) (now : ℕ)
      (r : PartitionedLog V × LogRecord V)
      → produce md5 log key value now ≡ ok r
      → Produced md5 log key r
  unfolding produce
  produce-Produced md5 log key value now r h =
      let (p, home, appended) = bind-eq-ok (key_to_partition md5 key (num_partitions log)) _ h in
      let (rs, found, e) = append_lem log p key value now appended in
      rw e (record { home = home; before = rs; found = found; place = refl; log_after = refl })

  same_list :
      {x y : List (LogRecord V)} → ◌≡◌ {A = Option (List (LogRecord V))} (some x) (some y) → x ≡ y
  same_list h = cc

  longer_by_one : (xs : List (LogRecord V)) (x : LogRecord V) → length xs ≤ length (xs ++ x ∷ [])
  longer_by_one xs x = omega (arith, length-append xs (x ∷ []))

  Extends-Produced :
      (md5 : String → List ℕ) (log : PartitionedLog V) (key : String)
      (r : PartitionedLog V × LogRecord V)
      → Produced md5 log key r
      → Extends log r.0
  Extends-Produced md5 log key r a =
      let p = r.1.partition in
      let rs = a.before ++ r.1 ∷ [] in
      record {
        same_number =
            ap (λ (x : List (List (LogRecord V))). length x) a.log_after
            ∙ length-set log.partitions p rs;
        longer = λ q qs e. rw a.log_after (elim (Bool-cases (p == q)) [
          | inl same ↦
              let at : p ≡ q = (nat_eq.same_iff p q).0 same in
              let old : qs ≡ a.before = same_list (sym (rw (← at) at e) ∙ a.found) in
              (
                rs,
                rw (← at) (get_elem?-set_self log.partitions p rs a.found),
                rw old (longer_by_one a.before r.1),
              )
          | inr other ↦ (qs, get_elem?-set_other log.partitions p q rs other ∙ e, omega arith)
        ]);
      }

  produce_all-Extends :
      (md5 : String → List ℕ) (events : List (String × V × ℕ)) (log log' : PartitionedLog V)
      → produce_all md5 log events ≡ ok log'
      → Extends log log'
  produce_all-Extends md5 [] log log' h = rw (ok-injective h) (Extends-refl log')
  produce_all-Extends md5 ((key, value, now) ∷ events) log log' h =
      let (r, first, rest) = bind-eq-ok (produce md5 log key value now) _ h in
      Extends-trans
        (Extends-Produced md5 log key r (produce-Produced md5 log key value now r first))
        (produce_all-Extends md5 events r.0 log' rest)

  -- Two records of one key, produced one after the other with whatever other records in between,
  -- are in one partition, and the later one has the greater offset.
  pub same_key_ordered :
      (md5 : String → List ℕ) (log log' : PartitionedLog V) (key : String) (value value' : V)
      (now now' : ℕ) (events : List (String × V × ℕ)) (r r' : PartitionedLog V × LogRecord V)
      → produce md5 log key value now ≡ ok r
      → produce_all md5 r.0 events ≡ ok log'
      → produce md5 log' key value' now' ≡ ok r'
      → (r'.1.partition ≡ r.1.partition) × (r.1.offset < r'.1.offset)
  same_key_ordered md5 log log' key value value' now now' events r r' first between second =
      let a = produce-Produced md5 log key value now r first in
      let b = produce-Produced md5 log' key value' now' r' second in
      let more = produce_all-Extends md5 events r.0 log' between in
      let sent = Extends-Produced md5 log key r a in
      let number = more.same_number ∙ sent.same_number in
      let one : r'.1.partition ≡ r.1.partition =
        ok-injective (sym b.home ∙ ap (λ (n : ℕ). key_to_partition md5 key n) number ∙ a.home) in
      let here : get_elem? r.0.partitions r.1.partition ≡ some (a.before ++ r.1 ∷ []) =
        rw a.log_after (get_elem?-set_self log.partitions r.1.partition _ a.found) in
      let (rs, found, le) = more.longer r.1.partition _ here in
      let same : b.before ≡ rs = same_list (sym b.found ∙ rw one found) in
      (one, rw (a.place, b.place, same) (omega (arith, length-append a.before (r.1 ∷ []))))
