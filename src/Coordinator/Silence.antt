-- ===== src/Coordinator/Silence.antt =====
-- What goes on while a worker's thread has ended: the group does not hear of it.
use distributed_transaction.Prelude.{
  ℕ, ◌+◌, ◌≤◌, ◌≡◌, refl, sym, ◌∙◌, string_eq, eq_iff, ◌==◌, String, Bool, true, false, Option,
  none, some, List, [], ◌∷◌, leb, Dict, get, put, get-put, if◌then◌else◌, Result, ok, raise,
  ok-injective, map_error, bind-eq-ok, Bool-cases, Option-cases, inl, inr, ◌⊎◌, arith, All,
}
use distributed_transaction.Models.{Transaction, partition_key}
use distributed_transaction.Streaming.Partitioner.{StreamError}
use distributed_transaction.Streaming.Broker.{produce}
use distributed_transaction.Streaming.Group.{
  ConsumerGroup, MemberState, rebalance, join, heartbeat, check_expired_members,
}
use distributed_transaction.Streaming.Group.Failover.{
  joins, beats, IsBalanced, make, make-IsBalanced, check-IsBalanced,
}
use distributed_transaction.Streaming.Group.Expiry.{survivor, check-survivor}
use distributed_transaction.Fraud.Worker.{run_once}
use distributed_transaction.Coordinator.{
  Coordinator, CoordinatorConfig, FraudWorkerRuntime, runtime_of, submit_transaction,
  spawn_fraud_worker, start_worker, kill_fraud_worker, revive_fraud_worker, check_health, beat,
  worker_of, work, run_worker, turn, CoordinatorCall, submits, turns, checks, kills, revives,
  make_call, make_calls,
}

pub some_one : {A : Type 0} {x y : A} → ◌≡◌ {A = Option A} (some x) (some y) → x ≡ y
some_one h = cc

nobody : {A : Type 0} {x : A} → ◌≡◌ {A = Option A} none (some x) → ⊥
nobody h = cc

module _ {V : Type 0} (u v : String) (x : V) (d : Dict String V) where
  pub get_own : (u == v) ≡ true → get v (put u x d) ≡ some x
  get_own h = ground (arith, get-put u v x d)

  get_other : (u == v) ≡ false → get v (put u x d) ≡ get v d
  get_other h = ground (arith, get-put u v x d)

clash : true ≡ false → ⊥
clash h = cc

some_one_ok : {E A : Type 0} {x y : A} → ◌≡◌ {A = Result E A} (ok x) (ok y) → x ≡ y
some_one_ok h = cc

was_ok : {E F A : Type 0} (f : E → F) (r : Result E A) {x : A} → map_error f r ≡ ok x → r ≡ ok x
was_ok f (raise e) h = cc
was_ok f (ok a) h = ground (arith, h)

taken : {A : Type 0} (x y z : A) (b : Bool) → b ≡ true → (if b then x else y) ≡ z → x ≡ z
taken x y z true h e = e
taken x y z false h e = cc

Result-cases : {E A : Type 0} (r : Result E A) → ((e : E) × (r ≡ raise e)) ⊎ ((a : A) × (r ≡ ok a))
Result-cases (raise e) = inl (e, refl)
Result-cases (ok a) = inr (a, refl)

never :
    {g : ConsumerGroup} {e : StreamError}
    → ◌≡◌ {A = Result StreamError ConsumerGroup} (raise e) (ok g)
    → ⊥
never h = cc

module _ (cfg : CoordinatorConfig) (v : String) (h : ℕ) where
  -- the group is in order, and has not heard of the worker after a time
  pub record Unheard (g : ConsumerGroup) : Type 0 where
    pub balanced : IsBalanced g
    pub last : (s : MemberState) → get v g.members ≡ some s → s.last_heartbeat ≤ h

  -- the worker's thread has ended
  abbrev pub Stopped : Dict String FraudWorkerRuntime → Type 0
  Stopped d = (r : FraudWorkerRuntime) → get v d ≡ some r → r.running ≡ false

  pub record Silent (c : Coordinator) : Type 0 where
    pub group : Unheard c.group
    pub stopped : Stopped c.fraud_runtimes

  -- a call that does not revive the worker
  abbrev pub Spares : CoordinatorCall → Type 0
  Spares (revives u now) = (u == v) ≡ false
  Spares _ = Unit

  Stopped-put :
      (u : String) (r : FraudWorkerRuntime) (d : Dict String FraudWorkerRuntime)
      → ((u == v) ≡ true → r.running ≡ false)
      → Stopped d
      → Stopped (put u r d)
  Stopped-put u r d here s x e = elim (Bool-cases (u == v)) [
    | inl same ↦ let one = some_one (sym (get_own u v r d same) ∙ e) in rw (← one) (here same)
    | inr other ↦ s x (sym (get_other u v r d other) ∙ e)
  ]

  -- a write for another member
  last-put :
      (u : String) (s : MemberState) (d : Dict String MemberState)
      → (u == v) ≡ false
      → ((x : MemberState) → get v d ≡ some x → x.last_heartbeat ≤ h)
      → (x : MemberState) → get v (put u s d) ≡ some x
      → x.last_heartbeat ≤ h
  last-put u s d other q x e = q x (sym (get_other u v s d other) ∙ e)

  Unheard-heartbeat :
      (u : String) (now : ℕ) (g g' : ConsumerGroup)
      → (u == v) ≡ false
      → heartbeat u now g ≡ ok g'
      → Unheard g
      → Unheard g'
  unfolding heartbeat
  Unheard-heartbeat u now g g' other e q = elim (Option-cases (get u g.members)) [
    | inl missing ↦ absurd (never (rw (missing, heartbeat) at e))
    | inr (s, found) ↦
        let done = ok-injective (rw (found, heartbeat) at e) in
        let b = rw (found, make, heartbeat) at (make-IsBalanced (beats u now) g q.balanced) in
        rw (← done) (record {
          balanced = b;
          last = last-put u (record s { last_heartbeat = now }) g.members other q.last;
        })
  ]

  Unheard-join :
      (u : String) (now : ℕ) (g : ConsumerGroup)
      → (u == v) ≡ false
      → Unheard g
      → Unheard (join u now g).0
  unfolding join rebalance
  Unheard-join u now g other q = record {
    balanced = make-IsBalanced (joins u now) g q.balanced;
    last = last-put u (record { member_id = u; last_heartbeat = now }) g.members other q.last;
  }

  Unheard-check :
      (now : ℕ) (g : ConsumerGroup) → Unheard g → Unheard (check_expired_members now g).0
  Unheard-check now g q = record {
    balanced = check-IsBalanced now g q.balanced;
    last = λ s e. kept s (sym (check-survivor g now v q.balanced) ∙ e);
  }
    where
      kept : (s : MemberState) → survivor g now v ≡ some s → s.last_heartbeat ≤ h
      kept s e = elim (Option-cases (get v g.members)) [
        | inl missing ↦ absurd (nobody (rw (missing, survivor) at e))
        | inr (x, found) ↦
            elim (Bool-cases (leb now (x.last_heartbeat + g.session_timeout_seconds))) [
              | inl fresh ↦ rw (← some_one (rw (found, fresh, survivor) at e)) (q.last x found)
              | inr late ↦ absurd (nobody (rw (found, late, survivor) at e))
            ]
      ]

  Silent-group :
      (g : ConsumerGroup) (c : Coordinator) → Unheard g → Silent c → Silent (record c { group = g })
  Silent-group g c q s = record { group = q; stopped = s.stopped }

  Silent-work :
      (u : String) (r : FraudWorkerRuntime) (c c' : Coordinator)
      → (u == v) ≡ false
      → work cfg u r c ≡ ok c'
      → Silent c
      → Silent c'
  unfolding work
  Silent-work u r c c' other e s =
      let (cycle, ran, done) =
        bind-eq-ok (map_error _ (run_once c.group (worker_of cfg u r c))) _ e in
      rw (← ok-injective done) (record {
        group = s.group;
        stopped =
            Stopped-put u (record r { scorer = cycle.0.scorer; scores_made = cycle.0.scores_made })
              c.fraud_runtimes (λ same. absurd (clash (sym same ∙ other))) s.stopped;
      })

  Unheard-beat :
      (u : String) (now : ℕ) (r : FraudWorkerRuntime) (g : ConsumerGroup)
      {b : FraudWorkerRuntime × ConsumerGroup}
      → (u == v) ≡ false
      → beat cfg u now r g ≡ ok b
      → Unheard g
      → Unheard b.1
  Unheard-beat u now r g {b} other e q =
      elim (Bool-cases (leb (r.last_heartbeat + cfg.heartbeat_interval) now)) [
        | inr early ↦ rw (← some_one_ok (rw (early, beat) at e)) q
        | inl due ↦
            let (g', beaten, done) =
              bind-eq-ok (map_error _ (heartbeat u now g)) _ (rw (due, beat) at e) in
            rw (← ok-injective done)
              (Unheard-heartbeat u now g g' other (was_ok _ (heartbeat u now g) beaten) q)
      ]

  Silent-run_worker :
      (u : String) (now : ℕ) (r : FraudWorkerRuntime) (c c' : Coordinator)
      → (u == v) ≡ false
      → run_worker cfg u now r c ≡ ok c'
      → Silent c
      → Silent c'
  unfolding run_worker
  Silent-run_worker u now r c c' other e s = elim (Result-cases (beat cfg u now r c.group)) [
    | inl (x, raised) ↦ rw (← ok-injective (rw (raised, run_worker) at e)) (record {
      group = s.group;
      stopped =
          Stopped-put u (record r { running = false }) c.fraud_runtimes (λ same. refl) s.stopped;
    })
    | inr (b, beaten) ↦
        Silent-work u b.0 (record c { group = b.1 }) c' other (rw (beaten, run_worker) at e)
          (Silent-group b.1 c (Unheard-beat u now r c.group other beaten s.group) s)
  ]

  Silent-turn :
      (u : String) (now : ℕ) (c c' : Coordinator) → turn cfg u now c ≡ ok c' → Silent c → Silent c'
  unfolding turn
  Silent-turn u now c c' e s = elim (Option-cases (get u c.fraud_runtimes)) [
    | inl missing ↦ rw (← ok-injective (rw (missing, turn) at e)) s
    | inr (r, found) ↦ elim (Bool-cases r.running) [
      | inr ended ↦ rw (← ok-injective (rw (found, ended, turn) at e)) s
      | inl runs ↦ elim (Bool-cases (u == v)) [
        | inr other ↦
            Silent-run_worker u now r c c' other
              (taken _ _ _ r.running runs (rw (found, turn) at e)) s
        | inl same ↦ absurd (clash (sym runs ∙ s.stopped r (rw ((eq_iff u v).0 same) at found)))
      ]
    ]
  ]

  Silent-kill :
      (u : String) (c c' : Coordinator) → kill_fraud_worker cfg u c ≡ ok c' → Silent c → Silent c'
  unfolding kill_fraud_worker
  Silent-kill u c c' e s =
      let (r, found, done) = bind-eq-ok (runtime_of u c) _ e in
      rw (← ok-injective done) (record {
        group = s.group;
        stopped =
            Stopped-put u (record r { running = false }) c.fraud_runtimes (λ same. refl) s.stopped;
      })

  Silent-revive :
      (u : String) (now : ℕ) (c c' : Coordinator)
      → (u == v) ≡ false
      → revive_fraud_worker cfg u now c ≡ ok c'
      → Silent c
      → Silent c'
  unfolding revive_fraud_worker start_worker
  Silent-revive u now c c' other e s =
      let c1 = spawn_fraud_worker cfg u c in
      let (r, found, done) = bind-eq-ok (runtime_of u c1) _ e in
      rw (← ok-injective done) (record {
        group = Unheard-join u now c.group other s.group;
        stopped =
            Stopped-put u (record r { running = true; last_heartbeat = 0 }) c1.fraud_runtimes
              (λ same. absurd (clash (sym same ∙ other)))
              (Stopped-put u _ c.fraud_runtimes (λ same. refl) s.stopped);
      })

  Silent-submit :
      (t : Transaction) (now : ℕ) (c c' : Coordinator)
      → submit_transaction cfg t now c ≡ ok c'
      → Silent c
      → Silent c'
  unfolding submit_transaction
  Silent-submit t now c c' e s =
      let (r, placed, done) =
        bind-eq-ok (map_error _ (produce cfg.md5 c.log (partition_key t) t now)) _ e in
      rw (← ok-injective done) (record { group = s.group; stopped = s.stopped })

  Silent-call :
      (call : CoordinatorCall) (c c' : Coordinator)
      → Spares call
      → make_call cfg call c ≡ ok c'
      → Silent c
      → Silent c'
  unfolding check_health
  Silent-call (submits t now) c c' spared e s = Silent-submit t now c c' e s
  Silent-call (turns u now) c c' spared e s = Silent-turn u now c c' e s
  Silent-call (checks now) c c' spared e s =
      rw (← ok-injective e)
        (Silent-group (check_expired_members now c.group).0 c (Unheard-check now c.group s.group) s)
  Silent-call (kills u) c c' spared e s = Silent-kill u c c' e s
  Silent-call (revives u now) c c' other e s = Silent-revive u now c c' other e s

  pub Silent-calls :
      (calls : List CoordinatorCall) (c c' : Coordinator)
      → All Spares calls
      → make_calls cfg calls c ≡ ok c'
      → Silent c
      → Silent c'
  unfolding make_calls
  Silent-calls [] c c' spared e s = rw (← ok-injective e) s
  Silent-calls (call ∷ calls) c c' spared e s =
      let (c1, first, rest) = bind-eq-ok (make_call cfg call c) _ e in
      Silent-calls calls c1 c' spared.1 rest (Silent-call call c c1 spared.0 first s)
