-- ===== src/Coordinator/Failover.antt =====
-- A worker that is killed makes no heartbeat, is evicted, and its partitions go to the others.
use distributed_transaction.Prelude.{
  ℕ, ◌+◌, ◌≤◌, ◌<◌, ◌≡◌, refl, sym, ◌∙◌, string_eq, eq_iff, String, false, none, some, List, length,
  leb, Dict, get, has, ok, ok-injective, bind-eq-ok, Option-cases, inl, inr, arith, All,
}
use distributed_transaction.Streaming.Group.{ConsumerGroup, MemberState, check_expired_members}
use distributed_transaction.Streaming.Group.Failover.{
  IsBalanced, OneOwner, balanced-OneOwner, check-IsBalanced,
}
use distributed_transaction.Streaming.Group.Expiry.{survivor, check-survivor}
use distributed_transaction.Coordinator.{
  Coordinator, CoordinatorConfig, FraudWorkerRuntime, runtime_of, kill_fraud_worker, check_health,
  CoordinatorCall, make_calls,
}
use distributed_transaction.Coordinator.Silence.{
  some_one, get_own, Unheard, Silent, Spares, Silent-calls,
}

no_member : (v : String) (d : Dict String MemberState) → get v d ≡ none → has v d ≡ false
no_member v d h = ground (arith, h)

module _ (cfg : CoordinatorConfig) (v : String) (h : ℕ) where
  start-Silent :
      (c c' : Coordinator)
      → kill_fraud_worker cfg v c ≡ ok c'
      → Unheard cfg v h c.group
      → Silent cfg v h c'
  unfolding kill_fraud_worker
  start-Silent c c' e q =
      let (r, found, done) = bind-eq-ok (runtime_of v c) _ e in
      let ended : FraudWorkerRuntime = record r { running = false } in
      rw (← ok-injective done) (record {
        group = q;
        stopped = λ x own.
            rw (← some_one (sym (get_own v v ended c.fraud_runtimes ((eq_iff v v).1 refl)) ∙ own))
              refl;
      })

  gone :
      (now : ℕ) (g : ConsumerGroup)
      → Unheard cfg v h g
      → h + g.session_timeout_seconds < now
      → survivor g now v ≡ none
  gone now g q late = elim (Option-cases (get v g.members)) [
    | inl missing ↦ rw (missing, survivor) refl
    | inr (s, found) ↦
        rw
          (
            found,
            survivor,
            too_late (s.last_heartbeat) g.session_timeout_seconds now (q.last s found) late,
          )
          refl
  ]
    where
      too_late : (a t now : ℕ) → a ≤ h → h + t < now → leb now (a + t) ≡ false
      too_late a t now x y = ground arith

-- Once a worker is killed, and as long as it is not revived, whatever is submitted, killed or revived
-- besides, however the other threads take their turns and however often the health check runs: the
-- first health check later than the session timeout after the last heartbeat of that worker finds
-- or has found it gone. It is then no member, and where there is one, each partition is owned by
-- exactly one of the members that are left. The group's table is in order when it is killed.
pub killed_worker_evicted :
    (cfg : CoordinatorConfig) (v : String) (h now : ℕ) (c c1 c2 : Coordinator)
    (calls : List CoordinatorCall)
    → IsBalanced c.group
    → ((s : MemberState) → get v c.group.members ≡ some s → s.last_heartbeat ≤ h)
    → kill_fraud_worker cfg v c ≡ ok c1
    → All (Spares cfg v h) calls
    → make_calls cfg calls c1 ≡ ok c2
    → h + c2.group.session_timeout_seconds < now
    → let after = (check_health cfg now c2).group in
      (has v after.members ≡ false)
      × ((p : ℕ) → 0 < length after.members → p < after.num_partitions → OneOwner after p)
unfolding check_health
killed_worker_evicted cfg v h now c c1 c2 calls balanced last killed spared made late =
    let s1 = start-Silent cfg v h c c1 killed (record { balanced = balanced; last = last }) in
    let s2 = Silent-calls cfg v h calls c1 c2 spared made s1 in
    (
      no_member v (check_expired_members now c2.group).0.members (
          check-survivor c2.group now v s2.group.balanced
          ∙ gone cfg v h now c2.group s2.group late),
      λ p some_member inside.
          balanced-OneOwner (check_expired_members now c2.group).0 p
            (check-IsBalanced now c2.group s2.group.balanced) some_member inside,
    )
