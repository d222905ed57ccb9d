-- ===== src/Tests/Workers.antt =====
-- A coordinator with two workers, one of which is killed.
use distributed_transaction.Prelude.{
  ℕ, ◌≡◌, ◌≤◌, ◌<◌, refl, String, string_eq, List, [], ◌∷◌, true, false, some, has, get, length,
  arith, Result, ok, raise, replicate,
}
use distributed_transaction.Fraud.Scorer.{default_config}
use distributed_transaction.Streaming.Group.{
  MemberState, join, heartbeat, rebalance, check_expired_members,
}
use distributed_transaction.Streaming.Group.Failover.{
  OneOwner, make_all, make_all-IsBalanced, new_group-IsBalanced,
}
use distributed_transaction.Coordinator.{
  Coordinator, CoordinatorConfig, CoordinatorError, FraudWorkerRuntime, kill_fraud_worker,
  revive_fraud_worker, start_worker, check_health, turn, CoordinatorCall, turns, checks, revives,
  make_calls,
}
use distributed_transaction.Coordinator.Failover.{killed_worker_evicted}
use distributed_transaction.Tests.Groups.{fresh, calls}

abbrev config : CoordinatorConfig
config = record {
  scorer_config = default_config 100;
  maxsize = 1000;
  max_batch = 50;
  heartbeat_interval = 2;
  clock = λ member_id k. k;
  others = λ member_id k q. q;
  md5 = λ key. 0 ∷ [];
}

abbrev runtime : String → FraudWorkerRuntime
runtime member_id = record {
  scorer = record { worker_id = member_id; config = default_config 100; recent_by_account = [] };
  scores_made = 0;
  running = true;
  last_heartbeat = 9;
}

-- `w1` was heard of at 0 and `w2` at 9
abbrev started : Coordinator
started = record {
  log = record { topic = "transactions"; partitions = replicate 3 []; committed_offsets = [] };
  group = make_all calls fresh;
  output_queue = [];
  fraud_runtimes = ("w1", runtime "w1") ∷ ("w2", runtime "w2") ∷ [];
}

abbrev or_else : Coordinator → Result CoordinatorError Coordinator → Coordinator
or_else c (raise _) = c
or_else c (ok c') = c'

unfoldable killed : Coordinator
killed = or_else started (kill_fraud_worker config "w1" started)

abbrev later : List CoordinatorCall
later = turns "w1" 9 ∷ checks 10 ∷ revives "w2" 10 ∷ []

unfoldable left : Coordinator
left = or_else killed (make_calls config later killed)

in_time :
    (s : MemberState) → get "w1" (make_all calls fresh).members ≡ some s → s.last_heartbeat ≤ 0
unfolding join heartbeat rebalance
in_time s h = ground (arith, h)

killed_worker_evicted_example :
    let after = (check_health config 11 left).group in
    (has "w1" after.members ≡ false)
    × ((p : ℕ) → 0 < length after.members → p < after.num_partitions → OneOwner after p)
unfolding killed left kill_fraud_worker make_calls turn check_health revive_fraud_worker
    start_worker join heartbeat rebalance check_expired_members
killed_worker_evicted_example =
    killed_worker_evicted config "w1" 0 11 started killed left later
      (make_all-IsBalanced calls fresh (new_group-IsBalanced "scorers" 3 10 fresh refl)) in_time
      refl (tt, (tt, (refl, tt))) refl (omega arith)
