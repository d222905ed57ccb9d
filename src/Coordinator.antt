-- ===== src/Coordinator.antt =====
-- coordinator/coordinator.py and coordinator/fraud_runtime.py: the log, the group and the output
-- queue that the fraud workers share, and the runtime of each worker. A turn of a worker's thread
-- is one step, and so is a turn of the health thread; what the submitter and the cluster do stands
-- in Settlement/Submitter and Raft/Leaders.
pub mod Silence
pub mod Failover
use distributed_transaction.Prelude.{
  ℕ, zero, suc, ◌+◌, string_eq, String, Bool, true, false, Option, none, some, List, [], ◌∷◌, leb,
  Dict, get, put, if◌then◌else◌, Result, ok, raise, ◌>>=◌, map_error, bind-eq-ok,
}
use distributed_transaction.Models.{Transaction, partition_key, ScoredTransaction}
use distributed_transaction.Streaming.Partitioner.{StreamError}
use distributed_transaction.Streaming.Broker.{LogRecord, PartitionedLog, produce}
use distributed_transaction.Streaming.Group.{ConsumerGroup, join, heartbeat, check_expired_members}
use distributed_transaction.Fraud.Scorer.{Scorer, ScorerConfig}
use distributed_transaction.Fraud.Worker.{Worker, WorkerError, log_error, run_once}

-- a `FraudWorkerRuntime` with its worker; `last_heartbeat` is the variable of `_run`
pub record FraudWorkerRuntime : Type 0 where
  pub scorer : Scorer
  pub scores_made : ℕ
  pub running : Bool
  pub last_heartbeat : ℕ

pub record Coordinator : Type 0 where
  pub log : PartitionedLog Transaction
  pub group : ConsumerGroup
  pub output_queue : List ScoredTransaction
  pub fraud_runtimes : Dict String FraudWorkerRuntime

-- what does not change: the scorers' configuration, the bounds of the queue and of a batch, the
-- interval of the heartbeats, the clock's reading for a worker's scores, what the other threads make
-- of the queue before each of them is put there, and MD5
pub record CoordinatorConfig : Type 0 where
  pub scorer_config : ScorerConfig
  pub maxsize : ℕ
  pub max_batch : ℕ
  pub heartbeat_interval : ℕ
  pub clock : String → ℕ → ℕ
  pub others : String → ℕ → List ScoredTransaction → List ScoredTransaction
  pub md5 : String → List ℕ

pub data CoordinatorError : Type 0 where
  unknown_worker : CoordinatorError
  stream_error : StreamError → CoordinatorError
  worker_error : WorkerError → CoordinatorError

-- the runtime of `self.fraud_runtimes[member_id]`
abbrev pub runtime_of : String → Coordinator → Result CoordinatorError FraudWorkerRuntime
runtime_of member_id c = elim (get member_id c.fraud_runtimes) [
  | none ↦ raise unknown_worker
  | some r ↦ ok r
]

abbrev pub set_runtime : String → FraudWorkerRuntime → Coordinator → Coordinator
set_runtime member_id r c = record c { fraud_runtimes = put member_id r c.fraud_runtimes }

module _ (cfg : CoordinatorConfig) where
  unfoldable pub submit_transaction :
      Transaction → ℕ → Coordinator → Result CoordinatorError Coordinator
  submit_transaction t now c = do
    r ← map_error stream_error (produce cfg.md5 c.log (partition_key t) t now)
    ok (record c { log = r.0 })

  -- `_spawn_fraud_worker`
  abbrev pub spawn_fraud_worker : String → Coordinator → Coordinator
  spawn_fraud_worker member_id = set_runtime member_id (record {
    scorer = record { worker_id = member_id; config = cfg.scorer_config; recent_by_account = [] };
    scores_made = 0;
    running = false;
    last_heartbeat = 0;
  })

  -- `FraudWorkerRuntime.start`
  unfoldable pub start_worker : String → ℕ → Coordinator → Result CoordinatorError Coordinator
  start_worker member_id now c = do
    r ← runtime_of member_id c
    ok (
        set_runtime member_id (record r { running = true; last_heartbeat = 0 })
          (record c { group = (join member_id now c.group).0 }))

  -- `FraudWorkerRuntime.stop`: the worker does not leave the group
  unfoldable pub kill_fraud_worker : String → Coordinator → Result CoordinatorError Coordinator
  kill_fraud_worker member_id c = do
    r ← runtime_of member_id c
    ok (set_runtime member_id (record r { running = false }) c)

  unfoldable pub revive_fraud_worker :
      String → ℕ → Coordinator → Result CoordinatorError Coordinator
  revive_fraud_worker member_id now c = start_worker member_id now (spawn_fraud_worker member_id c)

  -- the body of `_health_loop`
  unfoldable pub check_health : ℕ → Coordinator → Coordinator
  check_health now c = record c { group = (check_expired_members now c.group).0 }

  -- the heartbeat of `_run`, where it is due
  abbrev pub beat :
      String
      → ℕ
      → FraudWorkerRuntime
      → ConsumerGroup
      → Result CoordinatorError (FraudWorkerRuntime × ConsumerGroup)
  beat member_id now r g =
      if leb (r.last_heartbeat + cfg.heartbeat_interval) now
      then (do
        g' ← map_error stream_error (heartbeat member_id now g)
        ok (record r { last_heartbeat = now }, g'))
      else ok (r, g)

  -- the worker of a runtime, with what it shares
  abbrev pub worker_of : String → FraudWorkerRuntime → Coordinator → Worker
  worker_of member_id r c = record {
    member_id = member_id;
    max_batch = cfg.max_batch;
    maxsize = cfg.maxsize;
    clock = cfg.clock member_id;
    others = cfg.others member_id;
    scores_made = r.scores_made;
    log = c.log;
    scorer = r.scorer;
    output_queue = c.output_queue;
  }

  -- the rest of the body of `_run`
  unfoldable pub work :
      String → FraudWorkerRuntime → Coordinator → Result CoordinatorError Coordinator
  work member_id r c = do
    cycle ← map_error worker_error (run_once c.group (worker_of member_id r c))
    let w : Worker = cycle.0
    ok (
        set_runtime member_id (record r { scorer = w.scorer; scores_made = w.scores_made })
          (record c { log = w.log; output_queue = w.output_queue }))

  -- the body of the loop of `FraudWorkerRuntime._run`: a heartbeat that raises ends the thread
  unfoldable pub run_worker :
      String → ℕ → FraudWorkerRuntime → Coordinator → Result CoordinatorError Coordinator
  run_worker member_id now r c = elim (beat member_id now r c.group) [
    | raise _ ↦ ok (set_runtime member_id (record r { running = false }) c)
    | ok beaten ↦ work member_id beaten.0 (record c { group = beaten.1 })
  ]

  -- a turn of the thread of a worker, where it runs
  unfoldable pub turn : String → ℕ → Coordinator → Result CoordinatorError Coordinator
  turn member_id now c = elim (get member_id c.fraud_runtimes) [
    | none ↦ ok c
    | some r ↦ if r.running then run_worker member_id now r c else ok c
  ]

-- a call of the coordinator, or a turn of one of its threads
pub data CoordinatorCall : Type 0 where
  submits : Transaction → ℕ → CoordinatorCall
  turns : String → ℕ → CoordinatorCall
  checks : ℕ → CoordinatorCall
  kills : String → CoordinatorCall
  revives : String → ℕ → CoordinatorCall

abbrev pub make_call :
    CoordinatorConfig → CoordinatorCall → Coordinator → Result CoordinatorError Coordinator
make_call cfg (submits t now) c = submit_transaction cfg t now c
make_call cfg (turns v now) c = turn cfg v now c
make_call cfg (checks now) c = ok (check_health cfg now c)
make_call cfg (kills v) c = kill_fraud_worker cfg v c
make_call cfg (revives v now) c = revive_fraud_worker cfg v now c

unfoldable pub make_calls :
    CoordinatorConfig → List CoordinatorCall → Coordinator → Result CoordinatorError Coordinator
make_calls cfg [] c = ok c
make_calls cfg (call ∷ calls) c = do c' ← make_call cfg call c; make_calls cfg calls c'
