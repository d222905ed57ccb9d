-- ===== src/Lib.antt =====
-- Verification of the distributed transaction pipeline.
--
-- Transactions enter a partitioned log under their account's id. Workers of a consumer group read
-- it, score each transaction for fraud and pass it on; cleared transactions become ledger entries
-- that are proposed to a Raft cluster, and every node of the cluster applies the committed entries
-- to its ledger.
--
-- The files, and the code that each is about:
-- - Models: common/models.py
-- - Ledger, with Replay and Funds: settlement/ledger_state_machine.py; `apply` there is `apply`
--   here, and a state machine is its two dictionaries
-- - Raft/Types and Raft/Storage: raft/types.py, raft/storage.py, and the messages of
--   raft/transport.py
-- - Raft/Node, Raft/Handlers (with Voting, Storing, Applying and Committing), Raft/Append and
--   Raft/Driver: raft/node.py; each method keeps its name, without the leading underscore. What a
--   node hands to its transport is listed in its field `sent`.
-- - Raft/Transport: raft/transport.py, `InMemoryTransport`
-- - Raft/Cluster, with Raft/Election and Raft/Matching: coordinator/raft_cluster.py over
--   coordinator/raft_runtime.py and raft/transport.py, as a step relation
-- - Raft/Runtime, with Runs: coordinator/raft_runtime.py, the drivers of a running cluster over
--   `InMemoryTransport`
-- - Raft/Commitment: over the same steps, what each call of a node makes of its log, role, vote,
--   commit index and match indices, with the messages that it sends (Calls, Turns); the logs that
--   leaders have had and nodes have stored (History, Completeness); and what holds of every
--   reachable state over that history (States, Moving, with Standing, Counting and Receiving for
--   the kinds of call)
-- - Raft/Leaders: the client side of coordinator/raft_cluster.py, and chaos/fault_injection.py;
--   between two turns of a loop, and between a search and the use of what it found, the threads
--   may do anything
-- - Streaming/Partitioner, Broker, Group and Consumer: streaming/, the producer with the broker
-- - Fraud/Scorer, with Velocity and Verdict: fraud/scorer.py
-- - Fraud/Worker: fraud/worker.py, its output queue a list with a bound
-- - Settlement/Submitter: settlement/submitter.py, over any behaviour of `RaftCluster.propose`
-- - Remote/Service and Remote/Runs: coordinator/grpc/raft_service.py and
--   coordinator/grpc/raft_transport.py; a call of a handler is a step of the node that answers
-- - Remote/Client and Remote/Proposals: coordinator/grpc/raft_cluster_client.py, over any
--   behaviour of the calls, and before a cluster that goes on by itself before and after each call
--   is served
-- - Remote/Addresses: `parse_address_map` of docker/raft_node_entrypoint.py and
--   docker/coordinator_entrypoint.py
-- - Remote/Serialization: coordinator/grpc/serialization.py, over records for the messages of
--   proto/raft.proto; pickle is two functions
-- - Coordinator: coordinator/coordinator.py and coordinator/fraud_runtime.py, the workers with the
--   log, the group and the queue that they share
-- - Prelude: dictionaries, sets, results that may be an exception, and integers
-- - Tests: the theorems at concrete inputs
--
-- An operation of a class is a function from its arguments and the state to the new state. An
-- exception is a `raise` of `Result`, and a call that raises has no new state. A lock makes the
-- calls of one object follow one another, and a call is one step; so is a worker's cycle, except
-- that what the other threads make of the shared output queue before each of its scores is put
-- there is a parameter. A clock reading is an argument of the call, and a generator of random
-- numbers is a function of the number of draws made.
--
-- Decimal amounts are integers in a fixed smallest unit, and how many of them make a whole unit is
-- an argument of `default_config`; times are natural numbers; fraud scores and weights, floats in
-- the code, are thousandths. A term that may be -1, "no such entry", is an `Option` whose `none`
-- is -1, and so are the infinite times of a new node. The MD5 digest is a parameter. Loops are
-- structural recursion: over the list, over the index counted down, or over the number of rounds
-- left, which `_apply_committed` knows. The loops that wait for a deadline have fuel for one round
-- more than the timeout counts, which is enough where the clock advances from round to round.
--
-- The network may lose, delay, repeat and reorder messages: a delivery takes any message that a
-- node of the cluster has sent, at any time. A node that is killed makes no calls, and one that is
-- revived is a new node over the old storage and state machine. The runs of Raft/Runtime and of
-- the step relation leave out a proposal to a runtime that a revive has replaced, which
-- Raft/Leaders has.
--
-- Not modelled: threads and sleeping, the order in which the coordinator starts and stops its
-- parts, the channels and thread pools of remote calls with their generated code, process start-up
-- and the demo scripts.
pub mod Prelude
pub mod Models
pub mod Ledger
pub mod Settlement
pub mod Raft
pub mod Remote
pub mod Streaming
pub mod Fraud
pub mod Coordinator
pub mod Tests
