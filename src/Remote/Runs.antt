-- ===== src/Remote/Runs.antt =====
-- A cluster of nodes that call one another, as coordinator/grpc/node_bootstrap.py builds it: the
-- driver of a node ticks it, its server answers calls and proposals, and its transport brings the
-- replies in. A call that fails is a message that is lost.
use distributed_transaction.Prelude.{ℕ, ◌≡◌, refl, ◌∙◌, String, false, Option, some, ok}
use distributed_transaction.Raft.Types.{Message}
use distributed_transaction.Raft.Node.{Node}
use distributed_transaction.Raft.Driver.{ticked, received, proposed, tick, step}
use distributed_transaction.Raft.Cluster.{
  ClusterConfig, World, In, update, build_config, IsMember, initial, called, Reachable, built, went,
}
use distributed_transaction.Remote.Serialization.{PbMessage, to_proto, from_proto}
use distributed_transaction.Remote.Service.{
  serve, serve_propose, inject_reply, send_request_and_inject_reply, listed, is_reply,
  receive-serve,
}

module _ {C P S : Type 0} (dumps : C → P) (loads : P → C) (c : ClusterConfig C S) where
  pub data RemoteStep : World C S → World C S → Type 0 where
    driven :
        (w : World C S) (v : String) (now : ℕ)
        → IsMember c v
        → RemoteStep w (update w v (tick (build_config c v) now (w v)))
    asked :
        (w : World C S) (v : String) (command : P) (now : ℕ)
        → IsMember c v
        → RemoteStep w
            (update w v (serve_propose dumps loads (build_config c v) command now (w v)).0)
    served :
        (w : World C S) (caller v : String) (m : Message C) (now : ℕ)
        (r : Node C S × Option (PbMessage P))
        → IsMember c caller
        → IsMember c v
        → In (record { sender_id = caller; recipient_id = v; message = m }) (w caller).sent
        → is_reply m ≡ false
        → serve dumps loads (build_config c v) (to_proto dumps loads m) now (w v) ≡ ok r
        → RemoteStep w (update w v (listed dumps loads (build_config c v) caller r))
    injected :
        (w : World C S) (caller v : String) (m : Message C)
        (stub : PbMessage P → Option (PbMessage P)) (reply : PbMessage P) (now : ℕ) (n : Node C S)
        → IsMember c caller
        → IsMember c v
        → stub (to_proto dumps loads m) ≡ some reply
        → In
            (record {
              sender_id = v;
              recipient_id = caller;
              message = from_proto dumps loads reply;
            })
            (w v).sent
        → send_request_and_inject_reply dumps loads (build_config c caller) stub v m now (w caller)
          ≡ ok n
        → RemoteStep w (update w caller n)

  pub data RemoteReachable : World C S → Type 0 where
    bootstrapped : (now : ℕ) → RemoteReachable (initial c now)
    moved : {w w' : World C S} → RemoteReachable w → RemoteStep w w' → RemoteReachable w'

  step-tick :
      (v : String) (now : ℕ) (n : Node C S)
      → step (build_config c v) (ticked now) n ≡ ok (tick (build_config c v) now n)
  unfolding step
  step-tick v now n = refl

  step-serve_propose :
      (v : String) (command : P) (now : ℕ) (n : Node C S)
      → step (build_config c v) (proposed (loads command) now) n
        ≡ ok (serve_propose dumps loads (build_config c v) command now n).0
  unfolding step serve_propose
  step-serve_propose v command now n = refl

  step-serve :
      (caller v : String) (m : Message C) (now : ℕ) (n : Node C S)
      {r : Node C S × Option (PbMessage P)}
      → ((x : C) → loads (dumps x) ≡ x)
      → is_reply m ≡ false
      → serve dumps loads (build_config c v) (to_proto dumps loads m) now n ≡ ok r
      → step
          (build_config c v)
          (received (record { sender_id = caller; recipient_id = v; message = m }) now)
          n
        ≡ ok (listed dumps loads (build_config c v) caller r)
  unfolding step
  step-serve caller v m now n law request h =
      receive-serve dumps loads (build_config c v) caller v m now n law request ∙ rw h refl

  step-injected :
      (caller v : String) (m : Message C) (stub : PbMessage P → Option (PbMessage P))
      (reply : PbMessage P) (now : ℕ) (n : Node C S) {n' : Node C S}
      → stub (to_proto dumps loads m) ≡ some reply
      → send_request_and_inject_reply dumps loads (build_config c caller) stub v m now n ≡ ok n'
      → step
          (build_config c caller)
          (received
            (record {
              sender_id = v;
              recipient_id = caller;
              message = from_proto dumps loads reply;
            })
            now)
          n
        ≡ ok n'
  unfolding step inject_reply send_request_and_inject_reply
  step-injected caller v m stub reply now n answered h =
      rw (answered, send_request_and_inject_reply) at h

  -- Where `loads` undoes `dumps`, every state that the nodes reach by calling one another is one
  -- that a cluster over a lossy network, which may lose, delay, repeat and reorder messages, can
  -- reach, a call being the request's delivery and its reply a message of the server: what holds of
  -- the latter's states holds of the former's.
  pub remote_reachable :
      {w : World C S} → ((x : C) → loads (dumps x) ≡ x) → RemoteReachable w → Reachable c w
  remote_reachable law (bootstrapped now) = built now
  remote_reachable law (moved r (driven w v now m)) =
      went (remote_reachable law r)
        (called w v (ticked now) (tick (build_config c v) now (w v)) m tt (step-tick v now (w v)))
  remote_reachable law (moved r (asked w v command now m)) =
      went (remote_reachable law r)
        (called w v (proposed (loads command) now) _ m tt (step-serve_propose v command now (w v)))
  remote_reachable law (moved r (served w caller v message now a m m' sent request h)) =
      went (remote_reachable law r) (
        called w v
          (received (record { sender_id = caller; recipient_id = v; message = message }) now) _ m'
          (caller, m, sent, refl) (step-serve caller v message now (w v) law request h))
  remote_reachable law
        (moved r (injected w caller v message stub reply now n m m' answered sent h)) =
      went (remote_reachable law r) (
        called w caller
          (received
            (record {
              sender_id = v;
              recipient_id = caller;
              message = from_proto dumps loads reply;
            })
            now)
          n m (v, m', sent, refl)
          (step-injected caller v message stub reply now (w caller) answered h))
