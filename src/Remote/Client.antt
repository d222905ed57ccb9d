-- ===== src/Remote/Client.antt =====
-- coordinator/grpc/raft_cluster_client.py. `call` is what a call of `Propose` at a node makes of the
-- outside world, and the reply, `none` where it raises `RpcError`. `clock` is the reading of the
-- clock before each pass over the nodes. A loop that its fuel does not let end gives `none`.
pub mod Proposing
pub mod Reaching
use distributed_transaction.Prelude.{
  ℕ, zero, suc, ◌+◌, ◌≤◌, ◌<◌, ◌≡◌, refl, sym, ap, ◌∙◌, String, string_eq, eq_iff, ◌==◌, Bool, true,
  false, not, ◌||◌, ◌&&◌, Option, none, some, List, [], ◌∷◌, ◌++◌, Result, ok, raise, contains, ltb,
  lt→ltb, ltb→lt, if◌then◌else◌, Bool-cases, Option-cases, ◌⊎◌, inl, inr, arith,
}
use distributed_transaction.Raft.Types.{LogEntry}
use distributed_transaction.Remote.Service.{PbProposeReply}

-- a client: the nodes of `_addresses`, and the last leader it knows
pub record Client : Type 0 where
  pub addresses : List String
  pub last_known_leader : Option String

pub data ClientError : Type 0 where
  no_leader_accepted : ClientError

-- the names that are not in a list
abbrev pub without : List String → List String → List String
without seen [] = []
without seen (v ∷ vs) = let rest = without seen vs in if contains v seen then rest else v ∷ rest

-- `[self._last_known_leader] if self._last_known_leader else []`
abbrev pub known_leader : Option String → List String
known_leader none = []
known_leader (some v) = if v == "" then [] else v ∷ []

-- `ordered`, as it is first
abbrev pub ordered_nodes : Client → List String
ordered_nodes client =
    let first = known_leader client.last_known_leader in first ++ without first client.addresses

-- a hint that names a node goes to the front
abbrev pub follow_hint : Client → String → List String → List String
follow_hint client hint ordered =
    if not (hint == "") && contains hint client.addresses then hint ∷ ordered else ordered

module _ {C L : Type 0} (call : String → C → L → L × Option PbProposeReply) (client : Client)
    (command : C) where
  -- the world, `ordered`, and the entry with the node that accepted it
  abbrev pub Pass : Type 0
  Pass = L × List String × Option (String × LogEntry C)

  -- what the loop does with a reply, and where it goes on
  abbrev pub take_reply :
      String → Option PbProposeReply → L → List String → (L → List String → Pass) → Pass
  take_reply v none l ordered next = next l ordered
  take_reply v (some reply) l ordered next =
      if reply.accepted
      then (
        l,
        ordered,
        some (v, record { term = reply.term; index = reply.index; command = command }),
      )
      else next l (follow_hint client reply.leader_hint ordered)

  -- `for node_id in list(ordered)`
  unfoldable pub try_nodes : List String → L → List String → Pass
  try_nodes [] l ordered = (l, ordered, none)
  try_nodes (v ∷ vs) l ordered =
      let skipped = try_nodes vs l ordered in
      if not (contains v client.addresses)
      then skipped
      else take_reply v (call v command l).1 (call v command l).0 ordered
          (λ l' o. try_nodes vs l' o)

  -- the number of the next reading, the client after a call, what the call returns or raises, and
  -- the world
  abbrev pub Outcome : Type 0
  Outcome = ℕ × Client × Result ClientError (LogEntry C) × L

  -- the `while` loop from the pass with a number on
  unfoldable pub run_passes : (ℕ → ℕ) → ℕ → ℕ → ℕ → List String → L → Option Outcome
  run_passes clock deadline k zero ordered l = none
  run_passes clock deadline k (suc fuel) ordered l =
      let tried = try_nodes ordered l ordered in
      let again = run_passes clock deadline (suc k) fuel tried.1 tried.0 in
      if not (ltb (clock k) deadline)
      then some (suc k, client, raise no_leader_accepted, l)
      else elim tried.2 [
        | none ↦ again
        | some found ↦
            some (suc k, record client { last_known_leader = some found.0 }, ok found.1, tried.0)
      ]

  -- `propose`, with the first reading of the clock for the deadline
  unfoldable pub propose_command : (ℕ → ℕ) → ℕ → ℕ → L → Option Outcome
  propose_command clock timeout fuel l =
      run_passes clock (clock 0 + timeout) 1 fuel (ordered_nodes client) l
