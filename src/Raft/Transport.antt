-- ===== src/Raft/Transport.antt =====
-- raft/transport.py: `InMemoryTransport`. The loop of `deliver_to` takes one envelope after the
-- other from the front of an inbox, and between two of them its handler may send; `take_next` is
-- one round of it.
pub mod Order
use distributed_transaction.Prelude.{
  ℕ, String, string_eq, ◌==◌, Bool, true, false, ◌||◌, Option, none, some, List, [], ◌∷◌, ◌++◌,
  length, Dict, get, get_default, has, put, contains, add, discard, if◌then◌else◌,
}
use distributed_transaction.Raft.Types.{Message, Envelope}

pub record Transport (C : Type 0) : Type 0 where
  pub inboxes : Dict String (List (Envelope C))
  pub partitioned : List String

module _ {C : Type 0} where
  -- `InMemoryTransport.__init__`
  abbrev pub new_transport : Transport C
  new_transport = record { inboxes = []; partitioned = [] }

  -- the inbox of a node; the `defaultdict` has an empty one for a new name
  abbrev pub inbox : Transport C → String → List (Envelope C)
  inbox t node_id = get_default node_id [] t.inboxes

  abbrev pub register : String → Transport C → Transport C
  register node_id t = record t {
    inboxes = if has node_id t.inboxes then t.inboxes else put node_id [] t.inboxes;
  }

  unfoldable pub send : Envelope C → Transport C → Transport C
  send e t =
      if contains e.sender_id t.partitioned || contains e.recipient_id t.partitioned
      then t
      else record t { inboxes = put e.recipient_id (inbox t e.recipient_id ++ e ∷ []) t.inboxes }

  abbrev pub partition : List String → Transport C → Transport C
  partition [] t = t
  partition (v ∷ vs) t = partition vs (record t { partitioned = add v t.partitioned })

  abbrev pub heal : Transport C → Transport C
  heal t = record t { partitioned = [] }

  abbrev pub rejoin : List String → Transport C → Transport C
  rejoin [] t = t
  rejoin (v ∷ vs) t = rejoin vs (record t { partitioned = discard v t.partitioned })

  abbrev pub is_partitioned : Transport C → String → Bool
  is_partitioned t node_id = contains node_id t.partitioned

  abbrev pub inbox_size : Transport C → String → ℕ
  inbox_size t node_id = length (inbox t node_id)

  unfoldable pub take_next : String → Transport C → Option (Envelope C × Transport C)
  take_next node_id t = elim (inbox t node_id) [
    | [] ↦ none
    | ◌∷◌ e rest ↦ some (e, record t { inboxes = put node_id rest t.inboxes })
  ]
