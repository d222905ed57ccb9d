-- ===== src/Raft/Driver.antt =====
-- raft/node.py: `tick`, `receive` and `propose`, by which the node is driven from outside.
pub mod Ballots
pub mod Proposing
use distributed_transaction.Prelude.{
  ℕ, ◌+◌, String, Bool, true, false, Option, none, some, List, [], ◌∷◌, leb, if◌then◌else◌, Result,
  ok, raise, ◌>>=◌,
}
use distributed_transaction.Raft.Types.{
  is_leader, LogEntry, Message, Envelope, RaftError, request_vote, request_vote_reply,
  append_entries, append_entries_reply, prevote, prevote_reply,
}
use distributed_transaction.Raft.Storage.{last_index, append}
use distributed_transaction.Raft.Node.{
  Config, Node, current_term, send, broadcast_append_entries, start_prevote,
}
use distributed_transaction.Raft.Handlers.{handle_prevote, handle_request_vote}
use distributed_transaction.Raft.Append.{
  handle_append_entries, handle_append_entries_reply, handle_request_vote_reply,
  handle_prevote_reply,
}

-- `deadline` may be infinite
abbrev pub is_due : ℕ → Option ℕ → Bool
is_due now none = false
is_due now (some deadline) = leb deadline now

-- One call into the node. A remote call of a handler is a message whose reply is the answer.
pub data Event (C : Type 0) : Type 0 where
  ticked : ℕ → Event C
  received : Envelope C → ℕ → Event C
  proposed : C → ℕ → Event C

module _ {C S : Type 0} (cfg : Config C S) where
  unfoldable pub tick : ℕ → Node C S → Node C S
  tick now n =
      if is_leader n.state
      then (if is_due now n.next_heartbeat_deadline then broadcast_append_entries cfg now n else n)
      else if leb n.election_deadline now
      then start_prevote cfg now n
      else n

  unfoldable pub receive : Envelope C → ℕ → Node C S → Result RaftError (Node C S)
  receive envelope now n = elim envelope.message [
    | request_vote args ↦
        let (n', reply) = handle_request_vote cfg args now n in
        ok (send cfg envelope.sender_id (request_vote_reply reply) n')
    | request_vote_reply reply ↦ ok (handle_request_vote_reply cfg reply now n)
    | append_entries args ↦ do
      r ← handle_append_entries cfg args now n
      ok (send cfg envelope.sender_id (append_entries_reply r.1) r.0)
    | append_entries_reply reply ↦ handle_append_entries_reply cfg envelope.sender_id reply now n
    | prevote args ↦
        ok (send cfg envelope.sender_id (prevote_reply (handle_prevote cfg args now n)) n)
    | prevote_reply reply ↦ ok (handle_prevote_reply cfg reply now n)
  ]

  -- the entry that `propose` adds
  abbrev pub proposal : C → Node C S → LogEntry C
  proposal command n = record {
    term = current_term n;
    index = last_index n.storage + 1;
    command = command;
  }

  unfoldable pub propose : C → ℕ → Node C S → Node C S × Option (LogEntry C)
  propose command now n =
      if is_leader n.state
      then (
        broadcast_append_entries cfg now
            (record n { storage = append n.storage (proposal command n ∷ []) }),
        some (proposal command n),
      )
      else (n, none)

  unfoldable pub step : Event C → Node C S → Result RaftError (Node C S)
  step (ticked now) n = ok (tick now n)
  step (received envelope now) n = receive envelope now n
  step (proposed command now) n = ok (propose command now n).0
