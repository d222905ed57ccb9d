-- ===== src/Remote/Service.antt =====
-- coordinator/grpc/raft_service.py and coordinator/grpc/raft_transport.py: a request is a call
-- whose answer is the reply. A handler runs under the lock of the node's runtime, so it is one
-- step of the node. `listed` puts the reply among the node's messages, as over the in-memory
-- transport.
use distributed_transaction.Prelude.{
  ℕ, ◌≡◌, refl, String, Bool, true, false, Option, none, some, List, [], ◌∷◌, ◌++◌, Result, ok,
  raise, ◌>>=◌, string_eq, if◌then◌else◌,
}
use distributed_transaction.Raft.Types.{
  LogEntry, Message, request_vote, request_vote_reply, append_entries, append_entries_reply,
  prevote, prevote_reply, AppendEntriesReply, RaftError,
}
use distributed_transaction.Raft.Node.{Config, Node, send}
use distributed_transaction.Raft.Handlers.{handle_request_vote, handle_prevote}
use distributed_transaction.Raft.Append.{handle_append_entries}
use distributed_transaction.Raft.Driver.{receive, propose}
use distributed_transaction.Remote.Serialization.{
  PbMessage, pb_request_vote, pb_request_vote_reply, pb_append_entries, pb_append_entries_reply,
  pb_prevote, pb_prevote_reply, PbRequestVoteArgs, PbRequestVoteReply, PbPreVoteArgs,
  PbPreVoteReply, PbAppendEntriesArgs, PbAppendEntriesReply, request_vote_args_from_proto,
  request_vote_reply_to_proto, prevote_args_from_proto, prevote_reply_to_proto,
  append_entries_args_from_proto, append_entries_reply_to_proto, from_proto, to_proto,
  append_entries_args_back, append_entries_reply_back,
}

-- `ProposeReply`; a field that is not set is 0
pub record PbProposeReply : Type 0 where
  pub accepted : Bool
  pub term : ℕ
  pub index : ℕ
  pub leader_hint : String

-- `self._runtime.leader_id or ""`
abbrev pub or_empty : Option String → String
or_empty none = ""
or_empty (some v) = v

module _ {C P S : Type 0} (dumps : C → P) (loads : P → C) (cfg : Config C S) where
  -- `RequestVote`
  abbrev pub serve_request_vote : PbRequestVoteArgs → ℕ → Node C S → Node C S × PbRequestVoteReply
  serve_request_vote request now n =
      let (n', reply) = handle_request_vote cfg (request_vote_args_from_proto request) now n in
      (n', request_vote_reply_to_proto reply)

  -- `PreVote`
  abbrev pub serve_prevote : PbPreVoteArgs → ℕ → Node C S → PbPreVoteReply
  serve_prevote request now n =
      prevote_reply_to_proto (handle_prevote cfg (prevote_args_from_proto request) now n)

  -- `AppendEntries`
  abbrev pub serve_append_entries :
      PbAppendEntriesArgs P → ℕ → Node C S → Result RaftError (Node C S × PbAppendEntriesReply)
  serve_append_entries request now n = do
    r ← handle_append_entries cfg (append_entries_args_from_proto dumps loads request) now n
    ok (r.0, append_entries_reply_to_proto r.1)

  -- the reply of `Propose`
  abbrev pub propose_reply : Option (LogEntry C) → Node C S → PbProposeReply
  propose_reply none n = record {
    accepted = false;
    term = 0;
    index = 0;
    leader_hint = or_empty n.leader_id;
  }
  propose_reply (some entry) n = record {
    accepted = true;
    term = entry.term;
    index = entry.index;
    leader_hint = cfg.node_id;
  }

  -- `Propose`
  unfoldable pub serve_propose : P → ℕ → Node C S → Node C S × PbProposeReply
  serve_propose command now n =
      let r = propose cfg (loads command) now n in (r.0, propose_reply r.1 r.0)

  -- the method that the server runs for a request
  unfoldable pub serve :
      PbMessage P → ℕ → Node C S → Result RaftError (Node C S × Option (PbMessage P))
  serve (pb_request_vote request) now n =
      let (n', reply) = serve_request_vote request now n in
      ok (n', some (pb_request_vote_reply reply))
  serve (pb_prevote request) now n = ok (n, some (pb_prevote_reply (serve_prevote request now n)))
  serve (pb_append_entries request) now n = do
    r ← serve_append_entries request now n
    ok (r.0, some (pb_append_entries_reply r.1))
  serve _ now n = ok (n, none)

-- `send`: a reply is not sent, a request becomes a call
abbrev pub is_reply : {C : Type 0} → Message C → Bool
is_reply (request_vote_reply _) = true
is_reply (prevote_reply _) = true
is_reply (append_entries_reply _) = true
is_reply _ = false

-- the calls that the transport has submitted: the recipient and the message
abbrev pub submit :
    {C : Type 0} → String → Message C → List (String × Message C) → List (String × Message C)
submit recipient message calls =
    if is_reply message then calls else calls ++ (recipient, message) ∷ []

module _ {C P S : Type 0} (dumps : C → P) (loads : P → C) (cfg : Config C S) where
  -- the end of `_send_request_and_inject_reply`: the reply of the recipient comes in
  unfoldable pub inject_reply : String → PbMessage P → ℕ → Node C S → Result RaftError (Node C S)
  inject_reply recipient reply now n =
      receive cfg
        (record {
          sender_id = recipient;
          recipient_id = cfg.node_id;
          message = from_proto dumps loads reply;
        })
        now n

  -- `_send_request_and_inject_reply`, where the stub of the recipient answers a request, or raises
  -- `RpcError`, and then the call is dropped
  unfoldable pub send_request_and_inject_reply :
      (PbMessage P → Option (PbMessage P))
      → String
      → Message C
      → ℕ
      → Node C S
      → Result RaftError (Node C S)
  send_request_and_inject_reply stub recipient message now n =
      elim (stub (to_proto dumps loads message)) [
        | none ↦ ok n
        | some reply ↦ inject_reply recipient reply now n
      ]

  abbrev pub listed : String → Node C S × Option (PbMessage P) → Node C S
  listed caller (n, none) = n
  listed caller (n, some reply) = send cfg caller (from_proto dumps loads reply) n

  abbrev wrapped : Node C S × PbAppendEntriesReply → Node C S × Option (PbMessage P)
  wrapped a = (a.0, some (pb_append_entries_reply a.1))

  replied :
      (caller : String) (r : Result RaftError (Node C S × AppendEntriesReply))
      → (r >>= λ a. ok (send cfg caller (append_entries_reply a.1) a.0)) ≡ (
          ((r >>= λ a. ok (a.0, append_entries_reply_to_proto a.1)) >>= λ a. ok (wrapped a))
          >>= λ a. ok (listed caller a))
  replied caller (raise e) = refl
  replied caller (ok (n, reply)) = rw (append_entries_reply_back dumps loads reply)

  -- Where `loads` undoes `dumps`, serving the call of a request makes of a node what receiving the
  -- request over the in-memory transport makes of it: the same state, the same reply, and the same
  -- exception where there is one.
  pub receive-serve :
      (caller recipient : String) (m : Message C) (now : ℕ) (n : Node C S)
      → ((c : C) → loads (dumps c) ≡ c)
      → is_reply m ≡ false
      → receive cfg (record { sender_id = caller; recipient_id = recipient; message = m }) now n
        ≡ (serve dumps loads cfg (to_proto dumps loads m) now n >>= λ r. ok (listed caller r))
  unfolding receive serve
  receive-serve caller recipient (request_vote args) now n law h = refl
  receive-serve caller recipient (prevote args) now n law h = refl
  receive-serve caller recipient (append_entries args) now n law h =
      rw (append_entries_args_back dumps loads args law)
        (replied caller (handle_append_entries cfg args now n))
  receive-serve caller recipient (request_vote_reply reply) now n law h = cc
  receive-serve caller recipient (prevote_reply reply) now n law h = cc
  receive-serve caller recipient (append_entries_reply reply) now n law h = cc
