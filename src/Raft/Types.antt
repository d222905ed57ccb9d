-- ===== src/Raft/Types.antt =====
-- raft/types.py, and the messages and envelopes of raft/transport.py, for any type of commands.
-- A term that may be the source's -1, "no such entry", is an `Option ℕ`, and -1 is `none`.
use distributed_transaction.Prelude.{ℕ, String, Bool, true, false, Option, List}

pub data NodeState : Type 0 where
  follower candidate leader : NodeState

-- the tests on a node's state
abbrev pub is_follower : NodeState → Bool
is_follower follower = true
is_follower _ = false

abbrev pub is_candidate : NodeState → Bool
is_candidate candidate = true
is_candidate _ = false

abbrev pub is_leader : NodeState → Bool
is_leader leader = true
is_leader _ = false

pub record LogEntry (C : Type 0) : Type 0 where
  pub term : ℕ
  pub index : ℕ
  pub command : C

pub record PreVoteArgs : Type 0 where
  pub term : ℕ
  pub candidate_id : String
  pub last_log_index : ℕ
  pub last_log_term : ℕ

pub record PreVoteReply : Type 0 where
  pub term : ℕ
  pub vote_granted : Bool
  pub voter_id : String

pub record RequestVoteArgs : Type 0 where
  pub term : ℕ
  pub candidate_id : String
  pub last_log_index : ℕ
  pub last_log_term : ℕ

pub record RequestVoteReply : Type 0 where
  pub term : ℕ
  pub vote_granted : Bool
  pub voter_id : String

pub record AppendEntriesArgs (C : Type 0) : Type 0 where
  pub term : ℕ
  pub leader_id : String
  pub prev_log_index : ℕ
  pub prev_log_term : Option ℕ
  pub entries : List (LogEntry C)
  pub leader_commit : ℕ

pub record AppendEntriesReply : Type 0 where
  pub term : ℕ
  pub success : Bool
  pub responder_id : String
  pub match_index : ℕ
  pub conflict_index : ℕ
  pub conflict_term : Option ℕ

pub data Message (C : Type 0) : Type 0 where
  request_vote : RequestVoteArgs → Message C
  request_vote_reply : RequestVoteReply → Message C
  append_entries : AppendEntriesArgs C → Message C
  append_entries_reply : AppendEntriesReply → Message C
  prevote : PreVoteArgs → Message C
  prevote_reply : PreVoteReply → Message C

pub record Envelope (C : Type 0) : Type 0 where
  pub sender_id : String
  pub recipient_id : String
  pub message : Message C

-- what a call may raise: `ValueError`, `KeyError`, `IndexError`, `AssertionError`
pub data RaftError : Type 0 where
  index_not_positive unknown_peer index_out_of_range missing_entry : RaftError
