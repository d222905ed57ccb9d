-- ===== src/Remote/Serialization.antt =====
-- coordinator/grpc/serialization.py: between the messages of Raft and those of proto/raft.proto,
-- whose records begin with Pb. A field that may be -1 is an integer there; the bounds of int64 are
-- not modelled. `dumps` and `loads` are those of pickle, and `P` is the type of its bytes.
use distributed_transaction.Prelude.{
  ℕ, ◌≡◌, refl, ap, String, Bool, Option, none, some, List, [], ◌∷◌, map,
}
use distributed_transaction.Prelude.Int.{ℤ, pos, negsuc}
use distributed_transaction.Raft.Types.{
  LogEntry, Message, request_vote, request_vote_reply, append_entries, append_entries_reply,
  prevote, prevote_reply, RequestVoteArgs, RequestVoteReply, PreVoteArgs, PreVoteReply,
  AppendEntriesArgs, AppendEntriesReply,
}

-- the number of a term that may be missing, and back; every negative number is read as -1
abbrev pub term_number : Option ℕ → ℤ
term_number none = negsuc 0
term_number (some t) = pos t

abbrev pub term_of_number : ℤ → Option ℕ
term_of_number (negsuc n) = none
term_of_number (pos t) = some t

pub record PbLogEntry (P : Type 0) : Type 0 where
  pub term : ℕ
  pub index : ℕ
  pub command : P

pub record PbAppendEntriesArgs (P : Type 0) : Type 0 where
  pub term : ℕ
  pub leader_id : String
  pub prev_log_index : ℕ
  pub prev_log_term : ℤ
  pub entries : List (PbLogEntry P)
  pub leader_commit : ℕ

pub record PbRequestVoteArgs : Type 0 where
  pub term : ℕ
  pub candidate_id : String
  pub last_log_index : ℕ
  pub last_log_term : ℕ

pub record PbRequestVoteReply : Type 0 where
  pub term : ℕ
  pub vote_granted : Bool
  pub voter_id : String

pub record PbPreVoteArgs : Type 0 where
  pub term : ℕ
  pub candidate_id : String
  pub last_log_index : ℕ
  pub last_log_term : ℕ

pub record PbPreVoteReply : Type 0 where
  pub term : ℕ
  pub vote_granted : Bool
  pub voter_id : String

pub record PbAppendEntriesReply : Type 0 where
  pub term : ℕ
  pub success : Bool
  pub responder_id : String
  pub match_index : ℕ
  pub conflict_index : ℕ
  pub conflict_term : ℤ

abbrev pub request_vote_args_to_proto : RequestVoteArgs → PbRequestVoteArgs
request_vote_args_to_proto m = record {
  term = m.term;
  candidate_id = m.candidate_id;
  last_log_index = m.last_log_index;
  last_log_term = m.last_log_term;
}

abbrev pub request_vote_args_from_proto : PbRequestVoteArgs → RequestVoteArgs
request_vote_args_from_proto m = record {
  term = m.term;
  candidate_id = m.candidate_id;
  last_log_index = m.last_log_index;
  last_log_term = m.last_log_term;
}

abbrev pub request_vote_reply_to_proto : RequestVoteReply → PbRequestVoteReply
request_vote_reply_to_proto m = record {
  term = m.term;
  vote_granted = m.vote_granted;
  voter_id = m.voter_id;
}

abbrev pub request_vote_reply_from_proto : PbRequestVoteReply → RequestVoteReply
request_vote_reply_from_proto m = record {
  term = m.term;
  vote_granted = m.vote_granted;
  voter_id = m.voter_id;
}

abbrev pub prevote_args_to_proto : PreVoteArgs → PbPreVoteArgs
prevote_args_to_proto m = record {
  term = m.term;
  candidate_id = m.candidate_id;
  last_log_index = m.last_log_index;
  last_log_term = m.last_log_term;
}

abbrev pub prevote_args_from_proto : PbPreVoteArgs → PreVoteArgs
prevote_args_from_proto m = record {
  term = m.term;
  candidate_id = m.candidate_id;
  last_log_index = m.last_log_index;
  last_log_term = m.last_log_term;
}

abbrev pub prevote_reply_to_proto : PreVoteReply → PbPreVoteReply
prevote_reply_to_proto m = record {
  term = m.term;
  vote_granted = m.vote_granted;
  voter_id = m.voter_id;
}

abbrev pub prevote_reply_from_proto : PbPreVoteReply → PreVoteReply
prevote_reply_from_proto m = record {
  term = m.term;
  vote_granted = m.vote_granted;
  voter_id = m.voter_id;
}

abbrev pub append_entries_reply_to_proto : AppendEntriesReply → PbAppendEntriesReply
append_entries_reply_to_proto m = record {
  term = m.term;
  success = m.success;
  responder_id = m.responder_id;
  match_index = m.match_index;
  conflict_index = m.conflict_index;
  conflict_term = term_number m.conflict_term;
}

abbrev pub append_entries_reply_from_proto : PbAppendEntriesReply → AppendEntriesReply
append_entries_reply_from_proto m = record {
  term = m.term;
  success = m.success;
  responder_id = m.responder_id;
  match_index = m.match_index;
  conflict_index = m.conflict_index;
  conflict_term = term_of_number m.conflict_term;
}

-- a message on the wire
pub data PbMessage (P : Type 0) : Type 0 where
  pb_request_vote : PbRequestVoteArgs → PbMessage P
  pb_request_vote_reply : PbRequestVoteReply → PbMessage P
  pb_append_entries : PbAppendEntriesArgs P → PbMessage P
  pb_append_entries_reply : PbAppendEntriesReply → PbMessage P
  pb_prevote : PbPreVoteArgs → PbMessage P
  pb_prevote_reply : PbPreVoteReply → PbMessage P

term_of_number-term_number : (t : Option ℕ) → term_of_number (term_number t) ≡ t
term_of_number-term_number none = refl
term_of_number-term_number (some t) = refl

module _ {C P : Type 0} (dumps : C → P) (loads : P → C) where
  abbrev pub log_entry_to_proto : LogEntry C → PbLogEntry P
  log_entry_to_proto e = record { term = e.term; index = e.index; command = dumps e.command }

  abbrev pub log_entry_from_proto : PbLogEntry P → LogEntry C
  log_entry_from_proto e = record { term = e.term; index = e.index; command = loads e.command }

  abbrev pub append_entries_args_to_proto : AppendEntriesArgs C → PbAppendEntriesArgs P
  append_entries_args_to_proto m = record {
    term = m.term;
    leader_id = m.leader_id;
    prev_log_index = m.prev_log_index;
    prev_log_term = term_number m.prev_log_term;
    entries = map log_entry_to_proto m.entries;
    leader_commit = m.leader_commit;
  }

  abbrev pub append_entries_args_from_proto : PbAppendEntriesArgs P → AppendEntriesArgs C
  append_entries_args_from_proto m = record {
    term = m.term;
    leader_id = m.leader_id;
    prev_log_index = m.prev_log_index;
    prev_log_term = term_of_number m.prev_log_term;
    entries = map log_entry_from_proto m.entries;
    leader_commit = m.leader_commit;
  }

  -- the conversion of a message of each kind
  abbrev pub to_proto : Message C → PbMessage P
  to_proto (request_vote m) = pb_request_vote (request_vote_args_to_proto m)
  to_proto (request_vote_reply m) = pb_request_vote_reply (request_vote_reply_to_proto m)
  to_proto (append_entries m) = pb_append_entries (append_entries_args_to_proto m)
  to_proto (append_entries_reply m) = pb_append_entries_reply (append_entries_reply_to_proto m)
  to_proto (prevote m) = pb_prevote (prevote_args_to_proto m)
  to_proto (prevote_reply m) = pb_prevote_reply (prevote_reply_to_proto m)

  abbrev pub from_proto : PbMessage P → Message C
  from_proto (pb_request_vote m) = request_vote (request_vote_args_from_proto m)
  from_proto (pb_request_vote_reply m) = request_vote_reply (request_vote_reply_from_proto m)
  from_proto (pb_append_entries m) = append_entries (append_entries_args_from_proto m)
  from_proto (pb_append_entries_reply m) = append_entries_reply (append_entries_reply_from_proto m)
  from_proto (pb_prevote m) = prevote (prevote_args_from_proto m)
  from_proto (pb_prevote_reply m) = prevote_reply (prevote_reply_from_proto m)

  entries_back :
      (es : List (LogEntry C))
      → ((c : C) → loads (dumps c) ≡ c)
      → map log_entry_from_proto (map log_entry_to_proto es) ≡ es
  entries_back [] law = refl
  entries_back (e ∷ es) law = rw (law e.command, entries_back es law)

  pub append_entries_args_back :
      (m : AppendEntriesArgs C)
      → ((c : C) → loads (dumps c) ≡ c)
      → append_entries_args_from_proto (append_entries_args_to_proto m) ≡ m
  append_entries_args_back m law =
      rw (entries_back m.entries law, term_of_number-term_number m.prev_log_term)

  pub append_entries_reply_back :
      (m : AppendEntriesReply)
      → append_entries_reply_from_proto (append_entries_reply_to_proto m) ≡ m
  append_entries_reply_back m = rw (term_of_number-term_number m.conflict_term)

  -- Where `loads` undoes `dumps`, a message of any kind comes back from the wire as it was sent.
  pub from_proto-to_proto :
      (m : Message C) → ((c : C) → loads (dumps c) ≡ c) → from_proto (to_proto m) ≡ m
  from_proto-to_proto (request_vote m) law = refl
  from_proto-to_proto (request_vote_reply m) law = refl
  from_proto-to_proto (append_entries m) law = ap append_entries (append_entries_args_back m law)
  from_proto-to_proto (append_entries_reply m) law =
      ap append_entries_reply (append_entries_reply_back m)
  from_proto-to_proto (prevote m) law = refl
  from_proto-to_proto (prevote_reply m) law = refl
