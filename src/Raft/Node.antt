-- ===== src/Raft/Node.antt =====
-- raft/node.py: the state of a `RaftNode`, and its state transitions and broadcasts. What the node
-- hands to `transport.send` is listed, in order, in `sent`; who runs the node passes it on. A time
-- is a number; the two infinite times of `__init__` are `none`. `random_fn` is asked with the
-- number of draws made so far.
use distributed_transaction.Prelude.{
  ℕ, ◌+◌, ◌-◌, ◌/◌, String, nat_eq, string_eq, ◌==◌, Bool, not, Option, none, some, List, [], ◌∷◌,
  ◌++◌, map, length, Dict, get_default, from_keys, ltb, leb, if◌then◌else◌,
}
use distributed_transaction.Raft.Types.{
  NodeState, is_candidate, follower, candidate, leader, Message, Envelope, prevote, request_vote,
  append_entries,
}
use distributed_transaction.Raft.Storage.{
  Storage, set_current_term, set_voted_for, last_index, last_term, term_at, entries_from,
}

-- the arguments of `RaftNode.__init__` that do not change, and `apply` of the state machine
pub record Config (C S : Type 0) : Type 0 where
  pub node_id : String
  pub peer_ids : List String
  pub election_timeout_min : ℕ
  pub election_timeout_max : ℕ
  pub heartbeat_interval : ℕ
  pub random_fn : ℕ → ℕ → ℕ → ℕ
  pub apply_command : S → C → S

pub record Node (C S : Type 0) : Type 0 where
  pub storage : Storage C
  pub machine : S
  pub state : NodeState
  pub leader_id : Option String
  pub commit_index : ℕ
  pub last_applied : ℕ
  pub next_index : Dict String ℕ
  pub match_index : Dict String ℕ
  pub votes_received : List String
  pub prevotes_received : List String
  pub prevote_target_term : Option ℕ
  pub election_deadline : ℕ
  pub next_heartbeat_deadline : Option ℕ
  pub last_leader_contact : Option ℕ
  pub draws : ℕ
  pub sent : List (Envelope C)

-- `RaftNode.__init__`, over the storage and the state machine that it is given
abbrev pub new_node : {C S : Type 0} → Storage C → S → Node C S
new_node storage machine = record {
  storage = storage;
  machine = machine;
  state = follower;
  leader_id = none;
  commit_index = 0;
  last_applied = 0;
  next_index = [];
  match_index = [];
  votes_received = [];
  prevotes_received = [];
  prevote_target_term = none;
  election_deadline = 0;
  next_heartbeat_deadline = none;
  last_leader_contact = none;
  draws = 0;
  sent = [];
}

module _ {C S : Type 0} (n : Node C S) where
  abbrev pub current_term : ℕ
  current_term = n.storage.current_term

  -- `_log_up_to_date`
  unfoldable pub log_up_to_date : ℕ → ℕ → Bool
  log_up_to_date last_log_index last_log_term =
      if not (last_log_term == last_term n.storage)
      then ltb (last_term n.storage) last_log_term
      else leb (last_index n.storage) last_log_index

module _ {C S : Type 0} (cfg : Config C S) where
  -- `(len(self.peer_ids) + 1) // 2 + 1`
  abbrev pub majority : ℕ
  majority = (length cfg.peer_ids + 1) / 2 + 1

  -- `self._transport.send(self.node_id, recipient, message)`
  abbrev pub send : String → Message C → Node C S → Node C S
  send recipient message n = record n {
    sent =
        n.sent
        ++ record { sender_id = cfg.node_id; recipient_id = recipient; message = message } ∷ [];
  }

  -- `for peer in self.peer_ids: self._transport.send(self.node_id, peer, ...)`
  abbrev pub send_to_peers : (String → Message C) → Node C S → Node C S
  send_to_peers message n = record n {
    sent =
        n.sent
        ++ map
            (λ peer. record {
              sender_id = cfg.node_id;
              recipient_id = peer;
              message = message peer;
            })
            cfg.peer_ids;
  }

  -- `_reset_election_deadline`
  unfoldable pub reset_election_deadline : ℕ → Node C S → Node C S
  reset_election_deadline now n = record n {
    election_deadline =
        now + cfg.random_fn n.draws cfg.election_timeout_min cfg.election_timeout_max;
    draws = n.draws + 1;
  }

  -- `start`
  abbrev pub start : ℕ → Node C S → Node C S
  start = reset_election_deadline

  -- the message that `_send_append_entries_to` sends to a peer. An index there is at least 1.
  unfoldable pub append_entries_for : Node C S → String → Message C
  append_entries_for n peer =
      let next_idx = get_default peer (last_index n.storage + 1) n.next_index in
      append_entries (record {
        term = current_term n;
        leader_id = cfg.node_id;
        prev_log_index = next_idx - 1;
        prev_log_term = term_at n.storage (next_idx - 1);
        entries = entries_from n.storage next_idx;
        leader_commit = n.commit_index;
      })

  -- `_send_append_entries_to`
  unfoldable pub send_append_entries_to : String → Node C S → Node C S
  send_append_entries_to peer n = send peer (append_entries_for n peer) n

  -- `_broadcast_append_entries`: the messages read nothing that sending changes
  unfoldable pub broadcast_append_entries : ℕ → Node C S → Node C S
  broadcast_append_entries now n =
      send_to_peers (append_entries_for n)
        (record n { next_heartbeat_deadline = some (now + cfg.heartbeat_interval) })

  -- `_broadcast_request_vote`
  unfoldable pub broadcast_request_vote : Node C S → Node C S
  broadcast_request_vote n =
      send_to_peers
        (λ peer. request_vote (record {
          term = current_term n;
          candidate_id = cfg.node_id;
          last_log_index = last_index n.storage;
          last_log_term = last_term n.storage;
        }))
        n

  -- `_become_follower`
  unfoldable pub become_follower : ℕ → ℕ → Node C S → Node C S
  unfolding reset_election_deadline
  become_follower term now n = reset_election_deadline now (record n {
    storage = set_voted_for (set_current_term n.storage term) none;
    state = follower;
    leader_id = none;
    votes_received = [];
  })

  -- `_become_leader`
  unfoldable pub become_leader : ℕ → Node C S → Node C S
  become_leader now n = broadcast_append_entries now (record n {
    state = leader;
    leader_id = some cfg.node_id;
    next_index = from_keys cfg.peer_ids (last_index n.storage + 1) [];
    match_index = from_keys cfg.peer_ids 0 [];
  })

  -- `_maybe_become_leader_from_votes`
  unfoldable pub maybe_become_leader_from_votes : ℕ → Node C S → Node C S
  maybe_become_leader_from_votes now n =
      if not (is_candidate n.state)
      then n
      else if leb majority (length n.votes_received)
      then become_leader now n
      else n

  -- `_become_candidate`
  unfoldable pub become_candidate : ℕ → Node C S → Node C S
  become_candidate now n = maybe_become_leader_from_votes now (
      broadcast_request_vote (
        reset_election_deadline now (record n {
          storage =
              set_voted_for (set_current_term n.storage (current_term n + 1)) (some cfg.node_id);
          state = candidate;
          leader_id = none;
          votes_received = cfg.node_id ∷ [];
        })))

  -- `_maybe_win_prevote`
  unfoldable pub maybe_win_prevote : ℕ → Node C S → Node C S
  maybe_win_prevote now n =
      if leb majority (length n.prevotes_received) then become_candidate now n else n

  -- `_start_prevote`
  unfoldable pub start_prevote : ℕ → Node C S → Node C S
  start_prevote now n = maybe_win_prevote now (
      send_to_peers
        (λ peer. prevote (record {
          term = current_term n + 1;
          candidate_id = cfg.node_id;
          last_log_index = last_index n.storage;
          last_log_term = last_term n.storage;
        }))
        (reset_election_deadline now (record n {
          state = follower;
          leader_id = none;
          prevote_target_term = some (current_term n + 1);
          prevotes_received = cfg.node_id ∷ [];
        })))
