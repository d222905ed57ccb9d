-- ===== src/Raft/Append/Frames.antt =====
-- What handling a message from the leader leaves alone: the ballot, the role, the votes, and the
-- messages sent before.
use distributed_transaction.Prelude.{
  ℕ, suc, ◌≡◌, refl, String, inl, inr, arith, Dict, Result, ok, raise, bind-eq-ok, min, ltb,
  Bool-cases, Option-cases, get, put, string_eq, ◌+◌,
}
use distributed_transaction.Raft.Types.{AppendEntriesArgs, AppendEntriesReply, RaftError}
use distributed_transaction.Raft.Storage.{last_index}
use distributed_transaction.Raft.Node.{Config, Node}
use distributed_transaction.Raft.Handlers.{store_entries}
use distributed_transaction.Raft.Handlers.Frames.{
  SameBallot, SameBallot-store_entries, Committed, Committed-apply, Committed-advance,
}
use distributed_transaction.Raft.Append.{
  accept_entries, replicate, follow_commit, prev_conflict, note_match, record_match,
}

pub record SameRole {C S : Type 0} (n n' : Node C S) : Type 0 where
  pub ballot : SameBallot n.storage n'.storage
  pub state : n'.state ≡ n.state
  pub votes : n'.votes_received ≡ n.votes_received
  pub sent : n'.sent ≡ n.sent

module _ {C S : Type 0} where
  pub SameRole-refl : (n : Node C S) → SameRole n n
  SameRole-refl n = record {
    ballot = record { term = refl; vote = refl };
    state = refl;
    votes = refl;
    sent = refl;
  }

  pub SameRole-eq :
      (n : Node C S) {a : AppendEntriesReply} {r : Node C S × AppendEntriesReply}
      → ◌≡◌ {A = Result RaftError (Node C S × AppendEntriesReply)} (ok (n, a)) (ok r)
      → SameRole n r.0
  SameRole-eq n h = record {
    ballot = record { term = ground arith; vote = ground arith };
    state = ground arith;
    votes = ground arith;
    sent = ground arith;
  }

  pub Committed-SameRole : (n : Node C S) {n' : Node C S} → Committed n n' → SameRole n n'
  Committed-SameRole n c = record {
    ballot = record { term = ground arith; vote = ground arith };
    state = ground arith;
    votes = ground arith;
    sent = ground arith;
  }

  pub Committed-storage : (n : Node C S) {n' : Node C S} → Committed n n' → n'.storage ≡ n.storage
  Committed-storage n c = ground arith

  -- Only what `SameRole` reads has to be the same.
  SameRole-at :
      {n n' : Node C S} {matches nexts : Dict String ℕ}
      → SameRole (record n { match_index = matches; next_index = nexts }) n'
      → SameRole n n'
  SameRole-at r = record { ballot = r.ballot; state = r.state; votes = r.votes; sent = r.sent }

  raised : {e : RaftError} {n : Node C S} → raise e ≡ ok n → ⊥
  raised h = cc

module _ {C S : Type 0} (cfg : Config C S) where
  pub Committed-follow :
      (m : ℕ) (n : Node C S) {n' : Node C S} → follow_commit cfg m n ≡ ok n' → Committed n n'
  unfolding follow_commit
  Committed-follow m n {n'} h = elim (Bool-cases (ltb n.commit_index m)) [
    | inl more ↦
        Committed-apply cfg (record n { commit_index = min m (last_index n.storage) })
          (rw (more, follow_commit) at h)
    | inr same ↦ ground arith
  ]

  accept_entries-SameRole :
      (args : AppendEntriesArgs C) (n : Node C S) {r : Node C S × AppendEntriesReply}
      → accept_entries cfg args n ≡ ok r
      → SameRole n r.0
  unfolding accept_entries
  accept_entries-SameRole args n {r} h =
      let (storage, stored, rest) =
        bind-eq-ok (store_entries n.storage (suc args.prev_log_index) args.entries) _ h in
      let m = record n { storage = storage } in
      let (n', followed, last) = bind-eq-ok (follow_commit cfg args.leader_commit m) _ rest in
      let c = Committed-SameRole m (Committed-follow args.leader_commit m followed) in
      let b = SameBallot-store_entries n.storage (suc args.prev_log_index) args.entries stored in
      record {
        ballot = record {
          term = ground (arith, b.term, c.ballot.term);
          vote = ground (arith, b.vote, c.ballot.vote);
        };
        state = ground (arith, c.state);
        votes = ground (arith, c.votes);
        sent = ground (arith, c.sent);
      }

  pub replicate-SameRole :
      (args : AppendEntriesArgs C) (n : Node C S) {r : Node C S × AppendEntriesReply}
      → replicate cfg args n ≡ ok r
      → SameRole n r.0
  unfolding replicate
  replicate-SameRole args n {r} h = elim (Option-cases (prev_conflict cfg args n)) [
    | inr (refusal, e) ↦ SameRole-eq n (rw (e, replicate) at h)
    | inl fits ↦ accept_entries-SameRole args n (rw (fits, replicate) at h)
  ]

  pub note_match-SameRole :
      (sender : String) (m : ℕ) (n : Node C S) {n' : Node C S}
      → note_match cfg sender m n ≡ ok n'
      → SameRole n n'
  unfolding note_match
  note_match-SameRole sender m n {n'} h =
      let seen = record_match sender m n in
      elim (Option-cases (get sender seen.match_index)) [
        | inl missing ↦ absurd (raised (rw (missing, note_match) at h))
        | inr (k, e) ↦
            let next = record seen { next_index = put sender (k + 1) seen.next_index } in
            SameRole-at {n = n} (
              Committed-SameRole next {n' = n'}
                (Committed-advance cfg next (rw (e, note_match) at h)))
      ]
