-- ===== src/Raft/Handlers/Applying.antt =====
-- `_apply_committed`: what reaches the state machine.
use distributed_transaction.Prelude.{
  ℕ, zero, suc, ◌+◌, ◌-◌, ◌≤◌, ◌≡◌, sym, ap, ◌∙◌, some, List, [], ◌∷◌, length, get_elem?,
  get_elem?-lt, take, drop, arith, ok,
}
use distributed_transaction.Raft.Types.{LogEntry}
use distributed_transaction.Raft.Node.{Config, Node}
use distributed_transaction.Raft.Handlers.{apply_rounds, apply_committed}

drop-at :
    {A : Type 0} (xs : List A) (i : ℕ) (x : A)
    → get_elem? xs i ≡ some x
    → drop i xs ≡ x ∷ drop (suc i) xs
drop-at [] i x h = cc
drop-at (y ∷ xs) zero x h = ground arith
drop-at (y ∷ xs) (suc i) x h = drop-at xs i x h

module _ {C S : Type 0} (cfg : Config C S) where
  -- the state machine after the commands of some entries, in order
  abbrev pub replay : S → List (LogEntry C) → S
  replay machine [] = machine
  replay machine (e ∷ es) = replay (cfg.apply_command machine e.command) es

  abbrev moved : ℕ → S → Node C S → Node C S
  moved i machine n = record n { last_applied = i; machine = machine }

  -- the node that has applied so many more entries of its log
  abbrev applied : ℕ → Node C S → Node C S
  applied k n = record n {
    last_applied = n.last_applied + k;
    machine = replay n.machine (take k (drop n.last_applied n.storage.log));
  }

  apply_rounds_lem :
      (k : ℕ) (n : Node C S)
      → n.last_applied + k ≤ length n.storage.log
      → apply_rounds cfg k n ≡ ok (applied k n)
  unfolding apply_rounds
  apply_rounds_lem zero n h =
      ap (λ (i : ℕ). ok (moved i n.machine n))
        (let e : n.last_applied ≡ n.last_applied + 0 = omega arith in e)
  apply_rounds_lem (suc k) n h =
      let (e, found) = get_elem?-lt n.storage.log n.last_applied (omega arith) in
      let next : Node C S = record n {
        last_applied = suc n.last_applied;
        machine = cfg.apply_command n.machine e.command;
      } in
      let rounds : apply_rounds cfg (suc k) n ≡ apply_rounds cfg k next =
        rw (found, apply_rounds) in
      rounds
      ∙ apply_rounds_lem k next (omega arith)
      ∙ ap
          (λ (i : ℕ).
            ok (moved i (replay next.machine (take k (drop (suc n.last_applied) n.storage.log))) n))
          (let i : suc n.last_applied + k ≡ n.last_applied + suc k = omega arith in i)
      ∙ ap
          (λ (es : List (LogEntry C)).
            ok (moved (n.last_applied + suc k) (replay n.machine (take (suc k) es)) n))
          (sym (drop-at n.storage.log n.last_applied e found))

  -- Where the commit index is within the log and not behind what was applied, no assertion fails,
  -- and the state machine gets the commands of exactly the entries between the two, in their order.
  pub apply_committed_total :
      (n : Node C S)
      → n.last_applied ≤ n.commit_index
      → n.commit_index ≤ length n.storage.log
      → apply_committed cfg n
        ≡ ok (record n {
          last_applied = n.commit_index;
          machine =
              replay n.machine
                (take (n.commit_index - n.last_applied) (drop n.last_applied n.storage.log));
        })
  unfolding apply_committed
  apply_committed_total n behind inside =
      apply_rounds_lem (n.commit_index - n.last_applied) n (omega arith)
      ∙ ap
          (λ (i : ℕ). ok (
            moved i
              (replay n.machine
                (take (n.commit_index - n.last_applied) (drop n.last_applied n.storage.log)))
              n))
          (let i : n.last_applied + (n.commit_index - n.last_applied) ≡ n.commit_index =
              omega arith in
            i)
