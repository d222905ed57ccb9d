-- ===== src/Ledger/Replay.antt =====
-- Replaying entries that a replica has applied before.
use distributed_transaction.Prelude.{
  String, ◌≡◌, refl, ap, none, some, List, [], ◌∷◌, ◌++◌, arith, get, put, get-put_self, get-put,
  string_eq, eq_iff, Option-cases, inl, inr, Dict,
}
use distributed_transaction.Models.{LedgerEntry}
use distributed_transaction.Ledger.{LedgerStateMachine, ApplyResult, apply, apply_new, run}

-- A new entry's result is what gets recorded.
pub results-apply_new :
    (sm : LedgerStateMachine) (e : LedgerEntry)
    → (apply_new sm e).0.results ≡ put e.entry_id (apply_new sm e).1 sm.results
unfolding apply_new
results-apply_new sm e = ground arith

pub apply_cached :
    (sm : LedgerStateMachine) (e : LedgerEntry) (r : ApplyResult)
    → get e.entry_id sm.results ≡ some r
    → apply sm e ≡ (sm, r)
unfolding apply
apply_cached sm e r h = rw (h, apply)

pub apply_fresh :
    (sm : LedgerStateMachine) (e : LedgerEntry)
    → get e.entry_id sm.results ≡ none
    → apply sm e ≡ apply_new sm e
unfolding apply
apply_fresh sm e h = rw (h, apply)

-- The result that `apply` returns is the one recorded under the entry's id.
pub results-apply_self :
    (sm : LedgerStateMachine) (e : LedgerEntry)
    → get e.entry_id (apply sm e).0.results ≡ some (apply sm e).1
results-apply_self sm e = elim (Option-cases (get e.entry_id sm.results)) [
  | inl fresh ↦
      rw (apply_fresh sm e fresh, results-apply_new sm e) (get-put_self e.entry_id _ sm.results)
  | inr (r, old) ↦ rw (apply_cached sm e r old) old
]

put_keep :
    (k j : String) (r q : ApplyResult) (d : Dict String ApplyResult)
    → get k d ≡ none
    → get j d ≡ some r
    → get j (put k q d) ≡ some r
put_keep k j r q d fresh h = ground (arith, get-put k j q d, eq_iff k j)

-- A recorded result is never changed.
pub results-apply_keep :
    (sm : LedgerStateMachine) (e : LedgerEntry) (k : String) (r : ApplyResult)
    → get k sm.results ≡ some r
    → get k (apply sm e).0.results ≡ some r
results-apply_keep sm e k r h = elim (Option-cases (get e.entry_id sm.results)) [
  | inl fresh ↦
      rw (apply_fresh sm e fresh, results-apply_new sm e)
        (put_keep e.entry_id k r _ sm.results fresh h)
  | inr (q, old) ↦ rw (apply_cached sm e q old) h
]

results-run_keep :
    (sm : LedgerStateMachine) (es : List LedgerEntry) (k : String) (r : ApplyResult)
    → get k sm.results ≡ some r
    → get k (run sm es).results ≡ some r
unfolding run
results-run_keep sm [] k r h = h
results-run_keep sm (e ∷ es) k r h =
    results-run_keep (apply sm e).0 es k r (results-apply_keep sm e k r h)

-- Once an entry has been applied, applying any entry with its id again, after whatever other
-- entries, changes nothing and returns the result of the first time.
pub apply_replayed :
    (sm : LedgerStateMachine) (e e' : LedgerEntry) (es : List LedgerEntry)
    → e'.entry_id ≡ e.entry_id
    → apply (run (apply sm e).0 es) e' ≡ (run (apply sm e).0 es, (apply sm e).1)
apply_replayed sm e e' es same = apply_cached (run (apply sm e).0 es) e' (apply sm e).1 (
    rw same
      (results-run_keep (apply sm e).0 es e.entry_id (apply sm e).1 (results-apply_self sm e)))

pub run-append :
    (sm : LedgerStateMachine) (xs ys : List LedgerEntry) → run sm (xs ++ ys) ≡ run (run sm xs) ys
unfolding run
run-append sm [] ys = refl
run-append sm (x ∷ xs) ys = run-append (apply sm x).0 xs ys

-- every entry of the list has a recorded result
abbrev pub AllApplied : LedgerStateMachine → List LedgerEntry → Type 0
AllApplied sm [] = Unit
AllApplied sm (e ∷ es) =
    ((r : ApplyResult) × (get e.entry_id sm.results ≡ some r)) × AllApplied sm es

pub run_applied :
    (sm : LedgerStateMachine) (es : List LedgerEntry) → AllApplied sm es → run sm es ≡ sm
unfolding run
run_applied sm [] h = refl
run_applied sm (e ∷ es) (here, rest) = rw (apply_cached sm e here.0 here.1) (run_applied sm es rest)

pub AllApplied-run : (sm : LedgerStateMachine) (es : List LedgerEntry) → AllApplied (run sm es) es
unfolding run
AllApplied-run sm [] = tt
AllApplied-run sm (e ∷ es) = (
  ((apply sm e).1, results-run_keep (apply sm e).0 es e.entry_id _ (results-apply_self sm e)),
  AllApplied-run (apply sm e).0 es,
)

-- A replica that has applied a prefix of the committed log and is then fed the whole log from its
-- first entry, as after a restart, ends in the state of a replica that applied the log once.
pub run_restarted :
    (sm : LedgerStateMachine) (prefix rest : List LedgerEntry)
    → run (run sm prefix) (prefix ++ rest) ≡ run sm (prefix ++ rest)
run_restarted sm prefix rest =
    rw (run-append (run sm prefix) prefix rest, run-append sm prefix rest)
      (ap (λ s. run s rest) (run_applied (run sm prefix) prefix (AllApplied-run sm prefix)))
