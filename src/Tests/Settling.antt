-- ===== src/Tests/Settling.antt =====
-- The ledger at concrete inputs.
use distributed_transaction.Prelude.{
  ◌≡◌, ◌≢◌, refl, eq_iff, true, false, ◌==◌, Bool-cases, inl, inr, [], ◌∷◌, List, ◌++◌, String,
  get_default-put, if◌then◌else◌, string_eq,
}
use distributed_transaction.Prelude.Int.{ℤ, pos, negsuc, ◌+ℤ◌, int_laws}
use distributed_transaction.Models.{LedgerEntry}
use distributed_transaction.Ledger.{LedgerStateMachine, init, balance, apply, apply_new, run}
use distributed_transaction.Ledger.Replay.{apply_replayed, run_restarted}
use distributed_transaction.Ledger.Funds.{
  IsFunded, run-IsFunded, effects, balance-run, no_double_spend,
}

abbrev entry : String → ℤ → LedgerEntry
entry entry_id delta = record {
  transaction_id = entry_id;
  account_id = "alice";
  delta = delta;
  entry_id = entry_id;
  created_at = 0;
}

abbrev start : LedgerStateMachine
start = init (("alice", pos 100) ∷ [])

-- 60 twice from an account of 100, then the first draw again
abbrev log : List LedgerEntry
log = entry "t1" (negsuc 59) ∷ entry "t2" (negsuc 59) ∷ entry "t1" (negsuc 59) ∷ []

start_balance : (a : String) → balance start a ≡ (if "alice" == a then pos 100 else pos 0)
start_balance a = get_default-put "alice" a (pos 0) (pos 100) []

start-IsFunded : IsFunded start
start-IsFunded = record {
  at = λ a. elim (Bool-cases ("alice" == a)) [
    | inl e ↦ rw (start_balance a, e) (omega int_laws)
    | inr e ↦ rw (start_balance a, e) (omega int_laws)
  ];
}

run-IsFunded_example : IsFunded (run start log)
run-IsFunded_example = run-IsFunded start log start-IsFunded

apply_replayed_example :
    apply (run (apply start (entry "t1" (negsuc 59))).0 log) (entry "t1" (pos 5))
    ≡ (run (apply start (entry "t1" (negsuc 59))).0 log, (apply start (entry "t1" (negsuc 59))).1)
apply_replayed_example = apply_replayed start (entry "t1" (negsuc 59)) (entry "t1" (pos 5)) log refl

run_restarted_example :
    run (run start log) (log ++ entry "t3" (pos 7) ∷ [])
    ≡ run start (log ++ entry "t3" (pos 7) ∷ [])
run_restarted_example = run_restarted start log (entry "t3" (pos 7) ∷ [])

balance-run_example :
    balance (run start log) "alice" ≡ balance start "alice" +ℤ effects start log "alice"
balance-run_example = balance-run start log "alice"

balance_left : balance (run start log) "alice" ≡ pos 40
unfolding run apply apply_new ◌+ℤ◌
balance_left = refl

two_ids : ◌≢◌ {A = String} "t1" "t2"
two_ids h = let e : false ≡ true = (eq_iff "t1" "t2").1 h in cc

no_double_spend_example :
    let (sm', r) = apply start (entry "t1" (negsuc 59)) in
    let (sm'', r') = apply sm' (entry "t2" (negsuc 59)) in
    (r.accepted ≡ true) × (r'.accepted ≡ false) × (balance sm'' "alice" ≡ pos 40)
unfolding ◌+ℤ◌
no_double_spend_example =
    no_double_spend start (entry "t1" (negsuc 59)) (entry "t2" (negsuc 59)) refl refl two_ids refl
      (omega int_laws) (omega int_laws)
