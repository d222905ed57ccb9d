-- ===== src/Ledger.antt =====
-- settlement/ledger_state_machine.py: the balances, the results by entry id, and `apply`. The lock
-- makes each call atomic, so a call is a function of the state.
pub mod Replay
pub mod Funds
use distributed_transaction.Prelude.{
  String, Bool, true, false, Option, none, some, List, [], ◌∷◌, Dict, get, get_default, put,
  if◌then◌else◌, string_eq,
}
use distributed_transaction.Prelude.Int.{ℤ, pos, ◌+ℤ◌, ltb_ℤ}
use distributed_transaction.Models.{LedgerEntry}

-- the `reason` text, by the values formatted into it; `no_reason` is the empty text
pub data RejectReason : Type 0 where
  no_reason : RejectReason
  insufficient_funds : ℤ → ℤ → RejectReason

pub record ApplyResult : Type 0 where
  pub entry_id : String
  pub accepted : Bool
  pub resulting_balance : ℤ
  pub reason : RejectReason

pub record LedgerStateMachine : Type 0 where
  pub balances : Dict String ℤ
  pub results : Dict String ApplyResult

-- `__init__`
abbrev pub init : Dict String ℤ → LedgerStateMachine
init initial_balances = record { balances = initial_balances; results = [] }

abbrev pub balance : LedgerStateMachine → String → ℤ
balance sm account_id = get_default account_id (pos 0) sm.balances

-- the rest of `apply` where no result is cached
unfoldable pub apply_new : LedgerStateMachine → LedgerEntry → LedgerStateMachine × ApplyResult
apply_new sm command =
    let current = balance sm command.account_id in
    let new_balance = current +ℤ command.delta in
    let refused : ApplyResult = record {
      entry_id = command.entry_id;
      accepted = false;
      resulting_balance = current;
      reason = insufficient_funds current command.delta;
    } in
    let done : ApplyResult = record {
      entry_id = command.entry_id;
      accepted = true;
      resulting_balance = new_balance;
      reason = no_reason;
    } in
    if ltb_ℤ new_balance (pos 0)
    then (record sm { results = put command.entry_id refused sm.results }, refused)
    else (
      record sm {
        balances = put command.account_id new_balance sm.balances;
        results = put command.entry_id done sm.results;
      },
      done,
    )

-- `apply`: a cached result is returned as it is, and nothing changes.
unfoldable pub apply : LedgerStateMachine → LedgerEntry → LedgerStateMachine × ApplyResult
apply sm command = elim (get command.entry_id sm.results) [
  | some cached ↦ (sm, cached)
  | none ↦ apply_new sm command
]

-- The state after the entries of a log, in order, as a replica reaches it.
unfoldable pub run : LedgerStateMachine → List LedgerEntry → LedgerStateMachine
run sm [] = sm
run sm (e ∷ es) = run (apply sm e).0 es
