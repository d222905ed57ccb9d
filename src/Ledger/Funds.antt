-- ===== src/Ledger/Funds.antt =====
-- No account is overdrawn, and no money is spent twice.
use distributed_transaction.Prelude.{
  String, ◌≡◌, ◌≢◌, refl, true, false, none, some, List, [], ◌∷◌, arith, get, put, get_default-put,
  get-put_ne, string_eq, eq_iff, Option-cases, ◌⊎◌, inl, inr, if◌then◌else◌, ◌==◌, Bool-cases,
}
use text.Mathlib.TextPositions.{eq_refl}
use distributed_transaction.Prelude.Int.{ℤ, pos, ◌+ℤ◌, ◌≤ℤ◌, int_laws, ltb_ℤ}
use distributed_transaction.Models.{LedgerEntry}
use distributed_transaction.Ledger.{LedgerStateMachine, balance, apply, apply_new, run}
use distributed_transaction.Ledger.Replay.{apply_cached, apply_fresh, results-apply_new}

pub record IsFunded (sm : LedgerStateMachine) : Type 0 where
  pub at : (a : String) → pos 0 ≤ℤ balance sm a

-- The two outcomes of a new entry.
pub record Refused (sm : LedgerStateMachine) (e : LedgerEntry) : Type 0 where
  pub verdict : (apply_new sm e).1.accepted ≡ false
  pub short : ¬ (pos 0 ≤ℤ balance sm e.account_id +ℤ e.delta)
  pub kept : (apply_new sm e).0.balances ≡ sm.balances

pub record Posted (sm : LedgerStateMachine) (e : LedgerEntry) : Type 0 where
  pub verdict : (apply_new sm e).1.accepted ≡ true
  pub covered : pos 0 ≤ℤ balance sm e.account_id +ℤ e.delta
  pub moved :
      (apply_new sm e).0.balances
      ≡ put e.account_id (balance sm e.account_id +ℤ e.delta) sm.balances

pub apply_new-cases : (sm : LedgerStateMachine) (e : LedgerEntry) → Refused sm e ⊎ Posted sm e
unfolding apply_new
apply_new-cases sm e = elim (Bool-cases (ltb_ℤ (balance sm e.account_id +ℤ e.delta) (pos 0))) [
  | inl short ↦ inl (record { verdict = ground arith; short = ground arith; kept = ground arith })
  | inr covered ↦
      inr (record { verdict = ground arith; covered = ground arith; moved = ground arith })
]

balance_moved :
    (sm : LedgerStateMachine) (e : LedgerEntry) (a : String)
    → Posted sm e
    → balance (apply_new sm e).0 a
      ≡ (if e.account_id == a then balance sm e.account_id +ℤ e.delta else balance sm a)
balance_moved sm e a p = rw (p.moved, get_default-put)

apply_new-IsFunded :
    (sm : LedgerStateMachine) (e : LedgerEntry) → IsFunded sm → IsFunded (apply_new sm e).0
apply_new-IsFunded sm e f = elim (apply_new-cases sm e) [
  | inl r ↦ record { at = λ a. rw r.kept (f.at a) }
  | inr p ↦ record { at = λ a. rw (balance_moved sm e a p) (ground (arith, f.at a, p.covered)) }
]

apply-IsFunded : (sm : LedgerStateMachine) (e : LedgerEntry) → IsFunded sm → IsFunded (apply sm e).0
apply-IsFunded sm e f = elim (Option-cases (get e.entry_id sm.results)) [
  | inl fresh ↦ rw (apply_fresh sm e fresh) (apply_new-IsFunded sm e f)
  | inr (r, old) ↦ rw (apply_cached sm e r old) f
]

-- From balances that are not negative, no sequence of entries overdraws an account.
pub run-IsFunded :
    (sm : LedgerStateMachine) (es : List LedgerEntry) → IsFunded sm → IsFunded (run sm es)
unfolding run
run-IsFunded sm [] f = f
run-IsFunded sm (e ∷ es) f = run-IsFunded (apply sm e).0 es (apply-IsFunded sm e f)

-- what an entry adds to the account `a`: its amount, where it is new, accepted and on that account
abbrev pub effect : LedgerStateMachine → LedgerEntry → String → ℤ
effect sm e a = elim (get e.entry_id sm.results) [
  | some _ ↦ pos 0
  | none ↦ if (apply sm e).1.accepted then (if e.account_id == a then e.delta else pos 0) else pos 0
]

-- the sum of these along a log
abbrev pub effects : LedgerStateMachine → List LedgerEntry → String → ℤ
effects sm [] a = pos 0
effects sm (e ∷ es) a = effect sm e a +ℤ effects (apply sm e).0 es a

balance-apply :
    (sm : LedgerStateMachine) (e : LedgerEntry) (a : String)
    → balance (apply sm e).0 a ≡ balance sm a +ℤ effect sm e a
balance-apply sm e a = elim (Option-cases (get e.entry_id sm.results)) [
  | inl fresh ↦
      rw (fresh, apply_fresh sm e fresh, effect)
        (elim (apply_new-cases sm e) [
          | inl r ↦ rw (r.verdict, r.kept) (omega int_laws)
          | inr p ↦ rw (p.verdict, balance_moved sm e a p) (grind (int_laws, eq_iff e.account_id a))
        ])
  | inr (r, old) ↦ rw (old, apply_cached sm e r old, effect) (omega int_laws)
]

-- An account's balance after a log is its balance before it plus the amounts of the entries that
-- were accepted, each counted once however often the log repeats it.
pub balance-run :
    (sm : LedgerStateMachine) (es : List LedgerEntry) (a : String)
    → balance (run sm es) a ≡ balance sm a +ℤ effects sm es a
unfolding run
balance-run sm [] a = omega int_laws
balance-run sm (e ∷ es) a =
    rw (balance-run (apply sm e).0 es a, balance-apply sm e a) (omega int_laws)

covered_case :
    (sm : LedgerStateMachine) (e : LedgerEntry)
    → pos 0 ≤ℤ balance sm e.account_id +ℤ e.delta
    → Posted sm e
covered_case sm e h = elim (apply_new-cases sm e) [ inl r ↦ absurd (r.short h) | inr p ↦ p ]

short_case :
    (sm : LedgerStateMachine) (e : LedgerEntry)
    → ¬ (pos 0 ≤ℤ balance sm e.account_id +ℤ e.delta)
    → Refused sm e
short_case sm e h = elim (apply_new-cases sm e) [ inl r ↦ r | inr p ↦ absurd (h p.covered) ]

fresh_after :
    (sm : LedgerStateMachine) (d d' : LedgerEntry)
    → get d'.entry_id sm.results ≡ none
    → d.entry_id ≢ d'.entry_id
    → get d'.entry_id (apply_new sm d).0.results ≡ none
fresh_after sm d d' new' distinct =
    rw (results-apply_new sm d, get-put_ne d.entry_id d'.entry_id _ sm.results distinct) new'

-- Two entries with different ids, neither applied before, on one account, which covers the first of
-- them and not both: the first is accepted and the second refused, and the balance is what the first left.
pub no_double_spend :
    (sm : LedgerStateMachine) (d d' : LedgerEntry)
    → get d.entry_id sm.results ≡ none
    → get d'.entry_id sm.results ≡ none
    → d.entry_id ≢ d'.entry_id
    → d.account_id ≡ d'.account_id
    → pos 0 ≤ℤ balance sm d.account_id +ℤ d.delta
    → ¬ (pos 0 ≤ℤ balance sm d.account_id +ℤ d.delta +ℤ d'.delta)
    → let (sm', r) = apply sm d in
      let (sm'', r') = apply sm' d' in
      (r.accepted ≡ true)
      × (r'.accepted ≡ false)
      × (balance sm'' d.account_id ≡ balance sm d.account_id +ℤ d.delta)
no_double_spend sm d d' new new' distinct same covers short =
    let sm' = (apply_new sm d).0 in
    let p = covered_case sm d covers in
    let left : balance sm' d.account_id ≡ balance sm d.account_id +ℤ d.delta =
      rw (balance_moved sm d d.account_id p, eq_refl) in
    let r = short_case sm' d' (λ h. short (rw left at (rw (← same) at h))) in
    rw
      (
        apply_fresh sm d new,
        apply_fresh sm' d' (fresh_after sm d d' new' distinct),
        r.kept,
        r.verdict,
        p.verdict,
      )
      (refl, refl, left)
