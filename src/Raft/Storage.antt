-- ===== src/Raft/Storage.antt =====
-- raft/storage.py: `InMemoryStorage`, the state that a node keeps over a restart. Log indices
-- begin at 1, and index 0 stands for an entry of term 0 before the first.
use mathlib.Core.Option
use distributed_transaction.Prelude.{
  ℕ, zero, suc, ◌-◌, String, Option, none, some, List, [], ◌∷◌, ◌++◌, length, get_elem?, take, drop,
  Result, ok, raise,
}
use distributed_transaction.Raft.Types.{LogEntry, RaftError, index_not_positive}

pub record Storage (C : Type 0) : Type 0 where
  pub current_term : ℕ
  pub voted_for : Option String
  pub log : List (LogEntry C)

-- `InMemoryStorage.__init__`
abbrev pub empty_storage : {C : Type 0} → Storage C
empty_storage = record { current_term = 0; voted_for = none; log = [] }

-- `self._log[-1].term if self._log else 0`
abbrev pub last_entry_term : {C : Type 0} → List (LogEntry C) → ℕ
last_entry_term [] = 0
last_entry_term (e ∷ []) = e.term
last_entry_term (e ∷ d ∷ es) = last_entry_term (d ∷ es)

module _ {C : Type 0} (s : Storage C) where
  abbrev pub set_current_term : ℕ → Storage C
  set_current_term term = record s { current_term = term }

  abbrev pub set_voted_for : Option String → Storage C
  set_voted_for candidate_id = record s { voted_for = candidate_id }

  abbrev pub last_index : ℕ
  last_index = length s.log

  abbrev pub last_term : ℕ
  last_term = last_entry_term s.log

  abbrev pub get_entry : ℕ → Option (LogEntry C)
  get_entry zero = none
  get_entry (suc i) = get_elem? s.log i

  abbrev pub term_at : ℕ → Option ℕ
  term_at zero = some 0
  term_at (suc i) = Option.map (λ e. e.term) (get_elem? s.log i)

  -- an index below 1 is read as 1
  abbrev pub entries_from : ℕ → List (LogEntry C)
  entries_from index = drop (index - 1) s.log

  abbrev pub append : List (LogEntry C) → Storage C
  append entries = record s { log = s.log ++ entries }

  abbrev pub truncate_from : ℕ → Result RaftError (Storage C)
  truncate_from zero = raise index_not_positive
  truncate_from (suc i) = ok (record s { log = take i s.log })
