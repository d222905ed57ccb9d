-- ===== src/Raft/Matching/Trails.antt =====
-- What stands before an entry in the log that it was made in, and the messages that carry it.
use mathlib.Core.Option
use distributed_transaction.Prelude.{
  Bool-cases, ltb, ltb→lt, get_default, string_eq, ℕ, zero, suc, ◌+◌, ◌-◌, ◌<◌, ◌≡◌, refl, sym, ◌∙◌,
  Option, some, none, List, [], ◌∷◌, ◌++◌, length, get_elem?, take, drop, String, arith, ◌⊎◌, inl,
  inr, All, All-mono, take-append-drop, length-take,
}
use distributed_transaction.Raft.Types.{
  LogEntry, Envelope, Message, AppendEntriesArgs, append_entries,
}
use distributed_transaction.Raft.Storage.{Storage, term_at, last_index}
use distributed_transaction.Raft.Node.{Config, Node, append_entries_for, current_term}

-- The entries made so far: the term, the leader that made the entry, and the leader's log up to it.
abbrev pub Made : Type 0 → Type 1
Made C = ℕ → String → List (LogEntry C) → Type 0

module _ {C : Type 0} where
  -- every entry of a log was made with the entries before it
  abbrev pub Grown : Made C → List (LogEntry C) → Type 0
  Grown made log =
      (i : ℕ) (e : LogEntry C)
      → get_elem? log i ≡ some e
      → (x : String) × made e.term x (take (suc i) log)

  -- `term_at`, of a log
  abbrev pub term_in : List (LogEntry C) → ℕ → Option ℕ
  term_in log zero = some 0
  term_in log (suc i) = Option.map (λ (e : LogEntry C). e.term) (get_elem? log i)

  -- Entries are sent with the log before them, of which the message has the length and the last
  -- term; only a message that no log fits has no such term.
  abbrev pub Carries : Made C → AppendEntriesArgs C → Type 0
  Carries made args =
      ((0 < args.prev_log_index) × (args.prev_log_term ≡ none))
      ⊎ ((before : List (LogEntry C)) × (length before ≡ args.prev_log_index)
          × (term_in before args.prev_log_index ≡ args.prev_log_term)
          × Grown made (before ++ args.entries))

  abbrev pub SoundMessage : Made C → Message C → Type 0
  SoundMessage made (append_entries args) = Carries made args
  SoundMessage made _ = Unit

  abbrev pub Sound : Made C → Envelope C → Type 0
  Sound made e = SoundMessage made e.message

  module _ (made made' : Made C)
      (up : (t : ℕ) (x : String) (q : List (LogEntry C)) → made t x q → made' t x q) where
    pub Grown-mono : (log : List (LogEntry C)) → Grown made log → Grown made' log
    Grown-mono log g i e h = let (x, q) = g i e h in (x, up e.term x (take (suc i) log) q)

    Carries-mono : (args : AppendEntriesArgs C) → Carries made args → Carries made' args
    Carries-mono args (inl gap) = inl gap
    Carries-mono args (inr (before, size, last, g)) =
        inr (before, size, last, Grown-mono (before ++ args.entries) g)

    SoundMessage-mono : (m : Message C) → SoundMessage made m → SoundMessage made' m
    SoundMessage-mono (append_entries args) h = Carries-mono args h
    SoundMessage-mono _ h = tt

    pub Sound-mono : (es : List (Envelope C)) → All (Sound made) es → All (Sound made') es
    Sound-mono es = All-mono (Sound made) (Sound made') es (λ e. SoundMessage-mono e.message)

  pub term_in-take : (log : List (LogEntry C)) (k : ℕ) → term_in (take k log) k ≡ term_in log k
  term_in-take log zero = refl
  term_in-take [] (suc k) = refl
  term_in-take (e ∷ log) (suc zero) = refl
  term_in-take (e ∷ log) (suc (suc k)) = term_in-take log (suc k)

  pub term_in_past : (log : List (LogEntry C)) (k : ℕ) → length log < k → term_in log k ≡ none
  term_in_past log zero h = absurd (omega arith)
  term_in_past [] (suc k) h = refl
  term_in_past (e ∷ log) (suc zero) h = absurd (omega arith)
  term_in_past (e ∷ log) (suc (suc k)) h = term_in_past log (suc k) (omega arith)

pub term_at-term_in : {C : Type 0} (s : Storage C) (k : ℕ) → term_at s k ≡ term_in s.log k
term_at-term_in s zero = refl
term_at-term_in s (suc k) = refl

module _ {C S : Type 0} (cfg : Config C S) where
  -- a message with the entries after a number of entries of the log
  abbrev pub slice : Node C S → ℕ → AppendEntriesArgs C
  slice n k = record {
    term = current_term n;
    leader_id = cfg.node_id;
    prev_log_index = k;
    prev_log_term = term_at n.storage k;
    entries = drop k n.storage.log;
    leader_commit = n.commit_index;
  }

module _ {C S : Type 0} (cfg : Config C S) (made : Made C) where
  slice-Carries : (n : Node C S) (k : ℕ) → Grown made n.storage.log → Carries made (slice cfg n k)
  slice-Carries n k g = elim (Bool-cases (ltb (length n.storage.log) k)) [
    | inl past ↦
        let over = ltb→lt (length n.storage.log) k past in
        inl (omega arith, term_at-term_in n.storage k ∙ term_in_past n.storage.log k over)
    | inr inside ↦ inr (
      take k n.storage.log,
      length-take k n.storage.log ∙ ground arith,
      term_in-take n.storage.log k ∙ sym (term_at-term_in n.storage k),
      rw (take-append-drop k n.storage.log) g,
    )
  ]

  -- What a node sends to a peer comes from its log.
  pub append_entries_for-Sound :
      (n : Node C S) (peer : String)
      → Grown made n.storage.log
      → SoundMessage made (append_entries_for cfg n peer)
  unfolding append_entries_for
  append_entries_for-Sound n peer g =
      slice-Carries n (get_default peer (last_index n.storage + 1) n.next_index - 1) g
