-- ===== src/Raft/Handlers/Storing.antt =====
-- The loop of `handle_append_entries` that stores a leader's entries.
use mathlib.Core.Option
use mathlib.Core.List.{append_assoc}
use mathlib.Core.Path.{subst}
use distributed_transaction.Prelude.{
  ℕ, zero, suc, ◌≤◌, ◌<◌, ◌≡◌, refl, sym, ap, ◌∙◌, nat_eq, ◌==◌, Option, none, some, List, [], ◌∷◌,
  ◌++◌, length, get_elem?, take, length-take, length-append, Bool-cases, Option-cases, inl, inr,
  arith, ok,
}
use distributed_transaction.Raft.Types.{LogEntry}
use distributed_transaction.Raft.Storage.{Storage, term_at, append}
use distributed_transaction.Raft.Handlers.{store_entries}

module _ {A : Type 0} where
  pub get_elem?-append_left :
      (xs ys : List A) (i : ℕ) → i < length xs → get_elem? (xs ++ ys) i ≡ get_elem? xs i
  get_elem?-append_left [] ys i h = absurd (omega arith)
  get_elem?-append_left (x ∷ xs) ys zero h = refl
  get_elem?-append_left (x ∷ xs) ys (suc i) h = get_elem?-append_left xs ys i (omega arith)

  pub get_elem?-append_at : (xs ys : List A) (y : A) → get_elem? (xs ++ y ∷ ys) (length xs) ≡ some y
  get_elem?-append_at [] ys y = refl
  get_elem?-append_at (x ∷ xs) ys y = get_elem?-append_at xs ys y

  get_elem?-take_left : (n i : ℕ) (xs : List A) → i < n → get_elem? (take n xs) i ≡ get_elem? xs i
  get_elem?-take_left zero i xs h = absurd (omega arith)
  get_elem?-take_left (suc n) i [] h = refl
  get_elem?-take_left (suc n) zero (x ∷ xs) h = refl
  get_elem?-take_left (suc n) (suc i) (x ∷ xs) h = get_elem?-take_left n i xs (omega arith)

  pub none_past : (xs : List A) (i : ℕ) → get_elem? xs i ≡ none → length xs ≤ i
  none_past [] i h = omega arith
  none_past (x ∷ xs) zero h = cc
  none_past (x ∷ xs) (suc i) h = omega (arith, none_past xs i h)

  pub some_before : (xs : List A) (i : ℕ) (x : A) → get_elem? xs i ≡ some x → i < length xs
  some_before [] i x h = cc
  some_before (y ∷ xs) zero x h = omega arith
  some_before (y ∷ xs) (suc i) x h = omega (arith, some_before xs i x h)

no_term : {t : ℕ} → ◌≡◌ {A = Option ℕ} none (some t) → ⊥
no_term h = cc

module _ {C : Type 0} where
  -- The log has, after a number of entries, entries of the terms of the list.
  abbrev pub Agrees : Storage C → ℕ → List (LogEntry C) → Type 0
  Agrees s prev [] = Unit
  Agrees s prev (e ∷ es) = (term_at s (suc prev) ≡ some e.term) × Agrees s (suc prev) es

  -- the entries up to an index are the same
  abbrev pub SameUpTo : ℕ → Storage C → Storage C → Type 0
  SameUpTo prev s s' = (i : ℕ) → i < prev → get_elem? s'.log i ≡ get_elem? s.log i

  Agrees-append :
      (s : Storage C) (n : ℕ) (xs es : List (LogEntry C))
      → length xs ≡ n
      → Agrees (record s { log = xs ++ es }) n es
  Agrees-append s n xs [] h = tt
  Agrees-append s n xs (e ∷ es) h = (
    ap (Option.map (λ (x : LogEntry C). x.term))
        (ap (λ (k : ℕ). get_elem? (xs ++ e ∷ es) k) (sym h) ∙ get_elem?-append_at xs es e),
    subst (λ (log : List (LogEntry C)). Agrees (record s { log = log }) (suc n) es)
        (append_assoc xs (e ∷ []) es)
        (Agrees-append s (suc n) (xs ++ e ∷ []) es (omega (arith, length-append xs (e ∷ [])))),
  )

  -- Entries that are there already change nothing.
  store_entries_again :
      (s : Storage C) (prev : ℕ) (es : List (LogEntry C))
      → Agrees s prev es
      → store_entries s (suc prev) es ≡ ok s
  unfolding store_entries
  store_entries_again s prev [] a = refl
  store_entries_again s prev (e ∷ es) (here, a) =
      rw (here, store_entries) (ground (arith, store_entries_again s (suc prev) es a))

  term_same :
      (s s' : Storage C) (prev : ℕ) (t : ℕ)
      → SameUpTo (suc prev) s s'
      → term_at s (suc prev) ≡ some t
      → term_at s' (suc prev) ≡ some t
  term_same s s' prev t same h =
      ap (Option.map (λ (x : LogEntry C). x.term)) (same prev (omega arith)) ∙ h

  none_at : (s : Storage C) (prev : ℕ) → term_at s (suc prev) ≡ none → length s.log ≤ prev
  none_at s prev h = elim (Option-cases (get_elem? s.log prev)) [
    | inl missing ↦ none_past s.log prev missing
    | inr (x, found) ↦ absurd (no_term (sym h ∙ ap (Option.map (λ (y : LogEntry C). y.term)) found))
  ]

  some_at : (s : Storage C) (prev t : ℕ) → term_at s (suc prev) ≡ some t → suc prev ≤ length s.log
  some_at s prev t h = elim (Option-cases (get_elem? s.log prev)) [
    | inl missing ↦
        absurd (no_term (sym (ap (Option.map (λ (y : LogEntry C). y.term)) missing) ∙ h))
    | inr (x, found) ↦ omega (arith, some_before s.log prev x found)
  ]

  -- Stored where a log has the entry before them, a leader's entries raise nothing: the log then
  -- has their terms in their places, what stood before them is as it was, and storing them again
  -- changes nothing.
  pub store_entries_total :
      (s : Storage C) (prev : ℕ) (es : List (LogEntry C))
      → prev ≤ length s.log
      → (s' : Storage C) × (store_entries s (suc prev) es ≡ ok s')
        × SameUpTo prev s s'
        × Agrees s' prev es
        × (store_entries s' (suc prev) es ≡ ok s')
  unfolding store_entries
  store_entries_total s prev [] h = (s, refl, λ i b. refl, tt, refl)
  store_entries_total s prev (e ∷ es) h = elim (Option-cases (term_at s (suc prev))) [
    | inl missing ↦
        let end : length s.log ≡ prev = omega (arith, none_at s prev missing) in
        let a = Agrees-append s prev s.log (e ∷ es) end in
        rw (missing, store_entries)
          (
            append s (e ∷ es),
            refl,
            λ i b. get_elem?-append_left s.log (e ∷ es) i (omega arith),
            a,
            store_entries_again (append s (e ∷ es)) prev (e ∷ es) a,
          )
    | inr (t, there) ↦ elim (Bool-cases (t == e.term)) [
      | inl same ↦
          let (s', f, kept, a, again) =
            store_entries_total s (suc prev) es (some_at s prev t there) in
          let here : term_at s' (suc prev) ≡ some e.term =
            term_same s s' prev e.term kept (there ∙ ap some (ground arith)) in
          rw (there, same, store_entries)
            (
              s',
              f,
              λ i b. kept i (omega arith),
              (here, a),
              store_entries_again s' prev (e ∷ es) (here, a),
            )
      | inr other ↦
          let cut = take prev s.log in
          let size : length cut ≡ prev = omega (arith, length-take prev s.log) in
          let a = Agrees-append s prev cut (e ∷ es) size in
          let s' : Storage C = record s { log = cut ++ e ∷ es } in
          rw (there, other, store_entries)
            (
              s',
              refl,
              λ i b.
                  get_elem?-append_left cut (e ∷ es) i (omega arith)
                  ∙ get_elem?-take_left prev i s.log b,
              a,
              store_entries_again s' prev (e ∷ es) a,
            )
    ]
  ]
