-- ===== src/Raft/Matching/Merge.antt =====
-- Where entries are unique, storing a leader's entries leaves a log as it is, or makes it the
-- leader's.
use mathlib.Core.Option
use mathlib.Core.List.{append_assoc, append-nil}
use distributed_transaction.Prelude.{
  ℕ, zero, suc, ◌≤◌, ◌<◌, ◌≡◌, refl, sym, ap, ◌∙◌, nat_eq, ◌==◌, String, Option, none, some, List,
  [], ◌∷◌, ◌++◌, length, false, get_elem?, take, length-take, length-append, Bool-cases,
  Option-cases, ◌⊎◌, inl, inr, arith, ok, ok-injective,
}
use distributed_transaction.Raft.Types.{LogEntry, AppendEntriesArgs}
use distributed_transaction.Raft.Storage.{Storage}
use distributed_transaction.Raft.Handlers.{store_entries}
use distributed_transaction.Raft.Handlers.Storing.{
  get_elem?-append_left, get_elem?-append_at, none_past, some_before,
}
use distributed_transaction.Raft.Commitment.Prefixes.{
  Prefix, Prefix-take, Prefix-append, get_elem?-Prefix,
}
use distributed_transaction.Raft.Matching.Trails.{Made, Grown, term_in, Carries}

module _ {A : Type 0} where
  pub take_all : (xs : List A) (n : ℕ) → length xs ≤ n → take n xs ≡ xs
  take_all [] zero h = refl
  take_all [] (suc n) h = refl
  take_all (x ∷ xs) zero h = absurd (omega arith)
  take_all (x ∷ xs) (suc n) h = ap (λ (ys : List A). x ∷ ys) (take_all xs n (omega arith))

  take-append_length : (xs ys : List A) (n : ℕ) → length xs ≡ n → take n (xs ++ ys) ≡ xs
  take-append_length [] ys zero h = refl
  take-append_length [] ys (suc n) h = absurd (omega arith)
  take-append_length (x ∷ xs) ys zero h = absurd (omega arith)
  take-append_length (x ∷ xs) ys (suc n) h =
      ap (λ (zs : List A). x ∷ zs) (take-append_length xs ys n (omega arith))

  take-snoc :
      (xs : List A) (n : ℕ) (x : A)
      → get_elem? xs n ≡ some x
      → take (suc n) xs ≡ take n xs ++ x ∷ []
  take-snoc [] n x h = cc
  take-snoc (y ∷ xs) zero x h = ground arith
  take-snoc (y ∷ xs) (suc n) x h = ap (λ (zs : List A). y ∷ zs) (take-snoc xs n x h)

  pub take_front : (xs ys : List A) (n : ℕ) → n ≤ length xs → take n (xs ++ ys) ≡ take n xs
  take_front xs ys zero h = refl
  take_front [] ys (suc n) h = absurd (omega arith)
  take_front (x ∷ xs) ys (suc n) h = ap (λ (zs : List A). x ∷ zs) (take_front xs ys n (omega arith))

no_term : {t : ℕ} → ◌≡◌ {A = Option ℕ} none (some t) → ⊥
no_term h = cc

same_number : {t u : ℕ} → ◌≡◌ {A = Option ℕ} (some t) (some u) → t ≡ u
same_number h = cc

one_entry :
    {C : Type 0} {x y : LogEntry C} → ◌≡◌ {A = Option (LogEntry C)} (some x) (some y) → x ≡ y
one_entry h = cc

module _ {C : Type 0} where
  -- an entry of a term and a place is one entry, and so are those before it
  abbrev pub Unique : Made C → Type 0
  Unique made =
      (t : ℕ) (x y : String) (p q : List (LogEntry C))
      → made t x p
      → made t y q
      → length p ≡ length q
      → p ≡ q

  module _ (made : Made C) (unique : Unique made) where
    pub same_prefix :
        (l m : List (LogEntry C)) (i : ℕ) (e e' : LogEntry C)
        → Grown made l
        → Grown made m
        → get_elem? l i ≡ some e
        → get_elem? m i ≡ some e'
        → e.term ≡ e'.term
        → take (suc i) l ≡ take (suc i) m
    same_prefix l m i e e' gl gm hl hm same =
        let (x, p) = gl i e hl in
        let (y, q) = gm i e' hm in
        unique e.term x y (take (suc i) l) (take (suc i) m) p (rw same q) (
          omega (
            arith,
            length-take (suc i) l,
            length-take (suc i) m,
            some_before l i e hl,
            some_before m i e' hm,
          ))

    -- what storing a leader's log makes of a log: it has all of it already, or becomes it, and then
    -- is not cut short
    abbrev pub Merged : List (LogEntry C) → List (LogEntry C) → List (LogEntry C) → Type 0
    Merged l m l' = ((l' ≡ l) × Prefix m l) ⊎ ((l' ≡ m) × (Prefix m l → Prefix l m))

    -- the entry at a place of the leader's log differs
    not_part :
        (l before es : List (LogEntry C)) (n : ℕ) (x e : LogEntry C)
        → length before ≡ n
        → get_elem? l n ≡ some x
        → (x.term == e.term) ≡ false
        → Prefix (before ++ e ∷ es) l
        → ⊥
    not_part l before es n x e size found differs p =
        let there =
          ap (λ (k : ℕ). get_elem? (before ++ e ∷ es) k) (sym size)
          ∙ get_elem?-append_at before es e in
        let same = sym found ∙ get_elem?-Prefix (before ++ e ∷ es) l n e p there in
        ground (arith, one_entry same)

    store_cases :
        (s : Storage C) (n : ℕ) (before es : List (LogEntry C)) {s' : Storage C}
        → length before ≡ n
        → n ≤ length s.log
        → take n s.log ≡ before
        → Grown made s.log
        → Grown made (before ++ es)
        → store_entries s (suc n) es ≡ ok s'
        → Merged s.log (before ++ es) s'.log
    unfolding store_entries
    store_cases s n before [] size inside prefix gl gm h = inl (
      ap (λ (x : Storage C). x.log) (sym (ok-injective h)),
      rw append-nil (rw prefix at (Prefix-take n s.log)),
    )
    store_cases s n before (e ∷ es) {s'} size inside prefix gl gm h =
        elim (Option-cases (get_elem? s.log n)) [
          | inl missing ↦
              let end = none_past s.log n missing in
              let done = rw (missing, store_entries) at h in
              let all = sym (take_all s.log n end) ∙ prefix in
              inr (
                ap (λ (x : Storage C). x.log) (sym (ok-injective done))
                    ∙ ap (λ (l : List (LogEntry C)). l ++ e ∷ es) all,
                λ p. rw all (Prefix-append before (e ∷ es)),
              )
          | inr (x, found) ↦ elim (Bool-cases (x.term == e.term)) [
            | inr differs ↦
                let done = rw (found, differs, store_entries) at h in
                inr (
                  ap (λ (x : Storage C). x.log) (sym (ok-injective done))
                      ∙ ap (λ (l : List (LogEntry C)). l ++ e ∷ es) prefix,
                  λ p. absurd (not_part s.log before es n x e size found differs p),
                )
            | inl agrees ↦
                let next = rw (found, agrees, store_entries) at h in
                let there : get_elem? (before ++ e ∷ es) n ≡ some e =
                  ap (λ (k : ℕ). get_elem? (before ++ e ∷ es) k) (sym size)
                  ∙ get_elem?-append_at before es e in
                let same =
                  same_prefix s.log (before ++ e ∷ es) n x e gl gm found there (ground arith) in
                let longer =
                  take-append_length (before ++ e ∷ []) es (suc n)
                    (omega (arith, length-append before (e ∷ []))) in
                let split = append_assoc before (e ∷ []) es in
                let ih =
                  store_cases s (suc n) (before ++ e ∷ []) es {s' = s'}
                    (omega (arith, length-append before (e ∷ []))) (some_before s.log n x found)
                    (same ∙ ap (λ (l : List (LogEntry C)). take (suc n) l) (sym split) ∙ longer) gl
                    (rw split gm) next in
                rw split at ih
          ]
        ]

    -- the entry of a term at a place
    entry_at :
        (l : List (LogEntry C)) (k t : ℕ)
        → term_in l (suc k) ≡ some t
        → (e : LogEntry C) × (get_elem? l k ≡ some e) × (e.term ≡ t)
    entry_at l k t h = elim (Option-cases (get_elem? l k)) [
      | inl missing ↦
          absurd (no_term (sym (ap (Option.map (λ (e : LogEntry C). e.term)) missing) ∙ h))
      | inr (e, found) ↦
          (e, found, same_number (sym (ap (Option.map (λ (x : LogEntry C). x.term)) found) ∙ h))
    ]

    -- the log before the entries is the follower's log up to there
    before_known :
        (s : Storage C) (prev : ℕ) (before : List (LogEntry C)) (o : Option ℕ)
        → length before ≡ prev
        → Grown made s.log
        → Grown made before
        → (0 < prev → term_in s.log prev ≡ o)
        → (0 < prev → o ≡ none → ⊥)
        → term_in before prev ≡ o
        → (prev ≤ length s.log) × (take prev s.log ≡ before)
    before_known s zero [] o size gl gb fits known last = (omega arith, refl)
    before_known s zero (e ∷ es) o size gl gb fits known last = absurd (omega arith)
    before_known s (suc k) before none size gl gb fits known last =
        absurd (known (omega arith) refl)
    before_known s (suc k) before (some t) size gl gb fits known last =
        let (x, there, p) = entry_at s.log k t (fits (omega arith)) in
        let (y, here, q) = entry_at before k t last in
        (
          some_before s.log k x there,
          same_prefix s.log before k x y gl gb there here (p ∙ sym q)
              ∙ take_all before (suc k) (omega arith),
        )

    Grown-front : (xs ys : List (LogEntry C)) → Grown made (xs ++ ys) → Grown made xs
    Grown-front xs ys g i e h =
        let inside = some_before xs i e h in
        let (x, p) = g i e (get_elem?-append_left xs ys i inside ∙ h) in
        (x, rw (take_front xs ys (suc i) inside) at p)

    pub stored_cases :
        (s : Storage C) (args : AppendEntriesArgs C) (before : List (LogEntry C)) {s' : Storage C}
        → length before ≡ args.prev_log_index
        → term_in before args.prev_log_index ≡ args.prev_log_term
        → Grown made (before ++ args.entries)
        → Grown made s.log
        → (0 < args.prev_log_index → term_in s.log args.prev_log_index ≡ args.prev_log_term)
        → (0 < args.prev_log_index → args.prev_log_term ≡ none → ⊥)
        → store_entries s (suc args.prev_log_index) args.entries ≡ ok s'
        → Merged s.log (before ++ args.entries) s'.log
    stored_cases s args before {s'} size last g gl fits known h =
        let (inside, prefix) =
          before_known s args.prev_log_index before args.prev_log_term size gl
            (Grown-front before args.entries g) fits known last in
        store_cases s args.prev_log_index before args.entries {s' = s'} size inside prefix gl g h

    pub stored-Grown :
        (s : Storage C) (args : AppendEntriesArgs C) {s' : Storage C}
        → Grown made s.log
        → Carries made args
        → (0 < args.prev_log_index → term_in s.log args.prev_log_index ≡ args.prev_log_term)
        → (0 < args.prev_log_index → args.prev_log_term ≡ none → ⊥)
        → store_entries s (suc args.prev_log_index) args.entries ≡ ok s'
        → Grown made s'.log
    stored-Grown s args gl (inl (inside, gap)) fits known h = absurd (known inside gap)
    stored-Grown s args {s'} gl (inr (before, size, last, g)) fits known h =
        elim (stored_cases s args before {s' = s'} size last g gl fits known h) [
          | inl (kept, p) ↦ rw kept gl
          | inr (taken, p) ↦ rw taken g
        ]
