-- ===== src/Fraud/Scorer/Velocity.antt =====
-- What the velocity window counts.
use distributed_transaction.Prelude.{
  ℕ, ◌+◌, ◌≤◌, ◌≡◌, refl, sym, ap, ◌∙◌, String, string_eq, ◌==◌, List, [], ◌∷◌, ◌++◌, arith, length,
  ltb, if◌then◌else◌, get_default, get_default-put, put, Bool-cases, inl, inr,
}
use distributed_transaction.Models.{Transaction}
use distributed_transaction.Fraud.Scorer.{Scorer, drop_old, window_after, record_and_count}

-- no time of the list is before an earlier one or after `now`
abbrev pub Ascending : List ℕ → ℕ → Type 0
Ascending [] now = Unit
Ascending (t ∷ []) now = t ≤ now
Ascending (t ∷ u ∷ ts) now = (t ≤ u) × Ascending (u ∷ ts) now

-- the times of a list that are within the window that ends now
abbrev pub within : ℕ → ℕ → List ℕ → List ℕ
within seconds now [] = []
within seconds now (t ∷ ts) =
    let rest = within seconds now ts in if ltb (t + seconds) now then rest else t ∷ rest

-- where the first time is in the window, so are the later ones
within_all :
    (seconds now bound t : ℕ) (ts : List ℕ)
    → now ≤ t + seconds
    → Ascending (t ∷ ts) bound
    → within seconds now ts ≡ ts
within_all seconds now bound t [] h a = refl
within_all seconds now bound t (u ∷ ts) h (le, a) =
    ground (arith, within_all seconds now bound u ts)

drop_old-eq-within :
    (seconds now : ℕ) (ts : List ℕ)
    → Ascending ts now
    → drop_old seconds now ts ≡ within seconds now ts
drop_old-eq-within seconds now [] a = refl
drop_old-eq-within seconds now (t ∷ []) a = refl
drop_old-eq-within seconds now (t ∷ u ∷ ts) (le, a) = elim (Bool-cases (ltb (t + seconds) now)) [
  | inl old ↦ rw old (drop_old-eq-within seconds now (u ∷ ts) a)
  | inr new ↦ rw new (
      ap (λ (x : List ℕ). t ∷ x)
        (sym (within_all seconds now now t (u ∷ ts) (ground arith) (le, a))))
]

Ascending-snoc :
    (ts : List ℕ) (last now : ℕ) → last ≤ now → Ascending ts last → Ascending (ts ++ now ∷ []) now
Ascending-snoc [] last now h a = omega arith
Ascending-snoc (t ∷ []) last now h a = (omega arith, omega arith)
Ascending-snoc (t ∷ u ∷ ts) last now h (le, a) = (le, Ascending-snoc (u ∷ ts) last now h a)

Ascending-tail : (t : ℕ) (ts : List ℕ) (now : ℕ) → Ascending (t ∷ ts) now → Ascending ts now
Ascending-tail t [] now a = tt
Ascending-tail t (u ∷ ts) now (le, a) = a

Ascending-within :
    (seconds last now : ℕ) (ts : List ℕ) → Ascending ts now → Ascending (within seconds last ts) now
Ascending-within seconds last now [] a = tt
Ascending-within seconds last now (t ∷ ts) a = elim (Bool-cases (ltb (t + seconds) last)) [
  | inl old ↦ rw old (Ascending-within seconds last now ts (Ascending-tail t ts now a))
  | inr new ↦ rw (new, within_all seconds last now t ts (ground arith) a) a
]

within-append :
    (seconds now : ℕ) (xs ys : List ℕ)
    → within seconds now (xs ++ ys) ≡ within seconds now xs ++ within seconds now ys
within-append seconds now [] ys = refl
within-append seconds now (x ∷ xs) ys = ground (arith, within-append seconds now xs ys)

-- what a later window keeps of an earlier one
within-within :
    (seconds last now : ℕ) (ts : List ℕ)
    → last ≤ now
    → within seconds now (within seconds last ts) ≡ within seconds now ts
within-within seconds last now [] h = refl
within-within seconds last now (t ∷ ts) h = ground (arith, within-within seconds last now ts)

-- The windows of a scorer stand for the times of all transactions seen: `hist` has those of each
-- account, up to the time `last`.
pub record Tracks (s : Scorer) (hist : String → List ℕ) (last : ℕ) : Type 0 where
  pub ascending : (a : String) → Ascending (get_default a [] s.recent_by_account) last
  pub keeps :
      (a : String) (now : ℕ)
      → last ≤ now
      → within s.config.velocity_window_seconds now (get_default a [] s.recent_by_account)
        ≡ within s.config.velocity_window_seconds now (hist a)

-- the times with one more transaction of an account
abbrev pub with_time : (String → List ℕ) → String → ℕ → String → List ℕ
with_time hist account now a = if account == a then hist a ++ now ∷ [] else hist a

module _ (s : Scorer) (hist : String → List ℕ) (last now : ℕ) (tracks : Tracks s hist last)
    (later : last ≤ now) (account : String) where
  abbrev seconds : ℕ
  seconds = s.config.velocity_window_seconds

  abbrev recent : List ℕ
  recent = get_default account [] s.recent_by_account

  window_in_order : Ascending (recent ++ now ∷ []) now
  window_in_order = Ascending-snoc recent last now later (tracks.ascending account)

  window_after-eq-within : window_after s account now ≡ within seconds now (recent ++ now ∷ [])
  unfolding window_after
  window_after-eq-within = drop_old-eq-within seconds now (recent ++ now ∷ []) window_in_order

  later_window :
      (t : ℕ)
      → last ≤ t
      → within seconds t (recent ++ now ∷ []) ≡ within seconds t (hist account ++ now ∷ [])
  later_window t h =
      within-append seconds t recent (now ∷ [])
      ∙ ap (λ (x : List ℕ). x ++ within seconds t (now ∷ [])) (tracks.keeps account t h)
      ∙ sym (within-append seconds t (hist account) (now ∷ []))

  -- The count is the number of the account's transactions so far, this one included, whose times
  -- lie in the window that ends now.
  count_exact :
      length (window_after s account now) ≡ length (within seconds now (hist account ++ now ∷ []))
  count_exact = ap length (window_after-eq-within ∙ later_window now later)

-- the windows with one more transaction, at an account
window_put :
    (s : Scorer) (account a : String) (w : List ℕ)
    → get_default a [] (put account w s.recent_by_account)
      ≡ (if account == a then w else get_default a [] s.recent_by_account)
window_put s account a w = get_default-put account a [] w s.recent_by_account

Ascending-later : (ts : List ℕ) (last now : ℕ) → last ≤ now → Ascending ts last → Ascending ts now
Ascending-later [] last now h a = tt
Ascending-later (t ∷ []) last now h a = omega arith
Ascending-later (t ∷ u ∷ ts) last now h (le, a) = (le, Ascending-later (u ∷ ts) last now h a)

module _ (s : Scorer) (hist : String → List ℕ) (last now : ℕ) (tracks : Tracks s hist last)
    (later : last ≤ now) (account a : String) where
  -- the window of an account after the call
  abbrev window : List ℕ
  window = if account == a then window_after s account now else get_default a [] s.recent_by_account

  window-Ascending : Ascending window now
  window-Ascending = elim (Bool-cases (account == a)) [
    | inl e ↦
        rw (e, window_after-eq-within s hist last now tracks later account)
          (Ascending-within s.config.velocity_window_seconds now now _
            (window_in_order s hist last now tracks later account))
    | inr e ↦ rw e (Ascending-later _ last now later (tracks.ascending a))
  ]

  window-keeps :
      (t : ℕ)
      → now ≤ t
      → within s.config.velocity_window_seconds t window
        ≡ within s.config.velocity_window_seconds t (with_time hist account now a)
  window-keeps t h = elim (Bool-cases (account == a)) [
    | inl e ↦
        rw (e, window_after-eq-within s hist last now tracks later account)
          (within-within s.config.velocity_window_seconds now t _ h
            ∙ later_window s hist last now tracks later account t (omega arith)
            ∙ ap (λ (x : String). within s.config.velocity_window_seconds t (hist x ++ now ∷ []))
                ((string_eq.same_iff account a).0 e))
    | inr e ↦ rw e (tracks.keeps a t (omega arith))
  ]

-- Over times that never go back, a scorer's windows go on standing for all transactions seen, and
-- the velocity that it counts for a transaction is the number of the account's transactions so
-- far, this one included, whose times lie in the window that ends now.
pub record_and_count-Tracks :
    (txn : Transaction) (now : ℕ) (s : Scorer) (hist : String → List ℕ) (last : ℕ)
    → Tracks s hist last
    → last ≤ now
    → Tracks (record_and_count txn now s).0 (with_time hist txn.account_id now) now
      × ((record_and_count txn now s).1
          ≡ length (within s.config.velocity_window_seconds now (hist txn.account_id ++ now ∷ [])))
unfolding record_and_count
record_and_count-Tracks txn now s hist last tracks later = (
  record {
    ascending = λ a.
        rw (window_put s txn.account_id a (window_after s txn.account_id now))
          (window-Ascending s hist last now tracks later txn.account_id a);
    keeps = λ a t h.
        rw (window_put s txn.account_id a (window_after s txn.account_id now))
          (window-keeps s hist last now tracks later txn.account_id a t h);
  },
  count_exact s hist last now tracks later txn.account_id,
)
