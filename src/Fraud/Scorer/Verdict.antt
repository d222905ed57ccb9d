-- ===== src/Fraud/Scorer/Verdict.antt =====
-- What a score says.
use distributed_transaction.Prelude.{
  ℕ, ◌+◌, ◌-◌, ◌*◌, ◌≤◌, ◌<◌, ◌≡◌, refl, ap, ◌∙◌, ◌>>=◌, String, string_eq, eq_iff, List, [], ◌∷◌,
  ◌++◌, min, Bool, true, false, ◌||◌, arith, length, leb, Result, ok, get, some, none, ◌↔◌, ◌⊎◌,
  inl, inr, ◌==◌, Option,
}
use distributed_transaction.Prelude.Int.{ℤ, pos, negsuc, leb_ℤ}
use distributed_transaction.Fraud.Scorer.Velocity.{Tracks, within, record_and_count-Tracks}
use distributed_transaction.Models.{Transaction, FraudScore, Reason, ModelError, one, check_score}
use distributed_transaction.Fraud.Scorer.{
  Scorer, ScorerConfig, default_config, window_after, record_and_count, is_large, is_flagged,
  is_fast, add_rule, weigh, verdict, score,
}

score_verdict-le_one :
    (s : Scorer) (txn : Transaction) (count now : ℕ) → (verdict s txn count now).score ≤ one
unfolding verdict
score_verdict-le_one s txn count now = omega arith

check_score_in_range : (f : FraudScore) → f.score ≤ one → check_score f ≡ ok f
unfolding check_score
check_score_in_range f h = ground arith

-- Scoring always returns: the score that it builds is never out of range.
pub score_total :
    (txn : Transaction) (now : ℕ) (s : Scorer)
    → score txn now s
      ≡ ok (
        (record_and_count txn now s).0,
        verdict s txn (length (window_after s txn.account_id now)) now,
      )
unfolding score check_score record_and_count
score_total txn now s =
    let count = length (window_after s txn.account_id now) in
    ap
      (λ (r : Result ModelError FraudScore).
        r >>= λ checked. ok ((record_and_count txn now s).0, checked))
      (check_score_in_range (verdict s txn count now) (score_verdict-le_one s txn count now))

three_rules :
    (a b c : Bool) (p q r : Reason)
    → leb 500 (min (add_rule c 600 r (add_rule b 600 q (add_rule a 500 p (0, [])))).0 one)
      ≡ (a || b || c)
three_rules true true true p q r = refl
three_rules true true false p q r = refl
three_rules true false true p q r = refl
three_rules true false false p q r = refl
three_rules false true true p q r = refl
three_rules false true false p q r = refl
three_rules false false true p q r = refl
three_rules false false false p q r = refl

-- a rule applies, with the default configuration, as it is documented
default_verdict :
    (whole : ℕ) (s : Scorer) (txn : Transaction) (count now : ℕ)
    → s.config ≡ default_config whole
    → (verdict s txn count now).is_fraud ≡ (
        is_large (default_config whole) txn
        || is_flagged txn
        || is_fast (default_config whole) count)
unfolding verdict weigh
default_verdict whole s txn count now e =
    ap (λ (config : ScorerConfig). leb config.fraud_threshold (min (weigh config txn count).0 one))
      e
    ∙ three_rules (is_large (default_config whole) txn) (is_flagged txn)
        (is_fast (default_config whole) count) _ _ _

-- at least ten thousand whole units
abbrev pub IsLarge : ℕ → Transaction → Type 0
IsLarge whole txn = (more : ℕ) × (txn.amount ≡ pos (10000 * whole + more))

-- the device of the transaction is marked
abbrev pub IsFlagged : Transaction → Type 0
IsFlagged txn = get "device_flagged" txn.metadata ≡ some "true"

IsLarge-iff :
    (whole : ℕ) (txn : Transaction)
    → (is_large (default_config whole) txn ≡ true) ↔ IsLarge whole txn
IsLarge-iff whole txn = (large_amount_of txn.amount, λ (more, e). rw e (ground arith))
  where
    large_amount_of :
        (a : ℤ)
        → leb_ℤ (pos (10000 * whole)) a ≡ true
        → (more : ℕ) × (a ≡ pos (10000 * whole + more))
    large_amount_of (pos n) h = (n - 10000 * whole, ap pos (ground arith))
    large_amount_of (negsuc n) h = absurd (ground arith)

IsFlagged-iff : (txn : Transaction) → (is_flagged txn ≡ true) ↔ IsFlagged txn
IsFlagged-iff txn = marked (get "device_flagged" txn.metadata)
  where
    marked :
        (o : Option String)
        → ((elim o [ none ↦ false | some v ↦ v == "true" ]) ≡ true) ↔ (o ≡ some "true")
    marked none = ((λ h. cc), (λ h. cc))
    marked (some v) =
        ((λ h. ap some ((eq_iff v "true").0 h)), (λ h. ground (arith, eq_iff v "true")))

fast_iff : (whole count : ℕ) → (is_fast (default_config whole) count ≡ true) ↔ (5 < count)
fast_iff whole count = ((λ h. ground arith), (λ h. ground arith))

false≢true : false ≡ true → ⊥
false≢true h = cc

any_of :
    {A B D : Type 0} (a b c : Bool)
    → (a ≡ true) ↔ A
    → (b ≡ true) ↔ B
    → (c ≡ true) ↔ D
    → ((a || b || c) ≡ true) ↔ (A ⊎ (B ⊎ D))
any_of true b c f g h = ((λ e. inl (f.0 refl)), (λ e. refl))
any_of false true c f g h = ((λ e. inr (inl (g.0 refl))), (λ e. refl))
any_of false false c f g h = (
  (λ e. inr (inr (h.0 e))),
  (λ x. elim x [
    | inl a ↦ absurd (false≢true (f.1 a))
    | inr y ↦ elim y [ inl b ↦ absurd (false≢true (g.1 b)) | inr d ↦ h.1 d ]
  ]),
)

-- A scorer with the default configuration, over times that never go back, raises nothing. It calls
-- a transaction fraud exactly where its amount is at least 10000 whole units, or its metadata have
-- "true" for "device_flagged", or more than five of the account's transactions so far, this one
-- included, were seen in the 60 seconds that end now.
pub score_fraud_iff :
    (whole : ℕ) (txn : Transaction) (now : ℕ) (s : Scorer) (hist : String → List ℕ) (last : ℕ)
    → s.config ≡ default_config whole
    → Tracks s hist last
    → last ≤ now
    → (s' : Scorer) × (f : FraudScore) × (score txn now s ≡ ok (s', f))
      × ((f.is_fraud ≡ true) ↔ (
          IsLarge whole txn
          ⊎ (IsFlagged txn ⊎ (5 < length (within 60 now (hist txn.account_id ++ now ∷ []))))))
unfolding record_and_count
score_fraud_iff whole txn now s hist last e tracks later =
    let count = length (window_after s txn.account_id now) in
    let seen = length (within 60 now (hist txn.account_id ++ now ∷ [])) in
    let counted : count ≡ seen =
      (record_and_count-Tracks txn now s hist last tracks later).1
      ∙ ap
          (λ (config : ScorerConfig).
            length (within config.velocity_window_seconds now (hist txn.account_id ++ now ∷ [])))
          e in
    (
      (record_and_count txn now s).0,
      verdict s txn count now,
      score_total txn now s,
      rw (default_verdict whole s txn count now e, counted)
          (any_of (is_large (default_config whole) txn) (is_flagged txn)
            (is_fast (default_config whole) seen) (IsLarge-iff whole txn) (IsFlagged-iff txn)
            (fast_iff whole seen)),
    )
