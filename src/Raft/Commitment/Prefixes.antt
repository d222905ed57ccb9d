-- ===== src/Raft/Commitment/Prefixes.antt =====
-- Lists of which one begins with the other.
use distributed_transaction.Prelude.{
  ℕ, zero, suc, ◌≤◌, ◌≡◌, refl, sym, ap, ◌∙◌, List, [], ◌∷◌, ◌++◌, length, take, get_elem?, some,
  ◌⊎◌, inl, inr, arith, All,
}

module _ {A : Type 0} where
  -- the second list begins with the first
  abbrev pub Prefix : List A → List A → Type 0
  Prefix [] m = Unit
  Prefix (x ∷ l) [] = ⊥
  Prefix (x ∷ l) (y ∷ m) = (x ≡ y) × Prefix l m

  pub Prefix-refl : (l : List A) → Prefix l l
  Prefix-refl [] = tt
  Prefix-refl (x ∷ l) = (refl, Prefix-refl l)

  pub Prefix-trans : (l m n : List A) → Prefix l m → Prefix m n → Prefix l n
  Prefix-trans [] m n p q = tt
  Prefix-trans (x ∷ l) [] n p q = absurd p
  Prefix-trans (x ∷ l) (y ∷ m) [] p q = absurd q
  Prefix-trans (x ∷ l) (y ∷ m) (z ∷ n) p q = (p.0 ∙ q.0, Prefix-trans l m n p.1 q.1)

  pub Prefix-append : (l m : List A) → Prefix l (l ++ m)
  Prefix-append [] m = tt
  Prefix-append (x ∷ l) m = (refl, Prefix-append l m)

  pub Prefix-take : (n : ℕ) (l : List A) → Prefix (take n l) l
  Prefix-take zero l = tt
  Prefix-take (suc n) [] = tt
  Prefix-take (suc n) (x ∷ l) = (refl, Prefix-take n l)

  pub length-Prefix : (l m : List A) → Prefix l m → length l ≤ length m
  length-Prefix [] m p = omega arith
  length-Prefix (x ∷ l) [] p = absurd p
  length-Prefix (x ∷ l) (y ∷ m) p = omega (arith, length-Prefix l m p.1)

  -- the shorter of two beginnings of a list begins the longer one
  pub Prefix-shorter : (l m n : List A) → Prefix l n → Prefix m n → length l ≤ length m → Prefix l m
  Prefix-shorter [] m n p q h = tt
  Prefix-shorter (x ∷ l) [] n p q h = absurd (omega arith)
  Prefix-shorter (x ∷ l) (y ∷ m) [] p q h = absurd p
  Prefix-shorter (x ∷ l) (y ∷ m) (z ∷ n) p q h =
      (p.0 ∙ sym q.0, Prefix-shorter l m n p.1 q.1 (omega arith))

  abbrev pub Chain : List A → List A → Type 0
  Chain l m = Prefix l m ⊎ Prefix m l

  pub Prefix-Chain : (l m n : List A) → Prefix l n → Prefix m n → Chain l m
  Prefix-Chain [] m n p q = inl tt
  Prefix-Chain (x ∷ l) [] n p q = inr tt
  Prefix-Chain (x ∷ l) (y ∷ m) [] p q = absurd p
  Prefix-Chain (x ∷ l) (y ∷ m) (z ∷ n) p q = elim (Prefix-Chain l m n p.1 q.1) [
    | inl a ↦ inl (p.0 ∙ sym q.0, a)
    | inr b ↦ inr (q.0 ∙ sym p.0, b)
  ]

  -- the longer of two lists of a chain begins with the shorter one
  pub Chain-length : (l m : List A) → Chain l m → length l ≤ length m → Prefix l m
  Chain-length l m (inl p) h = p
  Chain-length l m (inr p) h = all_of m l p h
    where
      all_of : (m l : List A) → Prefix m l → length l ≤ length m → Prefix l m
      all_of [] [] p h = tt
      all_of [] (y ∷ l) p h = absurd (omega arith)
      all_of (x ∷ m) [] p h = absurd p
      all_of (x ∷ m) (y ∷ l) p h = (sym p.0, all_of m l p.1 (omega arith))

  pub Chain-sym : (l m : List A) → Chain l m → Chain m l
  Chain-sym l m (inl a) = inr a
  Chain-sym l m (inr b) = inl b

  pub Chain-Prefix : (q l m : List A) → Prefix q l → Chain l m → Chain q m
  Chain-Prefix q l m p (inl a) = inl (Prefix-trans q l m p a)
  Chain-Prefix q l m p (inr b) = Prefix-Chain q m l p b

  pub Prefix-antisym : (l m : List A) → Prefix l m → Prefix m l → l ≡ m
  Prefix-antisym [] [] p q = refl
  Prefix-antisym [] (y ∷ m) p q = absurd q
  Prefix-antisym (x ∷ l) [] p q = absurd p
  Prefix-antisym (x ∷ l) (y ∷ m) p q = rw (p.0, Prefix-antisym l m p.1 q.1) refl

  pub take-Prefix : (k : ℕ) (l m : List A) → Prefix l m → k ≤ length l → take k l ≡ take k m
  take-Prefix zero l m p h = refl
  take-Prefix (suc k) [] m p h = absurd (omega arith)
  take-Prefix (suc k) (x ∷ l) [] p h = absurd p
  take-Prefix (suc k) (x ∷ l) (y ∷ m) p h = rw (p.0, take-Prefix k l m p.1 (omega arith)) refl

  pub Prefix-of_take : (l m : List A) → take (length l) m ≡ l → Prefix l m
  Prefix-of_take l m h = rw h at (Prefix-take (length l) m)

  pub get_elem?-Prefix :
      (l m : List A) (i : ℕ) (x : A) → Prefix l m → get_elem? l i ≡ some x → get_elem? m i ≡ some x
  get_elem?-Prefix [] m i x p h = cc
  get_elem?-Prefix (y ∷ l) [] i x p h = absurd p
  get_elem?-Prefix (y ∷ l) (z ∷ m) zero x p h = ap some (sym p.0) ∙ h
  get_elem?-Prefix (y ∷ l) (z ∷ m) (suc i) x p h = get_elem?-Prefix l m i x p.1 h

  pub All-Prefix : (P : A → Type 0) (l m : List A) → Prefix l m → All P m → All P l
  All-Prefix P [] m p a = tt
  All-Prefix P (x ∷ l) [] p a = absurd p
  All-Prefix P (x ∷ l) (y ∷ m) p a = (rw p.0 a.0, All-Prefix P l m p.1 a.1)
