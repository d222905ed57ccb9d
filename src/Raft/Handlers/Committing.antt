-- ===== src/Raft/Handlers/Committing.antt =====
-- `_advance_commit_index`: what a leader commits is on a majority and of its own term.
use mathlib.Core.Path.{subst}
use distributed_transaction.Prelude.{
  ℕ, zero, suc, ◌-◌, ◌≤◌, ◌<◌, ◌≡◌, refl, ltb→lt, ok-injective, sym, ap, nat_eq, Bool, true, false,
  ◌&&◌, Option, none, some, List, [], ◌∷◌, get_elem?, All, All-mono, leb, ltb, if◌then◌else◌, ◌⊎◌,
  inl, inr, arith, Result, ok, raise, Bool-cases, Option-cases,
}
use distributed_transaction.Raft.Types.{RaftError}
use distributed_transaction.Raft.Storage.{term_at}
use distributed_transaction.Raft.Node.{Config, Node, current_term, majority}
use distributed_transaction.Raft.Handlers.Frames.{apply_rounds-frame}
use distributed_transaction.Raft.Handlers.{
  same_term, insert_desc, sort_desc, replicated, apply_committed, advance_commit_index,
}

-- how many numbers of a list are at least `x`
abbrev pub count_from : ℕ → List ℕ → ℕ
count_from x [] = 0
count_from x (y ∷ ys) = let rest = count_from x ys in if leb x y then suc rest else rest

count_from-insert_desc :
    (x y : ℕ) (ys : List ℕ) → count_from x (insert_desc y ys) ≡ count_from x (y ∷ ys)
count_from-insert_desc x y [] = refl
count_from-insert_desc x y (z ∷ ys) = ground (arith, count_from-insert_desc x y ys)

count_from-sort_desc : (x : ℕ) (ys : List ℕ) → count_from x (sort_desc ys) ≡ count_from x ys
count_from-sort_desc x [] = refl
count_from-sort_desc x (y ∷ ys) =
    ground (arith, count_from-insert_desc x y (sort_desc ys), count_from-sort_desc x ys)

-- each number is at least the ones after it
abbrev Falls : List ℕ → Type 0
Falls [] = Unit
Falls (x ∷ xs) = All (λ y. y ≤ x) xs × Falls xs

All-insert_desc : (P : ℕ → Type 0) (y : ℕ) (ys : List ℕ) → P y → All P ys → All P (insert_desc y ys)
All-insert_desc P y [] p a = (p, tt)
All-insert_desc P y (z ∷ ys) p a = elim (Bool-cases (leb z y)) [
  | inl first ↦ rw first (p, a)
  | inr later ↦ rw later (a.0, All-insert_desc P y ys p a.1)
]

Falls-insert_desc : (y : ℕ) (ys : List ℕ) → Falls ys → Falls (insert_desc y ys)
Falls-insert_desc y [] f = (tt, tt)
Falls-insert_desc y (z ∷ ys) f = elim (Bool-cases (leb z y)) [
  | inl first ↦
      rw first ((ground arith, All-mono (λ x. x ≤ z) (λ x. x ≤ y) ys (λ x h. ground arith) f.0), f)
  | inr later ↦
      rw later (All-insert_desc (λ x. x ≤ z) y ys (ground arith) f.0, Falls-insert_desc y ys f.1)
]

Falls-sort_desc : (ys : List ℕ) → Falls (sort_desc ys)
Falls-sort_desc [] = tt
Falls-sort_desc (y ∷ ys) = Falls-insert_desc y (sort_desc ys) (Falls-sort_desc ys)

All-at : (P : ℕ → Type 0) (xs : List ℕ) (i x : ℕ) → All P xs → get_elem? xs i ≡ some x → P x
All-at P [] i x a h = cc
All-at P (y ∷ xs) zero x a h = let e : x ≡ y = ground arith in rw e a.0
All-at P (y ∷ xs) (suc i) x a h = All-at P xs i x a.1 h

-- the number at a place of a falling list is reached by all up to that place
count_from_place :
    (xs : List ℕ) (i x : ℕ) → Falls xs → get_elem? xs i ≡ some x → i < count_from x xs
count_from_place [] i x f h = cc
count_from_place (y ∷ xs) zero x f h = ground arith
count_from_place (y ∷ xs) (suc i) x f h =
    ground (arith, count_from_place xs i x f.1 h, All-at (λ z. z ≤ y) xs i x f.0 h)

same_term-some : (o : Option ℕ) (t : ℕ) → same_term o (some t) ≡ true → o ≡ some t
same_term-some none t h = cc
same_term-some (some s) t h = ground arith

raised :
    {C S : Type 0} {e : RaftError} {n : Node C S}
    → ◌≡◌ {A = Result RaftError (Node C S)} (raise e) (ok n)
    → ⊥
raised h = cc

both_true : (a b : Bool) → (a && b) ≡ true → (a ≡ true) × (b ≡ true)
both_true true b h = (refl, h)
both_true false b h = cc

module _ {C S : Type 0} (cfg : Config C S) where
  pub commit_index-apply_committed :
      (n : Node C S) {n' : Node C S}
      → apply_committed cfg n ≡ ok n'
      → n'.commit_index ≡ n.commit_index
  unfolding apply_committed
  commit_index-apply_committed n h =
      ap (λ (m : Node C S). m.commit_index)
        (apply_rounds-frame cfg (n.commit_index - n.last_applied) n h)

  counted :
      (n : Node C S) (c : ℕ)
      → get_elem? (sort_desc (replicated n)) (majority cfg - 1) ≡ some c
      → majority cfg ≤ count_from c (replicated n)
  counted n c found = omega (
    arith,
    count_from_place (sort_desc (replicated n)) (majority cfg - 1) c
        (Falls-sort_desc (replicated n)) found,
    count_from-sort_desc c (replicated n),
  )

  -- the two tests on the number found
  abbrev may_commit : Node C S → ℕ → Bool
  may_commit n c = ltb n.commit_index c && same_term (term_at n.storage c) (some (current_term n))

  -- The index is the commit index, or that of an entry of the node's current term that at least a
  -- majority of the nodes are known to have.
  abbrev pub Commits : Node C S → ℕ → Type 0
  Commits n c =
      (c ≡ n.commit_index)
      ⊎ ((n.commit_index < c)
          × (term_at n.storage c ≡ some (current_term n))
          × (majority cfg ≤ count_from c (replicated n)))

  -- What a call that returns has committed: nothing more than before, or up to an entry of the
  -- leader's current term that at least a majority of the nodes, itself included, are known to have.
  pub advance_commit_index_lem :
      (n n' : Node C S) → advance_commit_index cfg n ≡ ok n' → Commits n n'.commit_index
  unfolding advance_commit_index apply_committed
  advance_commit_index_lem n n' h =
      elim (Option-cases (get_elem? (sort_desc (replicated n)) (majority cfg - 1))) [
        | inl missing ↦ let e = rw (missing, advance_commit_index) at h in absurd (raised e)
        | inr (c, found) ↦ elim (Bool-cases (may_commit n c)) [
          | inl passed ↦
              let (more, own) = both_true _ _ passed in
              let e =
                commit_index-apply_committed (record n { commit_index = c })
                  (rw (found, advance_commit_index, passed) at h) in
              subst (Commits n) (sym e)
                (inr (ltb→lt n.commit_index c more, same_term-some _ _ own, counted n c found))
          | inr failed ↦
              let e = rw (found, advance_commit_index, failed) at h in
              inl (ap (λ (m : Node C S). m.commit_index) (sym (ok-injective e)))
        ]
      ]
