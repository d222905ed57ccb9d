-- ===== src/Streaming/Group/Ownership.antt =====
-- Who owns a partition after a rebalance.
use distributed_transaction.Prelude.{
  get_elem?-lt, ℕ, zero, suc, ◌+◌, ◌%◌, ◌≤◌, ◌<◌, ◌≡◌, refl, ◌∙◌, ap, sym, string_eq, eq_iff,
  nat_eq, ◌==◌, String, Bool, true, false, Option, none, some, List, [], ◌∷◌, ◌++◌, length,
  get_elem?, range, count_up, sorted, insert_text, ◌&&◌, Dict, has, get_default, get_default-put,
  put, from_keys, if◌then◌else◌, contains, Option-cases, Bool-cases, inl, inr, arith,
}
use native.Mathlib.Nat.{mod-lt}
use mathlib.Core.List.{append_assoc, append-nil}
use distributed_transaction.Streaming.Group.{
  ConsumerGroup, assign_all, rebalance, assignment_for, keys,
}

-- the member that the round robin gives a partition to
abbrev pub owner_of : List String → ℕ → Option String
owner_of members partition = get_elem? members (partition % length members)

abbrev pub owns : Option String → String → Bool
owns none m = false
owns (some owner) m = owner == m

-- the partitions of a list that go to a member, in their order
abbrev pub owned : List String → String → List ℕ → List ℕ
owned members m [] = []
owned members m (p ∷ ps) =
    let rest = owned members m ps in if owns (owner_of members p) m then p ∷ rest else rest

-- the write of one round
given :
    (owner m : String) (p : ℕ) (rest : List ℕ) (a : Dict String (List ℕ))
    → get_default m [] (put owner (get_default owner [] a ++ p ∷ []) a) ++ rest
      ≡ get_default m [] a ++ (if owner == m then p ∷ rest else rest)
given owner m p rest a = elim (Bool-cases (owner == m)) [
  | inl same ↦
      rw
        (
          get_default-put owner m [] (get_default owner [] a ++ p ∷ []) a,
          same,
          (eq_iff owner m).0 same,
        )
        (append_assoc (get_default m [] a) (p ∷ []) rest)
  | inr other ↦ rw (get_default-put owner m [] (get_default owner [] a ++ p ∷ []) a, other)
]

assign_all_lem :
    (members : List String) (m : String) (ps : List ℕ) (a : Dict String (List ℕ))
    → get_default m [] (assign_all members ps a) ≡ get_default m [] a ++ owned members m ps
unfolding assign_all
assign_all_lem members m [] a = sym (append-nil _)
assign_all_lem members m (p ∷ ps) a = elim (Option-cases (owner_of members p)) [
  | inl nobody ↦ rw (nobody, assign_all) (assign_all_lem members m ps a)
  | inr (owner, e) ↦
      rw (e, assign_all)
        (assign_all_lem members m ps (put owner (get_default owner [] a ++ p ∷ []) a)
          ∙ given owner m p (owned members m ps) a)
]

-- a fresh assignment gives everybody nothing
nothing_yet :
    (m : String) (ks : List String) (d : Dict String (List ℕ))
    → get_default m [] d ≡ []
    → get_default m [] (from_keys ks [] d) ≡ []
nothing_yet m [] d h = h
nothing_yet m (k ∷ ks) d h =
    nothing_yet m ks (put k [] d) (rw (get_default-put k m [] [] d) (ground arith))

abbrev pub member_list : ConsumerGroup → List String
member_list g = sorted (keys g.members)

-- After a rebalance a member's partitions are those whose number, taken modulo the number of
-- members, is the member's place in the sorted list of members, in increasing order.
pub assignment_for-rebalance :
    (g : ConsumerGroup) (m : String)
    → assignment_for (rebalance g) m ≡ owned (member_list g) m (range g.num_partitions)
unfolding rebalance
assignment_for-rebalance g m =
    assign_all_lem (member_list g) m (range g.num_partitions) (from_keys (member_list g) [] [])
    ∙ ap (λ (x : List ℕ). x ++ owned (member_list g) m (range g.num_partitions))
        (nothing_yet m (member_list g) [] refl)

contains_if :
    (p q : ℕ) (b : Bool) (rest : List ℕ)
    → contains p (if b then q ∷ rest else rest)
      ≡ (if b then (if q == p then true else contains p rest) else contains p rest)
contains_if p q true rest = refl
contains_if p q false rest = refl

contains-owned :
    (members : List String) (m : String) (p : ℕ) (ps : List ℕ)
    → contains p (owned members m ps) ≡ (contains p ps && owns (owner_of members p) m)
contains-owned members m p [] = refl
contains-owned members m p (q ∷ ps) =
    contains_if p q (owns (owner_of members q) m) (owned members m ps)
    ∙ elim (Bool-cases (q == p)) [
      | inl same ↦
          let e : q ≡ p = ground arith in rw e (ground (arith, contains-owned members m p ps))
      | inr other ↦ rw other (ground (arith, contains-owned members m p ps))
    ]

contains-count_up : (p i n : ℕ) → i ≤ p → p < i + n → contains p (count_up i n) ≡ true
contains-count_up p i zero a b = absurd (omega arith)
contains-count_up p i (suc n) a b = elim (Bool-cases (i == p)) [
  | inl same ↦ rw same
  | inr other ↦ rw other (contains-count_up p (suc i) n (ground arith) (omega arith))
]

contains-get_elem? :
    (xs : List String) (i : ℕ) (x : String) → get_elem? xs i ≡ some x → contains x xs ≡ true
contains-get_elem? [] i x h = cc
contains-get_elem? (y ∷ ys) zero x h = ground (arith, eq_iff y x)
contains-get_elem? (y ∷ ys) (suc i) x h = ground (arith, contains-get_elem? ys i x h)

contains-insert_text :
    (k x : String) (xs : List String)
    → contains k (insert_text x xs) ≡ (if x == k then true else contains k xs)
contains-insert_text k x [] = refl
contains-insert_text k x (y ∷ ys) = ground (arith, contains-insert_text k x ys)

contains-sorted : (k : String) (xs : List String) → contains k (sorted xs) ≡ contains k xs
contains-sorted k [] = refl
contains-sorted k (x ∷ xs) = rw (contains-insert_text k x (sorted xs), contains-sorted k xs)

length-insert_text : (x : String) (xs : List String) → length (insert_text x xs) ≡ suc (length xs)
length-insert_text x [] = refl
length-insert_text x (y ∷ ys) = ground (arith, length-insert_text x ys)

length-sorted : (xs : List String) → length (sorted xs) ≡ length xs
length-sorted [] = refl
length-sorted (x ∷ xs) = omega (arith, length-insert_text x (sorted xs), length-sorted xs)

pub contains-keys : {V : Type 0} (k : String) (d : Dict String V) → contains k (keys d) ≡ has k d
contains-keys k [] = refl
contains-keys k ((j, v) ∷ d) = ground (arith, contains-keys k d)

length-keys : {V : Type 0} (d : Dict String V) → length (keys d) ≡ length d
length-keys [] = refl
length-keys (x ∷ d) = omega (arith, length-keys d)

owner_in_range :
    (g : ConsumerGroup) (p : ℕ)
    → 0 < length g.members
    → p % length (member_list g) < length (member_list g)
owner_in_range g p h =
    mod-lt p (omega (arith, length-sorted (keys g.members), length-keys g.members))

only_owner : (m m' : String) → owns (some m) m' ≡ true → m' ≡ m
only_owner m m' h = sym ((eq_iff m m').0 h)

-- With any members at all, a rebalance gives every partition to exactly one of them.
pub rebalance_covers :
    (g : ConsumerGroup) (p : ℕ)
    → 0 < length g.members
    → p < g.num_partitions
    → (m : String) × (has m g.members ≡ true)
      × (contains p (assignment_for (rebalance g) m) ≡ true)
      × ((m' : String) → contains p (assignment_for (rebalance g) m') ≡ true → m' ≡ m)
rebalance_covers g p some_member inside =
    let (m, e) =
      get_elem?-lt (member_list g) (p % length (member_list g)) (owner_in_range g p some_member) in
    let all : contains p (range g.num_partitions) ≡ true =
      contains-count_up p 0 g.num_partitions (omega arith) (omega arith) in
    let share = λ (k : String).
      ap (λ (x : List ℕ). contains p x) (assignment_for-rebalance g k)
      ∙ contains-owned (member_list g) k p (range g.num_partitions) in
    (
      m,
      sym (contains-keys m g.members)
          ∙ sym (contains-sorted m (keys g.members))
          ∙ contains-get_elem? (member_list g) _ m e,
      share m ∙ rw (all, e) (ground (arith, eq_iff m m)),
      λ m' h. only_owner m m' (sym (rw (all, e) at share m') ∙ h),
    )
