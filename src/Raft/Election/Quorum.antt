-- ===== src/Raft/Election/Quorum.antt =====
-- Two majorities of one cluster have a member in common.
use distributed_transaction.Prelude.{
  Distinct, ◌+◌, ◌/◌, ◌≤◌, ◌<◌, ◌≡◌, refl, String, true, false, List, [], ◌∷◌, ◌++◌, arith,
  contains, string_eq, eq_iff, ◌==◌, if◌then◌else◌, length, length-append, discard, Bool-cases, inl,
  inr, ◌⊎◌,
}

-- every name of the first list is in the second
abbrev pub Within : List String → List String → Type 0
Within [] ys = Unit
Within (x ∷ xs) ys = (contains x ys ≡ true) × Within xs ys

contains-discard :
    (k x : String) (xs : List String)
    → contains k (discard x xs) ≡ (if x == k then false else contains k xs)
contains-discard k x [] = ground (arith)
contains-discard k x (y ∷ ys) =
    ground (arith, contains-discard k x ys, eq_iff x k, eq_iff y k, eq_iff y x)

length-discard_le : (x : String) (xs : List String) → length (discard x xs) ≤ length xs
length-discard_le x [] = omega arith
length-discard_le x (y ∷ ys) = ground (arith, length-discard_le x ys)

length-discard_lt :
    (x : String) (xs : List String) → contains x xs ≡ true → length (discard x xs) < length xs
length-discard_lt x [] h = cc
length-discard_lt x (y ∷ ys) h = ground (arith, length-discard_le x ys, length-discard_lt x ys)

Within-discard :
    (x : String) (xs ys : List String)
    → contains x xs ≡ false
    → Within xs ys
    → Within xs (discard x ys)
Within-discard x [] ys h w = tt
Within-discard x (z ∷ zs) ys h w = (
  ground (arith, contains-discard z x ys, eq_iff x z, eq_iff z x),
  Within-discard x zs ys (ground arith) w.1,
)

-- Distinct names of a list are at most as many as the list is long.
pub length-le_of_Within : (xs ys : List String) → Distinct xs → Within xs ys → length xs ≤ length ys
length-le_of_Within [] ys d w = omega arith
length-le_of_Within (x ∷ xs) ys d w = omega (
  arith,
  length-le_of_Within xs (discard x ys) d.1 (Within-discard x xs ys d.0 w.1),
  length-discard_lt x ys w.0,
)

contains-append :
    (k : String) (xs ys : List String)
    → contains k (xs ++ ys) ≡ (if contains k xs then true else contains k ys)
contains-append k [] ys = refl
contains-append k (x ∷ xs) ys = ground (arith, contains-append k xs ys)

abbrev pub Shared : List String → List String → Type 0
Shared xs ys = (x : String) × (contains x xs ≡ true) × (contains x ys ≡ true)

-- the names of the first list that are not in the second, or one that is
common_or_apart :
    (xs ys : List String) → Distinct xs → Distinct ys → Shared xs ys ⊎ Distinct (xs ++ ys)
common_or_apart [] ys d e = inr e
common_or_apart (x ∷ xs) ys d e = elim (Bool-cases (contains x ys)) [
  | inl both ↦ inl (x, ground (arith, eq_iff x x), both)
  | inr alone ↦ elim (common_or_apart xs ys d.1 e) [
    | inl (k, here, there) ↦ inl (k, ground (arith, eq_iff x k), there)
    | inr rest ↦ inr (ground (arith, contains-append x xs ys), rest)
  ]
]

Within-append : (xs ys ids : List String) → Within xs ids → Within ys ids → Within (xs ++ ys) ids
Within-append [] ys ids a b = b
Within-append (x ∷ xs) ys ids a b = (a.0, Within-append xs ys ids a.1 b)

-- Two lists of distinct members, each at least a majority of the cluster, share a member.
pub majorities_meet :
    (xs ys ids : List String)
    → Distinct xs
    → Distinct ys
    → Within xs ids
    → Within ys ids
    → length ids / 2 + 1 ≤ length xs
    → length ids / 2 + 1 ≤ length ys
    → Shared xs ys
majorities_meet xs ys ids dx dy wx wy mx my = elim (common_or_apart xs ys dx dy) [
  | inl s ↦ s
  | inr d ↦ absurd (
      omega (
        arith,
        length-append xs ys,
        length-le_of_Within (xs ++ ys) ids d (Within-append xs ys ids wx wy),
      ))
]
