-- ===== src/Prelude/Sets.antt =====
-- A Python set of keys, as a list without repetitions, and a dict with one value at each key.
use mathlib.Core.Path.{◌≡◌}
use Prim.Native.String.{String}
use mathlib.Core.Bool.{Bool, true, false}
use mathlib.Core.List.{List, [], ◌∷◌}
use distributed_transaction.Prelude.Tests.{if◌then◌else◌}
use distributed_transaction.Prelude.Keys.{Eq, ◌==◌, string_eq}
use distributed_transaction.Prelude.Dicts.{Dict, put}

module _ {K : Type 0} ⦃e : Eq K⦄ where
  -- `k in s`
  abbrev pub contains : K → List K → Bool
  contains k [] = false
  contains k (j ∷ s) = if j == k then true else contains k s

  -- `s.add(k)`
  abbrev pub add : K → List K → List K
  add k s = if contains k s then s else k ∷ s

  -- `s.discard(k)`
  abbrev pub discard : K → List K → List K
  discard k [] = []
  discard k (j ∷ s) = let rest = discard k s in if j == k then rest else j ∷ rest

module _ {K V : Type 0} ⦃e : Eq K⦄ where
  -- `{k: v for k in keys}`, on top of `d`
  abbrev pub from_keys : List K → V → Dict K V → Dict K V
  from_keys [] v d = d
  from_keys (k ∷ ks) v d = from_keys ks v (put k v d)

-- no name stands in the list twice
abbrev pub Distinct : List String → Type 0
Distinct [] = Unit
Distinct (x ∷ xs) = (contains x xs ≡ false) × Distinct xs
