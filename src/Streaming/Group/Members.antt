-- ===== src/Streaming/Group/Members.antt =====
-- The member table of a group as a dictionary: what writes and removals leave of it.
use distributed_transaction.Prelude.{
  ℕ, ◌≡◌, refl, ◌∙◌, ap, sym, string_eq, eq_iff, Distinct, ◌==◌, String, true, false, none, some,
  List, [], ◌∷◌, Dict, get, has, put, remove, get-remove, get-put, if◌then◌else◌, contains,
  Bool-cases, inl, inr, arith, nat_eq,
}
use distributed_transaction.Streaming.Group.{MemberState, keys, is_expired, expired_ids, remove_all}
use distributed_transaction.Streaming.Group.Ownership.{contains-keys}

module _ {V : Type 0} where
  pub get-remove_all :
      (ks : List String) (k : String) (d : Dict String V)
      → get k (remove_all ks d) ≡ (if contains k ks then none else get k d)
  get-remove_all [] k d = refl
  get-remove_all (j ∷ ks) k d = ground (arith, get-remove_all ks k (remove j d), get-remove j k d)

  pub has-put :
      (k j : String) (v : V) (d : Dict String V)
      → has k (put j v d) ≡ (if j == k then true else has k d)
  has-put k j v d = ground (arith, get-put j k v d)

  pub has-remove :
      (k j : String) (d : Dict String V) → has k (remove j d) ≡ (if j == k then false else has k d)
  has-remove k j d = ground (arith, get-remove j k d)

  pub put-Distinct :
      (k : String) (v : V) (d : Dict String V) → Distinct (keys d) → Distinct (keys (put k v d))
  put-Distinct k v [] h = (refl, tt)
  put-Distinct k v ((j, w) ∷ d) h = elim (Bool-cases (j == k)) [
    | inl same ↦ rw same h
    | inr other ↦ rw other (
      contains-keys j (put k v d)
          ∙ has-put j k v d
          ∙ ground (arith, eq_iff j k, eq_iff k j, contains-keys j d),
      put-Distinct k v d h.1,
    )
  ]

  pub remove-Distinct :
      (k : String) (d : Dict String V) → Distinct (keys d) → Distinct (keys (remove k d))
  remove-Distinct k [] h = tt
  remove-Distinct k ((j, w) ∷ d) h = elim (Bool-cases (j == k)) [
    | inl same ↦ rw same (remove-Distinct k d h.1)
    | inr other ↦ rw other (
      contains-keys j (remove k d) ∙ has-remove j k d ∙ ground (arith, contains-keys j d),
      remove-Distinct k d h.1,
    )
  ]

  pub remove_all-Distinct :
      (ks : List String) (d : Dict String V) → Distinct (keys d) → Distinct (keys (remove_all ks d))
  remove_all-Distinct [] d h = h
  remove_all-Distinct (k ∷ ks) d h = remove_all-Distinct ks (remove k d) (remove-Distinct k d h)

  pub keys-put :
      (k : String) (v w : V) (d : Dict String V) → get k d ≡ some v → keys (put k w d) ≡ keys d
  keys-put k v w [] h = cc
  keys-put k v w ((j, u) ∷ d) h = elim (Bool-cases (j == k)) [
    | inl same ↦ rw same refl
    | inr other ↦ rw other (ap (λ (ks : List String). j ∷ ks) (keys-put k v w d (rw other at h)))
  ]

-- the members that are told to be expired are those whose own state is
pub contains-expired_ids :
    (timeout now : ℕ) (k : String) (d : Dict String MemberState)
    → Distinct (keys d)
    → contains k (expired_ids timeout now d)
      ≡ elim (get k d) [ none ↦ false | some state ↦ is_expired timeout now state ]
contains-expired_ids timeout now k [] h = refl
contains-expired_ids timeout now k ((j, s) ∷ d) h = elim (Bool-cases (j == k)) [
  | inl same ↦
      let e = (eq_iff j k).0 same in
      let missing : has k d ≡ false = sym (contains-keys k d) ∙ rw e at h.0 in
      ground (arith, contains-expired_ids timeout now k d h.1, missing, same)
  | inr other ↦ ground (arith, contains-expired_ids timeout now k d h.1, other)
]
