-- ===== src/Streaming/Group/Expiry.antt =====
-- Who is left in a group after a check of the heartbeats.
use distributed_transaction.Prelude.{
  ◌+◌, leb, arith, ℕ, ◌<◌, ◌≡◌, refl, ◌∙◌, ap, string_eq, Distinct, String, Bool, true, false,
  Option, none, some, List, length, Dict, get, if◌then◌else◌, contains, Option-cases, Bool-cases,
  inl, inr, ok, nat_eq,
}
use distributed_transaction.Streaming.Group.{
  ConsumerGroup, MemberState, new_group, rebalance, keys, is_expired, expired_ids, remove_all,
  is_nil, check_expired_members,
}
use distributed_transaction.Streaming.Group.Members.{get-remove_all, contains-expired_ids}
use distributed_transaction.Streaming.Group.Failover.{
  IsBalanced, GroupCall, make_all, OneOwner, balanced-OneOwner, new_group-IsBalanced,
  make_all-IsBalanced, check-IsBalanced,
}

members_left :
    (now : ℕ) (g : ConsumerGroup)
    → (check_expired_members now g).0.members
      ≡ remove_all (expired_ids g.session_timeout_seconds now g.members) g.members
unfolding check_expired_members rebalance
members_left now g =
    elim (Bool-cases (is_nil (expired_ids g.session_timeout_seconds now g.members))) [
      | inl nobody ↦ rw (nobody, check_expired_members) refl
      | inr some_one ↦ rw (some_one, check_expired_members) refl
    ]

-- who is left after a check of the heartbeats
abbrev pub survivor : ConsumerGroup → ℕ → String → Option MemberState
survivor g now m = elim (get m g.members) [
  | none ↦ none
  | some s ↦ if leb now (s.last_heartbeat + g.session_timeout_seconds) then some s else none
]

heard :
    (timeout now : ℕ) (s : MemberState)
    → (if is_expired timeout now s then none else some s)
      ≡ (if leb now (s.last_heartbeat + timeout) then some s else none)
heard timeout now s = ground arith

survivors :
    (g : ConsumerGroup) (now : ℕ) (m : String)
    → Distinct (keys g.members)
    → get m (remove_all (expired_ids g.session_timeout_seconds now g.members) g.members)
      ≡ survivor g now m
survivors g now m h =
    let t = g.session_timeout_seconds in
    let removed = get-remove_all (expired_ids t now g.members) m g.members in
    let told = contains-expired_ids t now m g.members h in
    elim (Option-cases (get m g.members)) [
      | inl missing ↦
          removed ∙ rw (missing, survivor) (stays (contains m (expired_ids t now g.members)))
      | inr (s, found) ↦ removed ∙ rw (told, found, survivor) (heard t now s)
    ]
  where
    stays : (b : Bool) → ◌≡◌ {A = Option MemberState} (if b then none else none) none
    stays true = refl
    stays false = refl

-- who is a member after a check
pub check-survivor :
    (g : ConsumerGroup) (now : ℕ) (m : String)
    → IsBalanced g
    → get m (check_expired_members now g).0.members ≡ survivor g now m
check-survivor g now m b =
    ap (λ (d : Dict String MemberState). get m d) (members_left now g)
    ∙ survivors g now m b.distinct

-- After any calls of a group, `check_expired_members` keeps exactly the members that were heard of
-- within the session timeout, as they were, and the partitions are then each owned by exactly one
-- of those, as soon as one is left.
pub check_expired_members_lem :
    (group_id : String) (n timeout : ℕ) (g : ConsumerGroup) (calls : List GroupCall) (now : ℕ)
    → new_group group_id n timeout ≡ ok g
    → let before = make_all calls g in
      let after = (check_expired_members now before).0 in
      ((m : String) → get m after.members ≡ survivor before now m)
      × ((p : ℕ) → 0 < length after.members → p < after.num_partitions → OneOwner after p)
check_expired_members_lem group_id n timeout g calls now h =
    let before = make_all calls g in
    let b = make_all-IsBalanced calls g (new_group-IsBalanced group_id n timeout g h) in
    (
      λ m. check-survivor before now m b,
      λ p some_member inside.
          balanced-OneOwner (check_expired_members now before).0 p (check-IsBalanced now before b)
            some_member inside,
    )
