-- ===== src/Streaming/Group/Failover.antt =====
-- Who is a member, and who owns a partition, after any calls of a group.
use distributed_transaction.Prelude.{
  ℕ, zero, suc, ◌<◌, ◌≡◌, refl, ◌∙◌, sym, string_eq, Distinct, String, Bool, true, List, [], ◌∷◌,
  length, Dict, get, has, put, remove, contains, Option-cases, Bool-cases, inl, inr, ok, raise,
  ok-injective, range, nat_eq,
}
use distributed_transaction.Streaming.Group.{
  ConsumerGroup, MemberState, new_group, assign_all, rebalance, assignment_for, keys, join,
  heartbeat, leave, expired_ids, remove_all, is_nil, check_expired_members,
}
use distributed_transaction.Streaming.Group.Ownership.{rebalance_covers}
use distributed_transaction.Streaming.Group.Members.{
  put-Distinct, remove-Distinct, remove_all-Distinct, keys-put,
}

no_keys : (ks : List String) (b : Bool) → is_nil ks ≡ true → ks ≡ []
no_keys [] b h = refl
no_keys (k ∷ ks) b h = cc

-- what `rebalance` reads
same_keys :
    (g g' : ConsumerGroup)
    → keys g'.members ≡ keys g.members
    → g'.num_partitions ≡ g.num_partitions
    → (rebalance g').assignment ≡ (rebalance g).assignment
unfolding rebalance
same_keys g g' k n = rw (k, n) refl

-- Member ids stand once, and the assignment is the round robin's over the present members.
pub record IsBalanced (g : ConsumerGroup) : Type 0 where
  pub distinct : Distinct (keys g.members)
  pub balanced : g.assignment ≡ (rebalance g).assignment

-- the group after a rebalance
rebalanced : (g : ConsumerGroup) → Distinct (keys g.members) → IsBalanced (rebalance g)
unfolding rebalance
rebalanced g h = record { distinct = h; balanced = refl }

-- a call of a group, with the time it is made at
pub data GroupCall : Type 0 where
  joins : String → ℕ → GroupCall
  beats : String → ℕ → GroupCall
  leaves : String → GroupCall
  checks : ℕ → GroupCall

-- a call that raises changes nothing
abbrev pub make : GroupCall → ConsumerGroup → ConsumerGroup
make (joins m now) g = (join m now g).0
make (beats m now) g = elim (heartbeat m now g) [ raise _ ↦ g | ok g' ↦ g' ]
make (leaves m) g = leave m g
make (checks now) g = (check_expired_members now g).0

abbrev pub make_all : List GroupCall → ConsumerGroup → ConsumerGroup
make_all [] g = g
make_all (call ∷ calls) g = make_all calls (make call g)

heartbeat-IsBalanced :
    (m : String) (now : ℕ) (g : ConsumerGroup) → IsBalanced g → IsBalanced (make (beats m now) g)
unfolding heartbeat
heartbeat-IsBalanced m now g h = elim (Option-cases (get m g.members)) [
  | inl missing ↦ rw (missing, make, heartbeat) h
  | inr (s, found) ↦
      let s' : MemberState = record s { last_heartbeat = now } in
      let g' : ConsumerGroup = record g { members = put m s' g.members } in
      let k = keys-put m s s' g.members found in
      rw (found, make, heartbeat)
        (record {
          distinct = put-Distinct m s' g.members h.distinct;
          balanced = h.balanced ∙ sym (same_keys g g' k refl);
        })
]

leave-IsBalanced : (m : String) (g : ConsumerGroup) → IsBalanced g → IsBalanced (leave m g)
unfolding leave
leave-IsBalanced m g h = elim (Bool-cases (has m g.members)) [
  | inl present ↦
      rw (present, leave)
        (rebalanced (record g { members = remove m g.members })
          (remove-Distinct m g.members h.distinct))
  | inr absent ↦ rw (absent, leave) h
]

pub check-IsBalanced :
    (now : ℕ) (g : ConsumerGroup) → IsBalanced g → IsBalanced (check_expired_members now g).0
unfolding check_expired_members
check-IsBalanced now g h =
    let ids = expired_ids g.session_timeout_seconds now g.members in
    elim (Bool-cases (is_nil ids)) [
      | inl nobody ↦ rw (nobody, no_keys ids true nobody, check_expired_members) h
      | inr some_one ↦
          rw (some_one, check_expired_members)
            (rebalanced (record g { members = remove_all ids g.members })
              (remove_all-Distinct ids g.members h.distinct))
    ]

pub make-IsBalanced :
    (call : GroupCall) (g : ConsumerGroup) → IsBalanced g → IsBalanced (make call g)
unfolding join
make-IsBalanced (joins m now) g h =
    let s : MemberState = record { member_id = m; last_heartbeat = now } in
    rebalanced (record g { members = put m s g.members }) (put-Distinct m s g.members h.distinct)
make-IsBalanced (beats m now) g h = heartbeat-IsBalanced m now g h
make-IsBalanced (leaves m) g h = leave-IsBalanced m g h
make-IsBalanced (checks now) g h = check-IsBalanced now g h

pub make_all-IsBalanced :
    (calls : List GroupCall) (g : ConsumerGroup) → IsBalanced g → IsBalanced (make_all calls g)
make_all-IsBalanced [] g h = h
make_all-IsBalanced (call ∷ calls) g h =
    make_all-IsBalanced calls (make call g) (make-IsBalanced call g h)

assign_nobody : (ps : List ℕ) (a : Dict String (List ℕ)) → assign_all [] ps a ≡ a
unfolding assign_all
assign_nobody [] a = refl
assign_nobody (p ∷ ps) a = assign_nobody ps a

pub new_group-IsBalanced :
    (group_id : String) (n timeout : ℕ) (g : ConsumerGroup)
    → new_group group_id n timeout ≡ ok g
    → IsBalanced g
unfolding rebalance
new_group-IsBalanced group_id zero timeout g h = cc
new_group-IsBalanced group_id (suc n) timeout g h =
    rw (← ok-injective h)
      (record { distinct = tt; balanced = sym (assign_nobody (range (suc n)) []) })

-- one member owns the partition
abbrev pub OneOwner : ConsumerGroup → ℕ → Type 0
OneOwner g p =
    (m : String) × (has m g.members ≡ true)
    × (contains p (assignment_for g m) ≡ true)
    × ((m' : String) → contains p (assignment_for g m') ≡ true → m' ≡ m)

pub balanced-OneOwner :
    (g : ConsumerGroup) (p : ℕ)
    → IsBalanced g
    → 0 < length g.members
    → p < g.num_partitions
    → OneOwner g p
balanced-OneOwner g p h some_member inside =
    rw (← h.balanced) at (rebalance_covers g p some_member inside)

-- After any calls of a group, in any order and with any readings of the clock, its partitions are
-- each owned by exactly one member, who is a present one, as soon as there is a member.
pub make_all_covers :
    (group_id : String) (n timeout : ℕ) (g : ConsumerGroup) (calls : List GroupCall) (p : ℕ)
    → new_group group_id n timeout ≡ ok g
    → 0 < length (make_all calls g).members
    → p < (make_all calls g).num_partitions
    → OneOwner (make_all calls g) p
make_all_covers group_id n timeout g calls p h some_member inside =
    balanced-OneOwner (make_all calls g) p
      (make_all-IsBalanced calls g (new_group-IsBalanced group_id n timeout g h)) some_member inside
