-- ===== src/Streaming/Group.antt =====
-- streaming/group.py: membership, heartbeats and the assignment of partitions. The clock is read
-- once in a call, and the reading is the call's `now`.
pub mod Ownership
pub mod Members
pub mod Failover
pub mod Expiry
use distributed_transaction.Prelude.{
  ℕ, zero, suc, ◌+◌, ◌%◌, string_eq, String, Bool, true, false, not, Option, none, some, List, [],
  ◌∷◌, ◌++◌, map, length, get_elem?, range, sorted, Dict, get, has, get_default, put, remove,
  from_keys, ltb, if◌then◌else◌, Result, ok, raise,
}
use distributed_transaction.Streaming.Partitioner.{StreamError, no_partitions, unknown_member}

pub record MemberState : Type 0 where
  pub member_id : String
  pub last_heartbeat : ℕ

pub record ConsumerGroup : Type 0 where
  pub group_id : String
  pub num_partitions : ℕ
  pub session_timeout_seconds : ℕ
  pub members : Dict String MemberState
  pub assignment : Dict String (List ℕ)

-- `ConsumerGroup.__init__`
abbrev pub new_group : String → ℕ → ℕ → Result StreamError ConsumerGroup
new_group group_id zero timeout = raise no_partitions
new_group group_id (suc k) timeout = ok (record {
  group_id = group_id;
  num_partitions = suc k;
  session_timeout_seconds = timeout;
  members = [];
  assignment = [];
})

abbrev pub keys : {V : Type 0} → Dict String V → List String
keys d = map (λ p. p.0) d

-- the loop of `_rebalance` over the partitions; with no members it stops at once
unfoldable pub assign_all : List String → List ℕ → Dict String (List ℕ) → Dict String (List ℕ)
assign_all members [] assignment = assignment
assign_all members (partition ∷ rest) assignment =
    assign_all members rest (elim (get_elem? members (partition % length members)) [
      | none ↦ assignment
      | some owner ↦ put owner (get_default owner [] assignment ++ partition ∷ []) assignment
    ])

unfoldable pub rebalance : ConsumerGroup → ConsumerGroup
rebalance g =
    let members = sorted (keys g.members) in
    record g { assignment = assign_all members (range g.num_partitions) (from_keys members [] []) }

-- `list(self._assignment.get(member_id, []))`
abbrev pub assignment_for : ConsumerGroup → String → List ℕ
assignment_for g member_id = get_default member_id [] g.assignment

unfoldable pub join : String → ℕ → ConsumerGroup → ConsumerGroup × List ℕ
join member_id now g =
    let joined = rebalance (record g {
      members = put member_id (record { member_id = member_id; last_heartbeat = now }) g.members;
    }) in
    (joined, assignment_for joined member_id)

unfoldable pub heartbeat : String → ℕ → ConsumerGroup → Result StreamError ConsumerGroup
heartbeat member_id now g = elim (get member_id g.members) [
  | none ↦ raise unknown_member
  | some state ↦
      ok (record g { members = put member_id (record state { last_heartbeat = now }) g.members })
]

unfoldable pub leave : String → ConsumerGroup → ConsumerGroup
leave member_id g =
    if has member_id g.members
    then rebalance (record g { members = remove member_id g.members })
    else g

abbrev pub is_expired : ℕ → ℕ → MemberState → Bool
is_expired timeout now state = ltb (state.last_heartbeat + timeout) now

abbrev pub expired_ids : ℕ → ℕ → Dict String MemberState → List String
expired_ids timeout now [] = []
expired_ids timeout now ((member_id, state) ∷ d) =
    let rest = expired_ids timeout now d in
    if is_expired timeout now state then member_id ∷ rest else rest

abbrev pub remove_all : {V : Type 0} → List String → Dict String V → Dict String V
remove_all [] d = d
remove_all (k ∷ ks) d = remove_all ks (remove k d)

abbrev pub is_nil : {A : Type 0} → List A → Bool
is_nil [] = true
is_nil (_ ∷ _) = false

unfoldable pub check_expired_members : ℕ → ConsumerGroup → ConsumerGroup × List String
check_expired_members now g =
    let expired = expired_ids g.session_timeout_seconds now g.members in
    let left = record g { members = remove_all expired g.members } in
    (if is_nil expired then left else rebalance left, expired)
