-- ===== src/Tests/Groups.antt =====
-- A group of two workers, one of which is not heard of again.
use distributed_transaction.Prelude.{
  ℕ, ◌≡◌, ◌<◌, refl, String, string_eq, List, [], ◌∷◌, get, length, arith,
}
use distributed_transaction.Streaming.Group.{
  ConsumerGroup, join, heartbeat, check_expired_members, rebalance,
}
use distributed_transaction.Streaming.Group.Failover.{
  GroupCall, joins, beats, make_all, OneOwner, make_all_covers,
}
use distributed_transaction.Streaming.Group.Expiry.{survivor, check_expired_members_lem}

abbrev pub fresh : ConsumerGroup
fresh = record {
  group_id = "scorers";
  num_partitions = 3;
  session_timeout_seconds = 10;
  members = [];
  assignment = [];
}

abbrev pub calls : List GroupCall
calls = joins "w1" 0 ∷ joins "w2" 5 ∷ beats "w2" 9 ∷ []

make_all_covers_example : OneOwner (make_all calls fresh) 2
unfolding join heartbeat rebalance
make_all_covers_example =
    make_all_covers "scorers" 3 10 fresh calls 2 refl (omega arith) (omega arith)

check_expired_members_lem_example :
    let before = make_all calls fresh in
    let after = (check_expired_members 12 before).0 in
    ((m : String) → get m after.members ≡ survivor before 12 m)
    × ((p : ℕ) → 0 < length after.members → p < after.num_partitions → OneOwner after p)
check_expired_members_lem_example = check_expired_members_lem "scorers" 3 10 fresh calls 12 refl
