-- ===== src/Raft/Election.antt =====
-- Elections over the whole cluster: what each node's votes and messages rest on, and that a term
-- has one leader.
pub mod Quorum
pub mod Honest
pub mod Calls
pub mod Votes
pub mod Safety
