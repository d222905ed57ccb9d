-- ===== src/Raft/Matching.antt =====
-- Log matching: logs that agree on the term of one entry agree up to it.
pub mod Trails
pub mod Moves
pub mod Calls
pub mod Steps
pub mod Merge
pub mod Worlds
pub mod Safety
