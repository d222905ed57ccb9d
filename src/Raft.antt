-- ===== src/Raft.antt =====
-- raft/: the consensus core.
pub mod Types
pub mod Storage
pub mod Transport
pub mod Node
pub mod Handlers
pub mod Append
pub mod Driver
pub mod Cluster
pub mod Election
pub mod Matching
pub mod Leaders
pub mod Commitment
pub mod Runtime
