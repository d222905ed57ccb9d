-- ===== src/Remote.antt =====
-- coordinator/grpc/: the messages of Raft on the wire.
pub mod Serialization
pub mod Service
pub mod Runs
pub mod Client
pub mod Proposals
pub mod Addresses
