-- ===== src/Raft/Commitment.antt =====
-- What is committed stays: what each call sends and counts, the logs that leaders have had, and the
-- agreement of committed logs.
pub mod Calls
pub mod Completeness
pub mod Counting
pub mod Growing
pub mod History
pub mod Moving
pub mod Outcomes
pub mod Prefixes
pub mod Receiving
pub mod Safety
pub mod Sending
pub mod States
pub mod Standing
pub mod Turns
