-- ===== src/Tests.antt =====
-- The theorems at concrete inputs, by the part of the program.
mod Settling
mod Voting
mod Streams
mod Scores
mod Cycles
mod Replicating
mod Wire
mod Matching
mod Calling
mod Leading
mod Groups
mod Workers
mod Entries
mod Running
mod Committing
