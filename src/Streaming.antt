-- ===== src/Streaming.antt =====
-- streaming/: the partitioned log, its producers and consumers, and consumer groups.
pub mod Partitioner
pub mod Broker
pub mod Group
pub mod Consumer
