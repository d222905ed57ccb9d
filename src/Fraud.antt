-- ===== src/Fraud.antt =====
-- fraud/: the scorer and the worker that scores the records of its partitions.
pub mod Scorer
pub mod Worker
