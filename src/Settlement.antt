-- ===== src/Settlement.antt =====
-- settlement/: what becomes of a scored transaction. The ledger itself is in Ledger.
pub mod Submitter
