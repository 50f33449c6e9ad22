-- ===== src/Attempts.antt =====
-- The append-only ledger of paired attempts: benchmarks/_paired_attempts.py.
pub mod Transition
pub mod Ledger
pub mod Api
