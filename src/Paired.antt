-- ===== src/Paired.antt =====
-- Runs of paired trials: benchmarks/_paired_contract.py and benchmarks/_paired_store.py.
pub mod Plan
pub mod Store
