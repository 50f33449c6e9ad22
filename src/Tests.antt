-- ===== src/Tests.antt =====
-- Runs of the code on concrete inputs, and instances of the theorems.
pub mod Metrics
pub mod Ledger
pub mod Api
pub mod Scans
pub mod Judgments
pub mod Partitions
pub mod Plans
pub mod Stores
pub mod Installs
pub mod Releases
