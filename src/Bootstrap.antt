-- ===== src/Bootstrap.antt =====
-- The launcher of scripts/bootstrap.py, which installs a verified release and starts the local
-- maintenance of an installed one.
pub mod Paths
pub mod Process
pub mod Machine
pub mod Files
pub mod Actions
pub mod Download
pub mod Checks
pub mod Checksums
pub mod Record
pub mod Fetch
pub mod Repair
pub mod Purge
pub mod Removal
pub mod Main
pub mod Logic
pub mod Trust
