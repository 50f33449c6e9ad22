-- ===== src/Corpus.antt =====
-- The checks of benchmarks/validate.py on the corpus of tasks.
pub mod Partition
