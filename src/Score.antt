-- ===== src/Score.antt =====
-- The scorer: benchmarks/_score_metrics.py and benchmarks/score.py.
pub mod Ranges
pub mod Coverage
pub mod Judgment
