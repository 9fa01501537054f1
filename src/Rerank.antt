-- ===== src/Rerank.antt =====
-- layer3/rerank/scheduler.py: how many candidates each comparison of a fine rerank eliminates.
pub mod Schedule
mod Examples
