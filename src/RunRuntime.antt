-- ===== src/RunRuntime.antt =====
-- `RunResearchRuntime.execute` of src/transit_scholar/layer3/runtime/run_runtime.py: the loop that decides
-- which research sessions a run carries out.
pub mod Plan
pub mod State
pub mod Turn
pub mod Planning
pub mod Session
pub mod Run
pub mod Sane
mod Examples
