-- ===== src/RoleRuntime.antt =====
-- `RoleRuntime` of src/transit_scholar/layer3/runtime/role_runtime.py, with the state of
-- layer3/agent/models.py. The policy (a language model), the contract that validates its output,
-- the action executor and the two polls are an `Environment`. A store or a trace that raises is not
-- modelled: `_boundary` appends the saved snapshot to a list.
pub mod State
pub mod Decide
pub mod Loop
pub mod Start
pub mod Outcome
pub mod Recovery
mod Examples
