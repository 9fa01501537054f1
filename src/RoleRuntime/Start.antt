-- ===== src/RoleRuntime/Start.antt =====
-- `RoleRuntime.execute` of layer3/runtime/role_runtime.py as a whole: a new execution, or one that is
-- recovered from its last snapshot, and then the loop. The checks on the Role's registration and the
-- validation of its input come before it and are not modelled.
use transit_scholar.Base.{
  ◌+◌, ◌-◌, String, Bool, ◌&&◌, Option, none, some, [], ◌∷◌, ◌++◌, str_eq, if◌then◌else◌,
}
use transit_scholar.Base.Result.{Result, ok, err}
use transit_scholar.RoleRuntime.State.{
  RoleRuntimeProfile, provider, tool, abandoned, Environment, Execution, Machine, created,
  terminated, is_running, is_paused, in_flight_action_abandoned, role_start, role_resume,
  provider_call_abandoned, action_abandoned, boundary_resumed, boundary, start, end, set_working,
  working,
}
use transit_scholar.RoleRuntime.Loop.{run_loop, close}

-- the Role and the owner of a call of `execute`
pub record Request : Type 0 where
  pub role_execution_id : String
  pub role_id : String
  pub agent_run_id : String
  pub research_session_id : String
  pub runtime_profile : RoleRuntimeProfile

pub data StartError : Type 0 where
  owner_mismatch : StartError

module _ (env : Environment) where
  -- a new `RoleExecution`
  abbrev pub new_execution : Request → Execution env
  new_execution r = record {
    role_execution_id = r.role_execution_id;
    role_id = r.role_id;
    agent_run_id = r.agent_run_id;
    research_session_id = r.research_session_id;
    status = created;
    working_state = record {
      current_step = 0;
      last_output = none;
      intermediate_artifacts = [];
      next_action_index = 0;
      operation_in_flight = none;
      usage = record { llm_calls = 0; tool_calls = 0; failures = 0 };
      retries = record { provider_retries = 0; structured_output_repairs = 0 };
    };
    runtime_profile = r.runtime_profile;
    termination_reason = none;
    failure_message = none;
  }

  -- `_validate_recovery`
  abbrev pub owns : Execution env → Request → Bool
  owns e r =
      str_eq e.role_id r.role_id
      && str_eq e.agent_run_id r.agent_run_id
      && str_eq e.research_session_id r.research_session_id

  -- What a recovery makes of `operation_in_flight`: a provider call is made again, an action is not,
  -- since it may have been carried out.
  unfoldable pub settle : Machine env → Machine env
  unfolding boundary end
  settle m =
      let w = working m in
      elim w.operation_in_flight [
        | none ↦ boundary boundary_resumed m
        | some operation ↦ elim operation [
          | provider ↦
              boundary provider_call_abandoned
                (set_working (record w { operation_in_flight = none }) m)
          | tool index action ↦ boundary action_abandoned (
              end terminated in_flight_action_abandoned
                (some "Recovered an action with unknown commit outcome")
                (set_working
                  (record w {
                    operation_in_flight = none;
                    intermediate_artifacts = w.intermediate_artifacts ++ abandoned action ∷ [];
                    usage = record (w.usage) { failures = w.usage.failures + 1 };
                  })
                  m))
        ]
      ]

  -- the loop, with fuel for every step that is left, and what follows it
  unfoldable pub run : Machine env → Option (Machine env)
  unfolding run_loop close
  run m = elim (run_loop (m.execution.runtime_profile.max_steps - (working m).current_step + 2) m) [
    | none ↦ none
    | some m' ↦ some (close m')
  ]

  -- `execute` from the saved execution that `_restore` gives. A terminal one is returned as it is.
  unfoldable pub execute :
      Request → Option (Execution env) → env.World → Result StartError (Option (Machine env))
  unfolding settle run boundary start
  execute request none world = ok (
      run (
        boundary role_start
          (record { execution = start (new_execution request); world = world; boundaries = [] })))
  execute request (some saved) world =
      let m : Machine env = record { execution = saved; world = world; boundaries = [] } in
      let resumed : Machine env = record {
        execution = start saved;
        world = world;
        boundaries = [];
      } in
      if owns saved request
      then (if is_paused saved.status
          then ok (run (settle (boundary role_resume resumed)))
          else if is_running saved.status
          then ok (run (settle m))
          else ok (some m))
      else err owner_mismatch
