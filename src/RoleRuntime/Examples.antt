-- ===== src/RoleRuntime/Examples.antt =====
-- A Role with one tool, a model that needs one retry, and what the runtime makes of it.
use transit_scholar.Base.{
  ℕ, ◌+◌, arith, ◌≤◌, ◌≡◌, refl, inl, String, true, false, none, some, [], ◌∷◌, ◌++◌, ◌==◌,
  if◌then◌else◌,
}
use transit_scholar.Base.Result.{ok}
use transit_scholar.RoleRuntime.State.{
  RoleRuntimeProfile, Environment, Execution, Machine, Reply, replied, retryable, tool, running,
  terminated, is_running, in_flight_action_abandoned, abandoned, working,
}
use transit_scholar.RoleRuntime.Decide.{Decision, decide}
use transit_scholar.RoleRuntime.Decide.Retries.{decide_calls}
use transit_scholar.RoleRuntime.Loop.Budget.{InBudget}
use transit_scholar.RoleRuntime.Start.{Request, new_execution, execute}
use transit_scholar.RoleRuntime.Recovery.{execute_recovered}
use transit_scholar.RoleRuntime.Outcome.{execute_new, execute_abandons}

-- The world counts the calls of the model: the first fails, the second decides on an action, the
-- third completes.
abbrev reply : ℕ → Reply ℕ
reply n = if n == 0 then retryable else replied n

abbrev environment : Environment
environment = record {
  World = ℕ;
  Raw = ℕ;
  Output = ℕ;
  Action = ℕ;
  Value = String;
  decide = λ w repair calls. (reply calls, calls + 1);
  validate = λ raw. some raw;
  dump = λ output. output;
  actions = λ output. if output == 1 then 7 ∷ [] else [];
  is_completed = λ output. output == 2;
  execute = λ action world. ((some "found", ""), world);
  has_executor = true;
  is_cancelled = λ world. (false, world);
  is_pause_requested = λ world. (false, world);
}

abbrev profile : RoleRuntimeProfile
profile = record {
  max_steps = 3;
  max_llm_calls = 4;
  max_tool_calls = 2;
  max_failures = 1;
  provider_retry_limit = 1;
  structured_output_repair_limit = 1;
}

abbrev request : Request
request = record {
  role_execution_id = "x";
  role_id = "coordinator";
  agent_run_id = "r";
  research_session_id = "s";
  runtime_profile = profile;
}

execute_new_example :
    (n : Machine environment) × (execute environment request none 0 ≡ ok (some n))
    × InBudget profile n
    × (is_running n.execution.status ≡ false)
execute_new_example = execute_new environment request 0

-- it crashed during action 7
abbrev crashed : Execution environment
crashed =
    let e = new_execution environment request in
    record e {
      status = running;
      working_state = record (e.working_state) { operation_in_flight = some (tool 0 7) };
    }

execute_abandons_example :
    (n : Machine environment) × (execute environment request (some crashed) 5 ≡ ok (some n))
    × (n.execution.status ≡ terminated)
    × (n.execution.termination_reason ≡ some in_flight_action_abandoned)
    × (n.execution.working_state.intermediate_artifacts ≡ [] ++ abandoned 7 ∷ [])
    × (n.world ≡ 5)
execute_abandons_example = execute_abandons environment request crashed 5 0 7 refl (inl refl) refl

abbrev waiting : Machine environment
waiting = record { execution = new_execution environment request; world = 0; boundaries = [] }

decide_calls_example :
    (d : Decision ℕ) × (n : Machine environment) × (decide waiting ≡ some (d, n))
    × ((working n).usage.llm_calls ≤ 0 + 1 + 1 + 1)
decide_calls_example = decide_calls waiting

execute_recovered_example :
    (n : Machine environment) × (execute environment request (some crashed) 5 ≡ ok (some n))
    × InBudget profile n
    × (is_running n.execution.status ≡ false)
execute_recovered_example = execute_recovered environment profile request crashed 5 refl (record {
  profile = refl;
  llm_calls = omega arith;
  tool_calls = omega arith;
  steps = omega arith;
})
