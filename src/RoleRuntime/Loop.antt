-- ===== src/RoleRuntime/Loop.antt =====
-- The loop of `RoleRuntime.execute` in layer3/runtime/role_runtime.py: a decision, its actions, and
-- again, until a status other than "running" is reached or an exception ends it.
pub mod Budget
pub mod Termination
use transit_scholar.Base.{
  ℕ, zero, suc, ◌+◌, ◌-◌, String, Bool, true, false, not, ◌&&◌, Option, none, some, List, [], ◌∷◌,
  ◌++◌, leb, ltb, is_some, drop, if◌then◌else◌,
}
use transit_scholar.RoleRuntime.State.{
  RoleRuntimeProfile, RoleWorkingState, RoleExecution, RuntimeUsage, Operation, provider, tool,
  Artifact, committed, Environment, Machine, Status, running, paused, completed, terminated,
  is_running, is_paused, Reason, cancelled, max_steps, max_llm_calls, max_tool_calls, max_failures,
  pause_requested, semantic_completion, unrecoverable_failure, Event, decision_started,
  decision_validated, pause_after_decision, action_started, action_committed, pause_after_action,
  role_ended, boundary, end, set_working, set_world, working,
}
use transit_scholar.RoleRuntime.Decide.{Decision, decided, budget, failed, decide}

-- How a part of the loop's body goes on: to what follows it with a value, out of the loop by
-- `break`, or out of it by an exception.
pub data Flow (A M : Type 0) : Type 0 where
  next : A → M → Flow A M
  break : M → Flow A M
  out_of_budget : Reason → M → Flow A M
  raised_error : String → M → Flow A M
  -- too little fuel for a decision
  no_fuel : Flow A M

module _ {env : Environment} where
  -- `_limit_reason`
  unfoldable pub limit_reason : Bool → Machine env → Option Reason × Machine env
  limit_reason has_recovered_output m =
      let (stop, world) = env.is_cancelled m.world in
      let profile = m.execution.runtime_profile in
      let w = working m in
      let reason =
        if stop
        then some cancelled
        else if not has_recovered_output && leb profile.max_steps w.current_step
        then some max_steps
        else if not has_recovered_output && leb profile.max_llm_calls w.usage.llm_calls
        then some max_llm_calls
        else none in
      (reason, set_world world m)

  -- the pause poll that follows a boundary
  unfoldable pub poll_pause :
      {A : Type 0} → Event env.Raw env.Action env.Value → A → Machine env → Flow A (Machine env)
  unfolding end boundary
  poll_pause event value m =
      let (requested, world) = env.is_pause_requested m.world in
      let polled = set_world world m in
      elim requested [
        | true ↦ break (boundary event (end paused pause_requested none polled))
        | false ↦ next value polled
      ]

  -- the state once a decision is made: the output is kept, and no operation is in flight
  abbrev pub keep_output : env.Output → Machine env → Machine env
  keep_output output m =
      let w = working m in
      boundary decision_validated (
        set_working
          (record w {
            current_step = w.current_step + 1;
            last_output = some (env.dump output);
            next_action_index = 0;
            operation_in_flight = none;
          })
          m)

  -- the state in which a decision starts
  abbrev pub start_decision : Machine env → Machine env
  start_decision m =
      boundary decision_started
        (set_working (record (working m) { operation_in_flight = some provider }) m)

  unfoldable pub after_decision :
      Option (Decision env.Output × Machine env) → Flow env.Output (Machine env)
  unfolding boundary poll_pause
  after_decision none = no_fuel
  after_decision (some (decided output, m)) =
      poll_pause pause_after_decision output (keep_output output m)
  after_decision (some (budget reason, m)) = out_of_budget reason m
  after_decision (some (failed message, m)) = raised_error message m

  -- `_recover_output`, and the decision where there is no output to recover
  unfoldable pub obtain_output : Machine env → Flow env.Output (Machine env)
  unfolding after_decision boundary
  obtain_output m = elim (working m).last_output [
    | some raw ↦ elim (env.validate raw) [
      | some output ↦ next output m
      | none ↦ raised_error "ValidationError" m
    ]
    | none ↦ after_decision (decide (start_decision m))
  ]

  -- the state in which the action at `index` starts
  abbrev pub start_action : ℕ → env.Action → Machine env → Machine env
  start_action index action m = boundary action_started (
      set_working
        (record (working m) {
          next_action_index = index + 1;
          operation_in_flight = some (tool index action);
        })
        m)

  -- the state once the action has returned
  abbrev pub commit_action : env.Action → env.Value → Machine env → Machine env
  commit_action action value m =
      let w = working m in
      boundary action_committed (
        set_working
          (record w {
            usage = record (w.usage) { tool_calls = w.usage.tool_calls + 1 };
            operation_in_flight = none;
            intermediate_artifacts = w.intermediate_artifacts ++ committed action value ∷ [];
          })
          m)

  -- the body of the loop over the actions, for the action at `index`
  unfoldable pub run_action : ℕ → env.Action → Machine env → Flow (Unit {0}) (Machine env)
  unfolding end boundary poll_pause
  run_action index action m = elim env.has_executor [
    | false ↦ raised_error "no action executor is configured" m
    | true ↦ elim (leb m.execution.runtime_profile.max_tool_calls (working m).usage.tool_calls) [
      | true ↦ break (end terminated max_tool_calls none m)
      | false ↦
          let started = start_action index action m in
          let ((value, message), world) = env.execute action started.world in
          let acted = set_world world started in
          elim value [
            | none ↦ raised_error message acted
            | some v ↦ poll_pause pause_after_action tt (commit_action action v acted)
          ]
    ]
  ]

  -- `for action_index in range(next_action_index, len(actions))`: the actions from `index` on
  unfoldable pub run_actions : ℕ → List env.Action → Machine env → Flow (Unit {0}) (Machine env)
  unfolding run_action
  run_actions index [] m = next tt m
  run_actions index (action ∷ actions) m = elim (run_action index action m) [
    | next _ m' ↦ run_actions (index + 1) actions m'
    | break m' ↦ break m'
    | out_of_budget reason m' ↦ out_of_budget reason m'
    | raised_error message m' ↦ raised_error message m'
    | no_fuel ↦ no_fuel
  ]

  -- after the actions: completion, or the output is dropped and the loop goes on
  unfoldable pub finish_turn : env.Output → Machine env → Flow (Unit {0}) (Machine env)
  unfolding end
  finish_turn output m = elim (env.is_completed output) [
    | true ↦ break (end completed semantic_completion none m)
    | false ↦
        next tt (set_working (record (working m) { last_output = none; next_action_index = 0 }) m)
  ]

  unfoldable pub use_output : env.Output → Machine env → Flow (Unit {0}) (Machine env)
  unfolding run_actions finish_turn
  use_output output m =
      let index = (working m).next_action_index in
      elim (run_actions index (drop index (env.actions output)) m) [
        | next _ m' ↦ finish_turn output m'
        | break m' ↦ break m'
        | out_of_budget reason m' ↦ out_of_budget reason m'
        | raised_error message m' ↦ raised_error message m'
        | no_fuel ↦ no_fuel
      ]

  -- one round of `while execution.status == "running"`
  unfoldable pub turn : Machine env → Flow (Unit {0}) (Machine env)
  unfolding limit_reason obtain_output use_output end
  turn m =
      let (reason, polled) = limit_reason (is_some (working m).last_output) m in
      elim reason [
        | some r ↦ break (end terminated r none polled)
        | none ↦ elim (obtain_output polled) [
          | next output m' ↦ use_output output m'
          | break m' ↦ break m'
          | out_of_budget r m' ↦ out_of_budget r m'
          | raised_error message m' ↦ raised_error message m'
          | no_fuel ↦ no_fuel
        ]
      ]

  -- `except Exception`
  unfoldable pub fail : String → Machine env → Machine env
  unfolding end
  fail message m =
      let w = working m in
      let failures = w.usage.failures + 1 in
      let counted = set_working (record w { usage = record (w.usage) { failures = failures } }) m in
      end Status.failed
        (if leb m.execution.runtime_profile.max_failures failures
          then max_failures
          else unrecoverable_failure)
        (some message) counted

  -- The loop with its two `except` clauses. A round with no output to recover spends a step of
  -- `max_steps`, so `max_steps - current_step + 2` rounds are enough: `none` means too little fuel.
  unfoldable pub run_loop : ℕ → Machine env → Option (Machine env)
  unfolding turn fail end
  run_loop zero m = none
  run_loop (suc fuel) m = elim (is_running m.execution.status) [
    | false ↦ some m
    | true ↦ elim (turn m) [
      | next _ m' ↦ run_loop fuel m'
      | break m' ↦ some m'
      | out_of_budget reason m' ↦ some (end terminated reason none m')
      | raised_error message m' ↦ some (fail message m')
      | no_fuel ↦ none
    ]
  ]

  -- what follows the `try`: a terminal status is saved and traced
  unfoldable pub close : Machine env → Machine env
  unfolding boundary
  close m =
      if is_paused m.execution.status
      then m
      else boundary (role_ended m.execution.status m.execution.termination_reason) m
