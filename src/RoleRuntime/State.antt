-- ===== src/RoleRuntime/State.antt =====
-- The durable state of a Role execution (`RoleRuntimeProfile`, `RuntimeUsage`, `RetryState`,
-- `RoleWorkingState`, `RoleExecution` of layer3/agent/models.py), what the runtime does not
-- implement, and `_boundary`.
use transit_scholar.Base.{ℕ, String, Bool, true, false, Option, none, some, List, [], ◌∷◌, ◌++◌}

pub record RoleRuntimeProfile : Type 0 where
  pub max_steps : ℕ
  pub max_llm_calls : ℕ
  pub max_tool_calls : ℕ
  pub max_failures : ℕ
  pub provider_retry_limit : ℕ
  pub structured_output_repair_limit : ℕ

pub record RuntimeUsage : Type 0 where
  pub llm_calls : ℕ
  pub tool_calls : ℕ
  pub failures : ℕ

pub record RetryState : Type 0 where
  pub provider_retries : ℕ
  pub structured_output_repairs : ℕ

pub data Status : Type 0 where
  created running paused completed failed terminated : Status

-- `status == "running"`
abbrev pub is_running : Status → Bool
is_running running = true
is_running _ = false

abbrev pub is_paused : Status → Bool
is_paused paused = true
is_paused _ = false

-- the values of `termination_reason`
pub data Reason : Type 0 where
  cancelled max_steps max_llm_calls max_tool_calls max_failures : Reason
  pause_requested semantic_completion unrecoverable_failure in_flight_action_abandoned : Reason

module _ (Raw Action Value : Type 0) where
  -- `operation_in_flight`
  pub data Operation : Type 0 where
    provider : Operation
    tool : ℕ → Action → Operation

  -- an entry of `intermediate_artifacts`
  pub data Artifact : Type 0 where
    committed : Action → Value → Artifact
    abandoned : Action → Artifact

  pub record RoleWorkingState : Type 0 where
    pub current_step : ℕ
    pub last_output : Option Raw
    pub intermediate_artifacts : List Artifact
    pub next_action_index : ℕ
    pub operation_in_flight : Option Operation
    pub usage : RuntimeUsage
    pub retries : RetryState

  pub record RoleExecution : Type 0 where
    pub role_execution_id : String
    pub role_id : String
    pub agent_run_id : String
    pub research_session_id : String
    pub status : Status
    pub working_state : RoleWorkingState
    pub runtime_profile : RoleRuntimeProfile
    pub termination_reason : Option Reason
    pub failure_message : Option String

  -- `StructuredOutputRepairContext`, without the validator's messages
  pub record RepairContext : Type 0 where
    pub invalid_output : Raw
    pub attempt : ℕ

  -- the event type and the classification of a boundary
  pub data Event : Type 0 where
    role_start role_resume : Event
    provider_call_abandoned action_abandoned boundary_resumed : Event
    decision_started decision_validated provider_retry structured_output_repair : Event
    action_started action_committed : Event
    pause_after_decision pause_after_action : Event
    role_ended : Status → Option Reason → Event

  pub record Boundary : Type 0 where
    pub event : Event
    pub snapshot : RoleExecution

-- What `policy.decide` does: it returns a raw output, raises ProviderRetryableError, or raises.
pub data Reply (Raw : Type 0) : Type 0 where
  replied : Raw → Reply Raw
  retryable : Reply Raw
  raised : String → Reply Raw

-- What the runtime is given. `World` is all that its calls may read and change.
pub record Environment : Type 1 where
  pub World : Type 0
  pub Raw : Type 0
  pub Output : Type 0
  pub Action : Type 0
  pub Value : Type 0
  pub decide :
      RoleWorkingState Raw Action Value
      → Option (RepairContext Raw Action Value)
      → World
      → Reply Raw × World
  -- `output_contract.model_validate`: `none` is a ValidationError
  pub validate : Raw → Option Output
  -- `output.model_dump(mode="json")`
  pub dump : Output → Raw
  -- `_actions(output)` and the actions of the planner
  pub actions : Output → List Action
  pub is_completed : Output → Bool
  -- `action_executor.execute`: `none` means that it raised, with the message
  pub execute : Action → World → (Option Value × String) × World
  pub has_executor : Bool
  pub is_cancelled : World → Bool × World
  pub is_pause_requested : World → Bool × World

module _ (env : Environment) where
  abbrev pub Execution : Type 0
  Execution = RoleExecution env.Raw env.Action env.Value

  abbrev pub Working : Type 0
  Working = RoleWorkingState env.Raw env.Action env.Value

  pub record Machine : Type 0 where
    pub execution : Execution
    pub world : env.World
    -- what `_boundary` has saved and traced, latest last
    pub boundaries : List (Boundary env.Raw env.Action env.Value)

-- `RoleExecution.start`
unfoldable pub start :
    {Raw Action Value : Type 0} → RoleExecution Raw Action Value → RoleExecution Raw Action Value
start e = record e { status = running; termination_reason = none; failure_message = none }

module _ {env : Environment} where
  -- `RoleExecution.end`
  unfoldable pub end : Status → Reason → Option String → Machine env → Machine env
  end status reason message m = record m {
    execution = record (m.execution) {
      status = status;
      termination_reason = some reason;
      failure_message = message;
    };
  }

  -- an assignment to the working state
  abbrev pub set_working : Working env → Machine env → Machine env
  set_working w m = record m { execution = record (m.execution) { working_state = w } }

  abbrev pub set_world : env.World → Machine env → Machine env
  set_world w m = record m { world = w }

  abbrev pub working : Machine env → Working env
  working m = m.execution.working_state

  -- `_boundary`
  unfoldable pub boundary : Event env.Raw env.Action env.Value → Machine env → Machine env
  boundary event m = record m {
    boundaries = m.boundaries ++ record { event = event; snapshot = m.execution } ∷ [];
  }
