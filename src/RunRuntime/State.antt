-- ===== src/RunRuntime/State.antt =====
-- The durable state of a run (`RunOrchestrationState`, `RunRuntimeConfig`, `SessionOutcome`,
-- `RunFinalResponseArtifact` of src/transit_scholar/layer3/run_context/models.py), what the runtime calls
-- (an environment), and a step of the runtime: it goes on with a value, returns a result or raises.
-- The contents of an outcome that the runtime only hands on are its `report`.
use transit_scholar.Base.{
  ℕ, String, Bool, true, false, Option, some, List, [], ◌∷◌, ◌++◌, if◌then◌else◌,
}
use transit_scholar.RunRuntime.Plan.{ResearchPlan, RunDecision, SequencingError, DecisionMode}

pub data OutcomeStatus : Type 0 where
  completed failed cancelled terminated : OutcomeStatus

abbrev pub is_completed : OutcomeStatus → Bool
is_completed completed = true
is_completed _ = false

pub record SessionOutcome (Report : Type 0) : Type 0 where
  pub research_session_id : String
  pub research_question : String
  pub status : OutcomeStatus
  pub failure_reason : Option String
  pub report : Option Report

pub data RunStatus : Type 0 where
  created running run_completed run_cancelled run_terminated run_failed paused : RunStatus

-- the values of `termination_reason`
pub data Reason : Type 0 where
  semantic_completion stopped pause_requested : Reason
  max_run_steps max_sessions max_planning_rounds max_failed_sessions : Reason

pub record RunOrchestrationState : Type 0 where
  pub research_plan_id : Option String
  pub current_plan_item_id : Option String
  pub current_research_session_id : Option String
  pub completed_session_ids : List String
  pub failed_session_ids : List String
  pub planning_round : ℕ
  pub run_steps : ℕ
  pub status : RunStatus
  pub termination_reason : Option Reason

-- the limits that the loop reads
pub record RunRuntimeConfig : Type 0 where
  pub max_sessions : ℕ
  pub max_planning_rounds : ℕ
  pub max_failed_sessions : ℕ
  pub max_run_steps : ℕ

pub record RunFinalResponseArtifact : Type 0 where
  pub answer_text : String
  pub contributing_session_ids : List String
  pub status : OutcomeStatus
  pub completion_reason : Option String

-- what the session runtime gives back, once `_adapt_outcome` has read it
pub data SessionReply (Report : Type 0) : Type 0 where
  session_paused : SessionReply Report
  outcome : SessionOutcome Report → SessionReply Report
  session_error : String → SessionReply Report

-- an event of the trace, with the part of its payload that the runtime decides
pub data RunEvent : Type 0 where
  run_started run_plan_updated synthesis_started promoted_to_planned : RunEvent
  run_coordination : DecisionMode → RunEvent
  run_retry : SequencingError → RunEvent
  run_plan_created : String → RunEvent
  run_replan : ℕ → RunEvent
  session_created : String → String → RunEvent
  session_started session_completed session_failed : String → RunEvent
  run_paused : Option String → RunEvent
  run_finished : Option Reason → RunEvent
  run_aborted : Option Reason → RunEvent

-- The code that the runtime is given. `none` and `false` are an exception. `World` is what this code reads
-- and changes.
pub record Environment : Type 1 where
  pub World : Type 0
  pub Report : Type 0
  pub Snapshot : Type 0
  pub Handoff : Type 0
  pub config : RunRuntimeConfig
  -- an execution service is there, and the session runtime requires one
  pub has_execution_service : Bool
  -- the state is stored
  pub has_state_store : Bool
  pub requires_execution_service : Bool
  -- uuid4().hex
  pub new_id : World → String × World
  pub is_cancelled : World → Bool × World
  pub is_pause_requested : World → Bool × World
  pub build_snapshot :
      List (SessionOutcome Report)
      → Option ResearchPlan
      → RunOrchestrationState
      → World
      → Option Snapshot × World
  -- the coordinator's reply, validated as a RunDecision
  pub coordinator : Snapshot → World → Option RunDecision × World
  pub synthesis : Option (Snapshot → World → Option RunFinalResponseArtifact × World)
  pub project_handoff : Snapshot → String → World → Option Handoff × World
  pub user_goal : Snapshot → String
  -- `_create_session` for an identifier and a question
  pub create_session : String → String → Handoff → World → Bool × World
  pub run_session : String → String → Handoff → World → SessionReply Report × World
  pub resume_session : String → String → Handoff → World → SessionReply Report × World
  -- `execution_service.get_research_session`: the question of a session that it has
  pub session_question : String → World → Option (Option String) × World
  pub complete_lifecycle : List (SessionOutcome Report) → World → World
  pub commit : World → World
  pub rollback : World → World

module _ (env : Environment) where
  pub record Checkpoint : Type 0 where
    pub state : RunOrchestrationState
    pub outcomes : List (SessionOutcome env.Report)
    pub plan : Option ResearchPlan
    pub final_response : Option RunFinalResponseArtifact

  -- what the runtime holds, what it has saved last, the status of the AgentRun and the trace
  pub record Machine : Type 0 where
    pub state : RunOrchestrationState
    pub outcomes : List (SessionOutcome env.Report)
    pub plan : Option ResearchPlan
    pub saved : Option Checkpoint
    pub run_status : RunStatus
    pub events : List RunEvent
    pub world : env.World

  pub record RunResult : Type 0 where
    pub status : RunStatus
    pub termination_reason : Option Reason
    pub final_response : Option RunFinalResponseArtifact

  pub data Flow (A : Type 0) : Type 0 where
    next : A → Machine → Flow A
    stop : RunResult → Machine → Flow A
    raised : String → Machine → Flow A

module _ {env : Environment} where
  infixl 5 ◌>>=◌
  abbrev pub ◌>>=◌ : {A B : Type 0} → Flow env A → (A → Machine env → Flow env B) → Flow env B
  next a m >>= go_on = go_on a m
  stop result m >>= go_on = stop result m
  raised message m >>= go_on = raised message m

  unfoldable pub event : RunEvent → Machine env → Machine env
  event e m = record m { events = m.events ++ e ∷ [] }

  unfoldable pub event_if : Bool → RunEvent → Machine env → Machine env
  event_if told e m = record m { events = if told then m.events ++ e ∷ [] else m.events }

  unfoldable pub set_world : env.World → Machine env → Machine env
  set_world world m = record m { world = world }

  -- `_persist`, where there is a state store
  unfoldable pub persist : Option RunFinalResponseArtifact → Machine env → Machine env
  persist artifact m = record m {
    saved =
        (if env.has_state_store
          then some (record {
            state = m.state;
            outcomes = m.outcomes;
            plan = m.plan;
            final_response = artifact;
          })
          else m.saved);
  }

  -- `execution_service.update_agent_run_status`, where there is one
  unfoldable pub set_run_status : RunStatus → Machine env → Machine env
  set_run_status status m = record m {
    run_status = if env.has_execution_service then status else m.run_status;
  }

  -- the state is changed
  abbrev pub set_state : RunOrchestrationState → Machine env → Machine env
  set_state state m = record m { state = state }
