-- ===== src/RunRuntime/Sane.antt =====
-- What holds of a run's state between rounds and of what is saved of it
-- (src/transit_scholar/layer3/runtime/run_runtime.py), and what a step of the runtime may do to it.
pub mod Closing
pub mod Deciding
pub mod Planning
pub mod Sessions
pub mod Rounds
pub mod Calls
pub mod Recovery
use transit_scholar.Base.{
  ℕ, ◌+◌, ◌≤◌, ◌≡◌, refl, Bool, true, false, not, Option, none, some, List, any, length, is_some,
  if◌then◌else◌,
}
use transit_scholar.RunRuntime.Plan.{ResearchPlan, is_unfinished, items_of}
use transit_scholar.RunRuntime.State.{
  RunStatus, created, running, run_completed, RunOrchestrationState, RunFinalResponseArtifact,
  SessionOutcome, Environment, Checkpoint, Machine, RunResult, Flow, next, stop, raised, ◌>>=◌,
}
use transit_scholar.RunRuntime.Turn.{status_of, agent_status}
use transit_scholar.RunRuntime.Run.{has_ended}

-- a session in progress counts as one
abbrev pub in_progress : RunOrchestrationState → ℕ
in_progress state = if is_some state.current_research_session_id then 1 else 0

-- every item of the plan has come to its end
abbrev pub is_terminal : Option ResearchPlan → Bool
is_terminal plan = not (any (λ item. is_unfinished item.status) (items_of plan))

-- not an end of a call
abbrev pub is_open : RunStatus → Bool
is_open created = true
is_open running = true
is_open _ = false

module _ (env : Environment) where
  pub record IsSane (state : RunOrchestrationState) (outcomes : List (SessionOutcome env.Report))
      (plan : Option ResearchPlan) : Type 0 where
    pub sessions : length outcomes + in_progress state ≤ env.config.max_sessions
    pub failures :
        length state.failed_session_ids + in_progress state ≤ env.config.max_failed_sessions + 1
    pub rounds : state.planning_round ≤ env.config.max_planning_rounds + 1
    pub complete : state.status ≡ run_completed → is_terminal plan ≡ true
    pub ended : has_ended state.status ≡ true → status_of state.termination_reason ≡ state.status

  -- a state between two rounds
  pub record IsReady (m : Machine env) : Type 0 where
    pub idle : m.state.current_research_session_id ≡ none
    pub live : m.state.status ≡ running
    pub sessions : length m.outcomes ≤ env.config.max_sessions
    pub failures : length m.state.failed_session_ids ≤ env.config.max_failed_sessions + 1
    pub rounds : m.state.planning_round ≤ env.config.max_planning_rounds + 1

  -- What is returned is what is saved, and what the AgentRun says.
  pub record IsClosed (result : RunResult env) (m : Machine env) : Type 0 where
    pub sane : IsSane m.state m.outcomes m.plan
    pub saved :
        env.has_state_store ≡ true
        → m.saved
          ≡ some (record {
            state = m.state;
            outcomes = m.outcomes;
            plan = m.plan;
            final_response = result.final_response;
          })
    pub agent : env.has_execution_service ≡ true → m.run_status ≡ agent_status result.status
    pub settled : is_open result.status ≡ false
    pub complete :
        result.status ≡ run_completed
        → (is_terminal m.plan ≡ true) × (is_some result.final_response ≡ true)

  -- the parts that a decision is about are as they were
  pub record IsSame (m new : Machine env) : Type 0 where
    pub state : new.state ≡ m.state
    pub outcomes : new.outcomes ≡ m.outcomes
    pub plan : new.plan ≡ m.plan

  -- what a step that goes on leaves, and how one that returns does
  abbrev pub Meets :
      {A : Type 0}
      → (A → Machine env → Type 0)
      → (RunResult env → Machine env → Type 0)
      → Flow env A
      → Type 0
  Meets on_next on_stop (next a m) = on_next a m
  Meets on_next on_stop (stop result m) = on_stop result m
  Meets on_next on_stop (raised message m) = Unit

  pub Meets-bind :
      {A B : Type 0} (N : A → Machine env → Type 0) (N' : B → Machine env → Type 0)
      (S : RunResult env → Machine env → Type 0) (flow : Flow env A)
      (go_on : A → Machine env → Flow env B)
      → Meets N S flow
      → ((a : A) (m : Machine env) → N a m → Meets N' S (go_on a m))
      → Meets N' S (flow >>= go_on)
  Meets-bind N N' S (next a m) go_on first rest = rest a m first
  Meets-bind N N' S (stop result m) go_on first rest = first
  Meets-bind N N' S (raised message m) go_on first rest = tt
