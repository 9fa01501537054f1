-- ===== src/RunRuntime/Examples.antt =====
-- The theorems about runs, applied to a run whose session was in progress at a restart.
use transit_scholar.Base.{
  ℕ, suc, String, ◌≡◌, refl, true, false, Option, none, some, List, [], ◌∷◌, ltb, length,
  if◌then◌else◌,
}
use transit_scholar.RunRuntime.Plan
use transit_scholar.RunRuntime.Plan.{
  ResearchPlan, ResearchPlanItem, RunDecision, planned_research, complete, next_pending,
}
use transit_scholar.RunRuntime.Plan.Laws.{IsFirstPending, next_pending-IsFirstPending}
use transit_scholar.RunRuntime.State.{
  RunStatus, running, run_completed, Environment, Checkpoint, SessionReply, outcome, completed,
}
use transit_scholar.RunRuntime.Run.{Outcome, execute, returned, failed_with, no_fuel}

-- the coordinator plans one question, and completes the run when it is asked again
abbrev decision : ℕ → RunDecision
decision asked = record {
  mode = if ltb asked 1 then planned_research else complete;
  proposed_questions = if ltb asked 1 then "dwell times" ∷ [] else [];
  plan_item_updates = [];
  abandon_item_ids = [];
  completion_reason = some "done";
}

abbrev done : {Report : Type 0} → String → String → SessionReply Report
done sid question = outcome (record {
  research_session_id = sid;
  research_question = question;
  status = completed;
  failure_reason = none;
  report = none;
})

-- the world counts the decisions
abbrev env : Environment
env = record {
  World = ℕ;
  Report = Unit;
  Snapshot = Unit;
  Handoff = Unit;
  config = record {
    max_sessions = 3;
    max_planning_rounds = 2;
    max_failed_sessions = 1;
    max_run_steps = 5;
  };
  has_execution_service = true;
  has_state_store = true;
  requires_execution_service = true;
  new_id = λ n. ("id", n);
  is_cancelled = λ n. (false, n);
  is_pause_requested = λ n. (false, n);
  build_snapshot = λ outcomes plan state n. (some tt, n);
  coordinator = λ s n. (some (decision n), suc n);
  synthesis = none;
  project_handoff = λ s question n. (some tt, n);
  user_goal = λ s. "goal";
  create_session = λ sid question h n. (true, n);
  run_session = λ sid question h n. (done sid question, n);
  resume_session = λ sid question h n. (done sid question, n);
  session_question = λ sid n. (some (some "headways"), n);
  complete_lifecycle = λ outcomes n. n;
  commit = λ n. n;
  rollback = λ n. n;
}

abbrev interrupted : Checkpoint env
interrupted = record {
  state = record {
    research_plan_id = none;
    current_plan_item_id = none;
    current_research_session_id = some "s";
    completed_session_ids = [];
    failed_session_ids = [];
    planning_round = 0;
    run_steps = 1;
    status = running;
    termination_reason = none;
  };
  outcomes = [];
  plan = none;
  final_response = none;
}

-- the status of what a call returns, and its number of outcomes
outcome_of : Outcome env → Option RunStatus × ℕ
outcome_of (returned result m) = (some result.status, length m.outcomes)
outcome_of (failed_with message m) = (none, length m.outcomes)
outcome_of no_fuel = (none, 0)

-- the interrupted session and the planned one, and then the end
interrupted_completes :
    outcome_of (execute {env = env} (some interrupted) running 0) ≡ (some run_completed, 2)
unfolding outcome_of execute
interrupted_completes = refl

abbrev item : String → ℕ → Plan.ItemStatus → ResearchPlanItem
item id order status = record {
  item_id = id;
  research_question = "q";
  order = order;
  status = status;
  research_session_id = none;
}

abbrev items : List ResearchPlanItem
items = item "a" 0 Plan.completed ∷ item "b" 2 Plan.pending ∷ item "c" 1 Plan.pending ∷ []

next_pending-IsFirstPending_example : IsFirstPending (item "c" 1 Plan.pending) items
unfolding next_pending
next_pending-IsFirstPending_example =
    next_pending-IsFirstPending items (item "c" 1 Plan.pending) refl
