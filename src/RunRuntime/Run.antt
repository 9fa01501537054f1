-- ===== src/RunRuntime/Run.antt =====
-- `RunResearchRuntime.execute` as a whole (src/transit_scholar/layer3/runtime/run_runtime.py): what was
-- saved is loaded, a session in progress resumed, and rounds follow until one ends the run.
use transit_scholar.Base.{
  ℕ, zero, suc, ◌+◌, ◌-◌, String, Bool, true, false, not, ◌&&◌, Option, none, some, List, [], ◌∷◌,
  is_some, if◌then◌else◌,
}
use transit_scholar.RunRuntime.Plan.{RunDecision, direct_session, planned_research, complete}
use transit_scholar.RunRuntime.State.{
  RunStatus, running, run_completed, run_cancelled, run_terminated, run_failed,
  RunOrchestrationState, run_started, run_coordination, run_aborted, Environment, Checkpoint,
  Machine, RunResult, Flow, next, stop, raised, ◌>>=◌, event, set_world, persist, set_run_status,
  set_state,
}
use transit_scholar.RunRuntime.Turn.{
  result, pause_result, poll_pause, check_limits, snapshot, coordinate, decision_repair_limit,
  is_success, synthesize,
}
use transit_scholar.RunRuntime.Planning.{planned}
use transit_scholar.RunRuntime.Session.{start_session, recover_current}

-- How a call ends: it returns, it raises, or there was too little fuel for the loop.
pub data Outcome (env : Environment) : Type 0 where
  returned : RunResult env → Machine env → Outcome env
  failed_with : String → Machine env → Outcome env
  no_fuel : Outcome env

abbrev pub first_question : List String → String → String
first_question [] goal = goal
first_question (question ∷ questions) goal = question

abbrev pub new_state : RunOrchestrationState
new_state = record {
  research_plan_id = none;
  current_plan_item_id = none;
  current_research_session_id = none;
  completed_session_ids = [];
  failed_session_ids = [];
  planning_round = 0;
  run_steps = 0;
  status = running;
  termination_reason = none;
}

abbrev pub has_ended : RunStatus → Bool
has_ended run_completed = true
has_ended run_cancelled = true
has_ended run_terminated = true
has_ended _ = false

module _ {env : Environment} where
  -- the branch of a planned decision goes on to its session, if there is one
  unfoldable pub after_planned :
      env.Snapshot → Option (String × String) → Machine env → Flow env (Unit {0})
  unfolding start_session
  after_planned snap none m = next tt m
  after_planned snap (some (question, sid)) m = start_session snap question sid m

  -- the branch of a direct session
  unfoldable pub direct : RunDecision → env.Snapshot → Machine env → Flow env (Unit {0})
  unfolding set_world start_session
  direct decision snap m =
      let (sid, world) = env.new_id m.world in
      start_session snap (first_question decision.proposed_questions (env.user_goal snap)) sid
        (set_world world m)

  unfoldable pub follow : RunDecision → env.Snapshot → Machine env → Flow env (Unit {0})
  unfolding synthesize planned after_planned direct
  follow decision snap m = elim decision.mode [
    | complete ↦ synthesize decision snap m
    | planned_research ↦ planned decision m >>= after_planned snap
    | direct_session ↦ direct decision snap m
  ]

  unfoldable pub count_step : Machine env → Machine env
  count_step m = set_state (record (m.state) { run_steps = m.state.run_steps + 1 }) m

  -- the snapshot, the decision on it, and what follows from that
  unfoldable pub decide_and_follow : Machine env → Flow env (Unit {0})
  unfolding snapshot coordinate event follow
  decide_and_follow m = snapshot m >>= λ snap built.
      coordinate decision_repair_limit snap built >>= λ decision decided.
      follow decision snap (event (run_coordination decision.mode) decided)

  -- the body of `while True`
  unfoldable pub turn : Machine env → Flow env (Unit {0})
  unfolding count_step poll_pause check_limits decide_and_follow
  turn m = poll_pause (count_step m) >>= λ _ polled.
      check_limits polled >>= λ _ within. decide_and_follow within

  -- what follows a round, given the rounds after it
  unfoldable pub after_turn : (Machine env → Outcome env) → Flow env (Unit {0}) → Outcome env
  after_turn later (next _ m) = later m
  after_turn later (stop given m) = returned given m
  after_turn later (raised message m) = failed_with message m

  unfoldable pub run_loop : ℕ → Machine env → Outcome env
  unfolding turn after_turn
  run_loop zero m = no_fuel
  run_loop (suc fuel) m = after_turn (run_loop fuel) (turn m)

  -- the rounds that the step budget leaves, and the one that finds it spent
  unfoldable pub fuel_of : Machine env → ℕ
  fuel_of m = env.config.max_run_steps - m.state.run_steps + 1

  -- the loop, for a run without a session in progress
  unfoldable pub begin : Machine env → Outcome env
  unfolding persist event run_loop fuel_of
  begin m =
      let ready = set_state (record (m.state) { status = running }) m in
      run_loop (fuel_of m) (event run_started (persist none ready))

  unfoldable pub finish : Flow env (Unit {0}) → Outcome env
  finish (next _ m) = no_fuel
  finish (stop given m) = returned given m
  finish (raised message m) = failed_with message m

  -- after `_recover_current`: the session may have paused again
  unfoldable pub after_recovery : Flow env (Unit {0}) → Outcome env
  unfolding begin pause_result finish
  after_recovery (next _ m) = elim m.state.current_research_session_id [
    | some sid ↦ finish (pause_result m)
    | none ↦ begin m
  ]
  after_recovery (stop given m) = returned given m
  after_recovery (raised message m) = failed_with message m

  -- a saved state that has ended already
  unfoldable pub replay : Checkpoint env → Machine env → Outcome env
  unfolding result finish
  replay saved m =
      if is_success saved.state.status && not (is_some saved.final_response)
      then failed_with "ValueError" m
      else finish (result saved.state.termination_reason saved.final_response m)

  -- the machine of `_load`
  unfoldable pub load : Option (Checkpoint env) → RunStatus → env.World → Machine env
  load none status world = record {
    state = new_state;
    outcomes = [];
    plan = none;
    saved = none;
    run_status = status;
    events = [];
    world = world;
  }
  load (some saved) status world = record {
    state = saved.state;
    outcomes = saved.outcomes;
    plan = saved.plan;
    saved = some saved;
    run_status = status;
    events = [];
    world = world;
  }

  -- a state that has not ended
  unfoldable pub proceed : Machine env → Outcome env
  unfolding recover_current after_recovery begin
  proceed m = elim m.state.current_research_session_id [
    | some sid ↦ after_recovery (recover_current sid m)
    | none ↦ begin m
  ]

  unfoldable pub execute_inner : Option (Checkpoint env) → RunStatus → env.World → Outcome env
  unfolding load replay proceed
  execute_inner none status world = proceed (load none status world)
  execute_inner (some saved) status world = elim (has_ended saved.state.status) [
    | true ↦ replay saved (load (some saved) status world)
    | false ↦ proceed (load (some saved) status world)
  ]

  -- an exception leaves the AgentRun failed
  unfoldable pub on_exception : Outcome env → Outcome env
  unfolding set_world set_run_status event
  on_exception (failed_with message m) =
      let undone = set_world (env.rollback m.world) m in
      let marked = event (run_aborted none) (set_run_status run_failed undone) in
      failed_with message (set_world (env.commit marked.world) marked)
  on_exception other = other

  -- what `_load` finds: nothing, where there is no state store
  unfoldable pub stored : Option (Checkpoint env) → Option (Checkpoint env)
  stored saved = if env.has_state_store then saved else none

  unfoldable pub execute : Option (Checkpoint env) → RunStatus → env.World → Outcome env
  unfolding execute_inner on_exception stored
  execute saved status world = on_exception (execute_inner (stored saved) status world)
