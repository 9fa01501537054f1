-- ===== src/RunRuntime/Session.antt =====
-- A research session of a run (src/transit_scholar/layer3/runtime/run_runtime.py): it is created, carried
-- out, and its outcome recorded; or, after a restart, resumed (`_recover_current`).
use transit_scholar.Base.{
  String, Bool, true, false, not, ◌&&◌, Option, none, some, List, [], ◌∷◌, ◌++◌, any, length, leb,
  str_eq, if◌then◌else◌,
}
use transit_scholar.RunRuntime.Plan
use transit_scholar.RunRuntime.Plan.{
  ItemStatus, ResearchPlanItem, ResearchPlan, change_first, first_item,
}
use transit_scholar.RunRuntime.State.{
  OutcomeStatus, failed, is_completed, SessionOutcome, RunOrchestrationState, max_sessions,
  SessionReply, session_paused, outcome, session_error, session_created, session_started,
  session_completed, session_failed, Environment, Machine, Flow, next, raised, ◌>>=◌, event,
  set_world, persist, set_state,
}
use transit_scholar.RunRuntime.Turn.{result, pause_result, snapshot, or_else, answer_of}

-- `item.research_session_id == sid`
abbrev pub in_session : String → ResearchPlanItem → Bool
in_session sid item = elim item.research_session_id [ none ↦ false | some id ↦ str_eq id sid ]

abbrev pub item_status : OutcomeStatus → ItemStatus
item_status status = if is_completed status then Plan.completed else Plan.failed

-- the outcome of a session whose runtime raises
abbrev pub failed_outcome : {Report : Type 0} → String → String → String → SessionOutcome Report
failed_outcome sid question message = record {
  research_session_id = sid;
  research_question = question;
  status = failed;
  failure_reason = some message;
  report = none;
}

unfoldable pub settle_plan : String → OutcomeStatus → Option ResearchPlan → Option ResearchPlan
unfolding change_first
settle_plan sid status none = none
settle_plan sid status (some plan) = some (record plan {
  items =
      change_first (in_session sid) (λ item. record item { status = item_status status })
        plan.items;
})

-- the state after an outcome, given the lists of session identifiers
abbrev pub settled_state : List String → List String → RunOrchestrationState → RunOrchestrationState
settled_state completed_ids failed_ids state = record state {
  current_research_session_id = none;
  current_plan_item_id = none;
  completed_session_ids = completed_ids;
  failed_session_ids = failed_ids;
}

abbrev pub add_new : String → List String → List String
add_new sid ids = if any (λ id. str_eq id sid) ids then ids else ids ++ sid ∷ []

-- the question of the plan's item for the session
unfoldable pub planned_question : String → Option ResearchPlan → Option String
unfolding first_item
planned_question sid none = none
planned_question sid (some plan) = elim (first_item (in_session sid) plan.items) [
  | none ↦ none
  | some item ↦ some item.research_question
]

module _ {env : Environment} where
  unfoldable pub record_outcome : String → SessionOutcome env.Report → Machine env → Machine env
  unfolding event persist settle_plan
  record_outcome sid done m =
      let state = m.state in
      let good = is_completed done.status in
      let completed_ids =
        if good then state.completed_session_ids ++ sid ∷ [] else state.completed_session_ids in
      let failed_ids =
        if good then state.failed_session_ids else state.failed_session_ids ++ sid ∷ [] in
      let settled = set_state (settled_state completed_ids failed_ids state) m in
      let counted = record settled { outcomes = m.outcomes ++ done ∷ [] } in
      let told = event (if good then session_completed sid else session_failed sid) counted in
      persist none (record told { plan = settle_plan sid done.status m.plan })

  -- the reply of the session runtime
  unfoldable pub after_session :
      String → String → SessionReply env.Report → Machine env → Flow env (Unit {0})
  unfolding pause_result record_outcome
  after_session sid question session_paused m = pause_result m
  after_session sid question (outcome done) m = next tt (record_outcome sid done m)
  after_session sid question (session_error message) m =
      next tt (record_outcome sid (failed_outcome sid question message) m)

  unfoldable pub carry_out : String → String → env.Handoff → Machine env → Flow env (Unit {0})
  unfolding set_world event persist after_session
  carry_out sid question handoff m =
      let state = record (m.state) { current_research_session_id = some sid } in
      let saved = persist none (set_state state m) in
      let told = event (session_started sid) (event (session_created sid question) saved) in
      let (reply, world) = env.run_session sid question handoff told.world in
      after_session sid question reply (set_world world told)

  unfoldable pub create : String → String → env.Handoff → Machine env → Flow env (Unit {0})
  unfolding set_world carry_out
  create sid question handoff m =
      let (created, world) = env.create_session sid question handoff m.world in
      let made = set_world world m in
      if created
      then carry_out sid question handoff made
      else raised "RunOrchestrationConfigurationError" made

  unfoldable pub project : env.Snapshot → String → Machine env → Flow env env.Handoff
  unfolding set_world
  project snap question m =
      let (handoff, world) = env.project_handoff snap question m.world in
      elim handoff [
        | some h ↦ next h (set_world world m)
        | none ↦ raised "the handoff" (set_world world m)
      ]

  unfoldable pub start_session : env.Snapshot → String → String → Machine env → Flow env (Unit {0})
  unfolding result project create
  start_session snap question sid m =
      if leb env.config.max_sessions (length m.outcomes)
      then result (some max_sessions) none m
      else if env.requires_execution_service && not env.has_execution_service
      then raised "RunOrchestrationConfigurationError" m
      else project snap question m >>= create sid question

  -- ----- after a restart

  -- the outcome of a session that was resumed
  unfoldable pub record_resumed : String → SessionOutcome env.Report → Machine env → Machine env
  unfolding persist settle_plan
  record_resumed sid done m =
      let state = m.state in
      let good = is_completed done.status in
      let completed_ids =
        if good then add_new sid state.completed_session_ids else state.completed_session_ids in
      let failed_ids =
        if good then state.failed_session_ids else add_new sid state.failed_session_ids in
      let settled = set_state (settled_state completed_ids failed_ids state) m in
      persist none (record settled {
        outcomes = m.outcomes ++ done ∷ [];
        plan = settle_plan sid done.status m.plan;
      })

  -- A session that pauses again leaves the machine as it is, with its session current.
  unfoldable pub after_resumed :
      String → String → SessionReply env.Report → Machine env → Machine env
  unfolding record_resumed
  after_resumed sid question session_paused m = m
  after_resumed sid question (outcome done) m = record_resumed sid done m
  after_resumed sid question (session_error message) m =
      record_resumed sid (failed_outcome sid question message) m

  -- the question of the persisted session, where the plan has none
  unfoldable pub asked_question : Option (Option String) → Machine env → Flow env String
  asked_question none m = raised "the session" m
  asked_question (some question) m =
      next (answer_of (or_else question (some "Resumed research session"))) m

  unfoldable pub resumed_question : String → Machine env → Flow env String
  unfolding planned_question asked_question set_world
  resumed_question sid m = elim (planned_question sid m.plan) [
    | some question ↦ next question m
    | none ↦ elim env.has_execution_service [
      | false ↦ next "Resumed research session" m
      | true ↦
          let (question, world) = env.session_question sid m.world in
          asked_question question (set_world world m)
    ]
  ]

  -- the session is resumed with a handoff
  unfoldable pub after_reply : String → String → env.Handoff → Machine env → Machine env
  unfolding set_world after_resumed
  after_reply sid question handoff m =
      let (reply, world) = env.resume_session sid question handoff m.world in
      after_resumed sid question reply (set_world world m)

  unfoldable pub resume : String → String → Machine env → Flow env (Unit {0})
  unfolding snapshot project after_reply
  resume sid question m = snapshot m >>= λ snap built.
      project snap question built >>= λ handoff ready.
      next tt (after_reply sid question handoff ready)

  -- an outcome that is there already: only the state was not saved
  unfoldable pub forget_current : Machine env → Machine env
  unfolding persist
  forget_current m = persist none (
      set_state
        (record (m.state) { current_research_session_id = none; current_plan_item_id = none }) m)

  unfoldable pub recover_current : String → Machine env → Flow env (Unit {0})
  unfolding forget_current resumed_question resume
  recover_current sid m =
      if any (λ o. str_eq o.research_session_id sid) m.outcomes
      then next tt (forget_current m)
      else resumed_question sid m >>= resume sid
