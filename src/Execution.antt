-- ===== src/Execution.antt =====
-- `AgentRunService` of src/transit_scholar/layer3/execution/service.py. A method takes the database
-- and returns its result with the database that it leaves. The identifier that `uuid4` gives is the
-- argument `new_id`.
use transit_scholar.Base.{String, Option, none, some, List, str_eq, if◌then◌else◌}
use transit_scholar.Base.Text.{nonempty, strip}
use transit_scholar.Base.Result.{Result, ok, err, ◌>>=◌, ◌>>◌, guard}
use transit_scholar.Records.{
  AgentRun, ResearchSession, Tables, Database, agent_execution_statuses, is_one_of,
}
use transit_scholar.Workspaces
use transit_scholar.Workspaces.{WorkspaceError}

-- An exception class, with the field or the identifier that its message names.
pub data ExecutionError : Type 0 where
  workspace_error : WorkspaceError → ExecutionError
  invalid_execution_input : String → ExecutionError
  agent_run_not_found research_session_not_found research_session_ownership : ExecutionError
  -- the database refuses a row (IntegrityError). The database beside it is what the session saw before: SQLAlchemy rolls
  -- the transaction back to the last commit, which is a step of Integrity.History
  refused : ExecutionError

-- a WorkspaceError goes through
abbrev pub raised_by_workspace : {A : Type 0} → Result WorkspaceError A → Result ExecutionError A
raised_by_workspace (ok a) = ok a
raised_by_workspace (err e) = err (workspace_error e)

unfoldable pub non_empty : String → String → Result ExecutionError String
non_empty value label = do
  guard (nonempty (strip value)) (invalid_execution_input label)
  ok (strip value)

unfoldable pub checked_status : String → Result ExecutionError String
unfolding non_empty
checked_status value = do
  stripped ← non_empty value "status"
  guard (is_one_of stripped agent_execution_statuses) (invalid_execution_input "status")
  ok stripped

-- `_non_empty(given, label) if given else _new_id()`
unfoldable pub given_or_new : Option String → String → String → Result ExecutionError String
given_or_new none label new_id = ok new_id
given_or_new (some given) label new_id = if nonempty given then non_empty given label else ok new_id

abbrev pub found : {A : Type 0} → Option A → ExecutionError → Result ExecutionError A
found none e = err e
found (some a) e = ok a

module _ (t : Tables) where
  unfoldable pub get_run : Database t → String → Result ExecutionError AgentRun
  unfolding non_empty
  get_run db agent_run_id = do
    stripped ← non_empty agent_run_id "agent_run_id"
    found (t.agent_runs.get db.agent_runs stripped) agent_run_not_found

  unfoldable pub get_owned_session :
      Database t → String → String → Result ExecutionError ResearchSession
  unfolding non_empty get_run
  get_owned_session db agent_run_id research_session_id = do
    run ← get_run db agent_run_id
    stripped ← non_empty research_session_id "research_session_id"
    row ← found (t.sessions.get db.sessions stripped) research_session_not_found
    guard (str_eq row.agent_run_id run.agent_run_id) research_session_ownership
    ok row

  -- the row that `create_agent_run` builds
  unfoldable pub new_agent_run :
      Database t
      → String
      → String
      → String
      → Option String
      → String
      → Result ExecutionError AgentRun
  unfolding given_or_new non_empty checked_status
  new_agent_run db workspace_id user_goal status agent_run_id new_id = do
    workspace ← raised_by_workspace (Workspaces.require_active t db workspace_id)
    row_id ← given_or_new agent_run_id "agent_run_id" new_id
    goal ← non_empty user_goal "user_goal"
    row_status ← checked_status status
    ok (record {
      agent_run_id = row_id;
      workspace_id = workspace.workspace_id;
      user_goal = goal;
      status = row_status;
      workspace_revision = workspace.revision;
      trace_sequence = 0;
    })

  -- `session.add(row)`, `flush`, `refresh`; beside `refused` is what the session saw before the rollback
  unfoldable pub insert_run :
      Database t → Result ExecutionError AgentRun → Result ExecutionError AgentRun × Database t
  insert_run db (err e) = (err e, db)
  insert_run db (ok row) = elim (t.agent_runs.add row db.agent_runs) [
    | none ↦ (err refused, db)
    | some rows ↦ (ok row, record db { agent_runs = rows })
  ]

  unfoldable pub create_agent_run :
      Database t
      → String
      → String
      → String
      → Option String
      → String
      → Result ExecutionError AgentRun × Database t
  unfolding new_agent_run insert_run
  create_agent_run db workspace_id user_goal status agent_run_id new_id =
      insert_run db (new_agent_run db workspace_id user_goal status agent_run_id new_id)

  -- `row.status = _status(status)`, `flush`, `refresh`
  unfoldable pub assign_run :
      Database t → Result ExecutionError AgentRun → Result ExecutionError AgentRun × Database t
  assign_run db (err e) = (err e, db)
  assign_run db (ok row) =
      (ok row, record db { agent_runs = t.agent_runs.assign row db.agent_runs })

  unfoldable pub update_agent_run_status :
      Database t → String → String → Result ExecutionError AgentRun × Database t
  unfolding get_run checked_status assign_run
  update_agent_run_status db agent_run_id status = assign_run db do
    row ← get_run db agent_run_id
    row_status ← checked_status status
    ok (record row { status = row_status })

  unfoldable pub new_research_session :
      Database t
      → String
      → String
      → String
      → Option String
      → String
      → Result ExecutionError ResearchSession
  unfolding get_run given_or_new non_empty checked_status
  new_research_session db agent_run_id research_question status research_session_id new_id = do
    run ← get_run db agent_run_id
    row_id ← given_or_new research_session_id "research_session_id" new_id
    question ← non_empty research_question "research_question"
    row_status ← checked_status status
    ok (record {
      research_session_id = row_id;
      agent_run_id = run.agent_run_id;
      research_question = question;
      status = row_status;
    })

  -- likewise
  unfoldable pub insert_session :
      Database t
      → Result ExecutionError ResearchSession
      → Result ExecutionError ResearchSession × Database t
  insert_session db (err e) = (err e, db)
  insert_session db (ok row) = elim (t.sessions.add row db.sessions) [
    | none ↦ (err refused, db)
    | some rows ↦ (ok row, record db { sessions = rows })
  ]

  unfoldable pub create_research_session :
      Database t
      → String
      → String
      → String
      → Option String
      → String
      → Result ExecutionError ResearchSession × Database t
  unfolding new_research_session insert_session
  create_research_session db agent_run_id research_question status research_session_id new_id =
      insert_session db
        (new_research_session db agent_run_id research_question status research_session_id new_id)

  unfoldable pub list_research_sessions :
      Database t → String → Result ExecutionError (List ResearchSession)
  unfolding get_run
  list_research_sessions db agent_run_id = do
    run ← get_run db agent_run_id
    ok (t.sessions.select (λ s. str_eq s.agent_run_id run.agent_run_id) db.sessions)

  unfoldable pub assign_session :
      Database t
      → Result ExecutionError ResearchSession
      → Result ExecutionError ResearchSession × Database t
  assign_session db (err e) = (err e, db)
  assign_session db (ok row) = (ok row, record db { sessions = t.sessions.assign row db.sessions })

  unfoldable pub update_research_session_status :
      Database t → String → String → String → Result ExecutionError ResearchSession × Database t
  unfolding get_owned_session checked_status assign_session
  update_research_session_status db agent_run_id research_session_id status = assign_session db do
    row ← get_owned_session db agent_run_id research_session_id
    row_status ← checked_status status
    ok (record row { status = row_status })
