-- ===== src/Trace.antt =====
-- `AgentTraceService` of src/transit_scholar/layer3/trace/service.py: the events of a run, numbered. What
-- `append_event` has written before it raises stays written in the session, unless the database refuses
-- the event: then SQLAlchemy rolls the transaction back.
pub mod Numbering
use transit_scholar.Base.{
  ℕ, ◌+◌, String, Bool, true, false, ◌&&◌, Option, none, some, List, str_eq, if◌then◌else◌,
}
use transit_scholar.Base.Result.{Result, ok, err, ◌>>=◌}
use transit_scholar.Records.{
  AgentRun, ResearchSession, AgentTraceEvent, Payload, json, not_serializable, Tables, Database,
}
use transit_scholar.Execution.{
  ExecutionError, invalid_execution_input, refused, non_empty, given_or_new, get_run,
  get_owned_session,
}

-- `_serialize_payload`
unfoldable pub serialize_payload : Payload → Result ExecutionError String
serialize_payload (json text) = ok text
serialize_payload not_serializable = err (invalid_execution_input "payload")

-- `trace_sequence = trace_sequence + 1`
unfoldable pub count_event : AgentRun → AgentRun
count_event run = record run { trace_sequence = run.trace_sequence + 1 }

unfoldable pub new_event :
    AgentRun
    → String
    → Payload
    → Option String
    → Option String
    → String
    → Result ExecutionError AgentTraceEvent
unfolding given_or_new non_empty serialize_payload
new_event run event_type payload research_session_id event_id new_id = do
  id ← given_or_new event_id "event_id" new_id
  kind ← non_empty event_type "event_type"
  text ← serialize_payload payload
  ok (record {
    event_id = id;
    agent_run_id = run.agent_run_id;
    research_session_id = research_session_id;
    sequence = run.trace_sequence;
    event_type = kind;
    payload_json = text;
  })

module _ (t : Tables) where
  -- the session is checked where one is given
  unfoldable pub check_session :
      Database t → AgentRun → Option String → Result ExecutionError (Unit {0})
  unfolding get_owned_session
  check_session db run none = ok tt
  check_session db run (some research_session_id) = do
    session ← get_owned_session t db run.agent_run_id research_session_id
    ok tt

  unfoldable pub traced_run : Database t → String → Option String → Result ExecutionError AgentRun
  unfolding get_run check_session
  traced_run db agent_run_id research_session_id = do
    run ← get_run t db agent_run_id
    checked ← check_session db run research_session_id
    ok run

  unfoldable pub insert_event :
      Database t
      → Result ExecutionError AgentTraceEvent
      → Result ExecutionError AgentTraceEvent × Database t
  insert_event db (err e) = (err e, db)
  insert_event db (ok row) = elim (t.trace_events.add row db.trace_events) [
    | none ↦ (err refused, db)
    | some rows ↦ (ok row, record db { trace_events = rows })
  ]

  -- the run's counter is advanced, and then the event is built and inserted
  unfoldable pub append_to :
      Database t
      → Result ExecutionError AgentRun
      → String
      → Payload
      → Option String
      → Option String
      → String
      → Result ExecutionError AgentTraceEvent × Database t
  unfolding count_event new_event insert_event
  append_to db (err e) event_type payload research_session_id event_id new_id = (err e, db)
  append_to db (ok run) event_type payload research_session_id event_id new_id =
      let counted = count_event run in
      insert_event (record db { agent_runs = t.agent_runs.assign counted db.agent_runs })
        (new_event counted event_type payload research_session_id event_id new_id)

  unfoldable pub append_event :
      Database t
      → String
      → String
      → Payload
      → Option String
      → Option String
      → String
      → Result ExecutionError AgentTraceEvent × Database t
  unfolding traced_run append_to
  append_event db agent_run_id event_type payload research_session_id event_id new_id =
      append_to db (traced_run db agent_run_id research_session_id) event_type payload
        research_session_id event_id new_id

  abbrev pub in_session : Option String → AgentTraceEvent → Bool
  in_session none event = true
  in_session (some id) event = elim event.research_session_id [
    | none ↦ false
    | some other ↦ str_eq other id
  ]

  unfoldable pub read_trace :
      Database t → String → Option String → Result ExecutionError (List AgentTraceEvent)
  unfolding traced_run
  read_trace db agent_run_id research_session_id = do
    run ← traced_run db agent_run_id research_session_id
    ok (
        t.trace_events.select
          (λ e. str_eq e.agent_run_id run.agent_run_id && in_session research_session_id e)
          db.trace_events)
