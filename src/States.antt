-- ===== src/States.antt =====
-- `ResearchStateService` of src/transit_scholar/layer3/state/service.py: the latest working state of a
-- session, saved and loaded.
pub mod RoundTrip
use transit_scholar.Base.{String, Option, none, some}
use transit_scholar.Base.Result.{Result, ok, err, ◌>>=◌}
use transit_scholar.Records.{ResearchSession, ResearchState, Payload, Tables, Database}
use transit_scholar.Execution.{ExecutionError, refused, get_owned_session}
use transit_scholar.Trace.{serialize_payload}

module _ (t : Tables) where
  unfoldable pub new_state :
      Database t → String → String → Payload → Result ExecutionError ResearchState
  unfolding get_owned_session serialize_payload
  new_state db agent_run_id research_session_id payload = do
    session ← get_owned_session t db agent_run_id research_session_id
    text ← serialize_payload payload
    ok (record { research_session_id = session.research_session_id; payload_json = text })

  unfoldable pub insert_state :
      Database t → ResearchState → Result ExecutionError ResearchState × Database t
  insert_state db row = elim (t.states.add row db.states) [
    | none ↦ (err refused, db)
    | some rows ↦ (ok row, record db { states = rows })
  ]

  -- the row is added, or the one that is there gets the new payload
  unfoldable pub put_state :
      Database t
      → Result ExecutionError ResearchState
      → Result ExecutionError ResearchState × Database t
  unfolding insert_state
  put_state db (err e) = (err e, db)
  put_state db (ok row) = elim (t.states.get db.states row.research_session_id) [
    | none ↦ insert_state db row
    | some old ↦ (ok row, record db { states = t.states.assign row db.states })
  ]

  unfoldable pub save_research_state :
      Database t → String → String → Payload → Result ExecutionError ResearchState × Database t
  unfolding new_state put_state
  save_research_state db agent_run_id research_session_id payload =
      put_state db (new_state db agent_run_id research_session_id payload)

  unfoldable pub load_research_state :
      Database t → String → String → Result ExecutionError (Option ResearchState)
  unfolding get_owned_session
  load_research_state db agent_run_id research_session_id = do
    session ← get_owned_session t db agent_run_id research_session_id
    ok (t.states.get db.states session.research_session_id)
