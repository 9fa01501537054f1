-- ===== src/Integrity/Operations/Sessions.antt =====
-- `create_research_session` and `update_research_session_status` keep the database consistent.
use transit_scholar.Base.{String, ◌≡◌, refl, Option, some, inl, inr, eq_iff, arith, Option-cases}
use transit_scholar.Base.Text.{strip}
use transit_scholar.Base.Result.{Result, ok, err, >>=-eq-ok, Result-cases}
use transit_scholar.Records.{ResearchSession, Tables, Database}
use transit_scholar.Execution.{
  ExecutionError, non_empty, checked_status, given_or_new, get_run, get_owned_session,
  new_research_session, insert_session, create_research_session, assign_session,
  update_research_session_status,
}
use transit_scholar.Integrity.{ValidSession, IsConsistent}
use transit_scholar.Integrity.Put.{put_if_added, put_view, fresh_view}
use transit_scholar.Integrity.Rows.Owners.{put_session}
use transit_scholar.Integrity.Lookups.{execution_non_empty_ok, execution_status_ok, get_run-found}

module _ (t : Tables) (db : Database t) where
  insert_session-IsConsistent :
      (made : Result ExecutionError ResearchSession)
      → ((row : ResearchSession) → made ≡ ok row → ValidSession t db row)
      → IsConsistent t db
      → IsConsistent t (insert_session t db made).1
  unfolding insert_session
  insert_session-IsConsistent (err e) valid c = c
  insert_session-IsConsistent (ok row) valid c =
      elim (Option-cases (t.sessions.add row db.sessions)) [
        | inl none_added ↦ rw (none_added, insert_session) c
        | inr (new, added) ↦
            let put = put_if_added t.sessions db.sessions new row added in
            rw (added, insert_session)
              (put_session t db new row put
                (fresh_view t.sessions db.sessions new row (λ r. r.agent_run_id) put added)
                (valid row refl) c)
      ]

  new_research_session-valid :
      (run_id question status : String) (given : Option String) (new_id : String)
      (row : ResearchSession)
      → new_research_session t db run_id question status given new_id ≡ ok row
      → ValidSession t db row
  unfolding new_research_session
  new_research_session-valid run_id question status given new_id row h =
      let (run, run_ok, h1) = >>=-eq-ok (get_run t db run_id) _ h in
      let (row_id, _, h2) = >>=-eq-ok (given_or_new given "research_session_id" new_id) _ h1 in
      let (question', question_ok, h3) = >>=-eq-ok (non_empty question "research_question") _ h2 in
      let (status', status_ok, built) = >>=-eq-ok (checked_status status) _ h3 in
      let found = get_run-found t db run_id run run_ok in
      record {
        status = ground (arith, execution_status_ok status status_ok);
        question = ground (arith, execution_non_empty_ok question "research_question" question_ok);
        workspace = run.workspace_id;
        owner = ground arith;
      }

  pub create_research_session-IsConsistent :
      (run_id question status : String) (given : Option String) (new_id : String)
      → IsConsistent t db
      → IsConsistent t (create_research_session t db run_id question status given new_id).1
  unfolding create_research_session
  create_research_session-IsConsistent run_id question status given new_id c =
      insert_session-IsConsistent (new_research_session t db run_id question status given new_id)
        (new_research_session-valid run_id question status given new_id) c

  -- A session is returned only to the run that owns it.
  pub get_owned_session-found :
      (run_id given : String) (s : ResearchSession)
      → get_owned_session t db run_id given ≡ ok s
      → (t.sessions.get db.sessions s.research_session_id ≡ some s)
        × (s.research_session_id ≡ strip given)
        × (s.agent_run_id ≡ strip run_id)
  unfolding get_owned_session get_run
  get_owned_session-found run_id given s h =
      let (run, run_ok, h1) = >>=-eq-ok (get_run t db run_id) _ h in
      elim (Option-cases (t.agent_runs.get db.agent_runs (strip run_id))) [
        | inl missing ↦ ground arith
        | inr (r, run_found) ↦
            let run_key = t.agent_runs.get_key db.agent_runs (strip run_id) r run_found in
            elim (Option-cases (t.sessions.get db.sessions (strip given))) [
              | inl missing ↦ ground arith
              | inr (x, found) ↦
                  let key = t.sessions.get_key db.sessions (strip given) x found in
                  let same = eq_iff x.agent_run_id run.agent_run_id in
                  (ground arith, ground arith, ground arith)
            ]
      ]

  pub update_research_session_status-IsConsistent :
      (run_id given status : String)
      → IsConsistent t db
      → IsConsistent t (update_research_session_status t db run_id given status).1
  unfolding update_research_session_status
  update_research_session_status-IsConsistent run_id given status c =
      elim (Result-cases (get_owned_session t db run_id given)) [
        | inl (e, missing) ↦ rw (missing, assign_session) c
        | inr (s, owned) ↦ elim (Result-cases (checked_status status)) [
          | inl (e, refused) ↦ rw (owned, assign_session) (rw (refused, assign_session) c)
          | inr (status', status_ok) ↦
              let row : ResearchSession = record s { status = status' } in
              let (found, named, mine) = get_owned_session-found run_id given s owned in
              let was = c.sessions s.research_session_id s found in
              let put = λ (k : String). t.sessions.get-assign row s db.sessions k found in
              rw owned (
                rw status_ok (
                  put_session t db (t.sessions.assign row db.sessions) row put
                    (put_view t.sessions db.sessions (t.sessions.assign row db.sessions) row
                      (λ r. r.agent_run_id) put (λ old h. cc (h, found)))
                    (record {
                      status = execution_status_ok status status_ok;
                      question = was.question;
                      workspace = was.workspace;
                      owner = was.owner;
                    })
                    c))
        ]
      ]
