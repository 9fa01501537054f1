-- ===== src/Integrity/Operations/Runs.antt =====
-- The four mutating operations of `AgentRunService` keep the database consistent.
use transit_scholar.Base.{
  String, ◌≡◌, refl, true, Option, some, inl, inr, str_eq, arith, Option-cases,
}
use transit_scholar.Base.Text.{strip}
use transit_scholar.Base.Result.{Result, ok, err, >>=-eq-ok, Result-cases}
use transit_scholar.Records.{Workspace, AgentRun, Tables, Database}
use transit_scholar.Execution.{
  ExecutionError, non_empty, checked_status, given_or_new, raised_by_workspace, get_run,
  new_agent_run, insert_run, create_agent_run, assign_run, update_agent_run_status,
}
use transit_scholar.Workspaces.{require_active}
use transit_scholar.Integrity.{ValidRun, IsConsistent}
use transit_scholar.Integrity.Put.{put_if_added, put_view, fresh_view}
use transit_scholar.Integrity.Rows.Owners.{put_run}
use transit_scholar.Integrity.Lookups.{execution_non_empty_ok, execution_status_ok, get_run-found}

module _ (t : Tables) (db : Database t) where
  pub require_active-found :
      (given : String) (w : Workspace)
      → raised_by_workspace (require_active t db given) ≡ ok w
      → (t.workspaces.get db.workspaces w.workspace_id ≡ some w) × (str_eq w.status "active" ≡ true)
  unfolding require_active
  require_active-found given w h =
      elim (Option-cases (t.workspaces.get db.workspaces (strip given))) [
        | inl missing ↦ ground arith
        | inr (r, found) ↦ ground (arith, t.workspaces.get_key db.workspaces (strip given) r found)
      ]

  insert_run-IsConsistent :
      (made : Result ExecutionError AgentRun)
      → ((row : AgentRun) → made ≡ ok row → ValidRun t db row)
      → IsConsistent t db
      → IsConsistent t (insert_run t db made).1
  unfolding insert_run
  insert_run-IsConsistent (err e) valid c = c
  insert_run-IsConsistent (ok row) valid c =
      elim (Option-cases (t.agent_runs.add row db.agent_runs)) [
        | inl none_added ↦ rw (none_added, insert_run) c
        | inr (new, added) ↦
            let put = put_if_added t.agent_runs db.agent_runs new row added in
            rw (added, insert_run)
              (put_run t db new row put
                (fresh_view t.agent_runs db.agent_runs new row (λ r. r.workspace_id) put added)
                (valid row refl) c)
      ]

  new_agent_run-valid :
      (workspace goal status : String) (given : Option String) (new_id : String) (row : AgentRun)
      → new_agent_run t db workspace goal status given new_id ≡ ok row
      → ValidRun t db row
  unfolding new_agent_run
  new_agent_run-valid workspace goal status given new_id row h =
      let (w, active, h1) = >>=-eq-ok (raised_by_workspace (require_active t db workspace)) _ h in
      let (row_id, _, h2) = >>=-eq-ok (given_or_new given "agent_run_id" new_id) _ h1 in
      let (goal', goal_ok, h3) = >>=-eq-ok (non_empty goal "user_goal") _ h2 in
      let (status', status_ok, built) = >>=-eq-ok (checked_status status) _ h3 in
      let (known, is_active) = require_active-found workspace w active in
      record {
        status = ground (arith, execution_status_ok status status_ok);
        goal = ground (arith, execution_non_empty_ok goal "user_goal" goal_ok);
        workspace = ground arith;
      }

  pub create_agent_run-IsConsistent :
      (workspace goal status : String) (given : Option String) (new_id : String)
      → IsConsistent t db
      → IsConsistent t (create_agent_run t db workspace goal status given new_id).1
  unfolding create_agent_run
  create_agent_run-IsConsistent workspace goal status given new_id c =
      insert_run-IsConsistent (new_agent_run t db workspace goal status given new_id)
        (new_agent_run-valid workspace goal status given new_id) c

  pub update_agent_run_status-IsConsistent :
      (given status : String)
      → IsConsistent t db
      → IsConsistent t (update_agent_run_status t db given status).1
  unfolding update_agent_run_status
  update_agent_run_status-IsConsistent given status c = elim (Result-cases (get_run t db given)) [
    | inl (e, missing) ↦ rw (missing, assign_run) c
    | inr (run, run_ok) ↦ elim (Result-cases (checked_status status)) [
      | inl (e, refused) ↦ rw (run_ok, assign_run) (rw (refused, assign_run) c)
      | inr (status', status_ok) ↦
          let row : AgentRun = record run { status = status' } in
          let found = get_run-found t db given run run_ok in
          let was = c.runs run.agent_run_id run found in
          let put = λ (k : String). t.agent_runs.get-assign row run db.agent_runs k found in
          rw run_ok (
            rw status_ok (
              put_run t db (t.agent_runs.assign row db.agent_runs) row put
                (put_view t.agent_runs db.agent_runs (t.agent_runs.assign row db.agent_runs) row
                  (λ r. r.workspace_id) put (λ old h. cc (h, found)))
                (record {
                  status = execution_status_ok status status_ok;
                  goal = was.goal;
                  workspace = was.workspace;
                })
                c))
    ]
  ]
