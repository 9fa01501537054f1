-- ===== src/Integrity/Rows/Owners.antt =====
-- A valid run, session or query put into its table keeps the whole database consistent.
use transit_scholar.Base.{String, ◌≡◌, refl, some}
use transit_scholar.Records.{AgentRun, ResearchSession, ResearchQueryRecord, Tables, Database}
use transit_scholar.Integrity.{
  run_workspace, session_run, query_session, ValidRun, ValidSession, ValidQuery, IsConsistent,
}
use transit_scholar.Integrity.Growth.{Grows, grow_run, grow_session, grow_query}
use transit_scholar.Integrity.Put.{IsPut, put_all}
use transit_scholar.Integrity.Rows.Still.{
  still_runs, still_sessions, still_queries, still_evidence, still_claims, still_links,
}

module _ (t : Tables) (db : Database t) (new : t.agent_runs.Rows) where
  Grows-run :
      ((k x : String)
        → run_workspace t db k ≡ some x
        → run_workspace t (record db { agent_runs = new }) k ≡ some x)
      → Grows t db (record db { agent_runs = new })
  Grows-run views = record {
    workspaces = refl;
    run_workspace = views;
    session_run = λ k x h. h;
    query_session = λ k x h. h;
    evidence_session = λ k x h. h;
    claim_session = λ k x h. h;
  }

  pub put_run :
      (row : AgentRun)
      → IsPut t.agent_runs db.agent_runs new row
      → ((k x : String)
          → run_workspace t db k ≡ some x
          → run_workspace t (record db { agent_runs = new }) k ≡ some x)
      → ValidRun t db row
      → IsConsistent t db
      → IsConsistent t (record db { agent_runs = new })
  put_run row put views valid c =
      let after : Database t = record db { agent_runs = new } in
      let g : Grows t db after = Grows-run views in
      record {
        runs =
            put_all t.agent_runs db.agent_runs new row (ValidRun t after) put
              (still_runs t db after g c) (grow_run t db after g row valid);
        sessions = still_sessions t db after g c;
        queries = still_queries t db after g c;
        evidence = still_evidence t db after g c;
        claims = still_claims t db after g c;
        links = still_links t db after g c;
      }

module _ (t : Tables) (db : Database t) (new : t.sessions.Rows) where
  Grows-session :
      ((k x : String)
        → session_run t db k ≡ some x
        → session_run t (record db { sessions = new }) k ≡ some x)
      → Grows t db (record db { sessions = new })
  Grows-session views = record {
    workspaces = refl;
    run_workspace = λ k x h. h;
    session_run = views;
    query_session = λ k x h. h;
    evidence_session = λ k x h. h;
    claim_session = λ k x h. h;
  }

  pub put_session :
      (row : ResearchSession)
      → IsPut t.sessions db.sessions new row
      → ((k x : String)
          → session_run t db k ≡ some x
          → session_run t (record db { sessions = new }) k ≡ some x)
      → ValidSession t db row
      → IsConsistent t db
      → IsConsistent t (record db { sessions = new })
  put_session row put views valid c =
      let after : Database t = record db { sessions = new } in
      let g : Grows t db after = Grows-session views in
      record {
        runs = still_runs t db after g c;
        sessions =
            put_all t.sessions db.sessions new row (ValidSession t after) put
              (still_sessions t db after g c) (grow_session t db after g row valid);
        queries = still_queries t db after g c;
        evidence = still_evidence t db after g c;
        claims = still_claims t db after g c;
        links = still_links t db after g c;
      }

module _ (t : Tables) (db : Database t) (new : t.queries.Rows) where
  Grows-query :
      ((k x : String)
        → query_session t db k ≡ some x
        → query_session t (record db { queries = new }) k ≡ some x)
      → Grows t db (record db { queries = new })
  Grows-query views = record {
    workspaces = refl;
    run_workspace = λ k x h. h;
    session_run = λ k x h. h;
    query_session = views;
    evidence_session = λ k x h. h;
    claim_session = λ k x h. h;
  }

  pub put_query :
      (row : ResearchQueryRecord)
      → IsPut t.queries db.queries new row
      → ((k x : String)
          → query_session t db k ≡ some x
          → query_session t (record db { queries = new }) k ≡ some x)
      → ValidQuery t db row
      → IsConsistent t db
      → IsConsistent t (record db { queries = new })
  put_query row put views valid c =
      let after : Database t = record db { queries = new } in
      let g : Grows t db after = Grows-query views in
      record {
        runs = still_runs t db after g c;
        sessions = still_sessions t db after g c;
        queries =
            put_all t.queries db.queries new row (ValidQuery t after) put
              (still_queries t db after g c) (grow_query t db after g row valid);
        evidence = still_evidence t db after g c;
        claims = still_claims t db after g c;
        links = still_links t db after g c;
      }
