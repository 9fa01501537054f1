-- ===== src/Integrity/History.antt =====
-- Any sequence of calls of `AgentRunService` and `ResearchQueryLedgerService`, in any order, some of
-- which raise, with the commits and rollbacks of their caller.
pub mod Atomic
use transit_scholar.Base.{
  String, ◌≡◌, refl, Bool, true, false, Option, none, some, List, [], ◌∷◌, inl, inr, arith,
  Option-cases, Bool-cases, if◌then◌else◌,
}
use transit_scholar.Base.Result.{Result, ok, err, Result-cases}
use transit_scholar.Records.{
  ResearchEvidence, AgentRun, ResearchSession, ResearchQueryRecord, EvidenceRecord, ClaimRecord,
  ClaimEvidenceLink, Tables, Database,
}
use transit_scholar.Execution.{
  ExecutionError, refused, create_agent_run, update_agent_run_status, create_research_session,
  update_research_session_status, insert_run, assign_run, insert_session, assign_session,
}
use transit_scholar.Ledger.Lookup
use transit_scholar.Ledger.Lookup.{LedgerError}
use transit_scholar.Ledger.Queries.{create_query, update_query_status, insert_query, assign_query}
use transit_scholar.Ledger.Evidence.{admit_evidence, insert_evidence}
use transit_scholar.Ledger.Claims.{create_claim, update_claim, insert_claim}
use transit_scholar.Ledger.Links.{
  link_evidence_to_claim, unlink_evidence_from_claim, save_link, delete_link,
}
use transit_scholar.Integrity.{IsConsistent}
use transit_scholar.Integrity.Operations.Runs.{
  create_agent_run-IsConsistent, update_agent_run_status-IsConsistent,
}
use transit_scholar.Integrity.Operations.Sessions.{
  create_research_session-IsConsistent, update_research_session_status-IsConsistent,
}
use transit_scholar.Integrity.Operations.Queries.{
  create_query-IsConsistent, update_query_status-IsConsistent,
}
use transit_scholar.Integrity.Operations.Evidence.{admit_evidence-IsConsistent}
use transit_scholar.Integrity.Operations.Claims.{
  create_claim-IsConsistent, update_claim-IsConsistent,
}
use transit_scholar.Integrity.Operations.Links.{
  link_evidence_to_claim-IsConsistent, unlink_evidence_from_claim-IsConsistent,
}

-- A call of an operation that writes, with its arguments in the source's order and, last, the
-- identifier that `uuid4` would give.
pub data Call : Type 0 where
  make_run : String → String → String → Option String → String → Call
  set_run_status : String → String → Call
  make_session : String → String → String → Option String → String → Call
  set_session_status : String → String → String → Call
  make_query : String → String → String → Option String → Option String → String → Call
  set_query_status : String → String → String → Call
  admit : String → String → ResearchEvidence → String → Call
  make_claim : String → String → String → Option String → Option String → String → Call
  change_claim : String → String → Option String → Option String → Call
  link : String → String → String → String → Call
  unlink : String → String → String → Call

-- What becomes of a call: it returns, it raises, or it raises because the database refuses a row.
pub data Verdict : Type 0 where
  returns raises is_refused : Verdict

abbrev pub execution_verdict : {A : Type 0} → Result ExecutionError A → Verdict
execution_verdict (ok a) = returns
execution_verdict (err refused) = is_refused
execution_verdict (err _) = raises

abbrev pub ledger_verdict : {A : Type 0} → Result LedgerError A → Verdict
ledger_verdict (ok a) = returns
ledger_verdict (err Lookup.refused) = is_refused
ledger_verdict (err _) = raises

abbrev pub by_runs : {A S : Type 0} → Result ExecutionError A × S → Verdict × S
by_runs (r, s) = (execution_verdict r, s)

abbrev pub by_ledger : {A S : Type 0} → Result LedgerError A × S → Verdict × S
by_ledger (r, s) = (ledger_verdict r, s)

-- A SQLAlchemy session: what it sees, what is committed, and whether its transaction can be used.
pub record Transaction (t : Tables) : Type 0 where
  pub now : Database t
  pub committed : Database t
  pub is_active : Bool

-- what the caller of the services does
pub data Step : Type 0 where
  call : Call → Step
  commit rollback : Step

module _ (t : Tables) where
  -- the verdict of the call, and the database that it leaves
  unfoldable pub perform : Call → Database t → Verdict × Database t
  perform (make_run w g s i n) db = by_runs (create_agent_run t db w g s i n)
  perform (set_run_status r s) db = by_runs (update_agent_run_status t db r s)
  perform (make_session r q s i n) db = by_runs (create_research_session t db r q s i n)
  perform (set_session_status r i s) db = by_runs (update_research_session_status t db r i s)
  perform (make_query i x s p q n) db = by_ledger (create_query t db i x s p q n)
  perform (set_query_status i q s) db = by_ledger (update_query_status t db i q s)
  perform (admit i q e n) db = by_ledger (admit_evidence t db i q e n)
  perform (make_claim i x s r c n) db = by_ledger (create_claim t db i x s r c n)
  perform (change_claim i c s r) db = by_ledger (update_claim t db i c s r)
  perform (link i c e r) db = by_ledger (link_evidence_to_claim t db i c e r)
  perform (unlink i c e) db = by_ledger (unlink_evidence_from_claim t db i c e)

  -- A refused row makes SQLAlchemy roll the whole transaction back: what was not committed is lost.
  unfoldable pub settle : Transaction t → Verdict × Database t → Transaction t
  settle w (returns, db) = record w { now = db }
  settle w (raises, db) = record w { now = db }
  settle w (is_refused, db) = record w { now = w.committed; is_active = false }

  -- After a refusal every call and a commit raise (PendingRollbackError), until a rollback.
  unfoldable pub step : Step → Transaction t → Transaction t
  unfolding perform settle
  step (call c) w = if w.is_active then settle w (perform c w.now) else w
  step commit w = if w.is_active then record w { committed = w.now } else w
  step rollback w = record w { now = w.committed; is_active = true }

  unfoldable pub perform_all : List Step → Transaction t → Transaction t
  unfolding step
  perform_all [] w = w
  perform_all (s ∷ later) w = perform_all later (step s w)

  perform-IsConsistent :
      (call : Call) (db : Database t) → IsConsistent t db → IsConsistent t (perform call db).1
  unfolding perform
  perform-IsConsistent (make_run w g s i n) db c = create_agent_run-IsConsistent t db w g s i n c
  perform-IsConsistent (set_run_status r s) db c = update_agent_run_status-IsConsistent t db r s c
  perform-IsConsistent (make_session r q s i n) db c =
      create_research_session-IsConsistent t db r q s i n c
  perform-IsConsistent (set_session_status r i s) db c =
      update_research_session_status-IsConsistent t db r i s c
  perform-IsConsistent (make_query i x s p q n) db c = create_query-IsConsistent t db i x s p q n c
  perform-IsConsistent (set_query_status i q s) db c = update_query_status-IsConsistent t db i q s c
  perform-IsConsistent (admit i q e n) db c = admit_evidence-IsConsistent t db i q e n c
  perform-IsConsistent (make_claim i x s r k n) db c = create_claim-IsConsistent t db i x s r k n c
  perform-IsConsistent (change_claim i k s r) db c = update_claim-IsConsistent t db i k s r c
  perform-IsConsistent (link i k e r) db c = link_evidence_to_claim-IsConsistent t db i k e r c
  perform-IsConsistent (unlink i k e) db c = unlink_evidence_from_claim-IsConsistent t db i k e c

  -- what the session sees and what is committed are consistent
  pub record IsSound (w : Transaction t) : Type 0 where
    pub now : IsConsistent t w.now
    pub committed : IsConsistent t w.committed

  settle-IsSound :
      (w : Transaction t) (done : Verdict × Database t)
      → IsConsistent t done.1
      → IsSound w
      → IsSound (settle w done)
  unfolding settle
  settle-IsSound w (returns, db) c h = record { now = c; committed = h.committed }
  settle-IsSound w (raises, db) c h = record { now = c; committed = h.committed }
  settle-IsSound w (is_refused, db) c h = record { now = h.committed; committed = h.committed }

  if-IsSound :
      (b : Bool) (w new : Transaction t) → IsSound new → IsSound w → IsSound (if b then new else w)
  if-IsSound true w new h k = h
  if-IsSound false w new h k = k

  step-IsSound : (s : Step) (w : Transaction t) → IsSound w → IsSound (step s w)
  unfolding step
  step-IsSound (call c) w h =
      let done = perform c w.now in
      if-IsSound w.is_active w (settle w done)
        (settle-IsSound w done (perform-IsConsistent c w.now h.now) h) h
  step-IsSound commit w h =
      if-IsSound w.is_active w (record w { committed = w.now })
        (record { now = h.now; committed = h.now }) h
  step-IsSound rollback w h = record { now = h.committed; committed = h.committed }

  -- Over every sequence of calls, commits and rollbacks, with calls that return, raise or are refused by the
  -- database, what the session sees and what is committed stay consistent: statuses and
  -- relations are listed ones; user goals, questions, query texts and statements are not blank, also once
  -- stripped; every owner exists; evidence lies in the Workspace of its session's run, its source query
  -- (stripped) belongs to its session, and a link joins a claim and evidence of one session.
  pub perform_all-IsConsistent :
      (later : List Step) (w : Transaction t) → IsSound w → IsSound (perform_all later w)
  unfolding perform_all
  perform_all-IsConsistent [] w h = h
  perform_all-IsConsistent (s ∷ later) w h =
      perform_all-IsConsistent later (step s w) (step-IsSound s w h)
