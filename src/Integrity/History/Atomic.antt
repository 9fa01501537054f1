-- ===== src/Integrity/History/Atomic.antt =====
-- A call of `AgentRunService` or `ResearchQueryLedgerService` that does not return, and the session.
use transit_scholar.Base.{
  ◌≡◌, ◌≢◌, ◌⊎◌, inl, inr, refl, ap, ◌∙◌, if◌then◌else◌, Bool, true, false, arith,
}
use transit_scholar.Base.Result.{Result, ok, err}
use transit_scholar.Records.{
  AgentRun, ResearchSession, ResearchQueryRecord, EvidenceRecord, ClaimRecord, ClaimEvidenceLink,
  Tables, Database,
}
use transit_scholar.Execution.{
  ExecutionError, create_agent_run, update_agent_run_status, create_research_session,
  update_research_session_status, insert_run, assign_run, insert_session, assign_session,
}
use transit_scholar.Ledger.Lookup.{LedgerError}
use transit_scholar.Ledger.Queries.{create_query, update_query_status, insert_query, assign_query}
use transit_scholar.Ledger.Evidence.{admit_evidence, insert_evidence}
use transit_scholar.Ledger.Claims.{create_claim, insert_claim}
use transit_scholar.Ledger.Links.{
  link_evidence_to_claim, unlink_evidence_from_claim, save_link, delete_link,
}
use transit_scholar.Integrity.History.{
  Call, make_run, set_run_status, make_session, set_session_status, make_query, set_query_status,
  admit, make_claim, change_claim, link, unlink, Verdict, returns, raises, is_refused,
  execution_verdict, ledger_verdict, perform, settle, step, Transaction, call, commit, rollback,
}

module _ (t : Tables) where
  insert_run_atomic :
      (db : Database t) (made : Result ExecutionError AgentRun)
      → execution_verdict (insert_run t db made).0 ≡ raises
      → (insert_run t db made).1 ≡ db
  unfolding insert_run
  insert_run_atomic db (err e) h = refl
  insert_run_atomic db (ok row) h = ground arith

  assign_run_atomic :
      (db : Database t) (made : Result ExecutionError AgentRun)
      → execution_verdict (assign_run t db made).0 ≡ raises
      → (assign_run t db made).1 ≡ db
  unfolding assign_run
  assign_run_atomic db (err e) h = refl
  assign_run_atomic db (ok row) h = ground arith

  insert_session_atomic :
      (db : Database t) (made : Result ExecutionError ResearchSession)
      → execution_verdict (insert_session t db made).0 ≡ raises
      → (insert_session t db made).1 ≡ db
  unfolding insert_session
  insert_session_atomic db (err e) h = refl
  insert_session_atomic db (ok row) h = ground arith

  assign_session_atomic :
      (db : Database t) (made : Result ExecutionError ResearchSession)
      → execution_verdict (assign_session t db made).0 ≡ raises
      → (assign_session t db made).1 ≡ db
  unfolding assign_session
  assign_session_atomic db (err e) h = refl
  assign_session_atomic db (ok row) h = ground arith

  insert_query_atomic :
      (db : Database t) (made : Result LedgerError ResearchQueryRecord)
      → ledger_verdict (insert_query t db made).0 ≡ raises
      → (insert_query t db made).1 ≡ db
  unfolding insert_query
  insert_query_atomic db (err e) h = refl
  insert_query_atomic db (ok row) h = ground arith

  assign_query_atomic :
      (db : Database t) (made : Result LedgerError ResearchQueryRecord)
      → ledger_verdict (assign_query t db made).0 ≡ raises
      → (assign_query t db made).1 ≡ db
  unfolding assign_query
  assign_query_atomic db (err e) h = refl
  assign_query_atomic db (ok row) h = ground arith

  insert_evidence_atomic :
      (db : Database t) (made : Result LedgerError EvidenceRecord)
      → ledger_verdict (insert_evidence t db made).0 ≡ raises
      → (insert_evidence t db made).1 ≡ db
  unfolding insert_evidence
  insert_evidence_atomic db (err e) h = refl
  insert_evidence_atomic db (ok row) h = ground arith

  insert_claim_atomic :
      (db : Database t) (made : Result LedgerError ClaimRecord)
      → ledger_verdict (insert_claim t db made).0 ≡ raises
      → (insert_claim t db made).1 ≡ db
  unfolding insert_claim
  insert_claim_atomic db (err e) h = refl
  insert_claim_atomic db (ok row) h = ground arith

  save_link_atomic :
      (db : Database t) (made : Result LedgerError ClaimEvidenceLink)
      → ledger_verdict (save_link t db made).0 ≡ raises
      → (save_link t db made).1 ≡ db
  unfolding save_link
  save_link_atomic db (err e) h = refl
  save_link_atomic db (ok row) h = ground arith

  delete_link_atomic :
      (db : Database t) (made : Result LedgerError (ClaimRecord × EvidenceRecord))
      → ledger_verdict (delete_link t db made).0 ≡ raises
      → (delete_link t db made).1 ≡ db
  unfolding delete_link
  delete_link_atomic db (err e) h = refl
  delete_link_atomic db (ok row) h = ground arith

  -- the one operation that may write before it raises
  abbrev pub is_change_claim : Call → Bool
  is_change_claim (change_claim i c s r) = true
  is_change_claim _ = false

  raises-unchanged :
      (call : Call) (db : Database t)
      → is_change_claim call ≡ false
      → (perform t call db).0 ≡ raises
      → (perform t call db).1 ≡ db
  unfolding perform create_agent_run update_agent_run_status create_research_session
      update_research_session_status create_query update_query_status admit_evidence create_claim
      link_evidence_to_claim unlink_evidence_from_claim
  raises-unchanged (make_run w g s i n) db k h = insert_run_atomic db _ h
  raises-unchanged (set_run_status r s) db k h = assign_run_atomic db _ h
  raises-unchanged (make_session r q s i n) db k h = insert_session_atomic db _ h
  raises-unchanged (set_session_status r i s) db k h = assign_session_atomic db _ h
  raises-unchanged (make_query i x s p q n) db k h = insert_query_atomic db _ h
  raises-unchanged (set_query_status i q s) db k h = assign_query_atomic db _ h
  raises-unchanged (admit i q e n) db k h = insert_evidence_atomic db _ h
  raises-unchanged (make_claim i x s r c n) db k h = insert_claim_atomic db _ h
  raises-unchanged (change_claim i c s r) db k h = cc
  raises-unchanged (link i c e r) db k h = save_link_atomic db _ h
  raises-unchanged (unlink i c e) db k h = delete_link_atomic db _ h

  settle-unchanged :
      (w : Transaction t) (done : Verdict × Database t)
      → done.0 ≡ raises
      → done.1 ≡ w.now
      → settle t w done ≡ w
  unfolding settle
  settle-unchanged w (raises, db) h same = rw same refl
  settle-unchanged w (returns, db) h same = cc
  settle-unchanged w (is_refused, db) h same = cc

  -- a session at the last commit, which a rollback alone changes
  abbrev pub Lost : Transaction t → Transaction t → Type 0
  Lost w new =
      (new ≡ record w { now = w.committed; is_active = false })
      × ((c : Call) → step t (call c) new ≡ new)
      × (step t commit new ≡ new)
      × (step t rollback new ≡ record w { now = w.committed; is_active = true })

  settle-refused :
      (w : Transaction t) (done : Verdict × Database t)
      → done.0 ≡ is_refused
      → Lost w (settle t w done)
  unfolding settle step
  settle-refused w (is_refused, db) h = (refl, (λ c. refl), refl, refl)
  settle-refused w (raises, db) h = cc
  settle-refused w (returns, db) h = cc

  Verdict-cases : (v : Verdict) → v ≢ returns → (v ≡ raises) ⊎ (v ≡ is_refused)
  Verdict-cases returns other = absurd (other refl)
  Verdict-cases raises other = inl refl
  Verdict-cases is_refused other = inr refl

  step-live :
      (c : Call) (w : Transaction t)
      → w.is_active ≡ true
      → step t (call c) w ≡ settle t w (perform t c w.now)
  unfolding step
  step-live c w live = ap (λ b. if b then settle t w (perform t c w.now) else w) live

  -- A call other than `update_claim` that does not return, in a session that can be used, has raised and left the
  -- session as it was; or the database has refused a row, the session is back at the last commit, and every call
  -- and commit leaves it there until a rollback, after which it can be used.
  pub perform_atomic :
      (c : Call) (w : Transaction t)
      → w.is_active ≡ true
      → is_change_claim c ≡ false
      → (perform t c w.now).0 ≢ returns
      → (((perform t c w.now).0 ≡ raises) × (step t (call c) w ≡ w))
        ⊎ (((perform t c w.now).0 ≡ is_refused) × Lost w (step t (call c) w))
  perform_atomic c w live k fails = elim (Verdict-cases (perform t c w.now).0 fails) [
    | inl h ↦ inl (
      h,
      step-live c w live ∙ settle-unchanged w (perform t c w.now) h (raises-unchanged c w.now k h),
    )
    | inr h ↦ inr (h, rw (step-live c w live) (settle-refused w (perform t c w.now) h))
  ]
