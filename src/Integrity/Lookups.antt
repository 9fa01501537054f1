-- ===== src/Integrity/Lookups.antt =====
-- What the lookups and the checks on arguments of the two services give when they succeed.
use transit_scholar.Base.{String, ◌≡◌, true, some, inl, inr, eq_iff, arith, Option-cases}
use transit_scholar.Base.Text.{nonempty, strip}
use transit_scholar.Base.Text.Laws.{strip-strip}
use transit_scholar.Base.Result.{ok}
use transit_scholar.Records.{
  AgentRun, ResearchSession, ResearchQueryRecord, EvidenceRecord, ClaimRecord, Tables, Database,
  is_one_of, research_query_statuses, agent_execution_statuses, claim_statuses,
  claim_evidence_relations,
}
use transit_scholar.Execution
use transit_scholar.Ledger.Lookup.{
  non_empty, checked_status, claim_value, claim_status, claim_relation, get_session,
  get_owned_query, get_owned_evidence, get_owned_claim,
}
use transit_scholar.Integrity.{session_run}

pub non_empty_ok :
    (value label : String) {v : String} → non_empty value label ≡ ok v → nonempty (strip v) ≡ true
unfolding non_empty
non_empty_ok value label h = ground (arith, strip-strip value)

pub checked_status_ok :
    (value : String) {v : String}
    → checked_status value ≡ ok v
    → is_one_of v research_query_statuses ≡ true
unfolding checked_status
checked_status_ok value h = ground arith

pub claim_value_ok :
    (value label : String) {v : String} → claim_value value label ≡ ok v → nonempty (strip v) ≡ true
unfolding claim_value
claim_value_ok value label h = ground (arith, strip-strip value)

pub claim_status_ok :
    (value : String) {v : String} → claim_status value ≡ ok v → is_one_of v claim_statuses ≡ true
unfolding claim_status
claim_status_ok value h = ground arith

pub claim_relation_ok :
    (value : String) {v : String}
    → claim_relation value ≡ ok v
    → is_one_of v claim_evidence_relations ≡ true
unfolding claim_relation
claim_relation_ok value h = ground arith

pub execution_non_empty_ok :
    (value label : String) {v : String}
    → Execution.non_empty value label ≡ ok v
    → nonempty (strip v) ≡ true
unfolding Execution.non_empty
execution_non_empty_ok value label h = ground (arith, strip-strip value)

pub execution_status_ok :
    (value : String) {v : String}
    → Execution.checked_status value ≡ ok v
    → is_one_of v agent_execution_statuses ≡ true
unfolding Execution.checked_status
execution_status_ok value h = ground arith

module _ (t : Tables) (db : Database t) where
  pub get_session-found :
      (sid : String) (s : ResearchSession)
      → get_session t db sid ≡ ok s
      → t.sessions.get db.sessions s.research_session_id ≡ some s
  unfolding get_session
  get_session-found sid s h = elim (Option-cases (t.sessions.get db.sessions (strip sid))) [
    | inl missing ↦ ground arith
    | inr (r, found) ↦ ground (arith, t.sessions.get_key db.sessions (strip sid) r found)
  ]

  pub get_session-owner :
      (sid : String) (s : ResearchSession)
      → get_session t db sid ≡ ok s
      → session_run t db s.research_session_id ≡ some s.agent_run_id
  get_session-owner sid s h = ground (arith, get_session-found sid s h)

  pub get_owned_query-found :
      (sid given : String) (row : ResearchQueryRecord)
      → get_owned_query t db sid given ≡ ok row
      → (t.queries.get db.queries row.query_id ≡ some row)
        × (row.query_id ≡ strip given)
        × (row.research_session_id ≡ sid)
  unfolding get_owned_query
  get_owned_query-found sid given row h =
      elim (Option-cases (t.queries.get db.queries (strip given))) [
        | inl missing ↦ ground arith
        | inr (r, found) ↦ ground (
          arith,
          t.queries.get_key db.queries (strip given) r found,
          eq_iff r.research_session_id sid,
        )
      ]

  pub get_owned_evidence-found :
      (sid given : String) (row : EvidenceRecord)
      → get_owned_evidence t db sid given ≡ ok row
      → (t.evidence.get db.evidence row.evidence_id ≡ some row)
        × (row.evidence_id ≡ strip given)
        × (row.research_session_id ≡ sid)
  unfolding get_owned_evidence
  get_owned_evidence-found sid given row h =
      elim (Option-cases (t.evidence.get db.evidence (strip given))) [
        | inl missing ↦ ground arith
        | inr (r, found) ↦ ground (
          arith,
          t.evidence.get_key db.evidence (strip given) r found,
          eq_iff r.research_session_id sid,
        )
      ]

  pub get_owned_claim-found :
      (sid given : String) (row : ClaimRecord)
      → get_owned_claim t db sid given ≡ ok row
      → (t.claims.get db.claims row.claim_id ≡ some row)
        × (row.claim_id ≡ strip given)
        × (row.research_session_id ≡ sid)
  unfolding get_owned_claim
  get_owned_claim-found sid given row h =
      elim (Option-cases (t.claims.get db.claims (strip given))) [
        | inl missing ↦ ground arith
        | inr (r, found) ↦ ground (
          arith,
          t.claims.get_key db.claims (strip given) r found,
          eq_iff r.research_session_id sid,
        )
      ]

  pub get_run-found :
      (given : String) (run : AgentRun)
      → Execution.get_run t db given ≡ ok run
      → t.agent_runs.get db.agent_runs run.agent_run_id ≡ some run
  unfolding Execution.get_run
  get_run-found given run h = elim (Option-cases (t.agent_runs.get db.agent_runs (strip given))) [
    | inl missing ↦ ground arith
    | inr (r, found) ↦ ground (arith, t.agent_runs.get_key db.agent_runs (strip given) r found)
  ]
