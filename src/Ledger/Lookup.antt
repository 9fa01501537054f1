-- ===== src/Ledger/Lookup.antt =====
-- The checks on arguments and the owned lookups that every operation of
-- src/transit_scholar/layer3/ledger/service.py begins with.
use transit_scholar.Base.{String, Option, none, some, str_eq}
use transit_scholar.Base.Text.{nonempty, strip}
use transit_scholar.Base.Result.{Result, ok, err, ◌>>=◌, ◌>>◌, guard}
use transit_scholar.Records.{
  ResearchSession, ResearchQueryRecord, EvidenceRecord, ClaimRecord, Tables, Database,
  research_query_statuses, claim_statuses, claim_evidence_relations, is_one_of,
}

-- The classes of layer3/ledger/errors.py, with the field that a message names; `refused` is the
-- IntegrityError of a row that the database refuses: the database beside it is what the session saw before, and
-- SQLAlchemy rolls the transaction back to the last commit, which is a step of Integrity.History; `no_agent_run` the AttributeError of a session without its run.
pub data LedgerError : Type 0 where
  research_session_not_found research_query_not_found research_query_ownership : LedgerError
  invalid_query_input invalid_evidence_input invalid_claim_input : String → LedgerError
  evidence_not_found evidence_ownership claim_not_found claim_ownership : LedgerError
  invalid_claim_evidence_relation refused no_agent_run : LedgerError

unfoldable pub non_empty : String → String → Result LedgerError String
non_empty value label = do
  guard (nonempty (strip value)) (invalid_query_input label)
  ok (strip value)

unfoldable pub checked_status : String → Result LedgerError String
unfolding non_empty
checked_status value = do
  stripped ← non_empty value "status"
  guard (is_one_of stripped research_query_statuses) (invalid_query_input "status")
  ok stripped

unfoldable pub claim_value : String → String → Result LedgerError String
claim_value value label = do
  guard (nonempty (strip value)) (invalid_claim_input label)
  ok (strip value)

-- `_claim_value(value, label, optional=True)`
unfoldable pub optional_claim_value : Option String → String → Result LedgerError (Option String)
unfolding claim_value
optional_claim_value none label = ok none
optional_claim_value (some value) label = do stripped ← claim_value value label; ok (some stripped)

unfoldable pub claim_status : String → Result LedgerError String
unfolding claim_value
claim_status value = do
  stripped ← claim_value value "status"
  guard (is_one_of stripped claim_statuses) (invalid_claim_input "status")
  ok stripped

-- the relation is compared as it is given
unfoldable pub claim_relation : String → Result LedgerError String
claim_relation value = do
  guard (is_one_of value claim_evidence_relations) invalid_claim_evidence_relation
  ok value

abbrev pub found : {A : Type 0} → Option A → LedgerError → Result LedgerError A
found none e = err e
found (some a) e = ok a

module _ (t : Tables) where
  unfoldable pub get_session : Database t → String → Result LedgerError ResearchSession
  unfolding non_empty
  get_session db research_session_id = do
    stripped ← non_empty research_session_id "research_session_id"
    found (t.sessions.get db.sessions stripped) research_session_not_found

  -- The owner is compared with the identifier as it is given, not stripped.
  unfoldable pub get_owned_query :
      Database t → String → String → Result LedgerError ResearchQueryRecord
  unfolding non_empty
  get_owned_query db research_session_id query_id = do
    stripped ← non_empty query_id "query_id"
    row ← found (t.queries.get db.queries stripped) research_query_not_found
    guard (str_eq row.research_session_id research_session_id) research_query_ownership
    ok row

  unfoldable pub get_owned_evidence :
      Database t → String → String → Result LedgerError EvidenceRecord
  unfolding non_empty
  get_owned_evidence db research_session_id evidence_id = do
    stripped ← non_empty evidence_id "evidence_id"
    row ← found (t.evidence.get db.evidence stripped) evidence_not_found
    guard (str_eq row.research_session_id research_session_id) evidence_ownership
    ok row

  unfoldable pub get_owned_claim : Database t → String → String → Result LedgerError ClaimRecord
  unfolding claim_value
  get_owned_claim db research_session_id claim_id = do
    stripped ← claim_value claim_id "claim_id"
    row ← found (t.claims.get db.claims stripped) claim_not_found
    guard (str_eq row.research_session_id research_session_id) claim_ownership
    ok row
