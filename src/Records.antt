-- ===== src/Records.antt =====
-- The rows of src/transit_scholar/db/models.py that the research services keep, with the read
-- models that their `from_row` builds from the same columns (layer3/execution/models.py,
-- layer3/ledger/models.py), and the contracts of layer3/evidence. Times are left out.
use transit_scholar.Base.{
  ℕ, String, Bool, true, false, ◌&&◌, Option, List, [], ◌∷◌, str_eq, if◌then◌else◌,
}
use transit_scholar.Store.{Table}

pub record Workspace : Type 0 where
  pub workspace_id : String
  pub name : String
  pub status : String
  pub schema_mode : String
  pub schema_id : Option String
  pub schema_version : Option String
  pub schema_hash : Option String
  pub revision : ℕ

-- the columns that the Workspace service reads
pub record Paper : Type 0 where
  pub paper_id : String
  pub status : String

-- Its own `id` is a surrogate: the pair of Workspace and Paper is unique in the table.
pub record WorkspacePaperMembership : Type 0 where
  pub workspace_id : String
  pub paper_id : String

pub record AgentRun : Type 0 where
  pub agent_run_id : String
  pub workspace_id : String
  pub user_goal : String
  pub status : String
  pub workspace_revision : ℕ
  pub trace_sequence : ℕ

pub record ResearchSession : Type 0 where
  pub research_session_id : String
  pub agent_run_id : String
  pub research_question : String
  pub status : String

-- the JSON text of a session's latest working state
pub record ResearchState : Type 0 where
  pub research_session_id : String
  pub payload_json : String

pub record AgentTraceEvent : Type 0 where
  pub event_id : String
  pub agent_run_id : String
  pub research_session_id : Option String
  pub sequence : ℕ
  pub event_type : String
  pub payload_json : String

pub record ResearchQueryRecord : Type 0 where
  pub query_id : String
  pub research_session_id : String
  pub query_text : String
  pub status : String
  pub parent_query_id : Option String

pub record EvidenceSpan : Type 0 where
  pub start : ℕ
  pub stop : ℕ

pub record EvidenceLocator : Type 0 where
  pub workspace_id : String
  pub source_kind : String
  pub paper_id : Option String
  pub parse_run_id : Option String
  pub canonical_source_version : Option String
  pub block_id : Option String
  pub pages : Option (List ℕ)
  pub span : Option EvidenceSpan

pub record QueryProvenance : Type 0 where
  pub query_id : String
  pub session_id : Option String
  pub query_text : Option String

pub record PaperProvenance : Type 0 where
  pub paper_id : String
  pub title : Option String
  pub source_uri : Option String
  pub parse_run_id : Option String
  pub canonical_source_version : Option String

-- A `dict[str, object]` as `json.dumps` sees it: its JSON text, or a value that has none.
pub data Payload : Type 0 where
  json : String → Payload
  not_serializable : Payload

pub record ResearchEvidence : Type 0 where
  pub evidence_id : String
  pub locator : EvidenceLocator
  pub text : String
  pub source_kind : String
  pub query_provenance : Option QueryProvenance
  pub paper_provenance : Option PaperProvenance
  pub section_name : Option String
  pub retrieval_provenance : Payload
  pub rerank_provenance : Payload
  pub final_rank : Option ℕ

-- The three JSON columns are kept as the values that they encode.
pub record SourceMetadata : Type 0 where
  pub source_kind : String
  pub paper_provenance : Option PaperProvenance
  pub section_name : Option String

pub record RetrievalProvenance : Type 0 where
  pub retrieval_evidence_id : String
  pub query_provenance : Option QueryProvenance
  pub retrieval_provenance : String
  pub rerank_provenance : String
  pub final_rank : Option ℕ

pub record EvidenceRecord : Type 0 where
  pub evidence_id : String
  pub research_session_id : String
  pub source_query_id : String
  pub locator : EvidenceLocator
  pub text_snapshot : String
  pub source_metadata : SourceMetadata
  pub retrieval_provenance : RetrievalProvenance

pub record ClaimRecord : Type 0 where
  pub claim_id : String
  pub research_session_id : String
  pub statement : String
  pub status : String
  pub rationale : Option String

-- Its own `id` is a surrogate: the pair of claim and evidence is unique in the table.
pub record ClaimEvidenceLink : Type 0 where
  pub claim_id : String
  pub evidence_id : String
  pub relation : String

abbrev pub link_key : ClaimEvidenceLink → String × String
link_key l = (l.claim_id, l.evidence_id)

abbrev pub membership_key : WorkspacePaperMembership → String × String
membership_key m = (m.workspace_id, m.paper_id)

abbrev pub same_pair : String × String → String × String → Bool
same_pair (a, b) (c, d) = str_eq a c && str_eq b d

-- The tables of one database.
pub record Tables : Type 1 where
  pub workspaces : Table String Workspace (λ r. r.workspace_id) str_eq
  pub agent_runs : Table String AgentRun (λ r. r.agent_run_id) str_eq
  pub sessions : Table String ResearchSession (λ r. r.research_session_id) str_eq
  pub queries : Table String ResearchQueryRecord (λ r. r.query_id) str_eq
  pub evidence : Table String EvidenceRecord (λ r. r.evidence_id) str_eq
  pub claims : Table String ClaimRecord (λ r. r.claim_id) str_eq
  pub links : Table (String × String) ClaimEvidenceLink link_key same_pair
  pub papers : Table String Paper (λ r. r.paper_id) str_eq
  pub memberships : Table (String × String) WorkspacePaperMembership membership_key same_pair
  pub states : Table String ResearchState (λ r. r.research_session_id) str_eq
  pub trace_events : Table String AgentTraceEvent (λ r. r.event_id) str_eq

-- What a SQLAlchemy session sees of them.
pub record Database (t : Tables) : Type 0 where
  pub workspaces : t.workspaces.Rows
  pub agent_runs : t.agent_runs.Rows
  pub sessions : t.sessions.Rows
  pub queries : t.queries.Rows
  pub evidence : t.evidence.Rows
  pub claims : t.claims.Rows
  pub links : t.links.Rows
  pub papers : t.papers.Rows
  pub memberships : t.memberships.Rows
  pub states : t.states.Rows
  pub trace_events : t.trace_events.Rows

abbrev pub agent_execution_statuses : List String
agent_execution_statuses =
    "created" ∷ "running" ∷ "paused" ∷ "completed" ∷ "failed" ∷ "cancelled" ∷ []

abbrev pub research_query_statuses : List String
research_query_statuses = "active" ∷ "completed" ∷ "abandoned" ∷ []

abbrev pub claim_statuses : List String
claim_statuses = "proposed" ∷ "supported" ∷ "conflicting" ∷ "rejected" ∷ []

abbrev pub claim_evidence_relations : List String
claim_evidence_relations = "supports" ∷ "contradicts" ∷ []

-- `value in values`
unfoldable pub is_one_of : String → List String → Bool
is_one_of v [] = false
is_one_of v (w ∷ ws) = let rest = is_one_of v ws in if str_eq v w then true else rest
