-- ===== src/Integrity.antt =====
-- What holds of the research tables between two calls of the services: who owns which row, and
-- which texts a column may hold. It is about layer3/execution/service.py and
-- layer3/ledger/service.py together.
pub mod Growth
pub mod Put
pub mod Rows
pub mod Lookups
pub mod Operations
pub mod History
pub mod Sample
mod Examples
use transit_scholar.Base.{String, ◌≡◌, true, Option, none, some, is_some}
use transit_scholar.Base.Text.{nonempty, strip}
use transit_scholar.Records.{
  AgentRun, ResearchSession, ResearchQueryRecord, EvidenceRecord, ClaimRecord, ClaimEvidenceLink,
  Tables, Database, agent_execution_statuses, research_query_statuses, claim_statuses,
  claim_evidence_relations, is_one_of,
}

abbrev pub map_option : {A B : Type 0} → (A → B) → Option A → Option B
map_option f none = none
map_option f (some a) = some (f a)

module _ (t : Tables) where
  -- who owns a row
  abbrev pub run_workspace : Database t → String → Option String
  run_workspace db k = map_option (λ r. r.workspace_id) (t.agent_runs.get db.agent_runs k)

  abbrev pub session_run : Database t → String → Option String
  session_run db k = map_option (λ s. s.agent_run_id) (t.sessions.get db.sessions k)

  abbrev pub query_session : Database t → String → Option String
  query_session db k = map_option (λ q. q.research_session_id) (t.queries.get db.queries k)

  abbrev pub evidence_session : Database t → String → Option String
  evidence_session db k = map_option (λ e. e.research_session_id) (t.evidence.get db.evidence k)

  abbrev pub claim_session : Database t → String → Option String
  claim_session db k = map_option (λ c. c.research_session_id) (t.claims.get db.claims k)

module _ (t : Tables) (db : Database t) where
  pub record ValidRun (r : AgentRun) : Type 0 where
    pub status : is_one_of r.status agent_execution_statuses ≡ true
    pub goal : nonempty (strip r.user_goal) ≡ true
    pub workspace : is_some (t.workspaces.get db.workspaces r.workspace_id) ≡ true

  pub record ValidSession (s : ResearchSession) : Type 0 where
    pub status : is_one_of s.status agent_execution_statuses ≡ true
    pub question : nonempty (strip s.research_question) ≡ true
    pub workspace : String
    pub owner : run_workspace t db s.agent_run_id ≡ some workspace

  pub record ValidQuery (q : ResearchQueryRecord) : Type 0 where
    pub status : is_one_of q.status research_query_statuses ≡ true
    pub text : nonempty (strip q.query_text) ≡ true
    pub run : String
    pub owner : session_run t db q.research_session_id ≡ some run

  -- The evidence lies in the Workspace of its session's run, and the query that it names, stripped,
  -- belongs to the same session.
  pub record ValidEvidence (e : EvidenceRecord) : Type 0 where
    pub run : String
    pub owner : session_run t db e.research_session_id ≡ some run
    pub place : run_workspace t db run ≡ some e.locator.workspace_id
    pub source : query_session t db (strip e.source_query_id) ≡ some e.research_session_id

  pub record ValidClaim (c : ClaimRecord) : Type 0 where
    pub status : is_one_of c.status claim_statuses ≡ true
    pub text : nonempty (strip c.statement) ≡ true
    pub run : String
    pub owner : session_run t db c.research_session_id ≡ some run

  -- The claim and the evidence of a link belong to one session.
  pub record ValidLink (l : ClaimEvidenceLink) : Type 0 where
    pub relation : is_one_of l.relation claim_evidence_relations ≡ true
    pub session : String
    pub claim : claim_session t db l.claim_id ≡ some session
    pub evidence : evidence_session t db l.evidence_id ≡ some session

  pub record IsConsistent : Type 0 where
    pub runs : (k : String) (r : AgentRun) → t.agent_runs.get db.agent_runs k ≡ some r → ValidRun r
    pub sessions :
        (k : String) (s : ResearchSession) → t.sessions.get db.sessions k ≡ some s → ValidSession s
    pub queries :
        (k : String) (q : ResearchQueryRecord) → t.queries.get db.queries k ≡ some q → ValidQuery q
    pub evidence :
        (k : String) (e : EvidenceRecord) → t.evidence.get db.evidence k ≡ some e → ValidEvidence e
    pub claims : (k : String) (c : ClaimRecord) → t.claims.get db.claims k ≡ some c → ValidClaim c
    pub links :
        (k : String × String) (l : ClaimEvidenceLink)
        → t.links.get db.links k ≡ some l
        → ValidLink l
