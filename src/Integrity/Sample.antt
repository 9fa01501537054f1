-- ===== src/Integrity/Sample.antt =====
-- A small database in memory, which is consistent.
use transit_scholar.Base.{
  String, ◌≡◌, ◌↔◌, refl, Bool, true, none, some, [], ◌∷◌, str_eq, eq_iff, arith,
}
use transit_scholar.Base.Text.{strip}
use transit_scholar.Store.Memory.{table, get}
use transit_scholar.Records.{
  Workspace, AgentRun, ResearchSession, ResearchQueryRecord, EvidenceRecord, ClaimRecord, Tables,
  Database, link_key, membership_key, same_pair, is_one_of,
}
use transit_scholar.Integrity.{IsConsistent}

pub same_pair_iff : (a b : String × String) → (same_pair a b ≡ true) ↔ (a ≡ b)
same_pair_iff (a, b) (c, d) = ground (arith, eq_iff a c, eq_iff b d)

unfoldable pub tables : Tables
unfolding table
tables = record {
  workspaces = table (λ r. r.workspace_id) str_eq eq_iff;
  agent_runs = table (λ r. r.agent_run_id) str_eq eq_iff;
  sessions = table (λ r. r.research_session_id) str_eq eq_iff;
  queries = table (λ r. r.query_id) str_eq eq_iff;
  evidence = table (λ r. r.evidence_id) str_eq eq_iff;
  claims = table (λ r. r.claim_id) str_eq eq_iff;
  links = table link_key same_pair same_pair_iff;
  papers = table (λ r. r.paper_id) str_eq eq_iff;
  memberships = table membership_key same_pair same_pair_iff;
  states = table (λ r. r.research_session_id) str_eq eq_iff;
  trace_events = table (λ r. r.event_id) str_eq eq_iff;
}

abbrev pub workspace : Workspace
workspace = record {
  workspace_id = "w";
  name = "buses";
  status = "active";
  schema_mode = "none";
  schema_id = none;
  schema_version = none;
  schema_hash = none;
  revision = 3;
}

abbrev pub run : AgentRun
run = record {
  agent_run_id = "r";
  workspace_id = "w";
  user_goal = "survey";
  status = "running";
  workspace_revision = 3;
  trace_sequence = 0;
}

abbrev pub session : ResearchSession
session = record {
  research_session_id = "s";
  agent_run_id = "r";
  research_question = "headways";
  status = "running";
}

abbrev pub query : ResearchQueryRecord
query = record {
  query_id = "q";
  research_session_id = "s";
  query_text = "bus bunching";
  status = "active";
  parent_query_id = none;
}

abbrev pub claim : ClaimRecord
claim = record {
  claim_id = "c";
  research_session_id = "s";
  statement = "holding helps";
  status = "proposed";
  rationale = none;
}

abbrev pub evidence : EvidenceRecord
evidence = record {
  evidence_id = "e";
  research_session_id = "s";
  source_query_id = "q";
  locator = record {
    workspace_id = "w";
    source_kind = "paper";
    paper_id = some "p1";
    parse_run_id = some "v1";
    canonical_source_version = some "v1";
    block_id = none;
    pages = none;
    span = none;
  };
  text_snapshot = "buses bunch";
  source_metadata = record { source_kind = "paper"; paper_provenance = none; section_name = none };
  retrieval_provenance = record {
    retrieval_evidence_id = "x";
    query_provenance = none;
    retrieval_provenance = "{}";
    rerank_provenance = "{}";
    final_rank = none;
  };
}

unfoldable pub database : Database tables
unfolding table tables
database = record {
  workspaces = workspace ∷ [];
  agent_runs = run ∷ [];
  sessions = session ∷ [];
  queries = query ∷ [];
  evidence = evidence ∷ [];
  claims = claim ∷ [];
  links = [];
  papers = record { paper_id = "p1"; status = "active" } ∷ [];
  memberships = [];
  states = [];
  trace_events = [];
}

single :
    {Key Row : Type 0} (key : Row → Key) (same : Key → Key → Bool)
    (same_iff : (a b : Key) → (same a b ≡ true) ↔ (a ≡ b)) (row r : Row) (k : Key)
    → get key same same_iff (row ∷ []) k ≡ some r
    → row ≡ r
unfolding get
single key same same_iff row r k h = ground arith

pub database-IsConsistent : IsConsistent tables database
unfolding tables database is_one_of strip
database-IsConsistent = record {
  runs = λ k r h.
      rw (← single (λ (x : AgentRun). x.agent_run_id) str_eq eq_iff run r k h)
        (record { status = refl; goal = refl; workspace = refl });
  sessions = λ k s h.
      rw (← single (λ (x : ResearchSession). x.research_session_id) str_eq eq_iff session s k h)
        (record { status = refl; question = refl; workspace = "w"; owner = refl });
  queries = λ k q h.
      rw (← single (λ (x : ResearchQueryRecord). x.query_id) str_eq eq_iff query q k h)
        (record { status = refl; text = refl; run = "r"; owner = refl });
  evidence = λ k e h.
      rw (← single (λ (x : EvidenceRecord). x.evidence_id) str_eq eq_iff evidence e k h)
        (record { run = "r"; owner = refl; place = refl; source = refl });
  claims = λ k c h.
      rw (← single (λ (x : ClaimRecord). x.claim_id) str_eq eq_iff claim c k h)
        (record { status = refl; text = refl; run = "r"; owner = refl });
  links = λ k l h. cc;
}
