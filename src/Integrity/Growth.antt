-- ===== src/Integrity/Growth.antt =====
-- A database grows when no owner of a row is lost or changed. Valid rows stay valid.
use transit_scholar.Base.{String, ◌≡◌, some}
use transit_scholar.Records.{
  AgentRun, ResearchSession, ResearchQueryRecord, EvidenceRecord, ClaimRecord, ClaimEvidenceLink,
  Tables, Database,
}
use transit_scholar.Integrity.{
  run_workspace, session_run, query_session, evidence_session, claim_session, ValidRun,
  ValidSession, ValidQuery, ValidEvidence, ValidClaim, ValidLink,
}

module _ (t : Tables) where
  pub record Grows (db new : Database t) : Type 0 where
    pub workspaces : new.workspaces ≡ db.workspaces
    pub run_workspace :
        (k x : String) → run_workspace t db k ≡ some x → run_workspace t new k ≡ some x
    pub session_run : (k x : String) → session_run t db k ≡ some x → session_run t new k ≡ some x
    pub query_session :
        (k x : String) → query_session t db k ≡ some x → query_session t new k ≡ some x
    pub evidence_session :
        (k x : String) → evidence_session t db k ≡ some x → evidence_session t new k ≡ some x
    pub claim_session :
        (k x : String) → claim_session t db k ≡ some x → claim_session t new k ≡ some x

module _ (t : Tables) (db new : Database t) (g : Grows t db new) where
  pub grow_run : (r : AgentRun) → ValidRun t db r → ValidRun t new r
  grow_run r v = record {
    status = v.status;
    goal = v.goal;
    workspace = rw g.workspaces v.workspace;
  }

  pub grow_session : (s : ResearchSession) → ValidSession t db s → ValidSession t new s
  grow_session s v = record {
    status = v.status;
    question = v.question;
    workspace = v.workspace;
    owner = g.run_workspace s.agent_run_id v.workspace v.owner;
  }

  pub grow_query : (q : ResearchQueryRecord) → ValidQuery t db q → ValidQuery t new q
  grow_query q v = record {
    status = v.status;
    text = v.text;
    run = v.run;
    owner = g.session_run q.research_session_id v.run v.owner;
  }

  pub grow_claim : (c : ClaimRecord) → ValidClaim t db c → ValidClaim t new c
  grow_claim c v = record {
    status = v.status;
    text = v.text;
    run = v.run;
    owner = g.session_run c.research_session_id v.run v.owner;
  }

  pub grow_evidence : (e : EvidenceRecord) → ValidEvidence t db e → ValidEvidence t new e
  grow_evidence e v = record {
    run = v.run;
    owner = g.session_run e.research_session_id v.run v.owner;
    place = g.run_workspace v.run _ v.place;
    source = g.query_session _ _ v.source;
  }

  pub grow_link : (l : ClaimEvidenceLink) → ValidLink t db l → ValidLink t new l
  grow_link l v = record {
    relation = v.relation;
    session = v.session;
    claim = g.claim_session l.claim_id v.session v.claim;
    evidence = g.evidence_session l.evidence_id v.session v.evidence;
  }
