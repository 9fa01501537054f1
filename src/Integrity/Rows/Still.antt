-- ===== src/Integrity/Rows/Still.antt =====
-- Rows of the tables stay valid as the database grows.
use transit_scholar.Base.{String, ◌≡◌, some}
use transit_scholar.Records.{
  AgentRun, ResearchSession, ResearchQueryRecord, EvidenceRecord, ClaimRecord, ClaimEvidenceLink,
  Tables, Database,
}
use transit_scholar.Integrity.{
  ValidRun, ValidSession, ValidQuery, ValidEvidence, ValidClaim, ValidLink, IsConsistent,
}
use transit_scholar.Integrity.Growth.{
  Grows, grow_run, grow_session, grow_query, grow_evidence, grow_claim, grow_link,
}

module _ (t : Tables) (db new : Database t) (g : Grows t db new) (c : IsConsistent t db) where
  pub still_runs :
      (k : String) (r : AgentRun) → t.agent_runs.get db.agent_runs k ≡ some r → ValidRun t new r
  still_runs k r h = grow_run t db new g r (c.runs k r h)

  pub still_sessions :
      (k : String) (s : ResearchSession)
      → t.sessions.get db.sessions k ≡ some s
      → ValidSession t new s
  still_sessions k s h = grow_session t db new g s (c.sessions k s h)

  pub still_queries :
      (k : String) (q : ResearchQueryRecord)
      → t.queries.get db.queries k ≡ some q
      → ValidQuery t new q
  still_queries k q h = grow_query t db new g q (c.queries k q h)

  pub still_evidence :
      (k : String) (e : EvidenceRecord)
      → t.evidence.get db.evidence k ≡ some e
      → ValidEvidence t new e
  still_evidence k e h = grow_evidence t db new g e (c.evidence k e h)

  pub still_claims :
      (k : String) (r : ClaimRecord) → t.claims.get db.claims k ≡ some r → ValidClaim t new r
  still_claims k r h = grow_claim t db new g r (c.claims k r h)

  pub still_links :
      (k : String × String) (l : ClaimEvidenceLink)
      → t.links.get db.links k ≡ some l
      → ValidLink t new l
  still_links k l h = grow_link t db new g l (c.links k l h)
