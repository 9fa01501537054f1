-- ===== src/Integrity/Operations/Evidence.antt =====
-- `admit_evidence` keeps the database consistent: what it stores lies in the Workspace of the
-- session, and its source query belongs to the session.
use transit_scholar.Base.{
  String, ◌≡◌, refl, some, inl, inr, eq_iff, arith, Option-cases, if◌then◌else◌,
}
use transit_scholar.Base.Result.{Result, ok, err, >>=-eq-ok, guard-eq-ok}
use transit_scholar.Records.{ResearchSession, ResearchEvidence, EvidenceRecord, Tables, Database}
use transit_scholar.Ledger.Lookup.{
  LedgerError, invalid_evidence_input, found, get_session, get_owned_query,
}
use transit_scholar.Ledger.Evidence.{
  is_paper, query_matches, session_matches, completed, validate_paper, session_workspace,
  validate_evidence_provenance, dumps, new_evidence, insert_evidence, admit_evidence,
}
use transit_scholar.Integrity.{run_workspace, ValidEvidence, IsConsistent}
use transit_scholar.Integrity.Put.{put_if_added, fresh_view}
use transit_scholar.Integrity.Rows.Findings.{put_evidence}
use transit_scholar.Integrity.Lookups.{get_session-owner, get_owned_query-found}

module _ (t : Tables) (db : Database t) where
  session_workspace-owner :
      (s : ResearchSession) (workspace : String)
      → session_workspace t db s ≡ ok workspace
      → run_workspace t db s.agent_run_id ≡ some workspace
  unfolding session_workspace
  session_workspace-owner s workspace h = ground arith

  -- Evidence that passes the validation names the Workspace of its session's run.
  pub validated_place :
      (s : ResearchSession) (source : String) (e : ResearchEvidence)
      → validate_evidence_provenance t db s source e ≡ ok tt
      → run_workspace t db s.agent_run_id ≡ some e.locator.workspace_id
  unfolding validate_evidence_provenance
  validated_place s source e h =
      let (_, paper_ok, h1) =
        >>=-eq-ok (if is_paper e.locator.source_kind then validate_paper e else ok tt) _ h in
      let (query_ok, h2) =
        guard-eq-ok (query_matches e.query_provenance source)
          (invalid_evidence_input "source_query_id") _ h1 in
      let (session_ok, h3) =
        guard-eq-ok (session_matches e.query_provenance s.research_session_id)
          (invalid_evidence_input "research_session_id") _ h2 in
      let (workspace, place_ok, h4) = >>=-eq-ok (session_workspace t db s) _ h3 in
      ground (
        arith,
        session_workspace-owner s workspace place_ok,
        eq_iff e.locator.workspace_id workspace,
      )

  insert_evidence-IsConsistent :
      (made : Result LedgerError EvidenceRecord)
      → ((row : EvidenceRecord) → made ≡ ok row → ValidEvidence t db row)
      → IsConsistent t db
      → IsConsistent t (insert_evidence t db made).1
  unfolding insert_evidence
  insert_evidence-IsConsistent (err e) valid c = c
  insert_evidence-IsConsistent (ok row) valid c =
      elim (Option-cases (t.evidence.add row db.evidence)) [
        | inl none_added ↦ rw (none_added, insert_evidence) c
        | inr (new, added) ↦
            let put = put_if_added t.evidence db.evidence new row added in
            rw (added, insert_evidence)
              (put_evidence t db new row put
                (fresh_view t.evidence db.evidence new row (λ r. r.research_session_id) put added)
                (valid row refl) c)
      ]

  pub new_evidence-valid :
      (sid source : String) (given : ResearchEvidence) (new_id : String) (row : EvidenceRecord)
      → new_evidence t db sid source given new_id ≡ ok row
      → ValidEvidence t db row
  unfolding new_evidence
  new_evidence-valid sid source given new_id row h =
      let (s, session_ok, h1) = >>=-eq-ok (get_session t db sid) _ h in
      let (q, owned, h2) = >>=-eq-ok (get_owned_query t db s.research_session_id source) _ h1 in
      let (e, complete, h3) = >>=-eq-ok (completed given) _ h2 in
      let (_, valid, h4) = >>=-eq-ok (validate_evidence_provenance t db s source e) _ h3 in
      let (retrieval, _, h5) = >>=-eq-ok (dumps e.retrieval_provenance) _ h4 in
      let (rerank, _, built) = >>=-eq-ok (dumps e.rerank_provenance) _ h5 in
      let (found, named, mine) = get_owned_query-found t db s.research_session_id source q owned in
      record {
        run = s.agent_run_id;
        owner = ground (arith, get_session-owner t db sid s session_ok);
        place = ground (arith, validated_place s source e valid);
        source = ground arith;
      }

  pub admit_evidence-IsConsistent :
      (sid source : String) (given : ResearchEvidence) (new_id : String)
      → IsConsistent t db
      → IsConsistent t (admit_evidence t db sid source given new_id).1
  unfolding admit_evidence
  admit_evidence-IsConsistent sid source given new_id c =
      insert_evidence-IsConsistent (new_evidence t db sid source given new_id)
        (new_evidence-valid sid source given new_id) c
