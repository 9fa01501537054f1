-- ===== src/Integrity/Rows/Findings.antt =====
-- Valid evidence, a valid claim or a valid link put into its table, or a link deleted, keeps the whole
-- database consistent.
use transit_scholar.Base.{String, ◌≡◌, refl, some, arith}
use transit_scholar.Records.{EvidenceRecord, ClaimRecord, ClaimEvidenceLink, Tables, Database}
use transit_scholar.Integrity.{
  evidence_session, claim_session, ValidEvidence, ValidClaim, ValidLink, IsConsistent,
}
use transit_scholar.Integrity.Growth.{Grows, grow_evidence, grow_claim, grow_link}
use transit_scholar.Integrity.Put.{IsPut, put_all}
use transit_scholar.Integrity.Rows.Still.{
  still_runs, still_sessions, still_queries, still_evidence, still_claims, still_links,
}

module _ (t : Tables) (db : Database t) (new : t.evidence.Rows) where
  Grows-evidence :
      ((k x : String)
        → evidence_session t db k ≡ some x
        → evidence_session t (record db { evidence = new }) k ≡ some x)
      → Grows t db (record db { evidence = new })
  Grows-evidence views = record {
    workspaces = refl;
    run_workspace = λ k x h. h;
    session_run = λ k x h. h;
    query_session = λ k x h. h;
    evidence_session = views;
    claim_session = λ k x h. h;
  }

  pub put_evidence :
      (row : EvidenceRecord)
      → IsPut t.evidence db.evidence new row
      → ((k x : String)
          → evidence_session t db k ≡ some x
          → evidence_session t (record db { evidence = new }) k ≡ some x)
      → ValidEvidence t db row
      → IsConsistent t db
      → IsConsistent t (record db { evidence = new })
  put_evidence row put views valid c =
      let after : Database t = record db { evidence = new } in
      let g : Grows t db after = Grows-evidence views in
      record {
        runs = still_runs t db after g c;
        sessions = still_sessions t db after g c;
        queries = still_queries t db after g c;
        evidence =
            put_all t.evidence db.evidence new row (ValidEvidence t after) put
              (still_evidence t db after g c) (grow_evidence t db after g row valid);
        claims = still_claims t db after g c;
        links = still_links t db after g c;
      }

module _ (t : Tables) (db : Database t) (new : t.claims.Rows) where
  Grows-claim :
      ((k x : String)
        → claim_session t db k ≡ some x
        → claim_session t (record db { claims = new }) k ≡ some x)
      → Grows t db (record db { claims = new })
  Grows-claim views = record {
    workspaces = refl;
    run_workspace = λ k x h. h;
    session_run = λ k x h. h;
    query_session = λ k x h. h;
    evidence_session = λ k x h. h;
    claim_session = views;
  }

  pub put_claim :
      (row : ClaimRecord)
      → IsPut t.claims db.claims new row
      → ((k x : String)
          → claim_session t db k ≡ some x
          → claim_session t (record db { claims = new }) k ≡ some x)
      → ValidClaim t db row
      → IsConsistent t db
      → IsConsistent t (record db { claims = new })
  put_claim row put views valid c =
      let after : Database t = record db { claims = new } in
      let g : Grows t db after = Grows-claim views in
      record {
        runs = still_runs t db after g c;
        sessions = still_sessions t db after g c;
        queries = still_queries t db after g c;
        evidence = still_evidence t db after g c;
        claims =
            put_all t.claims db.claims new row (ValidClaim t after) put
              (still_claims t db after g c) (grow_claim t db after g row valid);
        links = still_links t db after g c;
      }

module _ (t : Tables) (db : Database t) (new : t.links.Rows) where
  Grows-link : Grows t db (record db { links = new })
  Grows-link = record {
    workspaces = refl;
    run_workspace = λ k x h. h;
    session_run = λ k x h. h;
    query_session = λ k x h. h;
    evidence_session = λ k x h. h;
    claim_session = λ k x h. h;
  }

  pub put_link :
      (row : ClaimEvidenceLink)
      → IsPut t.links db.links new row
      → ValidLink t db row
      → IsConsistent t db
      → IsConsistent t (record db { links = new })
  put_link row put valid c =
      let after : Database t = record db { links = new } in
      let g : Grows t db after = Grows-link in
      record {
        runs = still_runs t db after g c;
        sessions = still_sessions t db after g c;
        queries = still_queries t db after g c;
        evidence = still_evidence t db after g c;
        claims = still_claims t db after g c;
        links =
            put_all t.links db.links new row (ValidLink t after) put (still_links t db after g c)
              (grow_link t db after g row valid);
      }

module _ (t : Tables) (db : Database t) (k : String × String) where
  pub remove_link :
      IsConsistent t db → IsConsistent t (record db { links = t.links.delete k db.links })
  remove_link c =
      let new = t.links.delete k db.links in
      let after : Database t = record db { links = new } in
      let g : Grows t db after = Grows-link t db new in
      record {
        runs = still_runs t db after g c;
        sessions = still_sessions t db after g c;
        queries = still_queries t db after g c;
        evidence = still_evidence t db after g c;
        claims = still_claims t db after g c;
        links = λ j l h.
            grow_link t db after g l
              (c.links j l (ground (arith, t.links.get-delete k db.links j)));
      }
