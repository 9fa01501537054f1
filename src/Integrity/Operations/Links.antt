-- ===== src/Integrity/Operations/Links.antt =====
-- `link_evidence_to_claim` and `unlink_evidence_from_claim` keep the database consistent.
use transit_scholar.Base.{String, ◌≡◌, refl, some, inl, inr, arith, Option-cases}
use transit_scholar.Base.Result.{Result, ok, err, >>=-eq-ok}
use transit_scholar.Records.{EvidenceRecord, ClaimRecord, ClaimEvidenceLink, Tables, Database}
use transit_scholar.Ledger.Lookup.{
  LedgerError, claim_relation, get_session, get_owned_evidence, get_owned_claim,
}
use transit_scholar.Ledger.Links.{
  owned_pair, new_link, save_link, link_evidence_to_claim, delete_link, unlink_evidence_from_claim,
}
use transit_scholar.Integrity.{claim_session, evidence_session, ValidLink, IsConsistent}
use transit_scholar.Integrity.Put.{put_if_added}
use transit_scholar.Integrity.Rows.Findings.{put_link, remove_link}
use transit_scholar.Integrity.Lookups.{
  claim_relation_ok, get_owned_evidence-found, get_owned_claim-found,
}

module _ (t : Tables) (db : Database t) where
  -- The two rows that a link joins belong to the session that is named.
  owned_pair-session :
      (sid claim_id evidence_id : String) (pair : ClaimRecord × EvidenceRecord)
      → owned_pair t db sid claim_id evidence_id ≡ ok pair
      → (claim_session t db pair.0.claim_id ≡ some sid)
        × (evidence_session t db pair.1.evidence_id ≡ some sid)
  unfolding owned_pair
  owned_pair-session sid claim_id evidence_id pair h =
      let (s, session_ok, h1) = >>=-eq-ok (get_session t db sid) _ h in
      let (claim, claim_ok, h2) = >>=-eq-ok (get_owned_claim t db sid claim_id) _ h1 in
      let (evidence, evidence_ok, built) =
        >>=-eq-ok (get_owned_evidence t db sid evidence_id) _ h2 in
      let c = get_owned_claim-found t db sid claim_id claim claim_ok in
      let e = get_owned_evidence-found t db sid evidence_id evidence evidence_ok in
      (ground arith, ground arith)

  new_link-valid :
      (sid claim_id evidence_id relation : String) (row : ClaimEvidenceLink)
      → new_link t db sid claim_id evidence_id relation ≡ ok row
      → ValidLink t db row
  unfolding new_link
  new_link-valid sid claim_id evidence_id relation row h =
      let (pair, pair_ok, h1) = >>=-eq-ok (owned_pair t db sid claim_id evidence_id) _ h in
      let (kind, kind_ok, built) = >>=-eq-ok (claim_relation relation) _ h1 in
      let (claim_owned, evidence_owned) =
        owned_pair-session sid claim_id evidence_id pair pair_ok in
      record {
        relation = ground (arith, claim_relation_ok relation kind_ok);
        session = sid;
        claim = ground arith;
        evidence = ground arith;
      }

  save_link-IsConsistent :
      (made : Result LedgerError ClaimEvidenceLink)
      → ((row : ClaimEvidenceLink) → made ≡ ok row → ValidLink t db row)
      → IsConsistent t db
      → IsConsistent t (save_link t db made).1
  unfolding save_link
  save_link-IsConsistent (err e) valid c = c
  save_link-IsConsistent (ok row) valid c =
      elim (Option-cases (t.links.get db.links (row.claim_id, row.evidence_id))) [
        | inr (old, found) ↦
            let put = λ (k : String × String). t.links.get-assign row old db.links k found in
            rw (found, save_link)
              (put_link t db (t.links.assign row db.links) row put (valid row refl) c)
        | inl fresh ↦ elim (Option-cases (t.links.add row db.links)) [
          | inl none_added ↦ rw (fresh, save_link) (rw none_added c)
          | inr (new, added) ↦
              rw (fresh, save_link)
                (rw added (
                  put_link t db new row (put_if_added t.links db.links new row added)
                    (valid row refl) c))
        ]
      ]

  pub link_evidence_to_claim-IsConsistent :
      (sid claim_id evidence_id relation : String)
      → IsConsistent t db
      → IsConsistent t (link_evidence_to_claim t db sid claim_id evidence_id relation).1
  unfolding link_evidence_to_claim
  link_evidence_to_claim-IsConsistent sid claim_id evidence_id relation c =
      save_link-IsConsistent (new_link t db sid claim_id evidence_id relation)
        (new_link-valid sid claim_id evidence_id relation) c

  delete_link-IsConsistent :
      (made : Result LedgerError (ClaimRecord × EvidenceRecord))
      → IsConsistent t db
      → IsConsistent t (delete_link t db made).1
  unfolding delete_link
  delete_link-IsConsistent (err e) c = c
  delete_link-IsConsistent (ok (claim, evidence)) c =
      elim (Option-cases (t.links.get db.links (claim.claim_id, evidence.evidence_id))) [
        | inl missing ↦ rw (missing, delete_link) c
        | inr (row, found) ↦
            rw (found, delete_link) (remove_link t db (claim.claim_id, evidence.evidence_id) c)
      ]

  pub unlink_evidence_from_claim-IsConsistent :
      (sid claim_id evidence_id : String)
      → IsConsistent t db
      → IsConsistent t (unlink_evidence_from_claim t db sid claim_id evidence_id).1
  unfolding unlink_evidence_from_claim
  unlink_evidence_from_claim-IsConsistent sid claim_id evidence_id c =
      delete_link-IsConsistent (owned_pair t db sid claim_id evidence_id) c
