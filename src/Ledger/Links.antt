-- ===== src/Ledger/Links.antt =====
-- The claim-evidence relations of src/transit_scholar/layer3/ledger/service.py. A link is found by
-- its pair, which is unique in the table.
use transit_scholar.Base.{String, none, some, List, str_eq}
use transit_scholar.Base.Result.{Result, ok, err, ◌>>=◌, ◌>>◌}
use transit_scholar.Records.{EvidenceRecord, ClaimRecord, ClaimEvidenceLink, Tables, Database}
use transit_scholar.Ledger.Lookup.{
  LedgerError, refused, claim_relation, get_session, get_owned_evidence, get_owned_claim,
}

module _ (t : Tables) where
  -- the claim and the evidence that both operations look up
  unfoldable pub owned_pair :
      Database t → String → String → String → Result LedgerError (ClaimRecord × EvidenceRecord)
  owned_pair db research_session_id claim_id evidence_id = do
    get_session t db research_session_id
    claim ← get_owned_claim t db research_session_id claim_id
    evidence ← get_owned_evidence t db research_session_id evidence_id
    ok (claim, evidence)

  unfoldable pub new_link :
      Database t → String → String → String → String → Result LedgerError ClaimEvidenceLink
  unfolding owned_pair
  new_link db research_session_id claim_id evidence_id relation = do
    (claim, evidence) ← owned_pair db research_session_id claim_id evidence_id
    kind ← claim_relation relation
    ok (record { claim_id = claim.claim_id; evidence_id = evidence.evidence_id; relation = kind })

  -- `existing is None`: a new row is added; otherwise the relation of the row is assigned. Either
  -- way the flush follows.
  unfoldable pub save_link :
      Database t
      → Result LedgerError ClaimEvidenceLink
      → Result LedgerError ClaimEvidenceLink × Database t
  save_link db (err e) = (err e, db)
  save_link db (ok row) = elim (t.links.get db.links (row.claim_id, row.evidence_id)) [
    | some existing ↦ (ok row, record db { links = t.links.assign row db.links })
    | none ↦ elim (t.links.add row db.links) [
      | none ↦ (err refused, db)
      | some rows ↦ (ok row, record db { links = rows })
    ]
  ]

  unfoldable pub link_evidence_to_claim :
      Database t
      → String
      → String
      → String
      → String
      → Result LedgerError ClaimEvidenceLink × Database t
  unfolding new_link save_link
  link_evidence_to_claim db research_session_id claim_id evidence_id relation =
      save_link db (new_link db research_session_id claim_id evidence_id relation)

  -- deleting a pair that has no row changes nothing
  unfoldable pub delete_link :
      Database t
      → Result LedgerError (ClaimRecord × EvidenceRecord)
      → Result LedgerError (Unit {0}) × Database t
  delete_link db (err e) = (err e, db)
  delete_link db (ok (claim, evidence)) =
      elim (t.links.get db.links (claim.claim_id, evidence.evidence_id)) [
        | none ↦ (ok tt, db)
        | some row ↦ (
          ok tt,
          record db { links = t.links.delete (claim.claim_id, evidence.evidence_id) db.links },
        )
      ]

  unfoldable pub unlink_evidence_from_claim :
      Database t → String → String → String → Result LedgerError (Unit {0}) × Database t
  unfolding owned_pair delete_link
  unlink_evidence_from_claim db research_session_id claim_id evidence_id =
      delete_link db (owned_pair db research_session_id claim_id evidence_id)

  unfoldable pub get_claim_evidence :
      Database t → String → String → Result LedgerError (List ClaimEvidenceLink)
  get_claim_evidence db research_session_id claim_id = do
    get_session t db research_session_id
    claim ← get_owned_claim t db research_session_id claim_id
    ok (t.links.select (λ l. str_eq l.claim_id claim.claim_id) db.links)
