-- ===== src/Actions/Links.antt =====
-- A link between a claim and evidence, from its validation to the row.
use transit_scholar.Base.{String, ◌≡◌, refl, ◌⊎◌, inl, inr, Option-cases}
use transit_scholar.Base.Result.{ok, err, >>=-eq-ok}
use transit_scholar.Records.{ClaimRecord, EvidenceRecord, ClaimEvidenceLink, Tables, Database}
use transit_scholar.Ledger.Lookup.{refused, get_session, claim_relation}
use transit_scholar.Ledger.Evidence.{get_evidence}
use transit_scholar.Ledger.Claims.{get_claim}
use transit_scholar.Ledger.Links.{owned_pair, new_link, save_link, link_evidence_to_claim}
use transit_scholar.Actions.{
  link_evidence_action, AgentAction, RoleDefinition, ledger_failed, not_read, read, validate,
  validate_body,
}
use transit_scholar.Actions.Dispatch.{Gateway, link_value, dispatch, execute}
use transit_scholar.Actions.Safety.{read-eq-ok, validate_body_ok}

module _ (t : Tables) (g : Gateway t) (db : Database t) where
  new_link_ok :
      (sid c e r : String) (claim : ClaimRecord) (evidence : EvidenceRecord)
      → get_claim t db sid c ≡ ok claim
      → get_evidence t db sid e ≡ ok evidence
      → claim_relation r ≡ ok r
      → (row : ClaimEvidenceLink) × (new_link t db sid c e r ≡ ok row)
  unfolding new_link owned_pair get_claim get_evidence
  new_link_ok sid c e r claim evidence has_claim has_evidence listed =
      let (s, found, owned) = >>=-eq-ok (get_session t db sid) _ has_claim in
      let (s', again, owned') = >>=-eq-ok (get_session t db sid) _ has_evidence in
      (
        record { claim_id = claim.claim_id; evidence_id = evidence.evidence_id; relation = r },
        rw (found, new_link) (rw owned (rw owned' (rw listed refl))),
      )

  save_link_answers :
      (row : ClaimEvidenceLink)
      → ((l : ClaimEvidenceLink) × ((save_link t db (ok row)).0 ≡ ok l))
        ⊎ ((save_link t db (ok row)).0 ≡ err refused)
  unfolding save_link
  save_link_answers row =
      elim (Option-cases (t.links.get db.links (row.claim_id, row.evidence_id))) [
        | inr (old, kept) ↦ inl (row, rw (kept, save_link) refl)
        | inl fresh ↦ elim (Option-cases (t.links.add row db.links)) [
          | inl taken ↦ inr (rw (fresh, save_link) (rw taken refl))
          | inr (rows, added) ↦ inl (row, rw (fresh, save_link) (rw added refl))
        ]
      ]

  link_validated :
      (ws sid c e r : String)
      → validate_body t g.accepts db ws sid (link_evidence_action c e r) ≡ ok tt
      → claim_relation r ≡ ok r
      → ((l : ClaimEvidenceLink) × ((link_evidence_to_claim t db sid c e r).0 ≡ ok l))
        ⊎ ((link_evidence_to_claim t db sid c e r).0 ≡ err refused)
  unfolding validate_body link_evidence_to_claim
  link_validated ws sid c e r checked listed =
      let (claim, read_claim, rest) = >>=-eq-ok (read not_read (get_claim t db sid c)) _ checked in
      let (evidence, read_evidence, last) =
        >>=-eq-ok (read not_read (get_evidence t db sid e)) _ rest in
      let has_claim = read-eq-ok not_read (get_claim t db sid c) read_claim in
      let has_evidence = read-eq-ok not_read (get_evidence t db sid e) read_evidence in
      let (row, made) = new_link_ok sid c e r claim evidence has_claim has_evidence listed in
      rw (made, link_evidence_to_claim) (save_link_answers row)

  dispatch_link :
      (a : AgentAction) (c e r new_id : String)
      → ((l : ClaimEvidenceLink) × ((link_evidence_to_claim t db a.research_session_id c e r).0
            ≡ ok l))
        ⊎ ((link_evidence_to_claim t db a.research_session_id c e r).0 ≡ err refused)
      → ((l : ClaimEvidenceLink) × ((dispatch t g db a (link_evidence_action c e r) new_id).0
            ≡ ok (link_value l)))
        ⊎ ((dispatch t g db a (link_evidence_action c e r) new_id).0 ≡ err (ledger_failed refused))
  unfolding dispatch
  dispatch_link a c e r new_id (inl (l, linked)) = inl (l, rw (linked, dispatch) refl)
  dispatch_link a c e r new_id (inr not_linked) = inr (rw (not_linked, dispatch) refl)

  -- If the validator accepts a link with one of the two relations, `execute` returns a link, unless
  -- the database itself refuses the row: no claim or evidence is missing or of another session.
  pub execute_link_answers :
      (a : AgentAction) (role : RoleDefinition) (c e r new_id : String)
      → a.body ≡ link_evidence_action c e r
      → claim_relation r ≡ ok r
      → validate t g.accepts db a role ≡ ok tt
      → ((l : ClaimEvidenceLink) × ((execute t g db a role new_id).0 ≡ ok (link_value l)))
        ⊎ ((execute t g db a role new_id).0 ≡ err (ledger_failed refused))
  unfolding execute
  execute_link_answers a role c e r new_id body listed passed =
      let checked : validate_body t g.accepts db a.workspace_id a.research_session_id
            (link_evidence_action c e r)
          ≡ ok tt =
        rw (← body) (validate_body_ok t g db a role passed) in
      rw (passed, execute)
        (rw body (
          dispatch_link a c e r new_id
            (link_validated a.workspace_id a.research_session_id c e r checked listed)))
