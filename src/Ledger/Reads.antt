-- ===== src/Ledger/Reads.antt =====
-- What the reads of the ledger return, and the read after a write.
use transit_scholar.Base.{
  String, ◌≡◌, ◌≢◌, ◌↔◌, ◌∙◌, refl, true, false, Option, none, some, List, Memᴰ, inl, inr, str_eq,
  eq_iff, arith, Option-cases, if◌then◌else◌,
}
use transit_scholar.Base.Text.{nonempty, strip}
use transit_scholar.Base.Text.Laws.{strip-strip}
use transit_scholar.Base.Result.{Result, ok, err, >>=-eq-ok}
use transit_scholar.Records.{ResearchSession, ResearchQueryRecord, ClaimRecord, Tables, Database}
use transit_scholar.Ledger.Lookup.{
  LedgerError, research_query_ownership, invalid_claim_input, non_empty, checked_status,
  claim_value, claim_status, get_session, get_owned_query, get_owned_claim,
}
use transit_scholar.Ledger.Queries.{
  query_id_or_new, check_parent, new_query, insert_query, create_query, get_query,
}
use transit_scholar.Ledger.Claims.{
  get_claim, list_claims, assign_rationale, assign_status, update_found, update_claim,
}
use transit_scholar.Integrity.Lookups.{get_owned_claim-found}

-- an identifier that `_new_id` may give
abbrev pub IsId : String → Type 0
IsId s = (strip s ≡ s) × (nonempty s ≡ true)

module _ (t : Tables) (db : Database t) where
  -- A query is read exactly under its own session: given a session's stored identifier and the
  -- stored identifier of a query in the table, `get_query` returns the query if the session owns it,
  -- and raises ResearchQueryOwnershipError if another session does.
  pub get_query_exact :
      (s : ResearchSession) (q : ResearchQueryRecord)
      → IsId s.research_session_id
      → IsId q.query_id
      → t.sessions.get db.sessions s.research_session_id ≡ some s
      → t.queries.get db.queries q.query_id ≡ some q
      → get_query t db s.research_session_id q.query_id ≡ (
          if str_eq q.research_session_id s.research_session_id
          then ok q
          else err research_query_ownership)
  unfolding get_query get_session get_owned_query
  get_query_exact s q sid qid has_s has_q = ground arith

  query_id_or_new-IsId :
      (given : Option String) (new_id : String) {k : String}
      → IsId new_id
      → query_id_or_new given new_id ≡ ok k
      → IsId k
  unfolding query_id_or_new non_empty
  query_id_or_new-IsId none new_id new h = ground arith
  query_id_or_new-IsId (some given) new_id new h = ground (arith, strip-strip given)

  get_session_again :
      (given : String) (s : ResearchSession)
      → get_session t db given ≡ ok s
      → (s.research_session_id ≡ strip given) × (get_session t db s.research_session_id ≡ ok s)
  unfolding get_session non_empty
  get_session_again given s h = elim (Option-cases (t.sessions.get db.sessions (strip given))) [
    | inl missing ↦ (ground arith, ground arith)
    | inr (r, found) ↦
        let key = t.sessions.get_key db.sessions (strip given) r found in
        let again = strip-strip given in (ground arith, ground arith)
  ]

  new_query_named :
      (sid text status : String) (parent given : Option String) (new_id : String)
      (row : ResearchQueryRecord)
      → IsId new_id
      → new_query t db sid text status parent given new_id ≡ ok row
      → IsId row.query_id
        × ((s : ResearchSession) × (get_session t db row.research_session_id ≡ ok s))
  unfolding new_query
  new_query_named sid text status parent given new_id row new h =
      let (s, found, rest) = >>=-eq-ok (get_session t db sid) _ h in
      let (_, checked, named) = >>=-eq-ok (check_parent t db s.research_session_id parent) _ rest in
      let (row_id, id_ok, texted) = >>=-eq-ok (query_id_or_new given new_id) _ named in
      let (text', text_ok, last) = >>=-eq-ok (non_empty text "query_text") _ texted in
      let (status', status_ok, built) = >>=-eq-ok (checked_status status) _ last in
      let (named', again) = get_session_again sid s found in
      let good = query_id_or_new-IsId given new_id new id_ok in (ground arith, (s, ground arith))

  insert_query_ok :
      (made : Result LedgerError ResearchQueryRecord) (row : ResearchQueryRecord)
      → (insert_query t db made).0 ≡ ok row
      → made ≡ ok row
  unfolding insert_query
  insert_query_ok (err e) row h = h
  insert_query_ok (ok r) row h = ground arith

  reads_back :
      (row : ResearchQueryRecord) (new : t.queries.Rows) (s : ResearchSession)
      → t.queries.add row db.queries ≡ some new
      → IsId row.query_id
      → get_session t db row.research_session_id ≡ ok s
      → get_query t (record db { queries = new }) row.research_session_id row.query_id ≡ ok row
  unfolding get_query get_session get_owned_query
  reads_back row new s added named session_ok = ground (
    arith,
    t.queries.get-add row db.queries new row.query_id added,
    eq_iff row.query_id row.query_id,
    eq_iff row.research_session_id row.research_session_id,
  )

  insert_query-get_query :
      (row : ResearchQueryRecord) (s : ResearchSession)
      → (insert_query t db (ok row)).0 ≡ ok row
      → IsId row.query_id
      → get_session t db row.research_session_id ≡ ok s
      → get_query t (insert_query t db (ok row)).1 row.research_session_id row.query_id ≡ ok row
  unfolding insert_query
  insert_query-get_query row s h named session_ok =
      elim (Option-cases (t.queries.add row db.queries)) [
        | inl none_added ↦ ground arith
        | inr (new, added) ↦ rw (added, insert_query) (reads_back row new s added named session_ok)
      ]

  -- A query that `create_query` returns is the one that `get_query` reads afterwards, under the
  -- identifiers of the returned record, if a new identifier is one that stripping leaves.
  pub create_query-get_query :
      (sid text status : String) (parent given : Option String) (new_id : String)
      (row : ResearchQueryRecord)
      → IsId new_id
      → (create_query t db sid text status parent given new_id).0 ≡ ok row
      → get_query t
          (create_query t db sid text status parent given new_id).1
          row.research_session_id
          row.query_id
        ≡ ok row
  unfolding create_query
  create_query-get_query sid text status parent given new_id row new h =
      let made = insert_query_ok (new_query t db sid text status parent given new_id) row h in
      let (named, (s, session_ok)) =
        new_query_named sid text status parent given new_id row new made in
      rw made (insert_query-get_query row s (rw made at h) named session_ok)

  -- the claim that is loaded, after its row is assigned again under the same session
  get_claim_assigned :
      (sid claim_id : String) (row changed : ClaimRecord)
      → get_claim t db sid claim_id ≡ ok row
      → changed.claim_id ≡ row.claim_id
      → changed.research_session_id ≡ row.research_session_id
      → get_claim t (record db { claims = t.claims.assign changed db.claims }) sid claim_id
        ≡ ok changed
  unfolding get_claim get_session get_owned_claim claim_value
  get_claim_assigned sid claim_id row changed loaded key owner =
      let (s, session_ok, owned) = >>=-eq-ok (get_session t db sid) _ loaded in
      let (found, named, mine) = get_owned_claim-found t db sid claim_id row owned in
      let put = t.claims.get-assign changed row db.claims (strip claim_id) (rw key found) in
      let here = (eq_iff changed.claim_id (strip claim_id)).1 (key ∙ named) in
      let kept = (eq_iff changed.research_session_id sid).1 (owner ∙ mine) in
      ground (arith, loaded, put, here, kept)

  -- If `get_claim` reads a claim, and the status that is given is one of the listed ones but the rationale is
  -- blank, `update_claim` raises, and `get_claim` reads the claim with the new status afterwards; the other
  -- claims are as they were.
  pub update_claim_partial :
      (sid claim_id status rationale kept : String) (row : ClaimRecord)
      → get_claim t db sid claim_id ≡ ok row
      → claim_status status ≡ ok kept
      → nonempty (strip rationale) ≡ false
      → ((update_claim t db sid claim_id (some status) (some rationale)).0
          ≡ err (invalid_claim_input "rationale"))
        × (get_claim t
              (update_claim t db sid claim_id (some status) (some rationale)).1
              sid
              claim_id
            ≡ ok (record row { status = kept }))
        × ((other : String)
            → other ≢ row.claim_id
            → t.claims.get
                (update_claim t db sid claim_id (some status) (some rationale)).1.claims
                other
              ≡ t.claims.get db.claims other)
  unfolding update_claim assign_status assign_rationale claim_value
  update_claim_partial sid claim_id status rationale kept row loaded listed blank =
      let changed = record row { status = kept } in
      let (s, session_ok, owned) = >>=-eq-ok (get_session t db sid) _ loaded in
      let (found, named, mine) = get_owned_claim-found t db sid claim_id row owned in
      let others : (other : String)
          → other ≢ row.claim_id
          → t.claims.get (t.claims.assign changed db.claims) other ≡ t.claims.get db.claims other =
        λ other x. ground (
          arith,
          t.claims.get-assign changed row db.claims other found,
          eq_iff row.claim_id other,
          x,
        ) in
      rw (loaded, update_found)
        (rw (listed, assign_status)
          (rw (blank, assign_rationale)
            (refl, get_claim_assigned sid claim_id row changed loaded refl refl, others)))

  -- `list_claims` returns the claims of the table that the session owns, and no others.
  pub list_claims_exact :
      (sid : String) (s : ResearchSession) (rows : List ClaimRecord) (row : ClaimRecord)
      → get_session t db sid ≡ ok s
      → list_claims t db sid ≡ ok rows
      → Memᴰ row rows ↔ (
          (t.claims.get db.claims row.claim_id ≡ some row)
          × (row.research_session_id ≡ s.research_session_id))
  unfolding list_claims
  list_claims_exact sid s rows row found listed =
      let test = λ (c : ClaimRecord). str_eq c.research_session_id s.research_session_id in
      let e : t.claims.select test db.claims ≡ rows = ground arith in
      let same = eq_iff row.research_session_id s.research_session_id in
      (
        (λ m.
            let (held, passed) = t.claims.select_sound test db.claims row (rw e m) in
            (held, same.0 passed)),
        (λ h. rw (← e) (t.claims.select_complete test db.claims row h.0 (same.1 h.1))),
      )
