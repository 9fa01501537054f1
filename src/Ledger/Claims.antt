-- ===== src/Ledger/Claims.antt =====
-- The claim operations of src/transit_scholar/layer3/ledger/service.py.
use transit_scholar.Base.{String, Option, none, some, List, str_eq, if◌then◌else◌}
use transit_scholar.Base.Text.{nonempty}
use transit_scholar.Base.Result.{Result, ok, err, ◌>>=◌, ◌>>◌}
use transit_scholar.Records.{ClaimRecord, Tables, Database}
use transit_scholar.Ledger.Lookup.{
  LedgerError, invalid_claim_input, refused, claim_value, optional_claim_value, claim_status,
  get_session, get_owned_claim,
}

-- `_claim_value(claim_id, "claim_id") if claim_id else _new_id()`
unfoldable pub claim_id_or_new : Option String → String → Result LedgerError String
claim_id_or_new none new_id = ok new_id
claim_id_or_new (some given) new_id =
    if nonempty given then claim_value given "claim_id" else ok new_id

module _ (t : Tables) where
  -- the row that `create_claim` builds
  unfoldable pub new_claim :
      Database t
      → String
      → String
      → String
      → Option String
      → Option String
      → String
      → Result LedgerError ClaimRecord
  unfolding claim_id_or_new
  new_claim db research_session_id statement status rationale claim_id new_id = do
    research_session ← get_session t db research_session_id
    row_id ← claim_id_or_new claim_id new_id
    text ← claim_value statement "statement"
    row_status ← claim_status status
    reason ← optional_claim_value rationale "rationale"
    ok (record {
      claim_id = row_id;
      research_session_id = research_session.research_session_id;
      statement = text;
      status = row_status;
      rationale = reason;
    })

  -- `session.add(row)`, `flush`, `refresh`
  unfoldable pub insert_claim :
      Database t → Result LedgerError ClaimRecord → Result LedgerError ClaimRecord × Database t
  insert_claim db (err e) = (err e, db)
  insert_claim db (ok row) = elim (t.claims.add row db.claims) [
    | none ↦ (err refused, db)
    | some rows ↦ (ok row, record db { claims = rows })
  ]

  unfoldable pub create_claim :
      Database t
      → String
      → String
      → String
      → Option String
      → Option String
      → String
      → Result LedgerError ClaimRecord × Database t
  unfolding new_claim insert_claim
  create_claim db research_session_id statement status rationale claim_id new_id =
      insert_claim db (new_claim db research_session_id statement status rationale claim_id new_id)

  unfoldable pub get_claim : Database t → String → String → Result LedgerError ClaimRecord
  get_claim db research_session_id claim_id = do
    get_session t db research_session_id
    get_owned_claim t db research_session_id claim_id

  unfoldable pub list_claims : Database t → String → Result LedgerError (List ClaimRecord)
  list_claims db research_session_id = do
    research_session ← get_session t db research_session_id
    ok (
        t.claims.select (λ c. str_eq c.research_session_id research_session.research_session_id)
          db.claims)

  -- `row.rationale = _claim_value(rationale, "rationale")`, and the flush. A refused rationale leaves
  -- the status that was assigned before it on the row.
  unfoldable pub assign_rationale :
      Database t → ClaimRecord → Option String → Result LedgerError ClaimRecord × Database t
  assign_rationale db row none = (ok row, db)
  assign_rationale db row (some rationale) = elim (claim_value rationale "rationale") [
    | err e ↦ (err e, db)
    | ok reason ↦
        let changed = record row { rationale = some reason } in
        (ok changed, record db { claims = t.claims.assign changed db.claims })
  ]

  -- `row.status = _claim_status(status)`, and what follows it
  unfoldable pub assign_status :
      Database t
      → ClaimRecord
      → Option String
      → Option String
      → Result LedgerError ClaimRecord × Database t
  unfolding assign_rationale
  assign_status db row none rationale = assign_rationale db row rationale
  assign_status db row (some status) rationale = elim (claim_status status) [
    | err e ↦ (err e, db)
    | ok row_status ↦
        let changed = record row { status = row_status } in
        assign_rationale (record db { claims = t.claims.assign changed db.claims }) changed
          rationale
  ]

  unfoldable pub update_given :
      Database t
      → ClaimRecord
      → Option String
      → Option String
      → Result LedgerError ClaimRecord × Database t
  unfolding assign_status
  update_given db row none none = (err (invalid_claim_input "status or rationale"), db)
  update_given db row none (some rationale) = assign_status db row none (some rationale)
  update_given db row (some status) rationale = assign_status db row (some status) rationale

  unfoldable pub update_found :
      Database t
      → Result LedgerError ClaimRecord
      → Option String
      → Option String
      → Result LedgerError ClaimRecord × Database t
  unfolding update_given
  update_found db (err e) status rationale = (err e, db)
  update_found db (ok row) status rationale = update_given db row status rationale

  unfoldable pub update_claim :
      Database t
      → String
      → String
      → Option String
      → Option String
      → Result LedgerError ClaimRecord × Database t
  unfolding get_claim update_found
  update_claim db research_session_id claim_id status rationale =
      update_found db (get_claim db research_session_id claim_id) status rationale

  unfoldable pub update_claim_status :
      Database t → String → String → String → Result LedgerError ClaimRecord × Database t
  unfolding update_claim
  update_claim_status db research_session_id claim_id status =
      update_claim db research_session_id claim_id (some status) none
