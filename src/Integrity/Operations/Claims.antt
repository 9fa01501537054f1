-- ===== src/Integrity/Operations/Claims.antt =====
-- `create_claim` and `update_claim` keep the database consistent, the call of `update_claim` that
-- raises after its first assignment included.
use transit_scholar.Base.{
  String, ◌≡◌, refl, Option, none, some, inl, inr, arith, eq_iff, Option-cases,
}
use transit_scholar.Base.Result.{Result, ok, err, >>=-eq-ok, Result-cases}
use transit_scholar.Records.{ClaimRecord, Tables, Database}
use transit_scholar.Ledger.Lookup.{
  LedgerError, claim_value, optional_claim_value, claim_status, get_session,
}
use transit_scholar.Ledger.Claims.{
  claim_id_or_new, new_claim, insert_claim, create_claim, get_claim, assign_rationale,
  assign_status, update_found, update_claim,
}
use transit_scholar.Integrity.{ValidClaim, IsConsistent}
use transit_scholar.Integrity.Put.{put_if_added, put_view, fresh_view}
use transit_scholar.Integrity.Rows.Findings.{put_claim}
use transit_scholar.Integrity.Lookups.{
  claim_value_ok, claim_status_ok, get_session-owner, get_owned_claim-found,
}

module _ (t : Tables) (db : Database t) where
  insert_claim-IsConsistent :
      (made : Result LedgerError ClaimRecord)
      → ((row : ClaimRecord) → made ≡ ok row → ValidClaim t db row)
      → IsConsistent t db
      → IsConsistent t (insert_claim t db made).1
  unfolding insert_claim
  insert_claim-IsConsistent (err e) valid c = c
  insert_claim-IsConsistent (ok row) valid c = elim (Option-cases (t.claims.add row db.claims)) [
    | inl none_added ↦ rw (none_added, insert_claim) c
    | inr (new, added) ↦
        let put = put_if_added t.claims db.claims new row added in
        rw (added, insert_claim)
          (put_claim t db new row put
            (fresh_view t.claims db.claims new row (λ r. r.research_session_id) put added)
            (valid row refl) c)
  ]

  new_claim-valid :
      (sid statement status : String) (rationale given : Option String) (new_id : String)
      (row : ClaimRecord)
      → new_claim t db sid statement status rationale given new_id ≡ ok row
      → ValidClaim t db row
  unfolding new_claim
  new_claim-valid sid statement status rationale given new_id row h =
      let (s, found, rest) = >>=-eq-ok (get_session t db sid) _ h in
      let (row_id, id_ok, texted) = >>=-eq-ok (claim_id_or_new given new_id) _ rest in
      let (text', text_ok, last) = >>=-eq-ok (claim_value statement "statement") _ texted in
      let (status', status_ok, reasoned) = >>=-eq-ok (claim_status status) _ last in
      let (reason, reason_ok, built) =
        >>=-eq-ok (optional_claim_value rationale "rationale") _ reasoned in
      record {
        status = ground (arith, claim_status_ok status status_ok);
        text = ground (arith, claim_value_ok statement "statement" text_ok);
        run = s.agent_run_id;
        owner = ground (arith, get_session-owner t db sid s found);
      }

  pub create_claim-IsConsistent :
      (sid statement status : String) (rationale given : Option String) (new_id : String)
      → IsConsistent t db
      → IsConsistent t (create_claim t db sid statement status rationale given new_id).1
  unfolding create_claim
  create_claim-IsConsistent sid statement status rationale given new_id c =
      insert_claim-IsConsistent (new_claim t db sid statement status rationale given new_id)
        (new_claim-valid sid statement status rationale given new_id) c

module _ (t : Tables) where
  -- The row is a loaded one, perhaps with a changed column: its key and its session are those of
  -- the table.
  record IsLoaded (db : Database t) (row : ClaimRecord) : Type 0 where
    old : ClaimRecord
    found : t.claims.get db.claims row.claim_id ≡ some old
    same_owner : old.research_session_id ≡ row.research_session_id
    valid : ValidClaim t db row

  assigned-IsConsistent :
      (db : Database t) (row : ClaimRecord)
      → IsLoaded db row
      → IsConsistent t db
      → IsConsistent t (record db { claims = t.claims.assign row db.claims })
  assigned-IsConsistent db row l c =
      let new = t.claims.assign row db.claims in
      let put = λ (k : String). t.claims.get-assign row l.old db.claims k l.found in
      put_claim t db new row put
        (put_view t.claims db.claims new row (λ r. r.research_session_id) put
          (λ old h. cc (h, l.found, l.same_owner)))
        l.valid c

  reloaded :
      (db : Database t) (row : ClaimRecord)
      → IsLoaded db row
      → IsConsistent t db
      → IsLoaded (record db { claims = t.claims.assign row db.claims }) row
  reloaded db row l c =
      let found : t.claims.get (t.claims.assign row db.claims) row.claim_id ≡ some row = ground (
        arith,
        t.claims.get-assign row l.old db.claims row.claim_id l.found,
        eq_iff row.claim_id row.claim_id,
      ) in
      record {
        old = row;
        found = found;
        same_owner = refl;
        valid = (assigned-IsConsistent db row l c).claims row.claim_id row found;
      }

  assign_rationale-IsConsistent :
      (db : Database t) (row : ClaimRecord) (rationale : Option String)
      → IsLoaded db row
      → IsConsistent t db
      → IsConsistent t (assign_rationale t db row rationale).1
  unfolding assign_rationale
  assign_rationale-IsConsistent db row none l c = c
  assign_rationale-IsConsistent db row (some rationale) l c =
      elim (Result-cases (claim_value rationale "rationale")) [
        | inl (e, refused) ↦ rw (refused, assign_rationale) c
        | inr (reason, given) ↦
            rw (given, assign_rationale)
              (assigned-IsConsistent db (record row { rationale = some reason })
                (record {
                  old = l.old;
                  found = l.found;
                  same_owner = l.same_owner;
                  valid = record {
                    status = l.valid.status;
                    text = l.valid.text;
                    run = l.valid.run;
                    owner = l.valid.owner;
                  };
                })
                c)
      ]

  assign_status-IsConsistent :
      (db : Database t) (row : ClaimRecord) (status rationale : Option String)
      → IsLoaded db row
      → IsConsistent t db
      → IsConsistent t (assign_status t db row status rationale).1
  unfolding assign_status
  assign_status-IsConsistent db row none rationale l c =
      assign_rationale-IsConsistent db row rationale l c
  assign_status-IsConsistent db row (some status) rationale l c =
      elim (Result-cases (claim_status status)) [
        | inl (e, refused) ↦ rw (refused, assign_status) c
        | inr (row_status, given) ↦
            let changed = record row { status = row_status } in
            let loaded : IsLoaded db changed = record {
              old = l.old;
              found = l.found;
              same_owner = l.same_owner;
              valid = record {
                status = claim_status_ok status given;
                text = l.valid.text;
                run = l.valid.run;
                owner = l.valid.owner;
              };
            } in
            let after = assigned-IsConsistent db changed loaded c in
            rw (given, assign_status)
              (assign_rationale-IsConsistent
                (record db { claims = t.claims.assign changed db.claims }) changed rationale
                (reloaded db changed loaded c) after)
      ]

  update_found-IsConsistent :
      (db : Database t) (made : Result LedgerError ClaimRecord) (status rationale : Option String)
      → ((row : ClaimRecord) → made ≡ ok row → IsLoaded db row)
      → IsConsistent t db
      → IsConsistent t (update_found t db made status rationale).1
  unfolding update_found
  update_found-IsConsistent db (err e) status rationale loaded c = c
  update_found-IsConsistent db (ok row) none none loaded c = c
  update_found-IsConsistent db (ok row) none (some rationale) loaded c =
      assign_status-IsConsistent db row none (some rationale) (loaded row refl) c
  update_found-IsConsistent db (ok row) (some status) rationale loaded c =
      assign_status-IsConsistent db row (some status) rationale (loaded row refl) c

  get_claim-IsLoaded :
      (db : Database t) (sid given : String) (row : ClaimRecord)
      → IsConsistent t db
      → get_claim t db sid given ≡ ok row
      → IsLoaded db row
  unfolding get_claim
  get_claim-IsLoaded db sid given row c h =
      let (s, session_ok, owned) = >>=-eq-ok (get_session t db sid) _ h in
      let (found, named, mine) = get_owned_claim-found t db sid given row owned in
      record {
        old = row;
        found = found;
        same_owner = refl;
        valid = c.claims row.claim_id row found;
      }

  pub update_claim-IsConsistent :
      (db : Database t) (sid given : String) (status rationale : Option String)
      → IsConsistent t db
      → IsConsistent t (update_claim t db sid given status rationale).1
  unfolding update_claim
  update_claim-IsConsistent db sid given status rationale c =
      update_found-IsConsistent db (get_claim t db sid given) status rationale
        (λ row. get_claim-IsLoaded db sid given row c) c
