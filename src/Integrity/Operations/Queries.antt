-- ===== src/Integrity/Operations/Queries.antt =====
-- `create_query` and `update_query_status` keep the database consistent.
use transit_scholar.Base.{String, ◌≡◌, refl, Option, some, inl, inr, arith, Option-cases}
use transit_scholar.Base.Result.{Result, ok, err, >>=-eq-ok}
use transit_scholar.Records.{ResearchQueryRecord, Tables, Database}
use transit_scholar.Ledger.Lookup.{
  LedgerError, non_empty, checked_status, get_session, get_owned_query,
}
use transit_scholar.Ledger.Queries.{
  new_query, check_parent, query_id_or_new, insert_query, create_query, changed_query, assign_query,
  update_query_status,
}
use transit_scholar.Integrity.{ValidQuery, IsConsistent}
use transit_scholar.Integrity.Put.{put_if_added, put_view, fresh_view}
use transit_scholar.Integrity.Rows.Owners.{put_query}
use transit_scholar.Integrity.Lookups.{
  non_empty_ok, checked_status_ok, get_session-owner, get_owned_query-found,
}

module _ (t : Tables) (db : Database t) where
  insert_query-IsConsistent :
      (made : Result LedgerError ResearchQueryRecord)
      → ((row : ResearchQueryRecord) → made ≡ ok row → ValidQuery t db row)
      → IsConsistent t db
      → IsConsistent t (insert_query t db made).1
  unfolding insert_query
  insert_query-IsConsistent (err e) valid c = c
  insert_query-IsConsistent (ok row) valid c = elim (Option-cases (t.queries.add row db.queries)) [
    | inl none_added ↦ rw (none_added, insert_query) c
    | inr (new, added) ↦
        rw (added, insert_query)
          (put_query t db new row (put_if_added t.queries db.queries new row added)
            (fresh_view t.queries db.queries new row (λ q. q.research_session_id)
              (put_if_added t.queries db.queries new row added) added)
            (valid row refl) c)
  ]

  new_query-valid :
      (sid text status : String) (parent given : Option String) (new_id : String)
      (row : ResearchQueryRecord)
      → new_query t db sid text status parent given new_id ≡ ok row
      → ValidQuery t db row
  unfolding new_query
  new_query-valid sid text status parent given new_id row h =
      let (s, found, rest) = >>=-eq-ok (get_session t db sid) _ h in
      let (_, checked, named) = >>=-eq-ok (check_parent t db s.research_session_id parent) _ rest in
      let (row_id, id_ok, texted) = >>=-eq-ok (query_id_or_new given new_id) _ named in
      let (text', text_ok, last) = >>=-eq-ok (non_empty text "query_text") _ texted in
      let (status', status_ok, built) = >>=-eq-ok (checked_status status) _ last in
      record {
        status = ground (arith, checked_status_ok status status_ok);
        text = ground (arith, non_empty_ok text "query_text" text_ok);
        run = s.agent_run_id;
        owner = ground (arith, get_session-owner t db sid s found);
      }

  pub create_query-IsConsistent :
      (sid text status : String) (parent given : Option String) (new_id : String)
      → IsConsistent t db
      → IsConsistent t (create_query t db sid text status parent given new_id).1
  unfolding create_query
  create_query-IsConsistent sid text status parent given new_id c =
      insert_query-IsConsistent (new_query t db sid text status parent given new_id)
        (new_query-valid sid text status parent given new_id) c

  -- A changed row that keeps its key and its session
  record Changes (row : ResearchQueryRecord) : Type 0 where
    old : ResearchQueryRecord
    found : t.queries.get db.queries row.query_id ≡ some old
    same_owner : old.research_session_id ≡ row.research_session_id
    valid : ValidQuery t db row

  assign_query-IsConsistent :
      (made : Result LedgerError ResearchQueryRecord)
      → ((row : ResearchQueryRecord) → made ≡ ok row → Changes row)
      → IsConsistent t db
      → IsConsistent t (assign_query t db made).1
  unfolding assign_query
  assign_query-IsConsistent (err e) change c = c
  assign_query-IsConsistent (ok row) change c =
      let ch = change row refl in
      let new = t.queries.assign row db.queries in
      let put = λ (k : String). t.queries.get-assign row ch.old db.queries k ch.found in
      put_query t db new row put
        (put_view t.queries db.queries new row (λ q. q.research_session_id) put
          (λ old h. cc (h, ch.found, ch.same_owner)))
        ch.valid c

  changed_query-Changes :
      (sid qid status : String) (row : ResearchQueryRecord)
      → IsConsistent t db
      → changed_query t db sid qid status ≡ ok row
      → Changes row
  unfolding changed_query
  changed_query-Changes sid qid status row c h =
      let (s, session_ok, rest) = >>=-eq-ok (get_session t db sid) _ h in
      let (old, owned, last) = >>=-eq-ok (get_owned_query t db sid qid) _ rest in
      let (status', status_ok, built) = >>=-eq-ok (checked_status status) _ last in
      let (found, named, mine) = get_owned_query-found t db sid qid old owned in
      let was = c.queries old.query_id old found in
      record {
        old = old;
        found = ground arith;
        same_owner = ground arith;
        valid = record {
          status = ground (arith, checked_status_ok status status_ok);
          text = ground (arith, was.text);
          run = was.run;
          owner = ground (arith, was.owner);
        };
      }

  pub update_query_status-IsConsistent :
      (sid qid status : String)
      → IsConsistent t db
      → IsConsistent t (update_query_status t db sid qid status).1
  unfolding update_query_status
  update_query_status-IsConsistent sid qid status c =
      assign_query-IsConsistent (changed_query t db sid qid status)
        (λ row. changed_query-Changes sid qid status row c) c
