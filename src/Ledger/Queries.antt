-- ===== src/Ledger/Queries.antt =====
-- The query operations of src/transit_scholar/layer3/ledger/service.py.
use transit_scholar.Base.{String, Option, none, some, List, str_eq, if◌then◌else◌}
use transit_scholar.Base.Text.{nonempty}
use transit_scholar.Base.Result.{Result, ok, err, ◌>>=◌, ◌>>◌}
use transit_scholar.Records.{ResearchQueryRecord, Tables, Database}
use transit_scholar.Ledger.Lookup.{
  LedgerError, refused, non_empty, checked_status, get_session, get_owned_query,
}

-- `_non_empty(query_id, "query_id") if query_id else _new_id()`
unfoldable pub query_id_or_new : Option String → String → Result LedgerError String
query_id_or_new none new_id = ok new_id
query_id_or_new (some given) new_id =
    if nonempty given then non_empty given "query_id" else ok new_id

module _ (t : Tables) where
  -- `if parent_query_id is not None: self._get_owned_query(...)`
  unfoldable pub check_parent : Database t → String → Option String → Result LedgerError (Unit {0})
  check_parent db session_id none = ok tt
  check_parent db session_id (some parent) = do get_owned_query t db session_id parent; ok tt

  -- the row that `create_query` builds; `parent_query_id` is kept as it is given
  unfoldable pub new_query :
      Database t
      → String
      → String
      → String
      → Option String
      → Option String
      → String
      → Result LedgerError ResearchQueryRecord
  unfolding check_parent query_id_or_new
  new_query db research_session_id query_text status parent_query_id query_id new_id = do
    research_session ← get_session t db research_session_id
    check_parent db research_session.research_session_id parent_query_id
    row_id ← query_id_or_new query_id new_id
    text ← non_empty query_text "query_text"
    row_status ← checked_status status
    ok (record {
      query_id = row_id;
      research_session_id = research_session.research_session_id;
      query_text = text;
      status = row_status;
      parent_query_id = parent_query_id;
    })

  -- `session.add(row)`, `flush`, `refresh`
  unfoldable pub insert_query :
      Database t
      → Result LedgerError ResearchQueryRecord
      → Result LedgerError ResearchQueryRecord × Database t
  insert_query db (err e) = (err e, db)
  insert_query db (ok row) = elim (t.queries.add row db.queries) [
    | none ↦ (err refused, db)
    | some rows ↦ (ok row, record db { queries = rows })
  ]

  unfoldable pub create_query :
      Database t
      → String
      → String
      → String
      → Option String
      → Option String
      → String
      → Result LedgerError ResearchQueryRecord × Database t
  unfolding new_query insert_query
  create_query db research_session_id query_text status parent_query_id query_id new_id =
      insert_query db
        (new_query db research_session_id query_text status parent_query_id query_id new_id)

  unfoldable pub get_query : Database t → String → String → Result LedgerError ResearchQueryRecord
  get_query db research_session_id query_id = do
    get_session t db research_session_id
    get_owned_query t db research_session_id query_id

  unfoldable pub list_queries : Database t → String → Result LedgerError (List ResearchQueryRecord)
  list_queries db research_session_id = do
    session ← get_session t db research_session_id
    ok (t.queries.select (λ q. str_eq q.research_session_id session.research_session_id) db.queries)

  unfoldable pub changed_query :
      Database t → String → String → String → Result LedgerError ResearchQueryRecord
  changed_query db research_session_id query_id status = do
    get_session t db research_session_id
    row ← get_owned_query t db research_session_id query_id
    row_status ← checked_status status
    ok (record row { status = row_status })

  unfoldable pub assign_query :
      Database t
      → Result LedgerError ResearchQueryRecord
      → Result LedgerError ResearchQueryRecord × Database t
  assign_query db (err e) = (err e, db)
  assign_query db (ok row) = (ok row, record db { queries = t.queries.assign row db.queries })

  unfoldable pub update_query_status :
      Database t → String → String → String → Result LedgerError ResearchQueryRecord × Database t
  unfolding changed_query assign_query
  update_query_status db research_session_id query_id status =
      assign_query db (changed_query db research_session_id query_id status)
