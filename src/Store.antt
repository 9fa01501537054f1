-- ===== src/Store.antt =====
-- What the services ask of a mapped table behind SQLAlchemy's `Session`, which is not part of this
-- repository: an interface, with the documented behaviour of `get`, `add`, `flush` and `delete`.
-- The attributes of a loaded row are written on the object that `Session.get` hands out again
-- (the identity map), so a write shows before the flush. Columns that the server fills
-- (`created_at`, `updated_at`), and with them the order of a listing, are left out.
pub mod Memory
use transit_scholar.Base.{
  String, ◌≡◌, Bool, true, false, Option, none, some, List, Memᴰ, if◌then◌else◌,
}

-- a row that does not pass the test
abbrev pub unless : {Row : Type 0} → (Row → Bool) → Option Row → Option Row
unless test none = none
unless test (some row) = if test row then none else some row

-- `Key` and `same` are a table's key and the test of equality on it.
pub record Table (Key Row : Type 0) (key : Row → Key) (same : Key → Key → Bool) : Type 1 where
  pub Rows : Type 0
  -- session.get(Model, id)
  pub get : Rows → Key → Option Row
  -- session.add(row); session.flush(): `none` is a refusal by the database
  pub add : Row → Rows → Option Rows
  -- attributes of a loaded row are assigned
  pub assign : Row → Rows → Rows
  -- session.delete(row); session.flush()
  pub delete : Key → Rows → Rows
  -- session.execute(delete(Model).where(test))
  pub delete_where : (Row → Bool) → Rows → Rows
  -- session.execute(select(Model).where(test)).scalars().all()
  pub select : (Row → Bool) → Rows → List Row
  pub get_key : (rows : Rows) (k : Key) (row : Row) → get rows k ≡ some row → key row ≡ k
  pub get-add :
      (row : Row) (rows new : Rows) (k : Key)
      → add row rows ≡ some new
      → get new k ≡ (if same (key row) k then some row else get rows k)
  pub add_taken :
      (row old : Row) (rows : Rows) → get rows (key row) ≡ some old → add row rows ≡ none
  pub get-assign :
      (row old : Row) (rows : Rows) (k : Key)
      → get rows (key row) ≡ some old
      → get (assign row rows) k ≡ (if same (key row) k then some row else get rows k)
  pub get-delete :
      (k : Key) (rows : Rows) (j : Key)
      → get (delete k rows) j ≡ (if same k j then none else get rows j)
  pub get-delete_where :
      (test : Row → Bool) (rows : Rows) (k : Key)
      → get (delete_where test rows) k ≡ unless test (get rows k)
  pub select_sound :
      (test : Row → Bool) (rows : Rows) (row : Row)
      → Memᴰ row (select test rows)
      → (get rows (key row) ≡ some row) × (test row ≡ true)
  pub select_complete :
      (test : Row → Bool) (rows : Rows) (row : Row)
      → get rows (key row) ≡ some row
      → test row ≡ true
      → Memᴰ row (select test rows)
