-- ===== src/Integrity/Put.antt =====
-- A row is put into one table, by an insertion or by an assignment.
use transit_scholar.Base.{
  String, ◌≡◌, Bool, some, inl, inr, str_eq, eq_iff, arith, if◌then◌else◌, Bool-cases, Option-cases,
}
use transit_scholar.Store.{Table}
use transit_scholar.Integrity.{map_option}

module _ {Key Row : Type 0} {key : Row → Key} {same : Key → Key → Bool}
    (table : Table Key Row key same) (rows new : table.Rows) (row : Row) where
  abbrev pub IsPut : Type 0
  IsPut = (k : Key) → table.get new k ≡ (if same (key row) k then some row else table.get rows k)

  pub put_if_added : table.add row rows ≡ some new → IsPut
  put_if_added added k = table.get-add row rows new k added

  -- Whatever holds of all rows holds of them after a row that has it is put.
  pub put_all :
      (P : Row → Type 0)
      → IsPut
      → ((k : Key) (r : Row) → table.get rows k ≡ some r → P r)
      → P row
      → (k : Key) (r : Row) → table.get new k ≡ some r
      → P r
  put_all P put all this k r h = elim (Bool-cases (same (key row) k)) [
    | inl here ↦ let e : row ≡ r = ground (arith, put k) in rw (← e) this
    | inr there ↦ all k r (ground (arith, put k))
  ]

module _ {Row : Type 0} {key : Row → String} (table : Table String Row key str_eq)
    (rows new : table.Rows) (row : Row) (owner : Row → String)
    (put : IsPut table rows new row) where
  -- A row that is put keeps the owner of the row that it replaces.
  pub put_view :
      ((old : Row) → table.get rows (key row) ≡ some old → owner old ≡ owner row)
      → (k x : String) → map_option owner (table.get rows k) ≡ some x
      → map_option owner (table.get new k) ≡ some x
  put_view kept k x h = elim (Bool-cases (str_eq (key row) k)) [
    | inl here ↦ elim (Option-cases (table.get rows k)) [
      | inl missing ↦ ground (arith, put k)
      | inr (old, found) ↦
          let e : key row ≡ k = (eq_iff (key row) k).0 here in
          ground (arith, put k, kept old (rw e found))
    ]
    | inr there ↦ ground (arith, put k)
  ]

  pub fresh_view :
      table.add row rows ≡ some new
      → (k x : String) → map_option owner (table.get rows k) ≡ some x
      → map_option owner (table.get new k) ≡ some x
  fresh_view added = put_view (λ old h. cc (added, table.add_taken row old rows h))
