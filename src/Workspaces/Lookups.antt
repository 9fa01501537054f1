-- ===== src/Workspaces/Lookups.antt =====
-- What a lookup of `WorkspaceService` (src/transit_scholar/layer3/workspace/service.py) that returns says
-- of the rows.
use transit_scholar.Base.{String, ◌≡◌, some, inl, inr, eq_iff, arith, Option-cases}
use transit_scholar.Base.Text.{strip}
use transit_scholar.Base.Result.{ok}
use transit_scholar.Records.{Workspace, Tables, Database}
use transit_scholar.Workspaces.{get, require_active}

module _ (t : Tables) (db : Database t) where
  pub get-found :
      (given : String) (w : Workspace)
      → get t db given ≡ ok w
      → t.workspaces.get db.workspaces w.workspace_id ≡ some w
  unfolding get
  get-found given w h = elim (Option-cases (t.workspaces.get db.workspaces (strip given))) [
    | inl missing ↦ ground arith
    | inr (r, found) ↦ ground (arith, t.workspaces.get_key db.workspaces (strip given) r found)
  ]

  pub require_active-found :
      (given : String) (w : Workspace)
      → require_active t db given ≡ ok w
      → (t.workspaces.get db.workspaces w.workspace_id ≡ some w) × (w.status ≡ "active")
  unfolding require_active
  require_active-found given w h = ground (arith, get-found given w, eq_iff w.status "active")

  pub get-key :
      (given : String) (w : Workspace) → get t db given ≡ ok w → w.workspace_id ≡ strip given
  unfolding get
  get-key given w h = elim (Option-cases (t.workspaces.get db.workspaces (strip given))) [
    | inl missing ↦ ground arith
    | inr (r, found) ↦ ground (arith, t.workspaces.get_key db.workspaces (strip given) r found)
  ]

  -- an argument that names a Workspace in some rows names one in others
  pub get_again :
      (new : Database t) (given : String) (w v : Workspace)
      → get t db given ≡ ok w
      → t.workspaces.get new.workspaces w.workspace_id ≡ some v
      → get t new given ≡ ok v
  unfolding get
  get_again new given w v h there =
      let named : w.workspace_id ≡ strip given = get-key given w h in
      let at : t.workspaces.get new.workspaces (strip given) ≡ some v = rw (← named) there in
      ground (arith, at, h)
