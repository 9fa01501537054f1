-- ===== src/Workspaces/Lifecycle/Operations.antt =====
-- Creation, membership and archiving are changes of `Workspaces.Lifecycle`.
use transit_scholar.Base.{
  ◌≤◌, String, ◌≡◌, refl, sym, subst, ap, Option, none, some, inl, inr, str_eq, eq_iff, arith,
  Bool-cases, Option-cases,
}
use transit_scholar.Base.Result.{Result, ok, err, >>=-eq-ok}
use transit_scholar.Records.{Workspace, WorkspacePaperMembership, Paper, Tables, Database}
use transit_scholar.Workspaces.{
  WorkspaceError, SchemaDefinition, get, require_active, new_workspace, workspace_row,
  insert_workspace, create, existing_paper, insert_membership, add_membership, addable, add_paper,
  delete_membership, remove_paper, archive_found, archivable, archive, advance_revision, id_or_new,
  optional_binding, ensure_non_empty, SchemaBinding, found, paper_not_member,
}
use transit_scholar.Workspaces.Lookups.{get-found, require_active-found}
use transit_scholar.Workspaces.Lifecycle.{rank, Follows, Change, unchanged, inserted, updated}

workspace_row-active :
    (id name : String) (binding : Option SchemaBinding)
    → (workspace_row id name binding).status ≡ "active"
unfolding workspace_row
workspace_row-active id name none = refl
workspace_row-active id name (some binding) = refl

new_workspace-active :
    (hash : String → Option String) (name : String) (definition : Option SchemaDefinition)
    (given : Option String) (new_id : String) (row : Workspace)
    → new_workspace hash name definition given new_id ≡ ok row
    → row.status ≡ "active"
unfolding new_workspace
new_workspace-active hash name definition given new_id row h =
    let (stripped, _, h1) = >>=-eq-ok (ensure_non_empty name) _ h in
    let (binding, _, h2) = >>=-eq-ok (optional_binding hash definition) _ h1 in
    let (id, _, built) = >>=-eq-ok (id_or_new given new_id) _ h2 in
    ground (arith, built, workspace_row-active id stripped binding)

pub rank_active : (status : String) → status ≡ "active" → rank status ≡ 0
unfolding rank
rank_active status active = subst (λ s. rank s ≡ 0) (sym active) refl

-- the next revision of a Workspace, with a status no earlier
pub advance_revision-Follows :
    (w : Workspace) (status : String)
    → rank w.status ≤ rank status
    → Follows w (advance_revision (record w { status = status }))
unfolding advance_revision
advance_revision-Follows w status h = record {
  kept = refl;
  revision = omega arith;
  status = h;
  changed = λ e. ground arith;
}

module _ (t : Tables) (db : Database t) where
  insert_workspace-Change :
      (made : Result WorkspaceError Workspace)
      → ((row : Workspace) → made ≡ ok row → row.status ≡ "active")
      → Change t db (insert_workspace t db made).1
  unfolding insert_workspace
  insert_workspace-Change (err e) active = unchanged
  insert_workspace-Change (ok row) active =
      elim (Option-cases (t.workspaces.add row db.workspaces)) [
        | inl taken ↦ rw (taken, insert_workspace) unchanged
        | inr (rows, added) ↦
            rw (added, insert_workspace) (inserted row rows added (active row refl))
      ]

  pub create-Change :
      (hash : String → Option String) (name : String) (definition : Option SchemaDefinition)
      (given : Option String) (new_id : String)
      → Change t db (create t db hash name definition given new_id).1
  unfolding create
  create-Change hash name definition given new_id =
      insert_workspace-Change (new_workspace hash name definition given new_id)
        (new_workspace-active hash name definition given new_id)

  insert_membership-Change :
      (w : Workspace) (m : WorkspacePaperMembership)
      → t.workspaces.get db.workspaces w.workspace_id ≡ some w
      → w.status ≡ "active"
      → m.workspace_id ≡ w.workspace_id
      → Change t db (insert_membership t db w m).1
  unfolding insert_membership
  insert_membership-Change w m found active owner =
      elim (Option-cases (t.memberships.add m db.memberships)) [
        | inl taken ↦ rw (taken, insert_membership) unchanged
        | inr (rows, added) ↦
            rw (added, insert_membership)
              (updated w (advance_revision w) rows found
                (advance_revision-Follows w w.status (omega arith)) refl
                (λ k p other. ground (
                  arith,
                  t.memberships.get-add m db.memberships rows (k, p) added,
                  owner,
                  other,
                  eq_iff m.workspace_id k,
                ))
                (λ two. ground (arith, two, rank_active w.status active)))
      ]

  found-eq-ok :
      {Row : Type 0} (o : Option Row) (e : WorkspaceError) (row : Row)
      → found o e ≡ ok row
      → o ≡ some row
  found-eq-ok none e row h = cc
  found-eq-ok (some r) e row h = ground (arith, h)

  add_membership-Change :
      (m : Result WorkspaceError (Workspace × Paper))
      → ((w : Workspace) (p : Paper)
          → m ≡ ok (w, p)
          → (t.workspaces.get db.workspaces w.workspace_id ≡ some w) × (w.status ≡ "active"))
      → Change t db (add_membership t db m).1
  unfolding add_membership
  add_membership-Change (err e) facts = unchanged
  add_membership-Change (ok (w, p)) facts =
      elim (Option-cases (t.memberships.get db.memberships (w.workspace_id, p.paper_id))) [
        | inl none_yet ↦
            let (found, active) = facts w p refl in
            rw (none_yet, add_membership)
              (insert_membership-Change w
                (record { workspace_id = w.workspace_id; paper_id = p.paper_id }) found active refl)
        | inr (m, member) ↦ rw (member, add_membership) unchanged
      ]

  pub add_paper-Change :
      (workspace_id paper_id : String) → Change t db (add_paper t db workspace_id paper_id).1
  unfolding add_paper addable
  add_paper-Change workspace_id paper_id = add_membership-Change _ λ w p h.
      let (v, v_ok, h1) = >>=-eq-ok (require_active t db workspace_id) _ h in
      let (q, q_ok, built) = >>=-eq-ok (existing_paper t db paper_id) _ h1 in
      let facts = require_active-found t db workspace_id v v_ok in
      let same : v ≡ w = ground (arith, built) in rw (← same) facts

  delete_membership-Change :
      (m : Result WorkspaceError (Workspace × WorkspacePaperMembership))
      → ((w : Workspace) (row : WorkspacePaperMembership)
          → m ≡ ok (w, row)
          → (t.workspaces.get db.workspaces w.workspace_id ≡ some w)
            × (w.status ≡ "active")
            × (row.workspace_id ≡ w.workspace_id))
      → Change t db (delete_membership t db m).1
  unfolding delete_membership
  delete_membership-Change (err e) facts = unchanged
  delete_membership-Change (ok (w, row)) facts =
      let (found, active, owner) = facts w row refl in
      let key : String × String = (row.workspace_id, row.paper_id) in
      updated w (advance_revision w) (t.memberships.delete key db.memberships) found
        (advance_revision-Follows w w.status (omega arith)) refl
        (λ k p other. ground (
          arith,
          t.memberships.get-delete key db.memberships (k, p),
          owner,
          other,
          eq_iff row.workspace_id k,
        ))
        (λ two. ground (arith, two, rank_active w.status active))

  pub remove_paper-Change :
      (workspace_id paper_id : String) → Change t db (remove_paper t db workspace_id paper_id).1
  unfolding remove_paper
  remove_paper-Change workspace_id paper_id = delete_membership-Change _ λ w row h.
      let (v, v_ok, h1) = >>=-eq-ok (require_active t db workspace_id) _ h in
      let (p, p_ok, h2) = >>=-eq-ok (ensure_non_empty paper_id) _ h1 in
      let (m, m_ok, built) =
        >>=-eq-ok (found (t.memberships.get db.memberships (v.workspace_id, p)) paper_not_member) _
          h2 in
      let (there, active) = require_active-found t db workspace_id v v_ok in
      let same : v ≡ w = ground (arith, built) in
      let same_row : m ≡ row = ground (arith, built) in
      let owner : m.workspace_id ≡ v.workspace_id =
        ap (λ k. k.0)
          (t.memberships.get_key db.memberships (v.workspace_id, p) m
            (found-eq-ok _ paper_not_member m m_ok)) in
      rw (← same, ← same_row) (there, active, owner)

  archive_found-Change :
      (m : Result WorkspaceError Workspace)
      → ((w : Workspace)
          → m ≡ ok w
          → (t.workspaces.get db.workspaces w.workspace_id ≡ some w) × (rank w.status ≤ 1))
      → Change t db (archive_found t db m).1
  unfolding archive_found rank
  archive_found-Change (err e) facts = unchanged
  archive_found-Change (ok w) facts = elim (Bool-cases (str_eq w.status "archived")) [
    | inl archived ↦ rw (archived, archive_found) unchanged
    | inr open_yet ↦
        let (found, early) = facts w refl in
        rw (open_yet, archive_found)
          (updated w (advance_revision (record w { status = "archived" })) db.memberships found
            (advance_revision-Follows w "archived" early) refl (λ k p other. refl)
            (λ two. ground (arith, two)))
  ]

  archivable-found :
      (workspace_id : String) (w : Workspace)
      → archivable t db workspace_id ≡ ok w
      → (t.workspaces.get db.workspaces w.workspace_id ≡ some w) × (rank w.status ≤ 1)
  unfolding archivable rank
  archivable-found workspace_id w h =
      let (v, v_ok, h1) = >>=-eq-ok (get t db workspace_id) _ h in
      let there = get-found t db workspace_id v v_ok in
      let same : v ≡ w = ground (arith, h1) in
      let early : rank v.status ≤ 1 = ground (arith, h1) in rw (← same) (there, early)

  pub archive-Change : (workspace_id : String) → Change t db (archive t db workspace_id).1
  unfolding archive
  archive-Change workspace_id =
      archive_found-Change (archivable t db workspace_id) (archivable-found workspace_id)
