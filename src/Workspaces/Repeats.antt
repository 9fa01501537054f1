-- ===== src/Workspaces/Repeats.antt =====
-- The methods of `WorkspaceService` (src/transit_scholar/layer3/workspace/service.py) that may be called
-- again, and the deletion that does not end.
use transit_scholar.Base.{
  String, ◌≡◌, refl, sym, ap, ◌∙◌, Bool, true, false, none, some, inl, inr, [], ◌∷◌, str_eq, eq_iff,
  arith, Option-cases,
}
use transit_scholar.Base.Text.{strip}
use transit_scholar.Base.Result.{ok, err, >>=-eq-ok, Result-cases}
use transit_scholar.Records.{Workspace, Paper, WorkspacePaperMembership, Tables, Database}
use transit_scholar.Workspaces.{
  invalid_workspace_input, refused, get, require_active, existing_paper, addable, add_membership,
  insert_membership, add_paper, advance_revision,
}
use transit_scholar.Workspaces.Storage.{is_safe_workspace_id}
use transit_scholar.Workspaces.Delete.{
  World, Cleanup, enter, revoke, commit, destroy, delete_found, delete,
}
use transit_scholar.Workspaces.Lookups.{get-found, get-key, get_again}
use transit_scholar.Workspaces.Lifecycle.Revoked.{IsRevoked, revoke-Change}

module _ (t : Tables) {Files : Type 0} (cleanup : Cleanup Files) where
  -- A Workspace whose identifier is not safe as the name of a directory, which `create` accepts, cannot be
  -- deleted: the call commits that the Workspace is `deleting` and without members and then raises, whether
  -- or not an earlier call has done the same, and never comes to the cleanup and the tombstone.
  pub delete-unsafe :
      (given : String) (world : World t Files) (w : Workspace)
      → get t world.now given ≡ ok w
      → str_eq w.status "deleted" ≡ false
      → is_safe_workspace_id w.workspace_id ≡ false
      → (delete t cleanup world given ≡ (
        err invalid_workspace_input,
        enter t w world
            ∷ revoke t w.workspace_id (enter t w world)
            ∷ commit t (revoke t w.workspace_id (enter t w world))
            ∷ [],
      ))
        × IsRevoked t (strip given) (commit t (revoke t w.workspace_id (enter t w world))).saved
  unfolding delete delete_found destroy commit
  delete-unsafe given world w w_ok live unsafe =
      let there = get-found t world.now given w w_ok in
      let named = get-key t world.now given w w_ok in
      let revoked = (revoke-Change t w world there live).1 in
      let durable = commit t (revoke t w.workspace_id (enter t w world)) in
      let row = revoked.row in
      let again : get t durable.now given ≡ ok row =
        get_again t world.now durable.now given w row w_ok revoked.there in
      let row_key : row.workspace_id ≡ w.workspace_id =
        get-key t durable.now given row again ∙ sym named in
      let row_unsafe : is_safe_workspace_id row.workspace_id ≡ false = rw row_key unsafe in
      (
        rw (w_ok, delete)
            (rw (live, delete) (rw (again, destroy, delete_found) (rw (row_unsafe, destroy) refl))),
        rw (← named) revoked,
      )

module _ (t : Tables) (db : Database t) where
  -- the rows after a Paper has become a member
  abbrev joined : Workspace → t.memberships.Rows → Database t
  joined w rows = record db {
    workspaces = t.workspaces.assign (advance_revision w) db.workspaces;
    memberships = rows;
  }

  joined-require_active :
      (given : String) (w : Workspace) (rows : t.memberships.Rows)
      → require_active t db given ≡ ok w
      → require_active t (joined w rows) given ≡ ok (advance_revision w)
  unfolding require_active advance_revision
  joined-require_active given w rows h =
      let (v, v_ok, h1) = >>=-eq-ok (get t db given) _ h in
      let same : v ≡ w = ground (arith, h1) in
      let active : str_eq v.status "active" ≡ true = ground (arith, h1) in
      let there = get-found t db given v v_ok in
      let put = t.workspaces.get-assign (advance_revision v) v db.workspaces v.workspace_id there in
      let at : t.workspaces.get (joined v rows).workspaces v.workspace_id
          ≡ some (advance_revision v) =
        ground (arith, put, (eq_iff v.workspace_id v.workspace_id).1 refl) in
      let again = get_again t db (joined v rows) given v (advance_revision v) v_ok at in
      rw (← same) (rw again (rw active refl))

  joined-addable :
      (given paper_id : String) (w : Workspace) (p : Paper) (rows : t.memberships.Rows)
      → addable t db given paper_id ≡ ok (w, p)
      → addable t (joined w rows) given paper_id ≡ ok (advance_revision w, p)
  unfolding addable existing_paper
  joined-addable given paper_id w p rows h =
      let (v, v_ok, h1) = >>=-eq-ok (require_active t db given) _ h in
      let (q, q_ok, built) = >>=-eq-ok (existing_paper t db paper_id) _ h1 in
      let same : v ≡ w = ground (arith, built) in
      let one : q ≡ p = ground (arith, built) in
      let again = joined-require_active given w rows (v_ok ∙ ap ok same) in
      let paper : existing_paper t (joined w rows) paper_id ≡ ok p = q_ok ∙ ap ok one in
      rw again (rw paper refl)

module _ (t : Tables) where
  -- a call for a member
  add_member :
      (db : Database t) (given paper_id : String) (w : Workspace) (p : Paper)
      (m : WorkspacePaperMembership)
      → addable t db given paper_id ≡ ok (w, p)
      → t.memberships.get db.memberships (w.workspace_id, p.paper_id) ≡ some m
      → add_paper t db given paper_id ≡ (ok (w, m, true), db)
  unfolding add_paper add_membership
  add_member db given paper_id w p m able member = rw (able, add_membership) (rw member refl)

  -- a call for a Paper that is not a member yet
  add_fresh :
      (db : Database t) (given paper_id : String) (w : Workspace) (p : Paper)
      (rows : t.memberships.Rows)
      → addable t db given paper_id ≡ ok (w, p)
      → t.memberships.get db.memberships (w.workspace_id, p.paper_id) ≡ none
      → t.memberships.add
          (record { workspace_id = w.workspace_id; paper_id = p.paper_id })
          db.memberships
        ≡ some rows
      → add_paper t db given paper_id ≡ (
        ok (
          advance_revision w,
          record { workspace_id = w.workspace_id; paper_id = p.paper_id },
          false,
        ),
        joined t db w rows,
      )
  unfolding add_paper add_membership insert_membership
  add_fresh db given paper_id w p rows able fresh added =
      rw (able, add_membership) (rw (fresh, insert_membership) (rw (added, insert_membership) refl))

  -- the row that a call adds is then there
  member_now :
      (db : Database t) (w : Workspace) (p : Paper) (rows : t.memberships.Rows)
      → t.memberships.add
          (record { workspace_id = w.workspace_id; paper_id = p.paper_id })
          db.memberships
        ≡ some rows
      → t.memberships.get rows (w.workspace_id, p.paper_id)
        ≡ some (record { workspace_id = w.workspace_id; paper_id = p.paper_id })
  member_now db w p rows added = ground (
    arith,
    t.memberships.get-add (record { workspace_id = w.workspace_id; paper_id = p.paper_id })
        db.memberships rows (w.workspace_id, p.paper_id) added,
    (eq_iff w.workspace_id w.workspace_id).1 refl,
    (eq_iff p.paper_id p.paper_id).1 refl,
  )

  -- Adding a Paper again, once it has been added, returns the same Workspace and membership with
  -- `already_member` and changes nothing, the revision included.
  pub add_paper-add_paper :
      (db : Database t) (workspace_id paper_id : String) (w : Workspace)
      (m : WorkspacePaperMembership) (b : Bool)
      → (add_paper t db workspace_id paper_id).0 ≡ ok (w, m, b)
      → add_paper t (add_paper t db workspace_id paper_id).1 workspace_id paper_id
        ≡ (ok (w, m, true), (add_paper t db workspace_id paper_id).1)
  unfolding add_paper
  add_paper-add_paper db given paper_id w m b h =
      elim (Result-cases (addable t db given paper_id)) [
        | inl (e, denied) ↦
            let first : (add_paper t db given paper_id).0 ≡ err e =
              rw (denied, add_membership) refl in
            cc (h, first)
        | inr ((v, p), able) ↦
            let row : WorkspacePaperMembership = record {
              workspace_id = v.workspace_id;
              paper_id = p.paper_id;
            } in
            elim (Option-cases (t.memberships.get db.memberships (v.workspace_id, p.paper_id))) [
              | inr (old, member) ↦
                  let first = add_member db given paper_id v p old able member in
                  let e : v ≡ w = ground (arith, h, first) in
                  let f : old ≡ m = ground (arith, h, first) in rw (first, ← e, ← f) first
              | inl fresh ↦ elim (Option-cases (t.memberships.add row db.memberships)) [
                | inl taken ↦
                    let first : (add_paper t db given paper_id).0 ≡ err refused =
                      rw (able, add_membership)
                        (rw (fresh, insert_membership) (rw (taken, insert_membership) refl)) in
                    cc (h, first)
                | inr (rows, added) ↦
                    let first = add_fresh db given paper_id v p rows able fresh added in
                    let second =
                      add_member (joined t db v rows) given paper_id (advance_revision v) p row
                        (joined-addable t db given paper_id v p rows able)
                        (member_now db v p rows added) in
                    let e : advance_revision v ≡ w = ground (arith, h, first) in
                    let f : row ≡ m = ground (arith, h, first) in rw (first, ← e, ← f) second
              ]
            ]
      ]
