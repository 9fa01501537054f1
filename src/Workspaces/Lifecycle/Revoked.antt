-- ===== src/Workspaces/Lifecycle/Revoked.antt =====
-- The two writes of `WorkspaceService.delete` (src/transit_scholar/layer3/workspace/service.py) as changes of
-- `Workspaces.Lifecycle`, and the state between them.
use transit_scholar.Base.{
  ◌≤◌, String, ◌≡◌, ◌≢◌, refl, ap, false, none, some, inl, inr, str_eq, eq_iff, arith, Bool-cases,
  Option-cases,
}
use transit_scholar.Records.{Workspace, Tables, Database}
use transit_scholar.Workspaces.{advance_revision}
use transit_scholar.Workspaces.Delete.{World, set_status, enter, revoke}
use transit_scholar.Workspaces.Lifecycle.{rank, Change, updated, emptied, NoMembers}
use transit_scholar.Workspaces.Lifecycle.Operations.{advance_revision-Follows}

module _ (t : Tables) where
  -- the rows of the membership table of which one Workspace has been cleared
  abbrev cleared : String → Database t → t.memberships.Rows
  cleared id db = t.memberships.delete_where (λ m. str_eq m.workspace_id id) db.memberships

  cleared-none :
      (db : Database t) (id p : String) → t.memberships.get (cleared id db) (id, p) ≡ none
  cleared-none db id p =
      let left =
        t.memberships.get-delete_where (λ m. str_eq m.workspace_id id) db.memberships (id, p) in
      elim (Option-cases (t.memberships.get db.memberships (id, p))) [
        | inl absent ↦ ground (arith, left, absent)
        | inr (m, there) ↦
            let owner : m.workspace_id ≡ id =
              ap (λ k. k.0) (t.memberships.get_key db.memberships (id, p) m there) in
            ground (arith, left, there, (eq_iff m.workspace_id id).1 owner)
      ]

  cleared-others :
      (db : Database t) (id k p : String)
      → k ≢ id
      → t.memberships.get (cleared id db) (k, p) ≡ t.memberships.get db.memberships (k, p)
  cleared-others db id k p other =
      let left =
        t.memberships.get-delete_where (λ m. str_eq m.workspace_id id) db.memberships (k, p) in
      elim (Option-cases (t.memberships.get db.memberships (k, p))) [
        | inl absent ↦ ground (arith, left, absent)
        | inr (m, there) ↦
            let owner : m.workspace_id ≡ k =
              ap (λ k. k.0) (t.memberships.get_key db.memberships (k, p) m there) in
            ground (arith, left, there, owner, other, eq_iff m.workspace_id id)
      ]

  assigned :
      (db : Database t) (row old : Workspace)
      → t.workspaces.get db.workspaces row.workspace_id ≡ some old
      → t.workspaces.get (t.workspaces.assign row db.workspaces) row.workspace_id ≡ some row
  assigned db row old found =
      let id = row.workspace_id in
      ground (arith, t.workspaces.get-assign row old db.workspaces id found, (eq_iff id id).1 refl)

  -- The Workspace is in the rows, out of reach, and without members.
  pub record IsRevoked (id : String) (db : Database t) : Type 0 where
    pub row : Workspace
    pub there : t.workspaces.get db.workspaces id ≡ some row
    pub late : 2 ≤ rank row.status
    pub members : NoMembers t db id

  module _ {Files : Type 0} where
    pub revoke-Change :
        (w : Workspace) (world : World t Files)
        → t.workspaces.get world.now.workspaces w.workspace_id ≡ some w
        → str_eq w.status "deleted" ≡ false
        → Change t world.now (revoke t w.workspace_id (enter t w world)).now
          × IsRevoked w.workspace_id (revoke t w.workspace_id (enter t w world)).now
    unfolding revoke enter set_status rank
    revoke-Change w world found live =
        let db = world.now in
        let id = w.workspace_id in
        elim (Bool-cases (str_eq w.status "deleting")) [
          | inl again ↦
              let late : 2 ≤ rank w.status = ground (arith, again) in
              rw (again, enter)
                (
                  emptied w (cleared id db) found late (cleared-others db id) (cleared-none db id),
                  record { row = w; there = found; late = late; members = cleared-none db id },
                )
          | inr first ↦
              let row = advance_revision (record w { status = "deleting" }) in
              let early : rank w.status ≤ 2 = ground (arith, live) in
              rw (first, enter)
                (
                  updated w row (cleared id db) found (advance_revision-Follows w "deleting" early)
                      refl (cleared-others db id) (λ two. cleared-none db id),
                  record {
                    row = row;
                    there = assigned db row w found;
                    late = omega arith;
                    members = cleared-none db id;
                  },
                )
        ]

    pub settle-Change :
        (w : Workspace) (world : World t Files)
        → t.workspaces.get world.now.workspaces w.workspace_id ≡ some w
        → IsRevoked w.workspace_id world.now
        → Change t world.now (set_status t "deleted" w world).now
          × IsRevoked w.workspace_id (set_status t "deleted" w world).now
    unfolding set_status rank
    settle-Change w world found revoked =
        let db = world.now in
        let row = advance_revision (record w { status = "deleted" }) in
        let bound : rank w.status ≤ 3 = ground arith in
        (
          updated w row db.memberships found (advance_revision-Follows w "deleted" bound) refl
              (λ k p other. refl) (λ two. revoked.members),
          record {
            row = row;
            there = assigned db row w found;
            late = omega arith;
            members = revoked.members;
          },
        )
