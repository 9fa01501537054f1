-- ===== src/Workspaces/Lifecycle.antt =====
-- What holds between two states of the Workspaces: the lifecycle goes one way, the binding to a schema
-- stays, and the revision tells states apart. Every method of `WorkspaceService`
-- (src/transit_scholar/layer3/workspace/service.py) makes one of the changes of `Change`.
pub mod Steps
pub mod Operations
pub mod Revoked
pub mod Deletion
pub mod History
use transit_scholar.Base.{
  ℕ, ◌+◌, ◌≤◌, String, ◌≡◌, ◌≢◌, refl, sym, ap, ◌∙◌, Bool, true, false, Option, none, some, inl,
  inr, str_eq, eq_iff, arith, if◌then◌else◌, is_some, Bool-cases,
}
use transit_scholar.Records.{Workspace, WorkspacePaperMembership, Tables, Database}

-- active, archived, deleting, deleted
unfoldable pub rank : String → ℕ
rank status =
    if str_eq status "deleted"
    then 3
    else if str_eq status "deleting"
    then 2
    else if str_eq status "archived"
    then 1
    else 0

pub record Follows (old new : Workspace) : Type 0 where
  pub kept : new ≡ record old { status = new.status; revision = new.revision }
  pub revision : old.revision ≤ new.revision
  pub status : rank old.status ≤ rank new.status
  pub changed : new.revision ≡ old.revision → new.status ≡ old.status

module _ (t : Tables) where
  -- the membership rows of a Workspace
  abbrev pub SameMembers : String → Database t → Database t → Type 0
  SameMembers k db new =
      (p : String)
      → t.memberships.get new.memberships (k, p) ≡ t.memberships.get db.memberships (k, p)

  abbrev pub NoMembers : Database t → String → Type 0
  NoMembers db k = (p : String) → t.memberships.get db.memberships (k, p) ≡ none

  -- Every Workspace is still there, later in its life, and with the members of an equal revision.
  abbrev pub IsLater : Database t → Database t → Type 0
  IsLater db new =
      (k : String) (old : Workspace)
      → t.workspaces.get db.workspaces k ≡ some old
      → (w : Workspace) × (t.workspaces.get new.workspaces k ≡ some w)
        × Follows old w
        × (w.revision ≡ old.revision → SameMembers k db new)

  pub record IsSound (db : Database t) : Type 0 where
    pub revoked :
        (k : String) (w : Workspace)
        → t.workspaces.get db.workspaces k ≡ some w
        → 2 ≤ rank w.status
        → NoMembers db k
    pub owned :
        (k p : String) (m : WorkspacePaperMembership)
        → t.memberships.get db.memberships (k, p) ≡ some m
        → is_some (t.workspaces.get db.workspaces k) ≡ true

  -- what one call may do to the rows
  pub data Change (db : Database t) : Database t → Type 0 where
    unchanged : Change db db
    inserted :
        (row : Workspace) (rows : t.workspaces.Rows)
        → t.workspaces.add row db.workspaces ≡ some rows
        → row.status ≡ "active"
        → Change db (record db { workspaces = rows })
    updated :
        (old row : Workspace) (members : t.memberships.Rows)
        → t.workspaces.get db.workspaces row.workspace_id ≡ some old
        → Follows old row
        → row.revision ≡ old.revision + 1
        → ((k p : String)
            → k ≢ row.workspace_id
            → t.memberships.get members (k, p) ≡ t.memberships.get db.memberships (k, p))
        → (2 ≤ rank row.status
            → (p : String) → t.memberships.get members (row.workspace_id, p) ≡ none)
        → Change db (record db {
          workspaces = t.workspaces.assign row db.workspaces;
          memberships = members;
        })
    emptied :
        (w : Workspace) (members : t.memberships.Rows)
        → t.workspaces.get db.workspaces w.workspace_id ≡ some w
        → 2 ≤ rank w.status
        → ((k p : String)
            → k ≢ w.workspace_id
            → t.memberships.get members (k, p) ≡ t.memberships.get db.memberships (k, p))
        → ((p : String) → t.memberships.get members (w.workspace_id, p) ≡ none)
        → Change db (record db { memberships = members })

pub Follows-refl : (w : Workspace) → Follows w w
Follows-refl w = record {
  kept = refl;
  revision = omega arith;
  status = omega arith;
  changed = λ e. refl;
}

pub Follows-trans : (a b c : Workspace) → Follows a b → Follows b c → Follows a c
Follows-trans a b c ab bc = record {
  kept =
      bc.kept
      ∙ ap (λ (w : Workspace). record w { status = c.status; revision = c.revision }) ab.kept;
  revision = omega (arith, ab.revision, bc.revision);
  status = omega (arith, ab.status, bc.status);
  changed = λ e.
      let same : b.revision ≡ a.revision = omega (arith, ab.revision, bc.revision, e) in
      bc.changed (e ∙ sym same) ∙ ab.changed same;
}

module _ (t : Tables) where
  pub IsLater-refl : (db : Database t) → IsLater t db db
  IsLater-refl db k old h = (old, h, Follows-refl old, λ e p. refl)

  pub IsLater-trans : (a b c : Database t) → IsLater t a b → IsLater t b c → IsLater t a c
  IsLater-trans a b c ab bc k old h =
      let (w, at, f, same) = ab k old h in
      let (w', at', f', same') = bc k w at in
      (
        w',
        at',
        Follows-trans old w w' f f',
        λ e p.
            let mid : w.revision ≡ old.revision = omega (arith, f.revision, f'.revision, e) in
            same' (e ∙ sym mid) p ∙ same mid p,
      )
