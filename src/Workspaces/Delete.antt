-- ===== src/Workspaces/Delete.antt =====
-- `WorkspaceService.delete` of src/transit_scholar/layer3/workspace/service.py, which commits. `now` is
-- what the session sees, `saved` what is durable: `commit` makes the first the second, a
-- rollback or a crash the second the first. Beside its result a deletion gives every world that
-- it passes through, in order, so that one can speak of a crash between any two of its steps.
use transit_scholar.Base.{String, Bool, true, false, List, [], ◌∷◌, str_eq, if◌then◌else◌}
use transit_scholar.Base.Result.{Result, ok, err}
use transit_scholar.Records.{Workspace, Tables, Database}
use transit_scholar.Workspaces.{
  WorkspaceError, invalid_workspace_input, cleanup_failed, get, advance_revision,
}
use transit_scholar.Workspaces.Storage.{is_safe_workspace_id}

pub record World (t : Tables) (Files : Type 0) : Type 0 where
  pub now : Database t
  pub saved : Database t
  pub files : Files

-- The cleanup of a Workspace's files may raise (`false`), after it has removed some.
pub record Cleanup (Files : Type 0) : Type 0 where
  pub run : String → Files → Bool × Files

-- The result has the Workspace and `already_deleted`.
abbrev pub Deleted : (t : Tables) (Files : Type 0) → Type 0
Deleted t Files = Result WorkspaceError (Workspace × Bool) × List (World t Files)

module _ (t : Tables) {Files : Type 0} where
  unfoldable pub commit : World t Files → World t Files
  commit world = record world { saved = world.now }

  unfoldable pub rollback : World t Files → World t Files
  rollback world = record world { now = world.saved }

  unfoldable pub set_status : String → Workspace → World t Files → World t Files
  unfolding advance_revision
  set_status status workspace world =
      let db = world.now in
      let row = advance_revision (record workspace { status = status }) in
      record world { now = record db { workspaces = t.workspaces.assign row db.workspaces } }

  -- the Workspace enters `deleting`, unless it is there already
  unfoldable pub enter : Workspace → World t Files → World t Files
  unfolding set_status
  enter workspace world =
      if str_eq workspace.status "deleting" then world else set_status "deleting" workspace world

  unfoldable pub revoke : String → World t Files → World t Files
  revoke workspace_id world =
      let db = world.now in
      record world {
        now = record db {
          memberships =
              t.memberships.delete_where (λ m. str_eq m.workspace_id workspace_id) db.memberships;
        };
      }

  -- the tombstone, and the second commit
  unfoldable pub settle : Workspace → World t Files → Deleted t Files
  unfolding advance_revision set_status commit
  settle workspace world =
      let settled = set_status "deleted" workspace world in
      (
        ok (advance_revision (record workspace { status = "deleted" }), false),
        settled ∷ commit settled ∷ [],
      )

  module _ (cleanup : Cleanup Files) where
    unfoldable pub clean : Workspace → World t Files → Deleted t Files
    unfolding settle
    clean workspace world =
        let (done, files) = cleanup.run workspace.workspace_id world.files in
        let cleaned = record world { files = files } in
        let (result, later) = settle workspace cleaned in
        if done then (result, cleaned ∷ later) else (err cleanup_failed, cleaned ∷ [])

    -- after the first commit: the row is loaded again, and the directory found
    unfoldable pub destroy : String → World t Files → Deleted t Files
    unfolding get clean
    destroy workspace_id world = elim (get t world.now workspace_id) [
      | err e ↦ (err e, [])
      | ok workspace ↦
          if is_safe_workspace_id workspace.workspace_id
          then clean workspace world
          else (err invalid_workspace_input, [])
    ]

    unfoldable pub delete_found : String → Workspace → World t Files → Deleted t Files
    unfolding enter revoke commit destroy
    delete_found workspace_id workspace world =
        let entered = enter workspace world in
        let revoked = revoke workspace.workspace_id entered in
        let (result, later) = destroy workspace_id (commit revoked) in
        (result, entered ∷ revoked ∷ commit revoked ∷ later)

    unfoldable pub delete : World t Files → String → Deleted t Files
    unfolding get delete_found
    delete world workspace_id = elim (get t world.now workspace_id) [
      | err e ↦ (err e, [])
      | ok workspace ↦
          if str_eq workspace.status "deleted"
          then (ok (workspace, true), [])
          else delete_found workspace_id workspace world
    ]

  -- the world after a call that passes through some
  unfoldable pub last : World t Files → List (World t Files) → World t Files
  last world [] = world
  last world (next ∷ later) = last next later
