-- ===== src/Workspaces/Calls.antt =====
-- Calls of `WorkspaceService` (src/transit_scholar/layer3/workspace/service.py) and what their caller does
-- to the transaction, one after another.
use transit_scholar.Base.{String, Bool, true, false, Option, List, [], ◌∷◌, if◌then◌else◌}
use transit_scholar.Base.Result.{Result, err}
use transit_scholar.Records.{Tables, Database}
use transit_scholar.Workspaces.{
  WorkspaceError, refused, SchemaDefinition, create, add_paper, remove_paper, archive,
}
use transit_scholar.Workspaces.Delete.{World, Cleanup, commit, rollback, delete, last}

pub data Call : Type 0 where
  create_workspace : String → Option SchemaDefinition → Option String → String → Call
  add remove : String → String → Call
  archive_workspace delete_workspace : String → Call
  -- the caller's own commit, and a rollback or a crash
  commit_all roll_back : Call

abbrev pub is_refused : {A : Type 0} → Result WorkspaceError A → Bool
is_refused (err refused) = true
is_refused _ = false

-- Where the database refuses a row, the transaction is rolled back, and the caller rolls the session back before
-- another call.
unfoldable pub after_call :
    (t : Tables) {Files A : Type 0}
    → World t Files
    → Result WorkspaceError A × Database t
    → World t Files
unfolding rollback
after_call t world (result, db) =
    if is_refused result then rollback t world else record world { now = db }

module _ (t : Tables) {Files : Type 0} (hash : String → Option String)
    (cleanup : Cleanup Files) where
  unfoldable pub perform : Call → World t Files → World t Files
  unfolding after_call create add_paper remove_paper archive delete last commit rollback
  perform (create_workspace name definition workspace_id new_id) world =
      after_call t world (create t world.now hash name definition workspace_id new_id)
  perform (add workspace_id paper_id) world =
      after_call t world (add_paper t world.now workspace_id paper_id)
  perform (remove workspace_id paper_id) world =
      after_call t world (remove_paper t world.now workspace_id paper_id)
  perform (archive_workspace workspace_id) world =
      after_call t world (archive t world.now workspace_id)
  perform (delete_workspace workspace_id) world =
      last t world (delete t cleanup world workspace_id).1
  perform commit_all world = commit t world
  perform roll_back world = rollback t world

  unfoldable pub perform_all : List Call → World t Files → World t Files
  unfolding perform
  perform_all [] world = world
  perform_all (call ∷ later) world = perform_all later (perform call world)
