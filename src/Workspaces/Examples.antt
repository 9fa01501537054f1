-- ===== src/Workspaces/Examples.antt =====
-- The theorems about Workspaces, applied to a small database.
use transit_scholar.Base.{
  String, ◌≡◌, refl, true, false, Option, none, some, ◌⊎◌, List, [], ◌∷◌, Memᴰ,
}
use transit_scholar.Base.Text.{strip}
use transit_scholar.Base.Result.{ok, err}
use transit_scholar.Records.{Workspace}
use transit_scholar.Workspaces.{invalid_workspace_input, get, create, add_paper, advance_revision}
use transit_scholar.Workspaces.Storage.{is_safe_workspace_id}
use transit_scholar.Workspaces.Delete.{World, Cleanup, delete, enter, revoke, commit}
use transit_scholar.Workspaces.Calls.{
  Call, add, archive_workspace, delete_workspace, commit_all, roll_back, perform_all,
}
use transit_scholar.Workspaces.Lifecycle.{IsLater, IsLater-refl, IsSound}
use transit_scholar.Workspaces.Lifecycle.Revoked.{IsRevoked}
use transit_scholar.Workspaces.Lifecycle.Deletion.{delete_crash_safe}
use transit_scholar.Workspaces.Lifecycle.History.{IsCoherent, perform_all-IsLater}
use transit_scholar.Workspaces.Repeats.{delete-unsafe, add_paper-add_paper}
use transit_scholar.Integrity.Sample.{tables, workspace, database}

-- the files are a number of directories; the cleanup removes one and then raises
abbrev failing : Cleanup (List String)
failing = record { run = λ id files. (false, []) }

abbrev hash : String → Option String
hash content = some content

abbrev start : World tables (List String)
start = record { now = database; saved = database; files = "w" ∷ [] }

database-IsSound : IsSound tables database
unfolding tables database
database-IsSound = record { revoked = λ k w h two p. refl; owned = λ k p m h. cc }

start-IsCoherent : IsCoherent tables start
start-IsCoherent = record {
  now = database-IsSound;
  saved = database-IsSound;
  later = IsLater-refl tables database;
}

abbrev calls : List Call
calls = add "w" "p1" ∷ commit_all ∷ archive_workspace "w" ∷ roll_back ∷ delete_workspace "w" ∷ []

perform_all-IsLater_example :
    IsCoherent tables (perform_all tables hash failing calls start)
    × IsLater tables database (perform_all tables hash failing calls start).saved
perform_all-IsLater_example = perform_all-IsLater tables hash failing calls start start-IsCoherent

-- the world when the cleanup has raised
abbrev crashed : World tables (List String)
crashed = record (commit tables (revoke tables "w" (enter tables workspace start))) { files = [] }

delete_crash_safe_example : (crashed.files ≡ start.files) ⊎ IsRevoked tables "w" crashed.saved
unfolding strip delete tables database is_safe_workspace_id
delete_crash_safe_example =
    delete_crash_safe tables failing "w" start crashed
      (Memᴰ.tail (Memᴰ.tail (Memᴰ.tail (Memᴰ.head refl))))

abbrev slashed : Workspace
slashed = record workspace { workspace_id = "a/b"; name = "trams"; revision = 1 }

abbrev unsafe : World tables (List String)
unsafe = record start { now = (create tables database hash "trams" none (some " a/b") "n").1 }

delete-unsafe_example :
    (delete tables failing unsafe "a/b" ≡ (
      err invalid_workspace_input,
      enter tables slashed unsafe
          ∷ revoke tables "a/b" (enter tables slashed unsafe)
          ∷ commit tables (revoke tables "a/b" (enter tables slashed unsafe))
          ∷ [],
    ))
    × IsRevoked tables "a/b"
        (commit tables (revoke tables "a/b" (enter tables slashed unsafe))).saved
unfolding strip get create tables database is_safe_workspace_id
delete-unsafe_example = delete-unsafe tables failing "a/b" unsafe slashed refl refl refl

add_paper-add_paper_example : add_paper tables (add_paper tables database "w" "p1").1 "w" "p1" ≡ (
  ok (record workspace { revision = 4 }, record { workspace_id = "w"; paper_id = "p1" }, true),
  (add_paper tables database "w" "p1").1,
)
unfolding strip add_paper tables database advance_revision
add_paper-add_paper_example =
    add_paper-add_paper tables database "w" "p1" (record workspace { revision = 4 })
      (record { workspace_id = "w"; paper_id = "p1" }) false refl
