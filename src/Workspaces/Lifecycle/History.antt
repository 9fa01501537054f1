-- ===== src/Workspaces/Lifecycle/History.antt =====
-- Sequences of calls of `WorkspaceService` (src/transit_scholar/layer3/workspace/service.py), with commits,
-- rollbacks and crashes between them.
use transit_scholar.Base.{String, Bool, true, false, Option, List, [], ◌∷◌, if◌then◌else◌}
use transit_scholar.Base.Result.{Result}
use transit_scholar.Workspaces.{WorkspaceError}
use transit_scholar.Records.{Tables, Database}
use transit_scholar.Workspaces.Delete.{World, Cleanup, rollback}
use transit_scholar.Workspaces.Calls.{
  Call, create_workspace, add, remove, archive_workspace, delete_workspace, commit_all, roll_back,
  perform, perform_all, after_call, is_refused,
}
use transit_scholar.Workspaces.Lifecycle.{IsLater, IsLater-refl, IsLater-trans, IsSound, Change}
use transit_scholar.Workspaces.Lifecycle.Steps.{Change-IsLater, Change-IsSound}
use transit_scholar.Workspaces.Lifecycle.Operations.{
  create-Change, add_paper-Change, remove_paper-Change, archive-Change,
}
use transit_scholar.Workspaces.Lifecycle.Deletion.{Ends, stayed, ended, delete-safe}

module _ (t : Tables) {Files : Type 0} where
  pub record IsCoherent (world : World t Files) : Type 0 where
    pub now : IsSound t world.now
    pub saved : IsSound t world.saved
    pub later : IsLater t world.saved world.now

  -- a world that a call leaves
  abbrev GoesOn : World t Files → World t Files → Type 0
  GoesOn world next = IsCoherent next × IsLater t world.saved next.saved

  Change-GoesOn :
      (world : World t Files) (new : Database t)
      → Change t world.now new
      → IsCoherent world
      → GoesOn world (record world { now = new })
  Change-GoesOn world new change c = (
    record {
      now = Change-IsSound t world.now new change c.now;
      saved = c.saved;
      later =
          IsLater-trans t world.saved world.now new c.later
            (Change-IsLater t world.now new change c.now);
    },
    IsLater-refl t world.saved,
  )

  rollback-GoesOn : (world : World t Files) → IsCoherent world → GoesOn world (rollback t world)
  unfolding rollback
  rollback-GoesOn world c = (
    record { now = c.saved; saved = c.saved; later = IsLater-refl t world.saved },
    IsLater-refl t world.saved,
  )

  if-GoesOn :
      (b : Bool) (world new other : World t Files)
      → GoesOn world new
      → GoesOn world other
      → GoesOn world (if b then new else other)
  if-GoesOn true world new other n o = n
  if-GoesOn false world new other n o = o

  after_call-GoesOn :
      {A : Type 0} (world : World t Files) (done : Result WorkspaceError A × Database t)
      → Change t world.now done.1
      → IsCoherent world
      → GoesOn world (after_call t world done)
  unfolding after_call
  after_call-GoesOn world done change c =
      if-GoesOn (is_refused done.0) world (rollback t world) (record world { now = done.1 })
        (rollback-GoesOn world c) (Change-GoesOn world done.1 change c)

  Ends-GoesOn :
      (world end_world : World t Files)
      → Ends t world end_world
      → IsCoherent world
      → GoesOn world end_world
  Ends-GoesOn world _ stayed c = (c, IsLater-refl t world.saved)
  Ends-GoesOn world _ (ended mid end_world first second durable) c =
      let mid_sound = Change-IsSound t world.now mid first c.now in
      let end_sound = Change-IsSound t mid end_world.now second mid_sound in
      let to_mid =
        IsLater-trans t world.saved world.now mid c.later
          (Change-IsLater t world.now mid first c.now) in
      let to_end =
        IsLater-trans t world.saved mid end_world.now to_mid
          (Change-IsLater t mid end_world.now second mid_sound) in
      (
        record {
          now = end_sound;
          saved = rw durable end_sound;
          later = rw durable (IsLater-refl t end_world.now);
        },
        rw durable to_end,
      )

  module _ (hash : String → Option String) (cleanup : Cleanup Files) where
    perform-GoesOn :
        (call : Call) (world : World t Files)
        → IsCoherent world
        → GoesOn world (perform t hash cleanup call world)
    unfolding perform
    perform-GoesOn (create_workspace name definition given new_id) world c =
        after_call-GoesOn world _ (create-Change t world.now hash name definition given new_id) c
    perform-GoesOn (add workspace_id paper_id) world c =
        after_call-GoesOn world _ (add_paper-Change t world.now workspace_id paper_id) c
    perform-GoesOn (remove workspace_id paper_id) world c =
        after_call-GoesOn world _ (remove_paper-Change t world.now workspace_id paper_id) c
    perform-GoesOn (archive_workspace workspace_id) world c =
        after_call-GoesOn world _ (archive-Change t world.now workspace_id) c
    perform-GoesOn (delete_workspace workspace_id) world c =
        Ends-GoesOn world _ (delete-safe t cleanup workspace_id world).0 c
    perform-GoesOn commit_all world c =
        (record { now = c.now; saved = c.now; later = IsLater-refl t world.now }, c.later)
    perform-GoesOn roll_back world c = rollback-GoesOn world c

    -- Any sequence of calls, some of which the database refuses, commits and rollbacks leaves a coherent world, in which every durable Workspace of the
    -- start is still there, no earlier in its life, with the same name and binding to a schema, a
    -- revision no smaller, and, at the same revision, the same status and the same members.
    pub perform_all-IsLater :
        (calls : List Call) (world : World t Files)
        → IsCoherent world
        → IsCoherent (perform_all t hash cleanup calls world)
          × IsLater t world.saved (perform_all t hash cleanup calls world).saved
    unfolding perform_all
    perform_all-IsLater [] world c = (c, IsLater-refl t world.saved)
    perform_all-IsLater (call ∷ later) world c =
        let (mid, first) = perform-GoesOn call world c in
        let (end_ok, rest) = perform_all-IsLater later (perform t hash cleanup call world) mid in
        (
          end_ok,
          IsLater-trans t world.saved (perform t hash cleanup call world).saved
              (perform_all t hash cleanup (call ∷ later) world).saved first rest,
        )
