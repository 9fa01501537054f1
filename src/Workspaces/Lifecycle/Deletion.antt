-- ===== src/Workspaces/Lifecycle/Deletion.antt =====
-- `WorkspaceService.delete` (src/transit_scholar/layer3/workspace/service.py) makes at most two changes of
-- `Workspaces.Lifecycle`, and commits each of them.
use transit_scholar.Base.{
  String, ◌≡◌, refl, sym, subst, ◌∙◌, false, some, ◌⊎◌, inl, inr, List, [], ◌∷◌, Memᴰ, str_eq,
  arith, Bool-cases,
}
use transit_scholar.Base.Text.{strip}
use transit_scholar.Base.Result.{ok, Result-cases}
use transit_scholar.Records.{Workspace, Tables, Database}
use transit_scholar.Workspaces.{get}
use transit_scholar.Workspaces.Storage.{is_safe_workspace_id}
use transit_scholar.Workspaces.Delete.{
  World, Cleanup, commit, set_status, enter, revoke, settle, clean, destroy, delete_found, delete,
  last,
}
use transit_scholar.Workspaces.Lookups.{get-found, get-key}
use transit_scholar.Workspaces.Lifecycle.{Change, unchanged}
use transit_scholar.Workspaces.Lifecycle.Revoked.{IsRevoked, revoke-Change, settle-Change}

module _ (t : Tables) where
  module _ {Files : Type 0} where
    -- Where a deletion ends: it has done nothing, or it has committed one change or two.
    pub data Ends (world : World t Files) : World t Files → Type 0 where
      stayed : Ends world world
      ended :
          (mid : Database t) (end_world : World t Files)
          → Change t world.now mid
          → Change t mid end_world.now
          → end_world.saved ≡ end_world.now
          → Ends world end_world

    -- A world in which files may be gone is one in which the Workspace is durably revoked.
    abbrev pub IsSafe : String → Files → World t Files → Type 0
    IsSafe id files world = (world.files ≡ files) ⊎ IsRevoked t id world.saved

    abbrev AllSafe : String → Files → List (World t Files) → Type 0
    AllSafe id files [] = Unit
    AllSafe id files (world ∷ later) = IsSafe id files world × AllSafe id files later

    all_safe :
        (id : String) (files : Files) (trail : List (World t Files)) (v : World t Files)
        → AllSafe id files trail
        → Memᴰ v trail
        → IsSafe id files v
    all_safe id files [] v safe m = elim m [ ]
    all_safe id files (w ∷ later) v (this, rest) (Memᴰ.head e) = rw e this
    all_safe id files (w ∷ later) v (this, rest) (Memᴰ.tail m) = all_safe id files later v rest m

    module _ (cleanup : Cleanup Files) where
      clean-safe :
          (w : Workspace) (world : World t Files) (files : Files)
          → t.workspaces.get world.now.workspaces w.workspace_id ≡ some w
          → world.saved ≡ world.now
          → IsRevoked t w.workspace_id world.now
          → (end_world : World t Files) × (last t world (clean t cleanup w world).1 ≡ end_world)
            × Change t world.now end_world.now
            × (end_world.saved ≡ end_world.now)
            × AllSafe w.workspace_id files (clean t cleanup w world).1
      unfolding clean settle last commit
      clean-safe w world files found durable revoked =
          let cleaned : World t Files = record world {
            files = (cleanup.run w.workspace_id world.files).1;
          } in
          let (change, tombstone) = settle-Change t w cleaned found revoked in
          let held : IsRevoked t w.workspace_id world.saved = rw durable revoked in
          elim (Bool-cases (cleanup.run w.workspace_id world.files).0) [
            | inl done ↦
                rw (done, clean)
                  (
                    commit t (set_status t "deleted" w cleaned),
                    refl,
                    change,
                    refl,
                    (inr held, (inr held, (inr tombstone, tt))),
                  )
            | inr raised ↦ rw (raised, clean) (cleaned, refl, unchanged, durable, (inr held, tt))
          ]

      destroy-safe :
          (given id : String) (world : World t Files) (files : Files)
          → ((w : Workspace) → get t world.now given ≡ ok w → w.workspace_id ≡ id)
          → world.saved ≡ world.now
          → IsRevoked t id world.now
          → (end_world : World t Files) × (last t world (destroy t cleanup given world).1
              ≡ end_world)
            × Change t world.now end_world.now
            × (end_world.saved ≡ end_world.now)
            × AllSafe id files (destroy t cleanup given world).1
      unfolding destroy last
      destroy-safe given id world files same durable revoked =
          elim (Result-cases (get t world.now given)) [
            | inl (e, missing) ↦ rw (missing, destroy) (world, refl, unchanged, durable, tt)
            | inr (w, w_ok) ↦ elim (Bool-cases (is_safe_workspace_id w.workspace_id)) [
              | inr unsafe ↦
                  rw (w_ok, destroy) (rw (unsafe, destroy) (world, refl, unchanged, durable, tt))
              | inl safe ↦
                  let e = same w w_ok in
                  let there = get-found t world.now given w w_ok in
                  rw (w_ok, destroy)
                    (rw (safe, destroy, ← e)
                      (clean-safe w world files there durable (rw e revoked)))
            ]
          ]

      enter-files : (w : Workspace) (world : World t Files) → (enter t w world).files ≡ world.files
      unfolding enter set_status
      enter-files w world = ground arith

      delete_found-safe :
          (given : String) (w : Workspace) (world : World t Files)
          → get t world.now given ≡ ok w
          → str_eq w.status "deleted" ≡ false
          → Ends world (last t world (delete_found t cleanup given w world).1)
            × AllSafe w.workspace_id world.files (delete_found t cleanup given w world).1
      unfolding delete_found revoke commit last
      delete_found-safe given w world w_ok live =
          let there = get-found t world.now given w w_ok in
          let (change, revoked) = revoke-Change t w world there live in
          let durable = commit t (revoke t w.workspace_id (enter t w world)) in
          let one_key : (v : Workspace)
              → get t durable.now given ≡ ok v
              → v.workspace_id ≡ w.workspace_id =
            λ v h. get-key t durable.now given v h ∙ sym (get-key t world.now given w w_ok) in
          let (end_world, last_is, next, saved, safe) =
            destroy-safe given w.workspace_id durable world.files one_key refl revoked in
          (
            ended (revoke t w.workspace_id (enter t w world)).now _ change (rw last_is next)
                (rw last_is saved),
            (inl (enter-files w world), (inl (enter-files w world), (inr revoked, safe))),
          )

      -- A deletion passes through safe worlds, and ends as `Ends` says.
      pub delete-safe :
          (given : String) (world : World t Files)
          → Ends world (last t world (delete t cleanup world given).1)
            × AllSafe (strip given) world.files (delete t cleanup world given).1
      unfolding delete last
      delete-safe given world = elim (Result-cases (get t world.now given)) [
        | inl (e, missing) ↦ rw (missing, delete) (stayed, tt)
        | inr (w, w_ok) ↦ elim (Bool-cases (str_eq w.status "deleted")) [
          | inl gone ↦ rw (w_ok, delete) (rw (gone, delete) (stayed, tt))
          | inr live ↦
              let (ends, safe) = delete_found-safe given w world w_ok live in
              let named = get-key t world.now given w w_ok in
              let files = world.files in
              let trail = (delete_found t cleanup given w world).1 in
              rw (w_ok, delete)
                (rw (live, delete) (ends, subst (λ id. AllSafe id files trail) named safe))
        ]
      ]

      -- Whatever the cleanup does and whether it raises: in every world that a deletion passes through,
      -- either the files are as they were, or the Workspace is durably `deleting` or `deleted` and
      -- has durably no members. So no crash and no rollback brings back a Workspace whose files are gone.
      pub delete_crash_safe :
          (given : String) (world v : World t Files)
          → Memᴰ v (delete t cleanup world given).1
          → (v.files ≡ world.files) ⊎ IsRevoked t (strip given) v.saved
      delete_crash_safe given world v m =
          all_safe (strip given) world.files (delete t cleanup world given).1 v
            (delete-safe given world).1 m
