-- ===== src/Workspaces.antt =====
-- `WorkspaceService` of src/transit_scholar/layer3/workspace/service.py, with schema_binding.py of the
-- same package: reads, creation, membership and archiving. A method takes the rows that the session
-- sees and returns its result with the rows that it leaves. A snapshot
-- (`WorkspaceRecord`, `MembershipRecord`) is its row, without the times; the validators of the
-- snapshots, which the table's own constraints imply, are left out.
pub mod Storage
pub mod Delete
pub mod Calls
pub mod Lookups
pub mod Lifecycle
pub mod Repeats
mod Examples
use transit_scholar.Base.{
  ℕ, ◌+◌, String, Bool, true, false, not, ◌&&◌, Option, none, some, List, str_eq, if◌then◌else◌,
}
use transit_scholar.Base.Text.{nonempty, strip}
use transit_scholar.Base.Result.{Result, ok, err, ◌>>=◌, ◌>>◌, guard}
use transit_scholar.Records.{Workspace, Paper, WorkspacePaperMembership, Tables, Database}

pub data WorkspaceError : Type 0 where
  invalid_workspace_input workspace_not_found workspace_not_active : WorkspaceError
  paper_not_found paper_deleted paper_not_member schema_binding_immutable : WorkspaceError
  -- the validator of SchemaBinding
  incomplete_binding : WorkspaceError
  -- the database refuses a row (IntegrityError). The database beside it is what the session saw before: SQLAlchemy rolls
  -- the transaction back to the last commit, which is a step of Workspaces.Calls
  refused : WorkspaceError
  -- what the cleanup of files raises
  cleanup_failed : WorkspaceError

unfoldable pub ensure_non_empty : String → Result WorkspaceError String
ensure_non_empty value = do guard (nonempty (strip value)) invalid_workspace_input; ok (strip value)

abbrev pub found : {Row : Type 0} → Option Row → WorkspaceError → Result WorkspaceError Row
found none e = err e
found (some row) e = ok row

-- ----- the binding to a schema

-- `content` is the canonical JSON text of the definition.
pub record SchemaDefinition : Type 0 where
  pub schema_id : String
  pub version : String
  pub content : String

pub record SchemaBinding : Type 0 where
  pub schema_id : String
  pub schema_version : String
  pub schema_hash : String

-- `Field(min_length=1)`, and the validator's refusal of None
unfoldable filled : Option String → Result WorkspaceError String
filled none = err incomplete_binding
filled (some text) = do guard (nonempty text) incomplete_binding; ok text

unfoldable new_binding :
    Option String → Option String → Option String → Result WorkspaceError SchemaBinding
unfolding filled
new_binding schema_id schema_version schema_hash = do
  name ← filled schema_id
  version ← filled schema_version
  hash ← filled schema_hash
  ok (record { schema_id = name; schema_version = version; schema_hash = hash })

unfoldable pub matches_binding : SchemaBinding → String → String → String → Bool
matches_binding binding schema_id schema_version schema_hash =
    str_eq binding.schema_id schema_id
    && str_eq binding.schema_version schema_version
    && str_eq binding.schema_hash schema_hash

-- `compute_schema_hash` is a digest of the content: `none` is an exception.
module _ (compute_schema_hash : String → Option String) where
  unfoldable pub binding_for : SchemaDefinition → Result WorkspaceError SchemaBinding
  unfolding new_binding
  binding_for definition = do
    guard (nonempty definition.schema_id && nonempty definition.version) invalid_workspace_input
    hash ← found (compute_schema_hash definition.content) invalid_workspace_input
    new_binding (some definition.schema_id) (some definition.version) (some hash)

  unfoldable optional_binding :
      Option SchemaDefinition → Result WorkspaceError (Option SchemaBinding)
  unfolding binding_for
  optional_binding none = ok none
  optional_binding (some definition) = do binding ← binding_for definition; ok (some binding)

-- `_ensure_non_empty(workspace_id, ...)` if it is given, and `workspace_id or _new_id()`
unfoldable id_or_new : Option String → String → Result WorkspaceError String
unfolding ensure_non_empty
id_or_new none new_id = ok new_id
id_or_new (some workspace_id) new_id = ensure_non_empty workspace_id

-- the row that `create` builds
unfoldable pub workspace_row : String → String → Option SchemaBinding → Workspace
workspace_row workspace_id name none = record {
  workspace_id = workspace_id;
  name = name;
  status = "active";
  schema_mode = "none";
  schema_id = none;
  schema_version = none;
  schema_hash = none;
  revision = 1;
}
workspace_row workspace_id name (some binding) = record {
  workspace_id = workspace_id;
  name = name;
  status = "active";
  schema_mode = "bound";
  schema_id = some binding.schema_id;
  schema_version = some binding.schema_version;
  schema_hash = some binding.schema_hash;
  revision = 1;
}

unfoldable new_workspace :
    (String → Option String)
    → String
    → Option SchemaDefinition
    → Option String
    → String
    → Result WorkspaceError Workspace
unfolding ensure_non_empty optional_binding id_or_new workspace_row
new_workspace compute_schema_hash name definition workspace_id new_id = do
  stripped ← ensure_non_empty name
  binding ← optional_binding compute_schema_hash definition
  row_id ← id_or_new workspace_id new_id
  ok (workspace_row row_id stripped binding)

-- `workspace.revision += 1`
unfoldable pub advance_revision : Workspace → Workspace
advance_revision workspace = record workspace { revision = workspace.revision + 1 }

module _ (t : Tables) where
  unfoldable pub get : Database t → String → Result WorkspaceError Workspace
  unfolding ensure_non_empty
  get db workspace_id = do
    stripped ← ensure_non_empty workspace_id
    found (t.workspaces.get db.workspaces stripped) workspace_not_found

  unfoldable pub require_active : Database t → String → Result WorkspaceError Workspace
  unfolding get
  require_active db workspace_id = do
    workspace ← get db workspace_id
    guard (str_eq workspace.status "active") workspace_not_active
    ok workspace

  unfoldable pub list_workspaces : Database t → List Workspace
  list_workspaces db = t.workspaces.select (λ row. true) db.workspaces

  unfoldable bound_to : Workspace → Result WorkspaceError (Option SchemaBinding)
  unfolding new_binding
  bound_to workspace =
      if str_eq workspace.schema_mode "bound"
      then (do
        binding ← new_binding workspace.schema_id workspace.schema_version workspace.schema_hash
        ok (some binding))
      else ok none

  unfoldable pub schema_binding : Database t → String → Result WorkspaceError (Option SchemaBinding)
  unfolding get bound_to
  schema_binding db workspace_id = do workspace ← get db workspace_id; bound_to workspace

  -- ----- creation

  unfoldable insert_workspace :
      Database t → Result WorkspaceError Workspace → Result WorkspaceError Workspace × Database t
  insert_workspace db (err e) = (err e, db)
  insert_workspace db (ok row) = elim (t.workspaces.add row db.workspaces) [
    | none ↦ (err refused, db)
    | some rows ↦ (ok row, record db { workspaces = rows })
  ]

  unfoldable pub create :
      Database t
      → (String → Option String)
      → String
      → Option SchemaDefinition
      → Option String
      → String
      → Result WorkspaceError Workspace × Database t
  unfolding new_workspace insert_workspace
  create db compute_schema_hash name definition workspace_id new_id =
      insert_workspace db (new_workspace compute_schema_hash name definition workspace_id new_id)

  -- ----- membership

  unfoldable existing_paper : Database t → String → Result WorkspaceError Paper
  unfolding ensure_non_empty
  existing_paper db paper_id = do
    stripped ← ensure_non_empty paper_id
    paper ← found (t.papers.get db.papers stripped) paper_not_found
    guard (not (str_eq paper.status "deleted")) paper_deleted
    ok paper

  -- The result has the Workspace, the membership and `already_member`.
  abbrev AddPaperResult : Type 0
  AddPaperResult = Workspace × WorkspacePaperMembership × Bool

  unfoldable insert_membership :
      Database t
      → Workspace
      → WorkspacePaperMembership
      → Result WorkspaceError AddPaperResult × Database t
  unfolding advance_revision
  insert_membership db workspace membership =
      let advanced = advance_revision workspace in
      elim (t.memberships.add membership db.memberships) [
        | none ↦ (err refused, db)
        | some rows ↦ (
          ok (advanced, membership, false),
          record db { workspaces = t.workspaces.assign advanced db.workspaces; memberships = rows },
        )
      ]

  unfoldable add_membership :
      Database t
      → Result WorkspaceError (Workspace × Paper)
      → Result WorkspaceError AddPaperResult × Database t
  unfolding insert_membership
  add_membership db (err e) = (err e, db)
  add_membership db (ok (workspace, paper)) =
      elim (t.memberships.get db.memberships (workspace.workspace_id, paper.paper_id)) [
        | some membership ↦ (ok (workspace, membership, true), db)
        | none ↦
            insert_membership db workspace
              (record { workspace_id = workspace.workspace_id; paper_id = paper.paper_id })
      ]

  unfoldable addable : Database t → String → String → Result WorkspaceError (Workspace × Paper)
  unfolding require_active existing_paper
  addable db workspace_id paper_id = do
    workspace ← require_active db workspace_id
    paper ← existing_paper db paper_id
    ok (workspace, paper)

  unfoldable pub add_paper :
      Database t → String → String → Result WorkspaceError AddPaperResult × Database t
  unfolding addable add_membership
  add_paper db workspace_id paper_id = add_membership db (addable db workspace_id paper_id)

  unfoldable delete_membership :
      Database t
      → Result WorkspaceError (Workspace × WorkspacePaperMembership)
      → Result WorkspaceError Workspace × Database t
  unfolding advance_revision
  delete_membership db (err e) = (err e, db)
  delete_membership db (ok (workspace, membership)) =
      let advanced = advance_revision workspace in
      (
        ok advanced,
        record db {
          workspaces = t.workspaces.assign advanced db.workspaces;
          memberships =
              t.memberships.delete (membership.workspace_id, membership.paper_id) db.memberships;
        },
      )

  unfoldable pub remove_paper :
      Database t → String → String → Result WorkspaceError Workspace × Database t
  unfolding require_active ensure_non_empty delete_membership
  remove_paper db workspace_id paper_id = delete_membership db do
    workspace ← require_active db workspace_id
    stripped ← ensure_non_empty paper_id
    membership ←
        found (t.memberships.get db.memberships (workspace.workspace_id, stripped)) paper_not_member
    ok (workspace, membership)

  unfoldable pub list_memberships :
      Database t → String → Result WorkspaceError (List WorkspacePaperMembership)
  unfolding get
  list_memberships db workspace_id = do
    workspace ← get db workspace_id
    ok (t.memberships.select (λ m. str_eq m.workspace_id workspace.workspace_id) db.memberships)

  -- ----- archiving

  -- The result has the Workspace and `already_archived`.
  unfoldable archive_found :
      Database t
      → Result WorkspaceError Workspace
      → Result WorkspaceError (Workspace × Bool) × Database t
  unfolding advance_revision
  archive_found db (err e) = (err e, db)
  archive_found db (ok workspace) =
      let archived = advance_revision (record workspace { status = "archived" }) in
      if str_eq workspace.status "archived" then (ok (workspace, true), db) else (
        ok (archived, false),
        record db { workspaces = t.workspaces.assign archived db.workspaces },
      )

  unfoldable archivable : Database t → String → Result WorkspaceError Workspace
  unfolding get
  archivable db workspace_id = do
    workspace ← get db workspace_id
    guard (not (str_eq workspace.status "deleting") && not (str_eq workspace.status "deleted"))
        workspace_not_active
    ok workspace

  unfoldable pub archive :
      Database t → String → Result WorkspaceError (Workspace × Bool) × Database t
  unfolding archivable archive_found
  archive db workspace_id = archive_found db (archivable db workspace_id)

  unfoldable pub rebind_schema : Database t → String → Result WorkspaceError (Unit {0})
  unfolding get
  rebind_schema db workspace_id = do workspace ← get db workspace_id; err schema_binding_immutable
