-- ===== src/Actions.antt =====
-- The actions that a Role may take: the contracts of src/transit_scholar/layer3/actions/models.py
-- and the checks of layer3/actions/validation.py that come before any of them, over the services.
pub mod Dispatch
pub mod Safety
pub mod Links
mod Examples
use transit_scholar.Base.{
  ℕ, String, Bool, true, false, not, ◌||◌, Option, none, some, List, str_eq, is_some, if◌then◌else◌,
}
use transit_scholar.Base.Result.{Result, ok, err, ◌>>=◌, ◌>>◌, guard}
use transit_scholar.Records.{Payload, ResearchEvidence, Tables, Database, is_one_of}
use transit_scholar.Execution.{ExecutionError, get_run, get_owned_session}
use transit_scholar.Ledger.Lookup.{LedgerError}
use transit_scholar.Ledger.Queries.{get_query}
use transit_scholar.Ledger.Evidence.{get_evidence}
use transit_scholar.Ledger.Claims.{get_claim}

-- the fields of an action beyond those of ActionBase
pub data Body : Type 0 where
  create_query_action : Option String → String → Option String → Body
  update_query_action : String → String → Body
  retrieve_query_action : String → String → Body
  admit_evidence_action : String → ResearchEvidence → Body
  create_claim_action : Option String → String → String → Option String → Body
  update_claim_action : String → Option String → Option String → Body
  link_evidence_action : String → String → String → Body
  invoke_role_action : String → Payload → Body
  finish_session_action : String → Body

pub record AgentAction : Type 0 where
  pub workspace_id : String
  pub agent_run_id : String
  pub research_session_id : String
  pub body : Body

-- `action_type.value`
abbrev pub action_type : Body → String
action_type (create_query_action q x p) = "CREATE_QUERY"
action_type (update_query_action q s) = "UPDATE_QUERY"
action_type (retrieve_query_action q n) = "RETRIEVE_QUERY"
action_type (admit_evidence_action q e) = "ADMIT_EVIDENCE"
action_type (create_claim_action c x s r) = "CREATE_CLAIM"
action_type (update_claim_action c s r) = "UPDATE_CLAIM"
action_type (link_evidence_action c e r) = "LINK_EVIDENCE"
action_type (invoke_role_action r i) = "INVOKE_ROLE"
action_type (finish_session_action s) = "FINISH_SESSION"

-- the fields of a RoleDefinition that the gateway reads
pub record RoleDefinition : Type 0 where
  pub allowed_actions : List String
  pub allowed_tools : List String

pub data ActionError : Type 0 where
  -- ActionValidationError, for its reasons
  action_not_allowed workspace_does_not_own_run evidence_of_other_workspace : ActionError
  nothing_to_update invalid_role_invocation tool_not_allowed : ActionError
  run_not_read : ExecutionError → ActionError
  not_read : LedgerError → ActionError
  -- what the service that is called raises
  execution_failed : ExecutionError → ActionError
  ledger_failed : LedgerError → ActionError
  call_failed : String → ActionError

-- `_read`
abbrev pub read : {E A : Type 0} → (E → ActionError) → Result E A → Result ActionError A
read wrap (ok a) = ok a
read wrap (err e) = err (wrap e)

-- `accepts` says whether the registry has the target Role and its contract validates the input.
module _ (t : Tables) (accepts : String → Payload → Bool) where
  -- the checks of one kind of action
  unfoldable pub validate_body : Database t → String → String → Body → Result ActionError (Unit {0})
  validate_body db workspace_id session_id (update_query_action query_id status) = do
    read not_read (get_query t db session_id query_id)
    ok tt
  validate_body db workspace_id session_id (retrieve_query_action query_id tool_name) = do
    read not_read (get_query t db session_id query_id)
    ok tt
  validate_body db workspace_id session_id (admit_evidence_action source_query_id evidence) = do
    read not_read (get_query t db session_id source_query_id)
    guard (str_eq evidence.locator.workspace_id workspace_id) evidence_of_other_workspace
  validate_body db workspace_id session_id (update_claim_action claim_id status rationale) = do
    guard (is_some status || is_some rationale) nothing_to_update
    read not_read (get_claim t db session_id claim_id)
    ok tt
  validate_body db workspace_id session_id (link_evidence_action claim_id evidence_id relation) = do
    read not_read (get_claim t db session_id claim_id)
    read not_read (get_evidence t db session_id evidence_id)
    ok tt
  validate_body db workspace_id session_id (invoke_role_action target role_input) =
      guard (accepts target role_input) invalid_role_invocation
  validate_body db workspace_id session_id (create_query_action q x p) = ok tt
  validate_body db workspace_id session_id (create_claim_action c x s r) = ok tt
  validate_body db workspace_id session_id (finish_session_action s) = ok tt

  -- the last check, which only a retrieval has
  abbrev pub tool_allowed : RoleDefinition → Body → Bool
  tool_allowed role (retrieve_query_action query_id tool_name) =
      is_one_of tool_name role.allowed_tools
  tool_allowed role _ = true

  unfoldable pub validate :
      Database t → AgentAction → RoleDefinition → Result ActionError (Unit {0})
  unfolding validate_body
  validate db action role = do
    guard (is_one_of (action_type action.body) role.allowed_actions) action_not_allowed
    run ← read run_not_read (get_run t db action.agent_run_id)
    guard (str_eq run.workspace_id action.workspace_id) workspace_does_not_own_run
    read run_not_read (get_owned_session t db action.agent_run_id action.research_session_id)
    validate_body db action.workspace_id action.research_session_id action.body
    guard (tool_allowed role action.body) tool_not_allowed
