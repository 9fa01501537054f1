-- ===== src/Actions/Dispatch.antt =====
-- `ActionExecutor` of src/transit_scholar/layer3/actions/executor.py: validation, and then one call
-- of a service.
use transit_scholar.Base.{String, Bool}
use transit_scholar.Base.Result.{Result, ok, err}
use transit_scholar.Records.{
  Payload, ResearchSession, ResearchQueryRecord, EvidenceRecord, ClaimRecord, ClaimEvidenceLink,
  Tables, Database,
}
use transit_scholar.Execution.{update_research_session_status}
use transit_scholar.Ledger.Lookup.{LedgerError}
use transit_scholar.Ledger.Queries.{get_query, create_query, update_query_status}
use transit_scholar.Ledger.Evidence.{admit_evidence}
use transit_scholar.Ledger.Claims.{create_claim, update_claim}
use transit_scholar.Ledger.Links.{link_evidence_to_claim}
use transit_scholar.Actions.{
  Body, create_query_action, update_query_action, retrieve_query_action, admit_evidence_action,
  create_claim_action, update_claim_action, link_evidence_action, invoke_role_action,
  finish_session_action, AgentAction, RoleDefinition, ActionError, execution_failed, ledger_failed,
  call_failed, validate,
}

-- the fields of ResearchQuery
pub record ResearchQuery : Type 0 where
  pub query_id : String
  pub session_id : String
  pub workspace_id : String
  pub query_text : String

-- What the executor is given beside the two services: the Role registry, the knowledge service,
-- which reads, and the invoker of Roles, which may change the database. An `err` is an exception,
-- with its message.
pub record Gateway (t : Tables) : Type 1 where
  pub Report : Type 0
  pub accepts : String → Payload → Bool
  pub retrieve_knowledge : ResearchQuery → Result String Report
  pub invoke : String → Payload → Database t → Result String Report × Database t

-- `value` of an ActionExecutionResult
pub data Value (Report : Type 0) : Type 0 where
  query_value : ResearchQueryRecord → Value Report
  evidence_value : EvidenceRecord → Value Report
  claim_value : ClaimRecord → Value Report
  link_value : ClaimEvidenceLink → Value Report
  session_value : ResearchSession → Value Report
  report_value : Report → Value Report

abbrev pub returned :
    {E A B : Type 0} → (E → ActionError) → (A → B) → Result E A → Result ActionError B
returned wrap value (ok a) = ok (value a)
returned wrap value (err e) = err (wrap e)

abbrev pub delegate :
    {E A B S : Type 0} → (E → ActionError) → (A → B) → Result E A × S → Result ActionError B × S
delegate wrap value p = (returned wrap value p.0, p.1)

module _ (t : Tables) (g : Gateway t) where
  -- the query as the knowledge service gets it
  unfoldable pub retrieve :
      AgentAction → Result LedgerError ResearchQueryRecord → Result ActionError (Value g.Report)
  retrieve action (err e) = err (ledger_failed e)
  retrieve action (ok query) = returned call_failed report_value (
      g.retrieve_knowledge (record {
        query_id = query.query_id;
        session_id = action.research_session_id;
        workspace_id = action.workspace_id;
        query_text = query.query_text;
      }))

  -- `new_id` is the identifier that `uuid4` gives
  unfoldable pub dispatch :
      Database t → AgentAction → Body → String → Result ActionError (Value g.Report) × Database t
  unfolding retrieve
  dispatch db a (create_query_action query_id text parent) new_id =
      delegate ledger_failed query_value
        (create_query t db a.research_session_id text "active" parent query_id new_id)
  dispatch db a (update_query_action query_id status) new_id =
      delegate ledger_failed query_value
        (update_query_status t db a.research_session_id query_id status)
  dispatch db a (retrieve_query_action query_id tool_name) new_id =
      (retrieve a (get_query t db a.research_session_id query_id), db)
  dispatch db a (admit_evidence_action source_query_id evidence) new_id =
      delegate ledger_failed evidence_value
        (admit_evidence t db a.research_session_id source_query_id evidence new_id)
  dispatch db a (create_claim_action claim_id statement status rationale) new_id =
      delegate ledger_failed claim_value
        (create_claim t db a.research_session_id statement status rationale claim_id new_id)
  dispatch db a (update_claim_action claim_id status rationale) new_id =
      delegate ledger_failed claim_value
        (update_claim t db a.research_session_id claim_id status rationale)
  dispatch db a (link_evidence_action claim_id evidence_id relation) new_id =
      delegate ledger_failed link_value
        (link_evidence_to_claim t db a.research_session_id claim_id evidence_id relation)
  dispatch db a (invoke_role_action target role_input) new_id =
      delegate call_failed report_value (g.invoke target role_input db)
  dispatch db a (finish_session_action status) new_id =
      delegate execution_failed session_value
        (update_research_session_status t db a.agent_run_id a.research_session_id status)

  unfoldable pub execute :
      Database t
      → AgentAction
      → RoleDefinition
      → String
      → Result ActionError (Value g.Report) × Database t
  unfolding dispatch
  execute db action role new_id = elim (validate t g.accepts db action role) [
    | err e ↦ (err e, db)
    | ok _ ↦ dispatch db action action.body new_id
  ]
