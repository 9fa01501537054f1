-- ===== src/Actions/Examples.antt =====
-- A Role that links evidence to a claim of the small database.
use transit_scholar.Base.{String, ◌≡◌, ◌⊎◌, refl, true, [], ◌∷◌}
use transit_scholar.Base.Text.{strip}
use transit_scholar.Base.Result.{ok, err}
use transit_scholar.Records.{ClaimEvidenceLink, is_one_of}
use transit_scholar.Execution.{get_run, get_owned_session}
use transit_scholar.Ledger.Lookup.{
  refused, claim_relation, get_session, get_owned_claim, get_owned_evidence,
}
use transit_scholar.Ledger.Evidence.{get_evidence}
use transit_scholar.Ledger.Claims.{get_claim}
use transit_scholar.Integrity.Sample.{tables, database}
use transit_scholar.Actions.{
  link_evidence_action, AgentAction, RoleDefinition, ledger_failed, validate, validate_body,
}
use transit_scholar.Actions.Dispatch.{Gateway, link_value, execute}
use transit_scholar.Actions.Safety.{IsPlaced, execute_places}
use transit_scholar.Actions.Links.{execute_link_answers}

-- the knowledge service and the invoked Roles report a text
abbrev gateway : Gateway tables
gateway = record {
  Report = String;
  accepts = λ target role_input. true;
  retrieve_knowledge = λ query. ok "found";
  invoke = λ target role_input db. (ok "done", db);
}

abbrev action : AgentAction
action = record {
  workspace_id = "w";
  agent_run_id = "r";
  research_session_id = "s";
  body = link_evidence_action "c" "e" "supports";
}

abbrev role : RoleDefinition
role = record { allowed_actions = "LINK_EVIDENCE" ∷ []; allowed_tools = [] }

execute_places_example :
    ((execute tables gateway database action role "n").1 ≡ database)
    ⊎ IsPlaced tables database action role
execute_places_example = execute_places tables gateway database action role "n"

execute_link_answers_example :
    ((l : ClaimEvidenceLink) × ((execute tables gateway database action role "n").0
        ≡ ok (link_value l)))
    ⊎ ((execute tables gateway database action role "n").0 ≡ err (ledger_failed refused))
unfolding validate validate_body claim_relation strip tables database get_run get_owned_session
    is_one_of get_claim get_evidence get_session get_owned_claim get_owned_evidence
execute_link_answers_example =
    execute_link_answers tables gateway database action role "c" "e" "supports" "n" refl refl refl
