-- ===== src/Actions/Safety.antt =====
-- What an action that is executed may touch.
use transit_scholar.Base.{String, ◌≡◌, refl, ◌⊎◌, inl, inr, true, eq_iff, arith}
use transit_scholar.Base.Result.{Result, ok, err, >>=-eq-ok, guard-eq-ok, Result-cases}
use transit_scholar.Records.{AgentRun, ResearchSession, Tables, Database, is_one_of}
use transit_scholar.Execution.{get_run, get_owned_session}
use transit_scholar.Actions.{
  AgentAction, RoleDefinition, ActionError, action_not_allowed, workspace_does_not_own_run,
  run_not_read, read, action_type, validate, validate_body,
}
use transit_scholar.Actions.Dispatch.{Gateway, execute}

pub read-eq-ok :
    {E A : Type 0} (wrap : E → ActionError) (r : Result E A) {a : A} → read wrap r ≡ ok a → r ≡ ok a
read-eq-ok wrap (ok b) h = ground arith
read-eq-ok wrap (err e) h = cc

-- the run and the session that an action names, and the Role's permission
pub record IsPlaced (t : Tables) (db : Database t) (a : AgentAction) (role : RoleDefinition)
    : Type 0 where
  pub allowed : is_one_of (action_type a.body) role.allowed_actions ≡ true
  pub run : AgentRun
  pub run_read : get_run t db a.agent_run_id ≡ ok run
  pub run_workspace : run.workspace_id ≡ a.workspace_id
  pub session : ResearchSession
  pub session_read : get_owned_session t db a.agent_run_id a.research_session_id ≡ ok session

module _ (t : Tables) (g : Gateway t) (db : Database t) (a : AgentAction)
    (role : RoleDefinition) where
  validate-IsPlaced : validate t g.accepts db a role ≡ ok tt → IsPlaced t db a role
  unfolding validate
  validate-IsPlaced h =
      let (allowed, first) = guard-eq-ok _ action_not_allowed _ h in
      let (run, read_run, second) =
        >>=-eq-ok (read run_not_read (get_run t db a.agent_run_id)) _ first in
      let (owned, third) = guard-eq-ok _ workspace_does_not_own_run _ second in
      let (session, read_session, rest) =
        >>=-eq-ok (read run_not_read (get_owned_session t db a.agent_run_id a.research_session_id))
          _ third in
      record {
        allowed = allowed;
        run = run;
        run_read = read-eq-ok run_not_read _ read_run;
        run_workspace = (eq_iff run.workspace_id a.workspace_id).0 owned;
        session = session;
        session_read = read-eq-ok run_not_read _ read_session;
      }

  pub validate_body_ok :
      validate t g.accepts db a role ≡ ok tt
      → validate_body t g.accepts db a.workspace_id a.research_session_id a.body ≡ ok tt
  unfolding validate
  validate_body_ok h =
      let (allowed, first) = guard-eq-ok _ action_not_allowed _ h in
      let (run, read_run, second) =
        >>=-eq-ok (read run_not_read (get_run t db a.agent_run_id)) _ first in
      let (owned, third) = guard-eq-ok _ workspace_does_not_own_run _ second in
      let (session, read_session, rest) =
        >>=-eq-ok (read run_not_read (get_owned_session t db a.agent_run_id a.research_session_id))
          _ third in
      let (u, checked, last) =
        >>=-eq-ok (validate_body t g.accepts db a.workspace_id a.research_session_id a.body) _
          rest in
      checked

  -- Either `execute` leaves the database as it was, or the Role may perform the action, the action's
  -- Workspace owns its run, and its run owns its session.
  pub execute_places :
      (new_id : String) → ((execute t g db a role new_id).1 ≡ db) ⊎ IsPlaced t db a role
  unfolding execute
  execute_places new_id = elim (Result-cases (validate t g.accepts db a role)) [
    | inl (e, refused) ↦ inl (rw (refused, execute) refl)
    | inr (u, passed) ↦ inr (validate-IsPlaced passed)
  ]
