-- ===== src/States/RoundTrip.antt =====
-- What is saved of a session is what is loaded (src/transit_scholar/layer3/state/service.py).
mod Examples
use transit_scholar.Base.{
  String, ◌≡◌, ◌≢◌, refl, sym, ap, ◌∙◌, Bool, true, false, Option, none, some, inl, inr, str_eq,
  eq_iff, arith, if◌then◌else◌, Bool-cases, Option-cases,
}
use transit_scholar.Base.Result.{Result, ok, err, >>=-eq-ok, Result-cases}
use transit_scholar.Records.{ResearchSession, ResearchState, Payload, Tables, Database}
use transit_scholar.Execution.{ExecutionError, get_owned_session}
use transit_scholar.Trace.{serialize_payload}
use transit_scholar.States.{
  new_state, insert_state, put_state, save_research_state, load_research_state,
}

module _ (t : Tables) (db : Database t) where
  -- the row is in the table, and the other rows are as they were
  record IsPutAlone (row : ResearchState) (new : Database t) : Type 0 where
    same_session :
        (agent_run_id id : String)
        → get_owned_session t new agent_run_id id ≡ get_owned_session t db agent_run_id id
    there : t.states.get new.states row.research_session_id ≡ some row
    others :
        (id : String)
        → id ≢ row.research_session_id
        → t.states.get new.states id ≡ t.states.get db.states id

  alone :
      (row : ResearchState) (rows : t.states.Rows)
      → ((k : String)
          → t.states.get rows k
            ≡ (if str_eq row.research_session_id k then some row else t.states.get db.states k))
      → IsPutAlone row (record db { states = rows })
  unfolding get_owned_session
  alone row rows put = record {
    same_session = λ run id. refl;
    there = ground (
      arith,
      put row.research_session_id,
      (eq_iff row.research_session_id row.research_session_id).1 refl,
    );
    others = λ id other. ground (arith, put id, eq_iff row.research_session_id id, other);
  }

  put_state-IsPutAlone :
      (made : Result ExecutionError ResearchState) (row : ResearchState)
      → (put_state t db made).0 ≡ ok row
      → (made ≡ ok row) × IsPutAlone row (put_state t db made).1
  unfolding put_state insert_state
  put_state-IsPutAlone (err e) row h = cc
  put_state-IsPutAlone (ok given) row h =
      elim (Option-cases (t.states.get db.states given.research_session_id)) [
        | inr (old, there) ↦
            let e : given ≡ row = ground (arith, h, there) in
            rw (← e, there, put_state)
              (refl, alone given _ (λ k. t.states.get-assign given old db.states k there))
        | inl missing ↦ elim (Option-cases (t.states.add given db.states)) [
          | inl taken ↦ ground (arith, h, missing, taken)
          | inr (rows, added) ↦
              let e : given ≡ row = ground (arith, h, missing, added) in
              rw (← e, missing, put_state)
                (rw (added, insert_state)
                  (refl, alone given rows (λ k. t.states.get-add given db.states rows k added)))
        ]
      ]

  new_state-session :
      (agent_run_id id : String) (payload : Payload) (row : ResearchState)
      → new_state t db agent_run_id id payload ≡ ok row
      → (session : ResearchSession) × (get_owned_session t db agent_run_id id ≡ ok session)
        × (row.research_session_id ≡ session.research_session_id)
        × (serialize_payload payload ≡ ok row.payload_json)
  unfolding new_state
  new_state-session agent_run_id id payload row h =
      let (session, owned, h1) = >>=-eq-ok (get_owned_session t db agent_run_id id) _ h in
      let (text, written, built) = >>=-eq-ok (serialize_payload payload) _ h1 in
      (session, owned, ground (arith, built), ground (arith, written, built))

  -- A state that is saved holds the JSON text of the payload that was given, and is the state that is loaded
  -- for the session afterwards; the states of the other sessions are as they were.
  pub save-load :
      (agent_run_id id : String) (payload : Payload) (row : ResearchState)
      → (save_research_state t db agent_run_id id payload).0 ≡ ok row
      → (serialize_payload payload ≡ ok row.payload_json)
        × (load_research_state t
              (save_research_state t db agent_run_id id payload).1
              agent_run_id
              id
            ≡ ok (some row))
        × ((other : String)
            → other ≢ row.research_session_id
            → t.states.get (save_research_state t db agent_run_id id payload).1.states other
              ≡ t.states.get db.states other)
  unfolding save_research_state load_research_state
  save-load agent_run_id id payload row h =
      let made = new_state t db agent_run_id id payload in
      let new = (put_state t db made).1 in
      let (built, put) = put_state-IsPutAlone made row h in
      let (session, owned, key, written) = new_state-session agent_run_id id payload row built in
      let still : get_owned_session t new agent_run_id id ≡ ok session =
        put.same_session agent_run_id id ∙ owned in
      let read : t.states.get new.states session.research_session_id ≡ some row =
        rw (← key) put.there in
      (written, rw still (rw read refl), put.others)
