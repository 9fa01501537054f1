-- ===== src/RunRuntime/Sane/Sessions.antt =====
-- A session of a run (src/transit_scholar/layer3/runtime/run_runtime.py) is started only below the limits,
-- and its outcome leaves a machine that is ready for another round.
use transit_scholar.Base.{
  ℕ, ◌+◌, ◌≤◌, String, ◌≡◌, refl, Bool, true, false, not, ◌&&◌, none, some, List, [], ◌∷◌, ◌++◌,
  length, length-append, leb, arith, inl, inr, Bool-cases, Option-cases, if◌then◌else◌,
}
use transit_scholar.RunRuntime.State.{
  running, is_completed, SessionOutcome, SessionReply, session_paused, outcome, session_error,
  max_sessions, session_created, session_started, Environment, Machine, event, set_world, persist,
  set_state,
}
use transit_scholar.RunRuntime.Session.{
  record_outcome, after_session, carry_out, create, project, start_session, failed_outcome,
}
use transit_scholar.RunRuntime.Sane.{in_progress, IsReady, IsClosed, IsSame, Meets, Meets-bind}
use transit_scholar.RunRuntime.Sane.Closing.{pause_result-IsClosed, ready-result}
use transit_scholar.RunRuntime.Sane.Deciding.{Kept, set_world-IsSame}

module _ (env : Environment) where
  -- ready for a round, after a number of them
  pub record IsAfter (count : ℕ) (m : Machine env) : Type 0 where
    pub ready : IsReady env m
    pub steps : m.state.run_steps ≡ count

  -- below the limits, with a session in progress or about to be
  pub record HasRoom (count : ℕ) (m : Machine env) : Type 0 where
    pub live : m.state.status ≡ running
    pub sessions : length m.outcomes + 1 ≤ env.config.max_sessions
    pub failures : length m.state.failed_session_ids ≤ env.config.max_failed_sessions
    pub rounds : m.state.planning_round ≤ env.config.max_planning_rounds + 1
    pub steps : m.state.run_steps ≡ count

  abbrev pub After : ℕ → Unit {0} → Machine env → Type 0
  After steps u m = IsAfter steps m

  record_outcome-IsAfter :
      (steps : ℕ) (sid : String) (done : SessionOutcome env.Report) (m : Machine env)
      → HasRoom steps m
      → IsAfter steps (record_outcome sid done m)
  unfolding record_outcome persist event
  record_outcome-IsAfter steps sid done m room = record {
    ready = record {
      idle = refl;
      live = room.live;
      sessions = omega (arith, room.sessions, length-append m.outcomes (done ∷ []));
      failures = if_failed (is_completed done.status) m.state.failed_session_ids sid room.failures;
      rounds = room.rounds;
    };
    steps = room.steps;
  }
    where
      if_failed :
          (good : Bool) (ids : List String) (id : String)
          → length ids ≤ env.config.max_failed_sessions
          → length (if good then ids else ids ++ id ∷ []) ≤ env.config.max_failed_sessions + 1
      if_failed true ids id h = omega (arith, h)
      if_failed false ids id h = omega (arith, h, length-append ids (id ∷ []))

  after_session-IsAfter :
      (steps : ℕ) (sid question : String) (reply : SessionReply env.Report) (m : Machine env)
      → HasRoom steps m
      → in_progress m.state ≤ 1
      → Meets env (After steps) (IsClosed env) (after_session sid question reply m)
  unfolding after_session
  after_session-IsAfter steps sid question session_paused m room one =
      pause_result-IsClosed env (After steps) m (omega (arith, room.sessions, one))
        (omega (arith, room.failures, one)) room.rounds
  after_session-IsAfter steps sid question (outcome done) m room one =
      record_outcome-IsAfter steps sid done m room
  after_session-IsAfter steps sid question (session_error message) m room one =
      record_outcome-IsAfter steps sid (failed_outcome sid question message) m room

  carry_out-IsAfter :
      (steps : ℕ) (sid question : String) (handoff : env.Handoff) (m : Machine env)
      → HasRoom steps m
      → Meets env (After steps) (IsClosed env) (carry_out sid question handoff m)
  unfolding carry_out persist event set_world
  carry_out-IsAfter steps sid question handoff m room =
      let state = record (m.state) { current_research_session_id = some sid } in
      let told =
        event (session_started sid)
          (event (session_created sid question) (persist none (set_state state m))) in
      let (reply, world) = env.run_session sid question handoff told.world in
      let still : HasRoom steps (set_world world told) = record {
        live = room.live;
        sessions = room.sessions;
        failures = room.failures;
        rounds = room.rounds;
        steps = room.steps;
      } in
      after_session-IsAfter steps sid question reply (set_world world told) still (omega arith)

  create-IsAfter :
      (steps : ℕ) (sid question : String) (handoff : env.Handoff) (m : Machine env)
      → HasRoom steps m
      → Meets env (After steps) (IsClosed env) (create sid question handoff m)
  unfolding create set_world
  create-IsAfter steps sid question handoff m room =
      let (created, world) = env.create_session sid question handoff m.world in
      let made : HasRoom steps (set_world world m) = record {
        live = room.live;
        sessions = room.sessions;
        failures = room.failures;
        rounds = room.rounds;
        steps = room.steps;
      } in
      elim (Bool-cases created) [
        | inl there ↦
            rw (there, Meets)
              (carry_out-IsAfter steps sid question handoff (set_world world m) made)
        | inr refused ↦ rw (refused, Meets) tt
      ]

  pub project-Kept :
      (m0 : Machine env) (snap : env.Snapshot) (question : String) (m : Machine env)
      → IsSame env m0 m
      → Meets env (Kept env m0 {A = env.Handoff}) (IsClosed env) (project snap question m)
  unfolding project
  project-Kept m0 snap question m same =
      let (handoff, world) = env.project_handoff snap question m.world in
      elim (Option-cases handoff) [
        | inl raises ↦ rw (raises, Meets) tt
        | inr (h, made) ↦ rw (made, Meets) (set_world-IsSame env m0 m world same)
      ]

  IsSame-HasRoom :
      (steps : ℕ) (m0 m : Machine env) → IsSame env m0 m → HasRoom steps m0 → HasRoom steps m
  IsSame-HasRoom steps m0 m same room = record {
    live = rw same.state room.live;
    sessions = rw same.outcomes room.sessions;
    failures = rw same.state room.failures;
    rounds = rw same.state room.rounds;
    steps = rw same.state room.steps;
  }

  pub start_session-IsAfter :
      (steps : ℕ) (snap : env.Snapshot) (question sid : String) (m : Machine env)
      → IsAfter steps m
      → length m.state.failed_session_ids ≤ env.config.max_failed_sessions
      → Meets env (After steps) (IsClosed env) (start_session snap question sid m)
  unfolding start_session
  start_session-IsAfter steps snap question sid m after failures =
      elim (Bool-cases (leb env.config.max_sessions (length m.outcomes))) [
        | inl full ↦
            rw (full, Meets)
              (ready-result env (After steps) m (some max_sessions) (λ e. ground (arith, e))
                after.ready)
        | inr space ↦
            elim (Bool-cases (env.requires_execution_service && not env.has_execution_service)) [
              | inl missing ↦ rw (space, Meets) (rw (missing, Meets) tt)
              | inr served ↦
                  let room : HasRoom steps m = record {
                    live = after.ready.live;
                    sessions = ground (arith, space);
                    failures = failures;
                    rounds = after.ready.rounds;
                    steps = after.steps;
                  } in
                  let unchanged : IsSame env m m = record {
                    state = refl;
                    outcomes = refl;
                    plan = refl;
                  } in
                  rw (space, Meets)
                    (rw (served, Meets)
                      (Meets-bind env (Kept env m {A = env.Handoff}) (After steps) (IsClosed env) _
                        _ (project-Kept m snap question m unchanged)
                        (λ h m' same.
                          create-IsAfter steps sid question h m'
                            (IsSame-HasRoom steps m m' same room))))
            ]
      ]
