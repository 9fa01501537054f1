-- ===== src/RunRuntime/Sane/Recovery.antt =====
-- `RunResearchRuntime._recover_current` (src/transit_scholar/layer3/runtime/run_runtime.py) against the limits on
-- sessions.
use transit_scholar.Base.{
  ◌+◌, ◌≤◌, String, ◌≡◌, refl, Option, none, some, inl, inr, List, [], ◌∷◌, length, length-append,
  any, str_eq, arith, Bool-cases, Option-cases,
}
use transit_scholar.RunRuntime.State.{
  is_completed, SessionOutcome, SessionReply, session_paused, outcome, session_error, Environment,
  Machine, set_world, persist,
}
use transit_scholar.RunRuntime.Session.{
  recover_current, forget_current, resumed_question, resume, after_resumed, record_resumed,
  planned_question, after_reply, asked_question, add_new, failed_outcome,
}
use transit_scholar.RunRuntime.Sane.{in_progress, IsClosed, IsSame, Meets, Meets-bind}
use transit_scholar.RunRuntime.Sane.Deciding.{Kept, set_world-IsSame, snapshot-IsSame}
use transit_scholar.RunRuntime.Sane.Sessions.{project-Kept}

module _ (env : Environment) where
  -- within the limits, a session in progress counted
  pub record IsBounded (m : Machine env) : Type 0 where
    pub sessions : length m.outcomes + in_progress m.state ≤ env.config.max_sessions
    pub failures :
        length m.state.failed_session_ids + in_progress m.state ≤ env.config.max_failed_sessions + 1
    pub rounds : m.state.planning_round ≤ env.config.max_planning_rounds + 1

  abbrev pub Bounded : Unit {0} → Machine env → Type 0
  Bounded u m = IsBounded m

  length-add_new : (sid : String) (ids : List String) → length (add_new sid ids) ≤ length ids + 1
  length-add_new sid ids = elim (Bool-cases (any (λ id. str_eq id sid) ids)) [
    | inl there ↦ rw there (omega arith)
    | inr fresh ↦ rw fresh (omega (arith, length-append ids (sid ∷ [])))
  ]

  module _ (sid : String) (base : Machine env)
      (current : base.state.current_research_session_id ≡ some sid) (bounded : IsBounded base) where
    record_resumed-IsBounded :
        (done : SessionOutcome env.Report) (m : Machine env)
        → IsSame env base m
        → IsBounded (record_resumed sid done m)
    unfolding record_resumed persist
    record_resumed-IsBounded done m same =
        let ids = m.state.failed_session_ids in
        let was : length ids + 1 ≤ env.config.max_failed_sessions + 1 =
          rw same.state (ground (arith, bounded.failures, current)) in
        let room : length m.outcomes + 1 ≤ env.config.max_sessions =
          rw same.outcomes (ground (arith, bounded.sessions, current)) in
        record {
          sessions = omega (arith, room, length-append m.outcomes (done ∷ []));
          failures = elim (Bool-cases (is_completed done.status)) [
            | inl good ↦ rw good (omega (arith, was))
            | inr bad ↦ rw bad (omega (arith, was, length-add_new sid ids))
          ];
          rounds = rw same.state bounded.rounds;
        }

    IsSame-IsBounded : (m : Machine env) → IsSame env base m → IsBounded m
    IsSame-IsBounded m same = record {
      sessions = rw (same.state, same.outcomes) bounded.sessions;
      failures = rw same.state bounded.failures;
      rounds = rw same.state bounded.rounds;
    }

    after_resumed-IsBounded :
        (question : String) (reply : SessionReply env.Report) (m : Machine env)
        → IsSame env base m
        → IsBounded (after_resumed sid question reply m)
    unfolding after_resumed
    after_resumed-IsBounded question session_paused m same = IsSame-IsBounded m same
    after_resumed-IsBounded question (outcome done) m same = record_resumed-IsBounded done m same
    after_resumed-IsBounded question (session_error message) m same =
        record_resumed-IsBounded (failed_outcome sid question message) m same

    -- the session runtime's reply
    resumed-Bounded :
        (question : String) (handoff : env.Handoff) (m : Machine env)
        → IsSame env base m
        → IsBounded (after_reply sid question handoff m)
    unfolding after_reply
    resumed-Bounded question handoff m same =
        let (reply, world) = env.resume_session sid question handoff m.world in
        after_resumed-IsBounded question reply (set_world world m)
          (set_world-IsSame env base m world same)

    asked_question-Kept :
        (question : Option (Option String)) (m : Machine env)
        → IsSame env base m
        → Meets env (Kept env base {A = String}) (IsClosed env) (asked_question question m)
    unfolding asked_question
    asked_question-Kept none m same = tt
    asked_question-Kept (some question) m same = same

    resumed_question-Kept :
        (m : Machine env)
        → IsSame env base m
        → Meets env (Kept env base {A = String}) (IsClosed env) (resumed_question sid m)
    unfolding resumed_question
    resumed_question-Kept m same = elim (Option-cases (planned_question sid m.plan)) [
      | inr (question, planned) ↦ rw (planned, Meets) same
      | inl unplanned ↦ elim (Bool-cases env.has_execution_service) [
        | inr absent ↦ rw (unplanned, Meets) (rw (absent, Meets) same)
        | inl served ↦
            let (question, world) = env.session_question sid m.world in
            rw (unplanned, Meets)
              (rw (served, Meets)
                (asked_question-Kept question (set_world world m)
                  (set_world-IsSame env base m world same)))
      ]
    ]

    resume-Bounded :
        (question : String) (m : Machine env)
        → IsSame env base m
        → Meets env Bounded (IsClosed env) (resume sid question m)
    unfolding resume
    resume-Bounded question m same =
        Meets-bind env (Kept env base {A = env.Snapshot}) Bounded (IsClosed env) _ _
          (snapshot-IsSame env base m same)
          (λ snap built kept.
            Meets-bind env (Kept env base {A = env.Handoff}) Bounded (IsClosed env) _ _
              (project-Kept env base snap question built kept)
              (λ handoff ready made. resumed-Bounded question handoff ready made))

    pub recover_current-Bounded : Meets env Bounded (IsClosed env) (recover_current sid base)
    unfolding recover_current forget_current persist
    recover_current-Bounded =
        let unchanged : IsSame env base base = record {
          state = refl;
          outcomes = refl;
          plan = refl;
        } in
        elim (Bool-cases (
          any (λ (o : SessionOutcome env.Report). str_eq o.research_session_id sid)
            base.outcomes)) [
              | inl there ↦
                  rw (there, Meets)
                    (record {
                      sessions = ground (arith, bounded.sessions);
                      failures = ground (arith, bounded.failures);
                      rounds = bounded.rounds;
                    })
              | inr missing ↦
                  rw (missing, Meets)
                    (Meets-bind env (Kept env base {A = String}) Bounded (IsClosed env) _ _
                      (resumed_question-Kept base unchanged)
                      (λ question m same. resume-Bounded question m same))
            ]
