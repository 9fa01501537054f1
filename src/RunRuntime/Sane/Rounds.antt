-- ===== src/RunRuntime/Sane/Rounds.antt =====
-- A round of `RunResearchRuntime._execute` (src/transit_scholar/layer3/runtime/run_runtime.py) spends a step
-- and leaves a machine that is ready for another, or returns or raises; so the loop ends.
use transit_scholar.Base.{
  ℕ, zero, suc, ◌+◌, ◌≤◌, String, ◌≡◌, refl, Option, none, some, ◌⊎◌, inl, inr, length, arith,
}
use transit_scholar.RunRuntime.Plan.{
  RunDecision, DecisionMode, direct_session, planned_research, complete, plan_sequencing_error,
}
use transit_scholar.RunRuntime.State.{
  running, run_coordination, run_started, Environment, Machine, Flow, next, stop, raised, event,
  set_world, persist, set_state,
}
use transit_scholar.RunRuntime.Turn.{decision_repair_limit}
use transit_scholar.RunRuntime.Session.{start_session}
use transit_scholar.RunRuntime.Run.{
  Outcome, after_turn, returned, failed_with, no_fuel, after_planned, direct, follow, count_step,
  decide_and_follow, turn, run_loop, fuel_of, begin, first_question,
}
use transit_scholar.RunRuntime.Sane.{IsReady, IsClosed, IsSame, Meets, Meets-bind}
use transit_scholar.RunRuntime.Sane.Deciding.{
  Kept, Fitting, IsWithin, IsSame-IsReady, set_world-IsSame, event-IsSame, poll_pause-IsSame,
  check_limits-IsWithin, snapshot-IsSame, coordinate-Fitting,
}
use transit_scholar.RunRuntime.Sane.Planning.{
  Keeps, KeepsAll, Keeps-IsReady, IsSame-Keeps, planned-Keeps, complete-is_terminal,
  synthesize-IsClosed,
}
use transit_scholar.RunRuntime.Sane.Sessions.{IsAfter, After, start_session-IsAfter}

DecisionMode-cases :
    (mode : DecisionMode)
    → (mode ≡ complete) ⊎ ((mode ≡ planned_research) ⊎ (mode ≡ direct_session))
DecisionMode-cases complete = inl refl
DecisionMode-cases planned_research = inr (inl refl)
DecisionMode-cases direct_session = inr (inr refl)

-- what holds of the way in which a call ends
abbrev pub Ends : (env : Environment) → Outcome env → Type 0
Ends env (returned result m) = IsClosed env result m
Ends env (failed_with message m) = Unit
Ends env no_fuel = ⊥

module _ (env : Environment) where
  -- what a round leaves of a machine that goes on
  module _ (base : Machine env) (ready : IsReady env base)
      (failures : length base.state.failed_session_ids ≤ env.config.max_failed_sessions)
      (rounds : base.state.planning_round ≤ env.config.max_planning_rounds) where
    abbrev Round : Unit {0} → Machine env → Type 0
    Round = After env base.state.run_steps

    Keeps-Round : (m : Machine env) → Keeps env base m → Round tt m
    Keeps-Round m kept = record {
      ready = Keeps-IsReady env base m kept ready rounds;
      steps = kept.steps;
    }

    session-Round :
        (snap : env.Snapshot) (question sid : String) (m : Machine env)
        → Keeps env base m
        → Meets env Round (IsClosed env) (start_session snap question sid m)
    session-Round snap question sid m kept =
        start_session-IsAfter env base.state.run_steps snap question sid m (Keeps-Round m kept)
          (rw kept.failed failures)

    after_planned-Round :
        (snap : env.Snapshot) (chosen : Option (String × String)) (m : Machine env)
        → Keeps env base m
        → Meets env Round (IsClosed env) (after_planned snap chosen m)
    unfolding after_planned
    after_planned-Round snap none m kept = Keeps-Round m kept
    after_planned-Round snap (some (question, sid)) m kept = session-Round snap question sid m kept

    follow-Round :
        (decision : RunDecision) (snap : env.Snapshot) (m : Machine env)
        → IsSame env base m
        → plan_sequencing_error decision base.plan ≡ none
        → Meets env Round (IsClosed env) (follow decision snap m)
    unfolding follow direct
    follow-Round decision snap m same fits =
        let kept = IsSame-Keeps env base m same in
        let still = IsSame-IsReady env base m same ready in
        elim (DecisionMode-cases decision.mode) [
          | inl completes ↦
              let terminal = complete-is_terminal env base decision base.plan completes fits in
              rw (completes, Meets)
                (synthesize-IsClosed env base Round decision snap m still (rw same.plan terminal))
          | inr (inl plans) ↦
              rw (plans, Meets)
                (Meets-bind env (KeepsAll env base {A = Option (String × String)}) Round
                  (IsClosed env) _ _ (planned-Keeps env base decision m same ready rounds)
                  (after_planned-Round snap))
          | inr (inr directs) ↦
              let (sid, world) = env.new_id m.world in
              let question = first_question decision.proposed_questions (env.user_goal snap) in
              rw (directs, Meets)
                (session-Round snap question sid (set_world world m) (
                  IsSame-Keeps env base (set_world world m)
                    (set_world-IsSame env base m world same)))
        ]

    decide_and_follow-Round :
        (m : Machine env) → IsSame env base m → Meets env Round (IsClosed env) (decide_and_follow m)
    unfolding decide_and_follow
    decide_and_follow-Round m same =
        Meets-bind env (Kept env base {A = env.Snapshot}) Round (IsClosed env) _ _
          (snapshot-IsSame env base m same)
          (λ snap built kept.
            Meets-bind env (Fitting env base) Round (IsClosed env) _ _
              (coordinate-Fitting env base decision_repair_limit snap built kept)
              (λ decision decided good.
                follow-Round decision snap (event (run_coordination decision.mode) decided)
                  (event-IsSame env base decided (run_coordination decision.mode) good.0) good.1))

  -- One more step is counted, and there was room for it.
  abbrev pub Next : Machine env → Unit {0} → Machine env → Type 0
  Next m u m' =
      IsAfter env (m.state.run_steps + 1) m' × (m.state.run_steps + 1 ≤ env.config.max_run_steps)

  count_step-IsReady : (m : Machine env) → IsReady env m → IsReady env (count_step m)
  unfolding count_step
  count_step-IsReady m ready = record {
    idle = ready.idle;
    live = ready.live;
    sessions = ready.sessions;
    failures = ready.failures;
    rounds = ready.rounds;
  }

  weaken :
      {A : Type 0} (N N' : A → Machine env → Type 0) (flow : Flow env A)
      → Meets env N (IsClosed env) flow
      → ((a : A) (m : Machine env) → N a m → N' a m)
      → Meets env N' (IsClosed env) flow
  weaken N N' (next a m) meets more = more a m meets
  weaken N N' (stop result m) meets more = meets
  weaken N N' (raised message m) meets more = tt

  turn-Next : (m : Machine env) → IsReady env m → Meets env (Next m) (IsClosed env) (turn m)
  unfolding turn count_step
  turn-Next m ready =
      let base = count_step m in
      let based = count_step-IsReady m ready in
      let unchanged : IsSame env base base = record {
        state = refl;
        outcomes = refl;
        plan = refl;
      } in
      Meets-bind env (Kept env base {A = Unit {0}}) (Next m) (IsClosed env) _ _
        (poll_pause-IsSame env base base unchanged based)
        (λ u polled kept.
          Meets-bind env (λ (v : Unit {0}) m'. IsWithin env base m') (Next m) (IsClosed env) _ _
            (check_limits-IsWithin env base polled kept based)
            (λ v within limits.
              weaken (After env base.state.run_steps) (Next m) _
                (decide_and_follow-Round base based limits.failures limits.rounds within
                  limits.same)
                (λ w m' after. (after, limits.steps))))

  -- what follows a round ends well, if the rounds after it do
  after_turn-Ends :
      (later_rounds : Machine env → Outcome env) (m : Machine env) (flow : Flow env (Unit {0}))
      → Meets env (Next m) (IsClosed env) flow
      → ((m' : Machine env) → Next m tt m' → Ends env (later_rounds m'))
      → Ends env (after_turn later_rounds flow)
  unfolding after_turn
  after_turn-Ends later_rounds m (next _ m') met later = later m' met
  after_turn-Ends later_rounds m (stop given m') closed later = closed
  after_turn-Ends later_rounds m (raised message m') unit later = tt

  run_loop-Ends :
      (fuel : ℕ) (m : Machine env)
      → IsReady env m
      → env.config.max_run_steps + 1 ≤ m.state.run_steps + fuel
      → 1 ≤ fuel
      → Ends env (run_loop fuel m)
  unfolding run_loop
  run_loop-Ends zero m ready enough some_left = ground (arith, some_left)
  run_loop-Ends (suc fuel) m ready enough some_left =
      after_turn-Ends (run_loop fuel) m (turn m) (turn-Next m ready) (λ m' met.
        run_loop-Ends fuel m' (met.0).ready (omega (arith, enough, (met.0).steps))
          (omega (arith, enough, met.1)))

  pub begin-Ends :
      (m : Machine env)
      → m.state.current_research_session_id ≡ none
      → length m.outcomes ≤ env.config.max_sessions
      → length m.state.failed_session_ids ≤ env.config.max_failed_sessions + 1
      → m.state.planning_round ≤ env.config.max_planning_rounds + 1
      → Ends env (begin m)
  unfolding begin fuel_of persist event
  begin-Ends m idle sessions failures rounds =
      run_loop-Ends (fuel_of m)
        (event run_started (persist none (set_state (record (m.state) { status = running }) m)))
        (record {
          idle = idle;
          live = refl;
          sessions = sessions;
          failures = failures;
          rounds = rounds;
        })
        (omega arith) (omega arith)
