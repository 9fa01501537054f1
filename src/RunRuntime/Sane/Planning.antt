-- ===== src/RunRuntime/Sane/Planning.antt =====
-- A planned decision (src/transit_scholar/layer3/runtime/run_runtime.py) changes the plan and the round, and
-- completion ends the run.
use transit_scholar.Base.{
  ◌+◌, ◌≤◌, String, ◌≡◌, refl, ap, true, Option, none, some, List, [], ◌∷◌, arith, inl, inr,
  Bool-cases, Option-cases, ltb,
}
use transit_scholar.Base.Text.{nonempty}
use transit_scholar.RunRuntime.Plan.{
  ResearchPlan, ResearchPlanItem, RunDecision, complete, plan_sequencing_error, next_pending,
  complete_error,
}
use transit_scholar.RunRuntime.State.{
  semantic_completion, max_planning_rounds, RunFinalResponseArtifact, run_replan, run_plan_updated,
  synthesis_started, RunOrchestrationState, Environment, Machine, event, set_world, set_state,
  event_if,
}
use transit_scholar.RunRuntime.Turn.{complete_with, default_artifact, synthesize}
use transit_scholar.RunRuntime.Planning.{
  require_plan, add_questions, start_item, follow_items, changed_items, change_plan, planned,
  fits_plan,
}
use transit_scholar.RunRuntime.Sane.{is_terminal, IsReady, IsClosed, IsSame, Meets, Meets-bind}
use transit_scholar.RunRuntime.Sane.Closing.{result-IsClosed, ready-result}

module _ (env : Environment) (m0 : Machine env) where
  -- what a planned decision leaves alone
  pub record Keeps (m : Machine env) : Type 0 where
    pub outcomes : m.outcomes ≡ m0.outcomes
    pub failed : m.state.failed_session_ids ≡ m0.state.failed_session_ids
    pub current : m.state.current_research_session_id ≡ m0.state.current_research_session_id
    pub steps : m.state.run_steps ≡ m0.state.run_steps
    pub status : m.state.status ≡ m0.state.status
    pub rounds : m.state.planning_round ≤ m0.state.planning_round + 1

  pub IsSame-Keeps : (m : Machine env) → IsSame env m0 m → Keeps m
  IsSame-Keeps m same = record {
    outcomes = same.outcomes;
    failed = ap (λ (s : RunOrchestrationState). s.failed_session_ids) same.state;
    current = ap (λ (s : RunOrchestrationState). s.current_research_session_id) same.state;
    steps = ap (λ (s : RunOrchestrationState). s.run_steps) same.state;
    status = ap (λ (s : RunOrchestrationState). s.status) same.state;
    rounds = rw same.state (omega arith);
  }

  pub Keeps-IsReady :
      (m : Machine env)
      → Keeps m
      → IsReady env m0
      → m0.state.planning_round ≤ env.config.max_planning_rounds
      → IsReady env m
  Keeps-IsReady m kept ready within = record {
    idle = rw kept.current ready.idle;
    live = rw kept.status ready.live;
    sessions = rw kept.outcomes ready.sessions;
    failures = rw kept.failed ready.failures;
    rounds = omega (arith, kept.rounds, within);
  }

  require_plan-Keeps : (m : Machine env) → Keeps m → Keeps (require_plan m).1
  unfolding require_plan set_world event event_if
  require_plan-Keeps m kept = elim (Option-cases m.plan) [
    | inr (plan, there) ↦ rw (there, require_plan) kept
    | inl missing ↦
        rw (missing, require_plan)
          (record {
            outcomes = kept.outcomes;
            failed = kept.failed;
            current = kept.current;
            steps = kept.steps;
            status = kept.status;
            rounds = kept.rounds;
          })
  ]

  set_world-Keeps : (m : Machine env) (world : env.World) → Keeps m → Keeps (set_world world m)
  unfolding set_world
  set_world-Keeps m world kept = record {
    outcomes = kept.outcomes;
    failed = kept.failed;
    current = kept.current;
    steps = kept.steps;
    status = kept.status;
    rounds = kept.rounds;
  }

  -- a machine that goes on from a step with a plan
  abbrev pub KeepsAll : {A : Type 0} → A → Machine env → Type 0
  KeepsAll a m = Keeps m

  add_questions-Keeps :
      (questions : List String) (items : List ResearchPlanItem) (m : Machine env)
      → Keeps m
      → Meets env
          (KeepsAll {A = List ResearchPlanItem})
          (IsClosed env)
          (add_questions questions items m)
  unfolding add_questions
  add_questions-Keeps [] items m kept = kept
  add_questions-Keeps (question ∷ questions) items m kept = elim (Bool-cases (nonempty question)) [
    | inl text ↦
        rw (text, Meets)
          (add_questions-Keeps questions _ _ (set_world-Keeps m (env.new_id m.world).1 kept))
    | inr empty ↦ rw (empty, Meets) tt
  ]

  start_item-Keeps :
      (plan : ResearchPlan) (item : ResearchPlanItem) (m : Machine env)
      → Keeps m
      → Meets env (KeepsAll {A = Option (String × String)}) (IsClosed env) (start_item plan item m)
  unfolding start_item set_world
  start_item-Keeps plan item m kept = record {
    outcomes = kept.outcomes;
    failed = kept.failed;
    current = kept.current;
    steps = kept.steps;
    status = kept.status;
    rounds = kept.rounds;
  }

  -- the plan with its changed items, and the item that comes next
  changed-Keeps :
      (decision : RunDecision) (plan : ResearchPlan) (asked : List ResearchPlanItem)
      (m : Machine env)
      → Keeps m
      → Meets env
          (KeepsAll {A = Option (String × String)})
          (IsClosed env)
          (follow_items decision plan asked m)
  unfolding follow_items event
  changed-Keeps decision plan asked m kept =
      let items = changed_items decision asked in
      let changed : ResearchPlan = record plan { items = items } in
      let told =
        event (run_replan m.state.planning_round)
          (event run_plan_updated (record m { plan = some changed })) in
      let still : Keeps told = record {
        outcomes = kept.outcomes;
        failed = kept.failed;
        current = kept.current;
        steps = kept.steps;
        status = kept.status;
        rounds = kept.rounds;
      } in
      elim (Option-cases (next_pending items)) [
        | inl nothing ↦ rw (nothing, Meets) still
        | inr (item, found) ↦ rw (found, Meets) (start_item-Keeps changed item told still)
      ]

  change_plan-Keeps :
      (decision : RunDecision) (plan : ResearchPlan) (m : Machine env)
      → Keeps m
      → Meets env
          (KeepsAll {A = Option (String × String)})
          (IsClosed env)
          (change_plan decision plan m)
  unfolding change_plan
  change_plan-Keeps decision plan m kept =
      Meets-bind env (KeepsAll {A = List ResearchPlanItem})
        (KeepsAll {A = Option (String × String)}) (IsClosed env) _ _
        (add_questions-Keeps decision.proposed_questions plan.items m kept)
        (λ asked m' kept'. changed-Keeps decision plan asked m' kept')

  pub planned-Keeps :
      (decision : RunDecision) (m : Machine env)
      → IsSame env m0 m
      → IsReady env m0
      → m0.state.planning_round ≤ env.config.max_planning_rounds
      → Meets env (KeepsAll {A = Option (String × String)}) (IsClosed env) (planned decision m)
  unfolding planned
  planned-Keeps decision m same ready within =
      let kept = IsSame-Keeps m same in
      let counted =
        set_state (record (m.state) { planning_round = m.state.planning_round + 1 }) m in
      let base : Keeps counted = record {
        outcomes = kept.outcomes;
        failed = kept.failed;
        current = kept.current;
        steps = kept.steps;
        status = kept.status;
        rounds = rw same.state (omega arith);
      } in
      let over = ltb env.config.max_planning_rounds (m.state.planning_round + 1) in
      elim (Bool-cases over) [
        | inl spent ↦
            rw (spent, Meets)
              (ready-result env (KeepsAll {A = Option (String × String)}) counted
                (some max_planning_rounds) (λ e. ground (arith, e))
                (Keeps-IsReady counted base ready within))
        | inr left ↦ elim (Bool-cases (fits_plan decision m.plan)) [
          | inl fits ↦
              rw (left, Meets)
                (rw (fits, Meets)
                  (change_plan-Keeps decision _ _ (require_plan-Keeps counted base)))
          | inr unfit ↦ rw (left, Meets) (rw (unfit, Meets) tt)
        ]
      ]

  -- a decision to complete fits a plan only if every item has come to its end
  pub complete-is_terminal :
      (decision : RunDecision) (plan : Option ResearchPlan)
      → decision.mode ≡ complete
      → plan_sequencing_error decision plan ≡ none
      → is_terminal plan ≡ true
  unfolding plan_sequencing_error complete_error
  complete-is_terminal decision plan completes fits = ground (arith, completes, fits)

  complete_with-IsClosed :
      (N : Unit {0} → Machine env → Type 0) (decision : RunDecision)
      (artifact : RunFinalResponseArtifact) (m : Machine env)
      → IsReady env m
      → is_terminal m.plan ≡ true
      → Meets env N (IsClosed env) (complete_with decision artifact m)
  unfolding complete_with
  complete_with-IsClosed N decision artifact m ready terminal =
      result-IsClosed env N m (some semantic_completion) (some _)
        (ground (arith, ready.sessions, ready.idle)) (ground (arith, ready.failures, ready.idle))
        ready.rounds (λ e. (terminal, refl))

  pub synthesize-IsClosed :
      (N : Unit {0} → Machine env → Type 0) (decision : RunDecision) (snap : env.Snapshot)
      (m : Machine env)
      → IsReady env m
      → is_terminal m.plan ≡ true
      → Meets env N (IsClosed env) (synthesize decision snap m)
  unfolding synthesize event set_world
  synthesize-IsClosed N decision snap m ready terminal =
      let began = event synthesis_started m in
      let begun : IsReady env began = record {
        idle = ready.idle;
        live = ready.live;
        sessions = ready.sessions;
        failures = ready.failures;
        rounds = ready.rounds;
      } in
      elim (Option-cases env.synthesis) [
        | inl standard ↦
            rw (standard, Meets)
              (complete_with-IsClosed N decision (default_artifact decision began) began begun
                terminal)
        | inr (write, given) ↦
            let (artifact, world) = write snap began.world in
            let wrote = set_world world began in
            let still : IsReady env wrote = record {
              idle = ready.idle;
              live = ready.live;
              sessions = ready.sessions;
              failures = ready.failures;
              rounds = ready.rounds;
            } in
            elim (Option-cases artifact) [
              | inl raises ↦ rw (given, Meets) (rw (raises, Meets) tt)
              | inr (a, written) ↦
                  rw (given, Meets)
                    (rw (written, Meets) (complete_with-IsClosed N decision a wrote still terminal))
            ]
      ]
