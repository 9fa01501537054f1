-- ===== src/RunRuntime/Planning.antt =====
-- The planned branch of the loop of `RunResearchRuntime._execute`
-- (src/transit_scholar/layer3/runtime/run_runtime.py): what a decision does to the plan, and the item that it
-- starts.
use transit_scholar.Base.{
  ◌+◌, String, Bool, true, false, ◌&&◌, Option, none, some, List, [], ◌∷◌, ◌++◌, length, leb, ltb,
  ◌==◌, all, is_some, if◌then◌else◌,
}
use transit_scholar.Base.Text.{nonempty}
use transit_scholar.RunRuntime.Plan.{
  ItemStatus, ResearchPlanItem, ResearchPlan, RunDecision, DecisionMode, direct_session,
  planned_research, complete, is_pending, is_known, plan_sequencing_error, change_first,
  apply_updates, apply_abandons, next_pending,
}
use transit_scholar.RunRuntime.Plan
use transit_scholar.RunRuntime.State.{
  max_planning_rounds, run_plan_updated, promoted_to_planned, run_plan_created, run_replan,
  Environment, Machine, Flow, next, raised, ◌>>=◌, event, event_if, set_world, set_state,
}
use transit_scholar.RunRuntime.Turn.{or_else, answer_of, result}

-- the updates are to items of an existing plan
abbrev pub fits_plan : RunDecision → Option ResearchPlan → Bool
fits_plan decision none = elim decision.plan_item_updates [ [] ↦ true | update ∷ updates ↦ false ]
fits_plan decision (some plan) =
    all (λ update. is_known plan.items update.item_id) decision.plan_item_updates

unfoldable pub changed_items : RunDecision → List ResearchPlanItem → List ResearchPlanItem
unfolding apply_updates apply_abandons
changed_items decision items =
    apply_abandons decision.abandon_item_ids (apply_updates decision.plan_item_updates items)

module _ {env : Environment} where
  -- the plan is made, where there is none
  unfoldable pub require_plan : Machine env → ResearchPlan × Machine env
  unfolding set_world event event_if
  require_plan m = elim m.plan [
    | some plan ↦ (plan, m)
    | none ↦
        let (id, world) = env.new_id m.world in
        let plan : ResearchPlan = record {
          plan_id = id;
          items = [];
          planning_round = m.state.planning_round;
        } in
        let made =
          set_state (record (m.state) { research_plan_id = some id }) (set_world world m) in
        let known = event (run_plan_created id) (record made { plan = some plan }) in
        (plan, event_if (leb 1 (length m.outcomes)) promoted_to_planned known)
  ]

  -- an item for each question: an empty question is refused
  unfoldable pub add_questions :
      List String → List ResearchPlanItem → Machine env → Flow env (List ResearchPlanItem)
  unfolding set_world
  add_questions [] items m = next items m
  add_questions (question ∷ questions) items m =
      let (id, world) = env.new_id m.world in
      let item : ResearchPlanItem = record {
        item_id = id;
        research_question = question;
        order = length items;
        status = Plan.pending;
        research_session_id = none;
      } in
      let made = set_world world m in
      if nonempty question
      then add_questions questions (items ++ item ∷ []) made
      else raised "ValidationError" made

  -- the question and the session of the pending item that is next, which is now running
  unfoldable pub start_item :
      ResearchPlan → ResearchPlanItem → Machine env → Flow env (Option (String × String))
  unfolding set_world change_first
  start_item plan item m =
      let (new, world) = env.new_id m.world in
      let given = or_else item.research_session_id none in
      let sid = answer_of (or_else given (some new)) in
      let chosen = λ (i : ResearchPlanItem). is_pending i.status && i.order == item.order in
      let started =
        change_first chosen
          (λ i. record i { status = Plan.running; research_session_id = some sid }) plan.items in
      let state = record (m.state) { current_plan_item_id = some item.item_id } in
      let after = set_world (if is_some given then m.world else world) m in
      next (some (item.research_question, sid))
        (set_state state (record after { plan = some (record plan { items = started }) }))

  -- the plan with its changed items, and the item that comes next
  unfoldable pub follow_items :
      RunDecision
      → ResearchPlan
      → List ResearchPlanItem
      → Machine env
      → Flow env (Option (String × String))
  unfolding changed_items event next_pending start_item
  follow_items decision plan asked m =
      let items = changed_items decision asked in
      let changed : ResearchPlan = record plan { items = items } in
      let held = record m { plan = some changed } in
      let told = event (run_replan m.state.planning_round) (event run_plan_updated held) in
      elim (next_pending items) [ none ↦ next none told | some item ↦ start_item changed item told ]

  unfoldable pub change_plan :
      RunDecision → ResearchPlan → Machine env → Flow env (Option (String × String))
  unfolding add_questions follow_items
  change_plan decision plan m =
      add_questions decision.proposed_questions plan.items m >>= follow_items decision plan

  -- the branch of a planned decision: `none` is `continue`
  unfoldable pub planned : RunDecision → Machine env → Flow env (Option (String × String))
  unfolding result plan_sequencing_error require_plan change_plan
  planned decision m =
      let round = m.state.planning_round + 1 in
      let counted = set_state (record (m.state) { planning_round = round }) m in
      let (plan, ready) = require_plan counted in
      let fits = fits_plan decision m.plan in
      if ltb env.config.max_planning_rounds round
      then result (some max_planning_rounds) none counted
      else if fits
      then change_plan decision plan ready
      else raised "ValueError" counted
