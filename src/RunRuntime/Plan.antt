-- ===== src/RunRuntime/Plan.antt =====
-- Research plans and decisions (src/transit_scholar/layer3/planning/models.py), the test that a decision
-- fits the plan, and what it does to the plan (layer3/runtime/run_runtime.py). The free
-- `metadata` of an item is left out.
pub mod Laws
use transit_scholar.Base.{
  ℕ, ◌+◌, String, Bool, true, false, not, ◌&&◌, ◌||◌, Option, none, some, List, [], ◌∷◌, ◌++◌, map,
  any, all, length, str_eq, leb, ltb, is_some, if◌then◌else◌,
}
use transit_scholar.Base.Text.{nonempty}

pub data ItemStatus : Type 0 where
  pending running completed abandoned failed : ItemStatus

abbrev pub is_pending : ItemStatus → Bool
is_pending pending = true
is_pending _ = false

-- `item.status in {"pending", "running"}`
abbrev pub is_unfinished : ItemStatus → Bool
is_unfinished pending = true
is_unfinished running = true
is_unfinished _ = false

pub record ResearchPlanItem : Type 0 where
  pub item_id : String
  pub research_question : String
  pub order : ℕ
  pub status : ItemStatus
  pub research_session_id : Option String

pub record ResearchPlan : Type 0 where
  pub plan_id : String
  pub items : List ResearchPlanItem
  pub planning_round : ℕ

-- A `ResearchPlanItem` as an update: `none` is a field that the decision does not set.
pub record ItemUpdate : Type 0 where
  pub item_id : String
  pub research_question : String
  pub order : ℕ
  pub status : Option ItemStatus
  pub research_session_id : Option (Option String)

pub data DecisionMode : Type 0 where
  direct_session planned_research complete : DecisionMode

pub record RunDecision : Type 0 where
  pub mode : DecisionMode
  pub proposed_questions : List String
  pub plan_item_updates : List ItemUpdate
  pub abandon_item_ids : List String
  pub completion_reason : Option String

-- `item_id in {item.item_id for item in plan.items}`
abbrev pub is_known : List ResearchPlanItem → String → Bool
is_known items id = any (λ item. str_eq item.item_id id) items

pub data SequencingError : Type 0 where
  plan_mutations not_one_question bypasses_pending not_terminal : SequencingError
  updates_without_plan abandons_without_plan unknown_updates unknown_abandons : SequencingError

abbrev pub is_empty : {A : Type 0} → List A → Bool
is_empty [] = true
is_empty (x ∷ xs) = false

abbrev pub is_one : {A : Type 0} → List A → Bool
is_one (x ∷ []) = true
is_one _ = false

abbrev pub items_of : Option ResearchPlan → List ResearchPlanItem
items_of none = []
items_of (some plan) = plan.items

unfoldable pub direct_error : RunDecision → Option ResearchPlan → Option SequencingError
direct_error decision plan =
    if not (is_one decision.proposed_questions)
    then some not_one_question
    else if any (λ item. is_pending item.status) (items_of plan)
    then some bypasses_pending
    else none

unfoldable pub complete_error : Option ResearchPlan → Option SequencingError
complete_error plan =
    if any (λ item. is_unfinished item.status) (items_of plan) then some not_terminal else none

unfoldable pub planned_error : RunDecision → Option ResearchPlan → Option SequencingError
planned_error decision none =
    if not (is_empty decision.plan_item_updates)
    then some updates_without_plan
    else if not (is_empty decision.abandon_item_ids)
    then some abandons_without_plan
    else none
planned_error decision (some plan) =
    if not (all (λ update. is_known plan.items update.item_id) decision.plan_item_updates)
    then some unknown_updates
    else if not (all (is_known plan.items) decision.abandon_item_ids)
    then some unknown_abandons
    else none

unfoldable pub plan_sequencing_error : RunDecision → Option ResearchPlan → Option SequencingError
unfolding direct_error complete_error planned_error
plan_sequencing_error decision plan =
    let mutates =
      not (is_empty decision.plan_item_updates) || not (is_empty decision.abandon_item_ids) in
    elim decision.mode [
      | planned_research ↦ planned_error decision plan
      | direct_session ↦ if mutates then some plan_mutations else direct_error decision plan
      | complete ↦ if mutates then some plan_mutations else complete_error plan
    ]

-- ----- what a planned decision does to the items

-- the first item with a property
unfoldable pub first_item :
    (ResearchPlanItem → Bool) → List ResearchPlanItem → Option ResearchPlanItem
first_item test [] = none
first_item test (item ∷ items) =
    let rest = first_item test items in if test item then some item else rest

-- a change of the first item with a property
unfoldable pub change_first :
    (ResearchPlanItem → Bool)
    → (ResearchPlanItem → ResearchPlanItem)
    → List ResearchPlanItem
    → List ResearchPlanItem
change_first test change [] = []
change_first test change (item ∷ items) =
    let rest = change_first test change items in
    if test item then change item ∷ items else item ∷ rest

abbrev pub has_id : String → ResearchPlanItem → Bool
has_id id item = str_eq item.item_id id

abbrev pub or_kept : {A : Type 0} → Option A → A → A
or_kept none kept = kept
or_kept (some given) kept = given

-- `existing.model_copy(update=update.model_dump(exclude_unset=True))`
unfoldable pub updated_item : ItemUpdate → ResearchPlanItem → ResearchPlanItem
updated_item update item = record item {
  research_question = update.research_question;
  order = update.order;
  status = or_kept update.status item.status;
  research_session_id = or_kept update.research_session_id item.research_session_id;
}

unfoldable pub apply_updates : List ItemUpdate → List ResearchPlanItem → List ResearchPlanItem
unfolding change_first updated_item
apply_updates [] items = items
apply_updates (update ∷ updates) items =
    apply_updates updates (change_first (has_id update.item_id) (updated_item update) items)

unfoldable pub abandon_item : ResearchPlanItem → ResearchPlanItem
abandon_item item = if is_unfinished item.status then record item { status = abandoned } else item

unfoldable pub apply_abandons : List String → List ResearchPlanItem → List ResearchPlanItem
unfolding change_first abandon_item
apply_abandons [] items = items
apply_abandons (id ∷ ids) items = apply_abandons ids (change_first (has_id id) abandon_item items)

-- `sorted(plan.items, key=lambda i: i.order)`, which keeps items of one order as they come
unfoldable pub insert_item : ResearchPlanItem → List ResearchPlanItem → List ResearchPlanItem
insert_item item [] = item ∷ []
insert_item item (other ∷ items) =
    let rest = insert_item item items in
    if leb item.order other.order then item ∷ other ∷ items else other ∷ rest

unfoldable pub sorted_items : List ResearchPlanItem → List ResearchPlanItem
unfolding insert_item
sorted_items [] = []
sorted_items (item ∷ items) = insert_item item (sorted_items items)

-- the first pending item of the sorted ones
unfoldable pub next_pending : List ResearchPlanItem → Option ResearchPlanItem
unfolding sorted_items first_item
next_pending items = first_item (λ item. is_pending item.status) (sorted_items items)
