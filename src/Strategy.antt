-- ===== src/Strategy.antt =====
-- Retrieval strategies that a language model proposes: the contracts of
-- src/transit_scholar/layer3/retrieval/models.py with their validators, and the gate
-- layer3/planner/validation.py in front of execution. What pydantic itself checks (types, blank
-- texts) is taken as done. A set is a list.
pub mod Gate
pub mod Lookups
pub mod Safety
pub mod Plan
mod Examples
use transit_scholar.Base.{
  ℕ, String, Bool, true, false, not, ◌&&◌, List, [], ◌∷◌, all, map, if◌then◌else◌,
}
use transit_scholar.Base.Result.{Result, ok, err, ◌>>=◌, ◌>>◌, guard}
use transit_scholar.Records.{is_one_of}

-- A ValueError, with a constructor for its message, or the KeyError of a dictionary.
pub data StrategyError : Type 0 where
  paper_scope_empty workspace_scope_with_papers : StrategyError
  no_actions duplicate_action_ids unknown_dependency : StrategyError
  query_mismatch too_many_actions source_unavailable tool_unavailable : StrategyError
  action_limit_exceeded invalid_schema_field schema_unavailable : StrategyError
  schema_unavailable_for_papers paper_outside_workspace wiki_unready : StrategyError
  rag_unavailable rag_unavailable_for_papers discovery_required : StrategyError
  -- the reply of the language model is no JSON (JSONDecodeError), or of another type (TypeError)
  not_json wrong_type : StrategyError
  key_error : String → StrategyError

pub data Mode : Type 0 where
  lexical semantic : Mode

pub data Scope : Type 0 where
  workspace papers : Scope

-- The fields of SchemaRetrievalAction, WikiRetrievalAction and RagRetrievalAction beyond the
-- common ones.
pub data Route : Type 0 where
  schema : List String → List String → Route
  wiki : Mode → Bool → Route
  rag : Scope → List String → Route

pub record RetrievalAction : Type 0 where
  pub action_id : String
  pub source_query : String
  pub limit : ℕ
  pub depends_on : List String
  pub route : Route

pub record RetrievalStrategy : Type 0 where
  pub query_id : String
  pub actions : List RetrievalAction

abbrev pub is_empty : {A : Type 0} → List A → Bool
is_empty [] = true
is_empty (x ∷ xs) = false

-- `_validate_paper_scope`
unfoldable pub validate_paper_scope : RetrievalAction → Result StrategyError (Unit {0})
validate_paper_scope action = elim action.route [
  | schema fields paper_ids ↦ ok tt
  | wiki mode discover ↦ ok tt
  | rag scope paper_ids ↦ elim scope [
    | papers ↦ guard (not (is_empty paper_ids && is_empty action.depends_on)) paper_scope_empty
    | workspace ↦ guard (is_empty paper_ids) workspace_scope_with_papers
  ]
]

unfoldable pub validate_scopes : List RetrievalAction → Result StrategyError (Unit {0})
unfolding validate_paper_scope
validate_scopes [] = ok tt
validate_scopes (action ∷ actions) = do validate_paper_scope action; validate_scopes actions

-- `len(ids) == len(set(ids))`
unfoldable pub are_unique : List String → Bool
unfolding is_one_of
are_unique [] = true
are_unique (x ∷ xs) = not (is_one_of x xs) && are_unique xs

-- the loop of `_validate_ordering`
unfoldable pub validate_dependencies :
    List String → List RetrievalAction → Result StrategyError (Unit {0})
unfolding is_one_of
validate_dependencies known [] = ok tt
validate_dependencies known (action ∷ actions) = do
  guard (all (λ d. is_one_of d known) action.depends_on) unknown_dependency
  validate_dependencies (action.action_id ∷ known) actions

abbrev pub action_ids : List RetrievalAction → List String
action_ids actions = map (λ a. a.action_id) actions

-- A strategy as pydantic builds it: each action is validated, then the list, then the order.
unfoldable pub new_strategy : String → List RetrievalAction → Result StrategyError RetrievalStrategy
unfolding validate_scopes are_unique validate_dependencies
new_strategy query_id actions = do
  validate_scopes actions
  guard (not (is_empty actions)) no_actions
  guard (are_unique (action_ids actions)) duplicate_action_ids
  validate_dependencies [] actions
  ok (record { query_id = query_id; actions = actions })
