-- ===== src/Strategy/Gate.antt =====
-- `validate_strategy` of src/transit_scholar/layer3/planner/validation.py, with the capabilities of
-- layer3/planner/models.py, and what `HybridKnowledgeRetrievalPlanner.plan` of
-- layer3/planner/service.py makes of it.
use transit_scholar.Base.{
  ℕ, String, Bool, true, false, not, Option, none, some, List, [], ◌∷◌, all, any, leb, length,
  str_eq, if◌then◌else◌,
}
use transit_scholar.Base.Result.{Result, ok, err, ◌>>=◌, ◌>>◌, guard}
use transit_scholar.Records.{is_one_of}
use transit_scholar.Strategy.{
  StrategyError, query_mismatch, too_many_actions, source_unavailable, tool_unavailable,
  action_limit_exceeded, invalid_schema_field, schema_unavailable, schema_unavailable_for_papers,
  paper_outside_workspace, wiki_unready, rag_unavailable, rag_unavailable_for_papers,
  discovery_required, key_error, Scope, workspace, papers, Route, schema, wiki, rag,
  RetrievalAction, RetrievalStrategy, is_empty,
}

pub record RetrievalCapabilities : Type 0 where
  pub available_sources : List String
  pub available_tools : List String
  pub schema_field_ids : List String
  pub eligible_paper_ids : List String
  pub l2s1_ready_paper_ids : List String
  pub schema_ready_paper_ids : List String
  pub wiki_ready : Bool
  pub max_actions : ℕ
  pub max_action_limit : ℕ

-- the context, with the one field of its query that is read
pub record RetrievalContext : Type 0 where
  pub query_id : String
  pub capabilities : RetrievalCapabilities

abbrev pub source_kind : Route → String
source_kind (schema f p) = "schema"
source_kind (wiki m d) = "wiki"
source_kind (rag s p) = "rag"

abbrev pub tool_names : Route → List String
tool_names (schema f p) = "schema" ∷ "search_schema" ∷ []
tool_names (wiki m d) = "wiki" ∷ "search_wiki" ∷ []
tool_names (rag s p) = "rag" ∷ "search_rag" ∷ "search_workspace_rag" ∷ []

-- `set(values) <= allowed`, which the source writes `not (set(values) - allowed)`
unfoldable pub is_subset : List String → List String → Bool
is_subset values allowed = all (λ v. is_one_of v allowed) values

-- `bool(names & available_tools)`
unfoldable pub has_tool : List String → List String → Bool
has_tool names available = any (λ n. is_one_of n available) names

unfoldable pub validate_papers : List String → List String → Result StrategyError (Unit {0})
unfolding is_subset
validate_papers paper_ids eligible = guard (is_subset paper_ids eligible) paper_outside_workspace

-- `actions_by_id[key]`: of two actions with one identifier the later stands in the dictionary
unfoldable pub action_by_id : List RetrievalAction → String → Option RetrievalAction
action_by_id [] key = none
action_by_id (action ∷ actions) key =
    let later = action_by_id actions key in
    elim later [
      | some a ↦ some a
      | none ↦ if str_eq key action.action_id then some action else none
    ]

-- `[actions_by_id[action_id] for action_id in depends_on]`
unfoldable pub dependencies :
    List RetrievalAction → List String → Result StrategyError (List RetrievalAction)
unfolding action_by_id
dependencies actions [] = ok []
dependencies actions (key ∷ keys) = elim (action_by_id actions key) [
  | none ↦ err (key_error key)
  | some a ↦ do rest ← dependencies actions keys; ok (a ∷ rest)
]

abbrev pub discovers : RetrievalAction → Bool
discovers a = elim a.route [ schema f p ↦ false | wiki mode discover ↦ discover | rag s p ↦ false ]

module _ (capabilities : RetrievalCapabilities) where
  unfoldable pub validate_schema : List String → List String → Result StrategyError (Unit {0})
  unfolding is_subset validate_papers
  validate_schema field_ids paper_ids = do
    guard (is_subset field_ids capabilities.schema_field_ids) invalid_schema_field
    if is_empty paper_ids
        then guard (not (is_empty capabilities.schema_ready_paper_ids)) schema_unavailable
        else (validate_papers paper_ids capabilities.eligible_paper_ids
            >> guard (is_subset paper_ids capabilities.schema_ready_paper_ids)
                schema_unavailable_for_papers)

  abbrev required_tool : Scope → String
  required_tool workspace = "search_workspace_rag"
  required_tool papers = "search_rag"

  -- what follows the test of the tool, for each scope
  unfoldable pub validate_scope :
      List RetrievalAction → List String → Scope → List String → Result StrategyError (Unit {0})
  unfolding is_subset validate_papers dependencies
  validate_scope actions depends_on workspace paper_ids =
      guard (not (is_empty capabilities.l2s1_ready_paper_ids)) rag_unavailable
  validate_scope actions depends_on papers paper_ids = elim (is_empty paper_ids) [
    | true ↦ do
      found ← dependencies actions depends_on
      guard (any discovers found) discovery_required
    | false ↦ do
      validate_papers paper_ids capabilities.eligible_paper_ids
      guard (is_subset paper_ids capabilities.l2s1_ready_paper_ids) rag_unavailable_for_papers
  ]

  unfoldable pub validate_rag :
      List RetrievalAction → List String → Scope → List String → Result StrategyError (Unit {0})
  unfolding has_tool validate_scope
  validate_rag actions depends_on scope paper_ids = do
    guard (has_tool (required_tool scope ∷ "rag" ∷ []) capabilities.available_tools)
        tool_unavailable
    validate_scope actions depends_on scope paper_ids

  unfoldable pub validate_route :
      List RetrievalAction → List String → Route → Result StrategyError (Unit {0})
  unfolding validate_schema validate_rag
  validate_route actions depends_on (schema field_ids paper_ids) =
      validate_schema field_ids paper_ids
  validate_route actions depends_on (wiki mode discover) =
      guard capabilities.wiki_ready wiki_unready
  validate_route actions depends_on (rag scope paper_ids) =
      validate_rag actions depends_on scope paper_ids

  -- the body of the loop over the actions
  unfoldable pub validate_action :
      List RetrievalAction → RetrievalAction → Result StrategyError (Unit {0})
  unfolding has_tool validate_route
  validate_action actions action = do
    guard (is_one_of (source_kind action.route) capabilities.available_sources) source_unavailable
    guard (has_tool (tool_names action.route) capabilities.available_tools) tool_unavailable
    guard (leb action.limit capabilities.max_action_limit) action_limit_exceeded
    validate_route actions action.depends_on action.route

  unfoldable pub validate_actions :
      List RetrievalAction → List RetrievalAction → Result StrategyError (Unit {0})
  unfolding validate_action
  validate_actions actions [] = ok tt
  validate_actions actions (action ∷ rest) = do
    validate_action actions action
    validate_actions actions rest

unfoldable pub validate_strategy :
    RetrievalStrategy → RetrievalContext → Result StrategyError (Unit {0})
unfolding validate_actions
validate_strategy strategy context = do
  guard (str_eq strategy.query_id context.query_id) query_mismatch
  guard (leb (length strategy.actions) context.capabilities.max_actions) too_many_actions
  validate_actions context.capabilities strategy.actions strategy.actions
