-- ===== src/Strategy/Examples.antt =====
-- A strategy of three actions, the last of which searches the Papers that the second discovers.
use transit_scholar.Base.{◌≡◌, ◌≢◌, refl, true, List, [], ◌∷◌, Memᴰ}
use transit_scholar.Base.Result.{ok, err}
use transit_scholar.Strategy.{
  key_error, schema, wiki, rag, lexical, papers, RetrievalAction, RetrievalStrategy, new_strategy,
}
use transit_scholar.Strategy.Gate.{RetrievalContext, validate_strategy}
use transit_scholar.Strategy.Plan.{PlanningResult, Answer, plan, strategy_fields, plan_answers}
use transit_scholar.Strategy.Safety.{
  validate_strategy_answers, IsWithin, validate_strategy-IsWithin,
}

abbrev lookup : RetrievalAction
lookup = record {
  action_id = "a";
  source_query = "holding control";
  limit = 5;
  depends_on = [];
  route = schema ("method" ∷ []) ("p1" ∷ []);
}

abbrev discovery : RetrievalAction
discovery = record {
  action_id = "b";
  source_query = "bus bunching";
  limit = 10;
  depends_on = [];
  route = wiki lexical true;
}

abbrev search : RetrievalAction
search = record {
  action_id = "c";
  source_query = "headway";
  limit = 20;
  depends_on = "b" ∷ [];
  route = rag papers [];
}

abbrev actions : List RetrievalAction
actions = lookup ∷ discovery ∷ search ∷ []

abbrev strategy : RetrievalStrategy
strategy = record { query_id = "q"; actions = actions }

abbrev context : RetrievalContext
context = record {
  query_id = "q";
  capabilities = record {
    available_sources = "schema" ∷ "wiki" ∷ "rag" ∷ [];
    available_tools = "schema" ∷ "search_wiki" ∷ "rag" ∷ [];
    schema_field_ids = "method" ∷ [];
    eligible_paper_ids = "p1" ∷ "p2" ∷ [];
    l2s1_ready_paper_ids = "p2" ∷ [];
    schema_ready_paper_ids = "p1" ∷ [];
    wiki_ready = true;
    max_actions = 8;
    max_action_limit = 20;
  };
}

validate_strategy_answers_example : validate_strategy strategy context ≢ err (key_error "b")
unfolding new_strategy
validate_strategy_answers_example = validate_strategy_answers "q" "b" actions strategy context refl

validate_strategy-IsWithin_example : IsWithin context.capabilities search
unfolding new_strategy validate_strategy
validate_strategy-IsWithin_example =
    validate_strategy-IsWithin "q" actions strategy context search refl refl
      (Memᴰ.tail (Memᴰ.tail (Memᴰ.head refl)))

plan_answers_example :
    (r : PlanningResult) × (plan context (strategy_fields "q" actions) ≡ ok r) × Answer context r
plan_answers_example = plan_answers context (strategy_fields "q" actions)
