-- ===== src/Strategy/Plan.antt =====
-- `HybridKnowledgeRetrievalPlanner.plan` of src/transit_scholar/layer3/planner/service.py, from the
-- reply of the language model on: parse, gate, and the fallback.
use transit_scholar.Base.{
  String, ◌≡◌, ◌≢◌, refl, Bool, true, false, not, ◌&&◌, Option, none, some, List, [], ◌∷◌, Memᴰ, ap,
  Bool-cases, inl, inr, any, is_some, if◌then◌else◌,
}
use transit_scholar.Base.Result.{Result, ok, err, Result-cases}
use transit_scholar.Strategy.{
  StrategyError, key_error, not_json, wrong_type, RetrievalAction, RetrievalStrategy, new_strategy,
}
use transit_scholar.Strategy.Gate.{RetrievalContext, validate_strategy}
use transit_scholar.Strategy.Safety.{
  IsWithin, new_strategy_answers, validate_strategy_answers, validate_strategy-IsWithin,
}

pub data DiagnosticStatus : Type 0 where
  info skipped degraded failed : DiagnosticStatus

-- the code, the error that the message tells of, and the status
pub record RetrievalDiagnostic : Type 0 where
  pub code : String
  pub error : StrategyError
  pub status : DiagnosticStatus

pub record PlanningResult : Type 0 where
  pub strategy : Option RetrievalStrategy
  pub diagnostics : List RetrievalDiagnostic

abbrev pub is_failed : DiagnosticStatus → Bool
is_failed failed = true
is_failed _ = false

abbrev pub is_valid : PlanningResult → Bool
is_valid r = is_some r.strategy && not (any (λ d. is_failed d.status) r.diagnostics)

-- What the model replies: a strategy that has been constructed, so that its validators have accepted it; the
-- fields of one, as an object or as JSON; a text that is no JSON; or another type.
pub data Reply : Type 0 where
  constructed : (s : RetrievalStrategy) → new_strategy s.query_id s.actions ≡ ok s → Reply
  strategy_fields : String → List RetrievalAction → Reply
  bad_json other_type : Reply

unfoldable pub parse_strategy : Reply → Result StrategyError RetrievalStrategy
parse_strategy (constructed s valid) = ok s
parse_strategy (strategy_fields query_id actions) = new_strategy query_id actions
parse_strategy bad_json = err not_json
parse_strategy other_type = err wrong_type

abbrev pub failure_diagnostic : StrategyError → RetrievalDiagnostic
failure_diagnostic e = record { code = "planner_validation_failed"; error = e; status = failed }

-- The `except` clause: a KeyError is not among its exceptions and leaves `plan`.
abbrev pub is_caught : StrategyError → Bool
is_caught (key_error key) = false
is_caught _ = true

unfoldable pub rescue : StrategyError → Result StrategyError PlanningResult
rescue e =
    if is_caught e
    then ok (record { strategy = none; diagnostics = failure_diagnostic e ∷ [] })
    else err e

unfoldable pub plan : RetrievalContext → Reply → Result StrategyError PlanningResult
unfolding parse_strategy rescue
plan context reply = elim (parse_strategy reply) [
  | err e ↦ rescue e
  | ok strategy ↦ elim (validate_strategy strategy context) [
    | err e ↦ rescue e
    | ok _ ↦ ok (record { strategy = some strategy; diagnostics = [] })
  ]
]

-- a result is a fallback, or its strategy keeps within the capabilities
pub data Answer (context : RetrievalContext) (r : PlanningResult) : Type 0 where
  fallback : r.strategy ≡ none → is_valid r ≡ false → Answer context r
  executable :
      (s : RetrievalStrategy)
      → r.strategy ≡ some s
      → ((a : RetrievalAction) → Memᴰ a s.actions → IsWithin context.capabilities a)
      → Answer context r

uncaught : (e : StrategyError) → is_caught e ≡ false → (key : String) × (e ≡ key_error key)
uncaught (key_error key) h = (key, refl)
uncaught _ h = cc

rescue_answers :
    (context : RetrievalContext) (e : StrategyError)
    → ((key : String) → e ≢ key_error key)
    → (r : PlanningResult) × (rescue e ≡ ok r) × Answer context r
unfolding rescue
rescue_answers context e h = elim (Bool-cases (is_caught e)) [
  | inl caught ↦ (
    record { strategy = none; diagnostics = failure_diagnostic e ∷ [] },
    rw (caught, rescue) refl,
    fallback refl refl,
  )
  | inr escapes ↦ let (key, same) = uncaught e escapes in absurd (h key same)
]

-- the answer to a strategy that its validators accept
checked_answers :
    (context : RetrievalContext) (reply : Reply) (query_id : String)
    (actions : List RetrievalAction) (s : RetrievalStrategy)
    → new_strategy query_id actions ≡ ok s
    → parse_strategy reply ≡ ok s
    → (r : PlanningResult) × (plan context reply ≡ ok r) × Answer context r
unfolding plan
checked_answers context reply query_id actions s made parsed =
    elim (Result-cases (validate_strategy s context)) [
      | inl (e, refused) ↦
          let (r, rescued, answer) = rescue_answers context e (λ key same.
            validate_strategy_answers query_id key actions s context made
              (rw refused (ap err same))) in
          (r, rw (parsed, plan) (rw (refused, plan) rescued), answer)
      | inr (u, passed) ↦ (
        record { strategy = some s; diagnostics = [] },
        rw (parsed, plan) (rw (passed, plan) refl),
        executable s refl
            (λ a m. validate_strategy-IsWithin query_id actions s context a made passed m),
      )
    ]

-- The planner returns a result for every reply of the language model: either one without a strategy,
-- that is not valid, or one with a strategy whose actions keep to the limit, use an available source
-- and name only Papers that are eligible.
pub plan_answers :
    (context : RetrievalContext) (reply : Reply)
    → (r : PlanningResult) × (plan context reply ≡ ok r) × Answer context r
unfolding plan parse_strategy
plan_answers context (constructed s valid) =
    checked_answers context (constructed s valid) s.query_id s.actions s valid refl
plan_answers context bad_json = rescue_answers context not_json (λ key e. cc)
plan_answers context other_type = rescue_answers context wrong_type (λ key e. cc)
plan_answers context (strategy_fields query_id actions) =
    elim (Result-cases (new_strategy query_id actions)) [
      | inr (s, made) ↦
          checked_answers context (strategy_fields query_id actions) query_id actions s made made
      | inl (e, refused) ↦
          let (r, rescued, answer) =
            rescue_answers context e
              (λ key same. new_strategy_answers query_id actions key (rw refused (ap err same))) in
          (r, rw (refused, plan) rescued, answer)
    ]
