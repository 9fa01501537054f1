-- ===== src/Strategy/Safety.antt =====
-- What the gate guarantees of a strategy that it lets through, and that it always answers.
use transit_scholar.Base.{String, ◌≡◌, ◌≢◌, ◌≤◌, refl, true, List, [], ◌∷◌, Memᴰ, leb→le, arith}
use transit_scholar.Base.Result.{ok, err, >>=-eq-ok, guard-eq-ok}
use transit_scholar.Records.{is_one_of}
use transit_scholar.Strategy.{
  key_error, Route, schema, wiki, rag, Scope, workspace, papers, RetrievalAction, RetrievalStrategy,
  new_strategy, validate_dependencies, validate_paper_scope, validate_scopes, source_unavailable,
  tool_unavailable, action_limit_exceeded,
}
use transit_scholar.Strategy.Gate.{
  RetrievalCapabilities, RetrievalContext, dependencies, validate_schema, validate_papers,
  validate_scope, validate_rag, validate_route, validate_action, validate_actions,
  validate_strategy, is_subset, source_kind,
}
use transit_scholar.Strategy.Lookups.{all-is_one_of, accepted_dependencies_found}

module _ (c : RetrievalCapabilities) where
  validate_scope_answers :
      (actions found : List RetrievalAction) (keys : List String) (s : Scope) (ps : List String)
      (key : String)
      → dependencies actions keys ≡ ok found
      → validate_scope c actions keys s ps ≢ err (key_error key)
  unfolding validate_scope validate_papers
  validate_scope_answers actions found keys workspace ps key h e = ground arith
  validate_scope_answers actions found keys papers ps key h e = ground (arith, h, e)

  validate_action_answers :
      (actions found : List RetrievalAction) (a : RetrievalAction) (key : String)
      → dependencies actions a.depends_on ≡ ok found
      → validate_action c actions a ≢ err (key_error key)
  unfolding validate_action validate_route validate_schema validate_rag validate_papers
  validate_action_answers actions found a key h e =
      ground (arith, h, e, validate_scope_answers actions found a.depends_on)

  validate_actions_answers :
      (actions rest : List RetrievalAction) (key : String)
      → ((a : RetrievalAction)
          → Memᴰ a rest
          → (found : List RetrievalAction) × (dependencies actions a.depends_on ≡ ok found))
      → validate_actions c actions rest ≢ err (key_error key)
  unfolding validate_actions
  validate_actions_answers actions [] key h e = cc
  validate_actions_answers actions (a ∷ rest) key h e =
      let (found, first) = h a (Memᴰ.head refl) in
      let later = validate_actions_answers actions rest key (λ b m. h b (Memᴰ.tail m)) in
      ground (arith, e, later, validate_action_answers actions found a key first)

-- For a strategy that the contract has accepted, the gate does not raise a KeyError, which the
-- planner would not catch.
pub validate_strategy_answers :
    (query_id key : String) (actions : List RetrievalAction) (s : RetrievalStrategy)
    (context : RetrievalContext)
    → new_strategy query_id actions ≡ ok s
    → validate_strategy s context ≢ err (key_error key)
unfolding validate_strategy new_strategy
validate_strategy_answers query_id key actions s context made e =
    let accepted : validate_dependencies [] actions ≡ ok tt = ground (arith, made) in
    let same : s.actions ≡ actions = ground (arith, made) in
    let found = λ (a : RetrievalAction) (m : Memᴰ a actions).
      accepted_dependencies_found actions a accepted m in
    let answers : validate_actions context.capabilities s.actions s.actions ≢ err (key_error key) =
      rw same (validate_actions_answers context.capabilities actions actions key found) in
    ground (arith, e, answers)

validate_scopes_answers :
    (actions : List RetrievalAction) (key : String) → validate_scopes actions ≢ err (key_error key)
unfolding validate_scopes validate_paper_scope
validate_scopes_answers [] key e = cc
validate_scopes_answers (a ∷ actions) key e = ground (arith, e, validate_scopes_answers actions key)

validate_dependencies_answers :
    (known : List String) (actions : List RetrievalAction) (key : String)
    → validate_dependencies known actions ≢ err (key_error key)
unfolding validate_dependencies
validate_dependencies_answers known [] key e = cc
validate_dependencies_answers known (a ∷ actions) key e =
    ground (arith, e, validate_dependencies_answers (a.action_id ∷ known) actions key)

pub new_strategy_answers :
    (query_id : String) (actions : List RetrievalAction) (key : String)
    → new_strategy query_id actions ≢ err (key_error key)
unfolding new_strategy
new_strategy_answers query_id actions key e =
    ground
      (arith, e, validate_scopes_answers actions key, validate_dependencies_answers [] actions key)

abbrev pub route_papers : Route → List String
route_papers (schema fields paper_ids) = paper_ids
route_papers (wiki mode discover) = []
route_papers (rag scope paper_ids) = paper_ids

-- an action within the bounds of the capabilities
pub record IsWithin (c : RetrievalCapabilities) (a : RetrievalAction) : Type 0 where
  pub limit : a.limit ≤ c.max_action_limit
  pub source : is_one_of (source_kind a.route) c.available_sources ≡ true
  pub eligible :
      (p : String)
      → is_one_of p (route_papers a.route) ≡ true
      → is_one_of p c.eligible_paper_ids ≡ true

module _ (c : RetrievalCapabilities) (actions : List RetrievalAction) where
  route_eligible :
      (a : RetrievalAction) (r : Route) (p : String)
      → a.route ≡ r
      → validate_paper_scope a ≡ ok tt
      → validate_route c actions a.depends_on r ≡ ok tt
      → is_one_of p (route_papers r) ≡ true
      → is_one_of p c.eligible_paper_ids ≡ true
  unfolding validate_paper_scope validate_route validate_schema validate_rag validate_scope
      validate_papers is_subset is_one_of
  route_eligible a (wiki m d) p e scoped h i = cc
  route_eligible a (schema f ps) p e scoped h i =
      ground (arith, h, i, all-is_one_of ps c.eligible_paper_ids p)
  route_eligible a (rag workspace []) p e scoped h i = cc
  route_eligible a (rag workspace (q ∷ ps)) p e scoped h i = ground (arith, e, scoped)
  route_eligible a (rag papers []) p e scoped h i = cc
  route_eligible a (rag papers (q ∷ ps)) p e scoped h i =
      ground (arith, h, i, all-is_one_of (q ∷ ps) c.eligible_paper_ids p)

  validate_action-IsWithin :
      (a : RetrievalAction)
      → validate_paper_scope a ≡ ok tt
      → validate_action c actions a ≡ ok tt
      → IsWithin c a
  unfolding validate_action
  validate_action-IsWithin a scoped h =
      let (source, first_rest) = guard-eq-ok _ source_unavailable _ h in
      let (tool, second_rest) = guard-eq-ok _ tool_unavailable _ first_rest in
      let (limit, routed) = guard-eq-ok _ action_limit_exceeded _ second_rest in
      record {
        limit = leb→le a.limit c.max_action_limit limit;
        source = source;
        eligible = λ p i. route_eligible a a.route p refl scoped routed i;
      }

  validate_actions-IsWithin :
      (rest : List RetrievalAction) (a : RetrievalAction)
      → validate_scopes rest ≡ ok tt
      → validate_actions c actions rest ≡ ok tt
      → Memᴰ a rest
      → IsWithin c a
  unfolding validate_scopes validate_actions
  validate_actions-IsWithin [] a scoped h m = elim m [ ]
  validate_actions-IsWithin (b ∷ rest) a scoped h m =
      let (u, first_scoped, rest_scoped) = >>=-eq-ok (validate_paper_scope b) _ scoped in
      let (v, first, later) = >>=-eq-ok (validate_action c actions b) _ h in
      elim m [
        | Memᴰ.head e ↦ rw e (validate_action-IsWithin b first_scoped first)
        | Memᴰ.tail n ↦ validate_actions-IsWithin rest a rest_scoped later n
      ]

-- If the contract and the gate have accepted a strategy, each of its actions keeps to the limit,
-- uses an available source, and names only Papers that are eligible in the Workspace.
pub validate_strategy-IsWithin :
    (query_id : String) (actions : List RetrievalAction) (s : RetrievalStrategy)
    (context : RetrievalContext) (a : RetrievalAction)
    → new_strategy query_id actions ≡ ok s
    → validate_strategy s context ≡ ok tt
    → Memᴰ a s.actions
    → IsWithin context.capabilities a
unfolding validate_strategy new_strategy
validate_strategy-IsWithin query_id actions s context a made passed m =
    let scoped : validate_scopes actions ≡ ok tt = ground (arith, made) in
    let same : s.actions ≡ actions = ground (arith, made) in
    let checked : validate_actions context.capabilities s.actions s.actions ≡ ok tt =
      ground (arith, passed) in
    validate_actions-IsWithin context.capabilities s.actions s.actions a (rw same scoped) checked m
