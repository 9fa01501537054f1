-- ===== src/Strategy/Lookups.antt =====
-- The gate finds every dependency of a strategy that its contract has accepted.
use transit_scholar.Base.{
  String, ◌≡◌, refl, ◌⊎◌, inl, inr, Option-cases, Bool-cases, true, some, List, [], ◌∷◌, Memᴰ, all,
  str_eq, eq_iff, arith,
}
use transit_scholar.Base.Result.{ok, guard-eq-ok}
use transit_scholar.Records.{is_one_of}
use transit_scholar.Strategy.{
  RetrievalAction, action_ids, validate_dependencies, unknown_dependency,
}
use transit_scholar.Strategy.Gate.{action_by_id, dependencies}

pub all-is_one_of :
    (ks known : List String) (k : String)
    → all (λ d. is_one_of d known) ks ≡ true
    → is_one_of k ks ≡ true
    → is_one_of k known ≡ true
unfolding is_one_of
all-is_one_of [] known k h m = cc
all-is_one_of (x ∷ ks) known k h m = ground (arith, all-is_one_of ks known k, eq_iff k x)

-- every dependency is known before, or the identifier of an action of the list
depends_known :
    (known : List String) (actions : List RetrievalAction) (a : RetrievalAction) (k : String)
    → validate_dependencies known actions ≡ ok tt
    → Memᴰ a actions
    → is_one_of k a.depends_on ≡ true
    → (is_one_of k known ≡ true) ⊎ (is_one_of k (action_ids actions) ≡ true)
unfolding validate_dependencies is_one_of
depends_known known [] a k h m d = elim m [ ]
depends_known known (b ∷ actions) a k h (Memᴰ.head e) d =
    let (listed, rest) = guard-eq-ok _ unknown_dependency _ h in
    inl (all-is_one_of b.depends_on known k listed (rw (← e) d))
depends_known known (b ∷ actions) a k h (Memᴰ.tail m) d =
    let (listed, rest) = guard-eq-ok _ unknown_dependency _ h in
    ground (arith, depends_known (b.action_id ∷ known) actions a k rest m d)

action_by_id_found :
    (actions : List RetrievalAction) (k : String)
    → is_one_of k (action_ids actions) ≡ true
    → (a : RetrievalAction) × (action_by_id actions k ≡ some a)
unfolding action_by_id is_one_of
action_by_id_found [] k h = cc
action_by_id_found (b ∷ actions) k h = elim (Option-cases (action_by_id actions k)) [
  | inr (a, later) ↦ (a, rw (later, action_by_id) refl)
  | inl missing ↦ elim (Bool-cases (str_eq k b.action_id)) [
    | inl here ↦ (b, rw (missing, action_by_id) (rw here refl))
    | inr other ↦
        let (a, found) = action_by_id_found actions k (ground (arith, h, other)) in
        (a, rw (found, action_by_id) refl)
  ]
]

dependencies_found :
    (actions : List RetrievalAction) (keys : List String)
    → ((k : String) → is_one_of k keys ≡ true → is_one_of k (action_ids actions) ≡ true)
    → (found : List RetrievalAction) × (dependencies actions keys ≡ ok found)
unfolding dependencies is_one_of
dependencies_found actions [] h = ([], refl)
dependencies_found actions (key ∷ keys) h =
    let (a, first) = action_by_id_found actions key (h key (ground (arith, eq_iff key key))) in
    let (found, rest) = dependencies_found actions keys (λ k m. h k (ground (arith, m))) in
    (a ∷ found, rw (first, dependencies) (rw rest refl))

-- Each dependency of a strategy whose order is accepted stands in the dictionary of its actions.
pub accepted_dependencies_found :
    (actions : List RetrievalAction) (a : RetrievalAction)
    → validate_dependencies [] actions ≡ ok tt
    → Memᴰ a actions
    → (found : List RetrievalAction) × (dependencies actions a.depends_on ≡ ok found)
unfolding is_one_of
accepted_dependencies_found actions a h m =
    dependencies_found actions a.depends_on
      (λ k d. ground (arith, depends_known [] actions a k h m d))
