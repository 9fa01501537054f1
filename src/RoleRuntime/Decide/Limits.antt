-- ===== src/RoleRuntime/Decide/Limits.antt =====
-- What a decision changes: it counts its calls of the model, within the budget, and nothing else
-- that the loop looks at.
use transit_scholar.Base.{
  ℕ, zero, suc, ◌+◌, ◌-◌, ◌≤◌, ◌<◌, ◌≡◌, refl, ap, ◌⊎◌, Option, none, some, inl, inr, arith,
}
use transit_scholar.RoleRuntime.State.{RepairContext, Environment, Machine, working}
use transit_scholar.RoleRuntime.Decide.{
  Decision, Round, settled, again, decide_round, decide_rounds, decide,
}

module _ {env : Environment} where
  pub record Decides (m n : Machine env) : Type 0 where
    pub status : n.execution.status ≡ m.execution.status
    pub profile : n.execution.runtime_profile ≡ m.execution.runtime_profile
    pub steps : (working n).current_step ≡ (working m).current_step
    pub tools : (working n).usage.tool_calls ≡ (working m).usage.tool_calls
    pub output : (working n).last_output ≡ (working m).last_output
    pub index : (working n).next_action_index ≡ (working m).next_action_index
    pub artifacts : (working n).intermediate_artifacts ≡ (working m).intermediate_artifacts
    pub in_budget :
        (working m).usage.llm_calls ≤ m.execution.runtime_profile.max_llm_calls
        → (working n).usage.llm_calls ≤ m.execution.runtime_profile.max_llm_calls

  Decides-trans : {l m n : Machine env} → Decides l m → Decides m n → Decides l n
  Decides-trans a b = ground (arith, a.in_budget, b.in_budget)

  decide_round-settled :
      (pr rr : ℕ) (repair : Option (RepairContext env.Raw env.Action env.Value)) (m : Machine env)
      {d : Decision env.Output} {n : Machine env}
      → decide_round pr rr repair m ≡ settled d n
      → Decides m n
  unfolding decide_round
  decide_round-settled pr rr repair m h = ground arith

  -- a round that goes on has spent one call, and a call was left
  pub record GoesOn (m n : Machine env) : Type 0 where
    pub decides : Decides m n
    pub left : (working m).usage.llm_calls < m.execution.runtime_profile.max_llm_calls
    pub spent : (working n).usage.llm_calls ≡ (working m).usage.llm_calls + 1

  pub decide_round-again :
      (pr rr : ℕ) (repair : Option (RepairContext env.Raw env.Action env.Value)) (m : Machine env)
      {p r : ℕ} {c : Option (RepairContext env.Raw env.Action env.Value)} {n : Machine env}
      → decide_round pr rr repair m ≡ again p r c n
      → GoesOn m n
  unfolding decide_round
  decide_round-again pr rr repair m h = ground arith

  pub Round-cases :
      (x : Round env)
      → ((d : Decision env.Output) × (n : Machine env) × (x ≡ settled d n))
        ⊎ ((p : ℕ) × (r : ℕ) × (c : Option (RepairContext env.Raw env.Action env.Value))
            × (n : Machine env) × (x ≡ again p r c n))
  Round-cases (settled d n) = inl (d, n, refl)
  Round-cases (again p r c n) = inr (p, r, c, n, refl)

  -- With fuel for every call that is left, a decision is made, and what it changes is bounded.
  decide_rounds_total :
      (fuel pr rr : ℕ) (repair : Option (RepairContext env.Raw env.Action env.Value))
      (m : Machine env)
      → m.execution.runtime_profile.max_llm_calls - (working m).usage.llm_calls < fuel
      → (d : Decision env.Output) × (n : Machine env) × (decide_rounds fuel pr rr repair m
          ≡ some (d, n))
        × Decides m n
  unfolding decide_rounds
  decide_rounds_total zero pr rr repair m enough = absurd (omega arith)
  decide_rounds_total (suc fuel) pr rr repair m enough =
      elim (Round-cases (decide_round pr rr repair m)) [
        | inl (d, n, e) ↦ (d, n, rw (e, decide_rounds), decide_round-settled pr rr repair m e)
        | inr (p, r, c, n, e) ↦
            let on = decide_round-again pr rr repair m e in
            let profile = on.decides.profile in
            let (d, o, made, rest) =
              decide_rounds_total fuel p r c n
                (ground (arith, on.left, on.spent, ap (λ x. x.max_llm_calls) profile)) in
            (d, o, rw (e, decide_rounds) made, Decides-trans on.decides rest)
      ]

  pub decide_total :
      (m : Machine env)
      → (d : Decision env.Output) × (n : Machine env) × (decide m ≡ some (d, n)) × Decides m n
  unfolding decide
  decide_total m =
      decide_rounds_total
        (m.execution.runtime_profile.max_llm_calls - (working m).usage.llm_calls + 1) 0 0 none m
        (omega arith)
