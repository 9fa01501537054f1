-- ===== src/RoleRuntime/Decide/Retries.antt =====
-- How often one decision asks the model.
use transit_scholar.Base.{ℕ, zero, suc, ◌+◌, ◌-◌, ◌≤◌, ◌≡◌, Option, none, some, inl, inr, arith}
use transit_scholar.RoleRuntime.State.{
  RoleRuntimeProfile, RepairContext, Environment, Machine, working,
}
use transit_scholar.RoleRuntime.Decide.{
  Decision, settled, again, decide_round, decide_rounds, decide,
}
use transit_scholar.RoleRuntime.Decide.Limits.{Round-cases, decide_total, decide_round-again}

-- the retries that are left, with `pr` and `rr` of them spent
abbrev retries_left : RoleRuntimeProfile → ℕ → ℕ → ℕ
retries_left p pr rr = p.provider_retry_limit - pr + (p.structured_output_repair_limit - rr)

module _ {env : Environment} where
  settled_calls :
      (pr rr : ℕ) (repair : Option (RepairContext env.Raw env.Action env.Value)) (m : Machine env)
      {d : Decision env.Output} {n : Machine env}
      → decide_round pr rr repair m ≡ settled d n
      → (working n).usage.llm_calls ≤ (working m).usage.llm_calls + 1
  unfolding decide_round
  settled_calls pr rr repair m h = ground arith

  again_spends :
      (pr rr : ℕ) (repair : Option (RepairContext env.Raw env.Action env.Value)) (m : Machine env)
      {p r : ℕ} {c : Option (RepairContext env.Raw env.Action env.Value)} {n : Machine env}
      → decide_round pr rr repair m ≡ again p r c n
      → retries_left m.execution.runtime_profile p r + 1
        ≡ retries_left m.execution.runtime_profile pr rr
  unfolding decide_round
  again_spends pr rr repair m h = ground arith

  decide_rounds_calls :
      (fuel pr rr : ℕ) (repair : Option (RepairContext env.Raw env.Action env.Value))
      (m n : Machine env) (d : Decision env.Output)
      → decide_rounds fuel pr rr repair m ≡ some (d, n)
      → (working n).usage.llm_calls
        ≤ (working m).usage.llm_calls + 1 + retries_left m.execution.runtime_profile pr rr
  unfolding decide_rounds
  decide_rounds_calls zero pr rr repair m n d h = cc
  decide_rounds_calls (suc fuel) pr rr repair m n d h =
      elim (Round-cases (decide_round pr rr repair m)) [
        | inl (d', n', e) ↦
            let last = rw (e, decide_rounds) at h in
            ground (arith, last, settled_calls pr rr repair m e)
        | inr (p, r, c, n', e) ↦
            let on = decide_round-again pr rr repair m e in
            let rest = decide_rounds_calls fuel p r c n' n d (rw (e, decide_rounds) at h) in
            let profile = on.decides.profile in
            ground (arith, rest, again_spends pr rr repair m e, on.spent, profile)
      ]

  -- A decision ends, and it asks the model at most once, and once more for each provider retry and
  -- each repair of its output that the profile allows.
  pub decide_calls :
      (m : Machine env)
      → (d : Decision env.Output) × (n : Machine env) × (decide m ≡ some (d, n))
        × ((working n).usage.llm_calls
            ≤ (working m).usage.llm_calls
              + 1
              + m.execution.runtime_profile.provider_retry_limit
              + m.execution.runtime_profile.structured_output_repair_limit)
  unfolding decide
  decide_calls m =
      let (d, n, made, _) = decide_total m in
      (d, n, made, omega (arith, decide_rounds_calls _ 0 0 none m n d made))
