-- ===== src/RoleRuntime/Decide.antt =====
-- `_decide` of layer3/runtime/role_runtime.py: one decision, with its bounded retries.
pub mod Limits
pub mod Retries
use transit_scholar.Base.{
  ℕ, zero, suc, ◌+◌, ◌-◌, String, Bool, true, false, Option, none, some, leb,
}
use transit_scholar.RoleRuntime.State.{
  RoleRuntimeProfile, RoleWorkingState, RoleExecution, RuntimeUsage, RetryState, RepairContext,
  Environment, Machine, Reason, max_llm_calls, Reply, replied, retryable, raised, provider_retry,
  structured_output_repair, boundary, set_working, set_world, working,
}

-- A decision ends with an output, with `_BudgetTermination`, or with another exception.
pub data Decision (Output : Type 0) : Type 0 where
  decided : Output → Decision Output
  budget : Reason → Decision Output
  failed : String → Decision Output

-- how a round of the decision ends: with a decision, or with a `continue`
pub data Round (env : Environment) : Type 0 where
  settled : Decision env.Output → Machine env → Round env
  again : ℕ → ℕ → Option (RepairContext env.Raw env.Action env.Value) → Machine env → Round env

module _ {env : Environment} where
  -- `usage.llm_calls += 1`
  abbrev pub count_llm_call : Machine env → Machine env
  count_llm_call m =
      let w = working m in
      set_working (record w { usage = record (w.usage) { llm_calls = w.usage.llm_calls + 1 } }) m

  -- `retries.provider_retries += 1`, and the boundary
  abbrev pub count_provider_retry : Machine env → Machine env
  count_provider_retry m =
      let w = working m in
      boundary provider_retry (
        set_working
          (record w {
            retries = record (w.retries) { provider_retries = w.retries.provider_retries + 1 };
          })
          m)

  -- `retries.structured_output_repairs += 1`, and the boundary
  abbrev pub count_repair : Machine env → Machine env
  count_repair m =
      let w = working m in
      boundary structured_output_repair (
        set_working
          (record w {
            retries = record (w.retries) {
              structured_output_repairs = w.retries.structured_output_repairs + 1;
            };
          })
          m)

  -- the body of `while True`, with the two retry counts and the repair context
  unfoldable pub decide_round :
      ℕ → ℕ → Option (RepairContext env.Raw env.Action env.Value) → Machine env → Round env
  unfolding boundary
  decide_round provider_retries repair_retries repair m =
      let profile = m.execution.runtime_profile in
      elim (leb profile.max_llm_calls (working m).usage.llm_calls) [
        | true ↦ settled (budget max_llm_calls) m
        | false ↦
            let counted = count_llm_call m in
            let (reply, world) = env.decide (working counted) repair counted.world in
            let asked = set_world world counted in
            elim reply [
              | raised message ↦ settled (failed message) asked
              | retryable ↦ elim (leb profile.provider_retry_limit provider_retries) [
                | true ↦ settled (failed "ProviderRetryableError") asked
                | false ↦
                    again (provider_retries + 1) repair_retries repair (count_provider_retry asked)
              ]
              | replied raw ↦ elim (env.validate raw) [
                | some output ↦ settled (decided output) asked
                | none ↦ elim (leb profile.structured_output_repair_limit repair_retries) [
                  | true ↦ settled (failed "ValidationError") asked
                  | false ↦
                      again provider_retries (repair_retries + 1)
                        (some (record { invalid_output = raw; attempt = repair_retries + 1 }))
                        (count_repair asked)
                ]
              ]
            ]
      ]

  -- `fuel` bounds the rounds: each spends one of the `max_llm_calls`, so
  -- `max_llm_calls - llm_calls + 1` rounds are enough. `none` means too little fuel.
  unfoldable pub decide_rounds :
      ℕ
      → ℕ
      → ℕ
      → Option (RepairContext env.Raw env.Action env.Value)
      → Machine env
      → Option (Decision env.Output × Machine env)
  decide_rounds zero provider_retries repair_retries repair m = none
  decide_rounds (suc fuel) provider_retries repair_retries repair m =
      elim (decide_round provider_retries repair_retries repair m) [
        | settled decision m' ↦ some (decision, m')
        | again p r c m' ↦ decide_rounds fuel p r c m'
      ]

  unfoldable pub decide : Machine env → Option (Decision env.Output × Machine env)
  decide m =
      decide_rounds (m.execution.runtime_profile.max_llm_calls - (working m).usage.llm_calls + 1) 0
        0 none m
