-- ===== src/RoleRuntime/Loop/Budget.antt =====
-- The loop stays within the budgets of the Role's profile, and it ends.
use transit_scholar.Base.{
  ℕ, suc, ◌+◌, ◌-◌, ◌≤◌, ◌<◌, ◌≡◌, refl, Bool, true, false, none, some, List, [], ◌∷◌, is_some,
  drop, inl, inr, arith, Option-cases,
}
use transit_scholar.RoleRuntime.State.{
  RoleRuntimeProfile, Environment, Machine, is_running, boundary, end, working,
}
use transit_scholar.RoleRuntime.Decide.{Decision, decided, budget, failed}
use transit_scholar.RoleRuntime.Decide.Limits.{Decides, decide_total}
use transit_scholar.RoleRuntime.Loop.{
  Flow, next, break, out_of_budget, raised_error, no_fuel, limit_reason, start_decision,
  after_decision, obtain_output, run_action, run_actions, finish_turn, use_output, turn,
}

pub record InBudget {env : Environment} (p : RoleRuntimeProfile) (m : Machine env) : Type 0 where
  pub profile : m.execution.runtime_profile ≡ p
  pub llm_calls : (working m).usage.llm_calls ≤ p.max_llm_calls
  pub tool_calls : (working m).usage.tool_calls ≤ p.max_tool_calls
  pub steps : (working m).current_step ≤ p.max_steps

-- the rounds that are left
abbrev pub rounds_left : {env : Environment} → RoleRuntimeProfile → Machine env → ℕ
rounds_left p m =
    (p.max_steps - (working m).current_step)
    + elim (is_some (working m).last_output) [ true ↦ 1 | false ↦ 0 ]

module _ {env : Environment} (p : RoleRuntimeProfile) where
  abbrev pub Runs : Machine env → Type 0
  Runs m = InBudget p m × (is_running m.execution.status ≡ true)

  abbrev pub Ended : Machine env → Type 0
  Ended m = InBudget p m × (is_running m.execution.status ≡ false)

  -- what holds where a part of the loop's body is left, if `P` does where it goes on
  abbrev pub Leaves : {A : Type 0} → (Machine env → Type 0) → Flow A (Machine env) → Type 0
  Leaves P (next a m) = Runs m × P m
  Leaves P (break m) = Ended m
  Leaves P (out_of_budget r m) = InBudget p m
  Leaves P (raised_error s m) = InBudget p m
  Leaves P no_fuel = ⊥

  run_action-Leaves :
      (index : ℕ) (action : env.Action) (m : Machine env)
      → Runs m
      → Leaves
          (λ n. (working n).current_step ≡ (working m).current_step)
          (run_action index action m)
  unfolding run_action
  run_action-Leaves index action m h = ground arith

  after_decision-Leaves :
      (d : Decision env.Output) (n : Machine env) (k : ℕ)
      → Runs n
      → (working n).current_step ≡ k
      → k < p.max_steps
      → Leaves (λ o. (working o).current_step ≡ suc k) (after_decision (some (d, n)))
  unfolding after_decision
  after_decision-Leaves (decided output) n k h e room = ground arith
  after_decision-Leaves (budget r) n k h e room = h.0
  after_decision-Leaves (failed message) n k h e room = h.0

  Leaves-weaken :
      {A : Type 0} (P Q : Machine env → Type 0)
      → ((m : Machine env) → P m → Q m)
      → (f : Flow A (Machine env)) → Leaves P f
      → Leaves Q f
  Leaves-weaken P Q pq (next a m) h = (h.0, pq m h.1)
  Leaves-weaken P Q pq (break m) h = h
  Leaves-weaken P Q pq (out_of_budget r m) h = h
  Leaves-weaken P Q pq (raised_error s m) h = h
  Leaves-weaken P Q pq no_fuel h = h

  start_decision-Runs : (m n : Machine env) → Runs m → Decides (start_decision m) n → Runs n
  unfolding boundary
  start_decision-Runs m n h d = ground (arith, d.in_budget)

  obtain_output-Leaves :
      (m : Machine env)
      → Runs m
      → (is_some (working m).last_output ≡ false → (working m).current_step < p.max_steps)
      → Leaves (λ n. p.max_steps - (working n).current_step < rounds_left p m) (obtain_output m)
  unfolding obtain_output boundary
  obtain_output-Leaves m h room = elim (Option-cases (working m).last_output) [
    | inr (raw, kept) ↦ ground arith
    | inl fresh ↦
        let (d, n, made, ds) = decide_total (start_decision m) in
        let left : (working m).current_step < p.max_steps = room (rw fresh refl) in
        let here : (working n).current_step ≡ (working m).current_step = ds.steps in
        rw (fresh, obtain_output)
          (rw made (
            Leaves-weaken (λ o. (working o).current_step ≡ suc (working m).current_step) _
              (λ o e. rw (e, fresh) (omega arith)) (after_decision (some (d, n)))
              (after_decision-Leaves d n (working m).current_step (start_decision-Runs m n h ds)
                here left)))
  ]

  run_actions-Leaves :
      (index : ℕ) (actions : List env.Action) (m : Machine env) (k : ℕ)
      → Runs m
      → (working m).current_step ≡ k
      → Leaves (λ n. (working n).current_step ≡ k) (run_actions index actions m)
  unfolding run_actions
  run_actions-Leaves index [] m k h e = (h, e)
  run_actions-Leaves index (action ∷ actions) m k h e =
      onward (run_action index action m) (run_action-Leaves index action m h)
        (λ n. run_actions-Leaves (index + 1) actions n k)
    where
      onward :
          (f : Flow (Unit {0}) (Machine env))
          → Leaves (λ n. (working n).current_step ≡ (working m).current_step) f
          → ((n : Machine env)
              → Runs n
              → (working n).current_step ≡ k
              → Leaves (λ o. (working o).current_step ≡ k) (run_actions (index + 1) actions n))
          → Leaves
              (λ o. (working o).current_step ≡ k)
              (elim f [
                | next _ n ↦ run_actions (index + 1) actions n
                | break n ↦ break n
                | out_of_budget r n ↦ out_of_budget r n
                | raised_error s n ↦ raised_error s n
                | no_fuel ↦ no_fuel
              ])
      onward (next a n) l rest = rest n l.0 (cc (l.1, e))
      onward (break n) l rest = l
      onward (out_of_budget r n) l rest = l
      onward (raised_error s n) l rest = l
      onward no_fuel l rest = l

  finish_turn-Leaves :
      (output : env.Output) (m : Machine env) (k : ℕ)
      → Runs m
      → (working m).current_step ≡ k
      → Leaves (λ n. rounds_left p n ≡ p.max_steps - k) (finish_turn output m)
  unfolding finish_turn
  finish_turn-Leaves output m k h e = ground arith

  use_output-Leaves :
      (output : env.Output) (m : Machine env)
      → Runs m
      → Leaves (λ n. rounds_left p n ≡ p.max_steps - (working m).current_step) (use_output output m)
  unfolding use_output
  use_output-Leaves output m h =
      let index = (working m).next_action_index in
      onward (run_actions index (drop index (env.actions output)) m) (
        run_actions-Leaves index (drop index (env.actions output)) m (working m).current_step h
          refl)
    where
      onward :
          (f : Flow (Unit {0}) (Machine env))
          → Leaves (λ n. (working n).current_step ≡ (working m).current_step) f
          → Leaves
              (λ n. rounds_left p n ≡ p.max_steps - (working m).current_step)
              (elim f [
                | next _ n ↦ finish_turn output n
                | break n ↦ break n
                | out_of_budget r n ↦ out_of_budget r n
                | raised_error s n ↦ raised_error s n
                | no_fuel ↦ no_fuel
              ])
      onward (next a n) l = finish_turn-Leaves output n (working m).current_step l.0 l.1
      onward (break n) l = l
      onward (out_of_budget r n) l = l
      onward (raised_error s n) l = l
      onward no_fuel l = l

  -- With no reason to stop there is room for a step, and only the world has been read.
  limit_reason-room :
      (m : Machine env) (recovered : Bool)
      → Runs m
      → (limit_reason recovered m).0 ≡ none
      → recovered ≡ false
      → (working m).current_step < p.max_steps
  unfolding limit_reason
  limit_reason-room m recovered h go fresh = ground arith

  limit_reason-execution :
      (m : Machine env) (recovered : Bool) → (limit_reason recovered m).1.execution ≡ m.execution
  unfolding limit_reason
  limit_reason-execution m recovered = refl

  with_output :
      (m : Machine env) (f : Flow env.Output (Machine env))
      → Leaves (λ n. p.max_steps - (working n).current_step < rounds_left p m) f
      → Leaves
          (λ n. rounds_left p n < rounds_left p m)
          (elim f [
            | next output n ↦ use_output output n
            | break n ↦ break n
            | out_of_budget r n ↦ out_of_budget r n
            | raised_error s n ↦ raised_error s n
            | no_fuel ↦ no_fuel
          ])
  with_output m (next output n) l =
      Leaves-weaken (λ o. rounds_left p o ≡ p.max_steps - (working n).current_step) _
        (λ o e. rw e l.1) (use_output output n) (use_output-Leaves output n l.0)
  with_output m (break n) l = l
  with_output m (out_of_budget r n) l = l
  with_output m (raised_error s n) l = l
  with_output m no_fuel l = l

  pub turn-Leaves :
      (m : Machine env) → Runs m → Leaves (λ n. rounds_left p n < rounds_left p m) (turn m)
  unfolding turn end
  turn-Leaves m h =
      let recovered = is_some (working m).last_output in
      let polled = (limit_reason recovered m).1 in
      let same : polled.execution ≡ m.execution = limit_reason-execution m recovered in
      elim (Option-cases (limit_reason recovered m).0) [
        | inr (r, stop) ↦ rw (stop, turn) (ground (arith, same))
        | inl go ↦
            let polled_runs : Runs polled = ground (arith, same) in
            let room = limit_reason-room m recovered h go in
            rw (go, turn)
              (with_output m (obtain_output polled)
                (obtain_output-Leaves polled polled_runs (λ fresh. ground (arith, same, room))))
      ]
