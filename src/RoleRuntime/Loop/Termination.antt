-- ===== src/RoleRuntime/Loop/Termination.antt =====
-- The loop ends, whatever its rounds do.
use transit_scholar.Base.{
  ℕ, zero, suc, ◌<◌, ◌≡◌, refl, String, false, Option, none, some, inl, inr, arith, Bool-cases,
}
use transit_scholar.RoleRuntime.State.{
  RoleRuntimeProfile, Environment, Machine, Status, is_running, end,
}
use transit_scholar.RoleRuntime.Loop.{
  Flow, next, break, out_of_budget, raised_error, no_fuel, turn, fail, run_loop,
}
use transit_scholar.RoleRuntime.Loop.Budget.{InBudget, rounds_left, Ended, Leaves, turn-Leaves}

module _ {env : Environment} (p : RoleRuntimeProfile) where
  -- how the loop leaves its machine
  abbrev Finishes : Option (Machine env) → Type 0
  Finishes none = ⊥
  Finishes (some n) = Ended p n

  fail-Ended : (s : String) (m : Machine env) → InBudget p m → Ended p (fail s m)
  unfolding fail
  fail-Ended s m h = ground arith

  run_loop-Finishes :
      (fuel : ℕ) (m : Machine env)
      → InBudget p m
      → rounds_left p m < fuel
      → Finishes (run_loop fuel m)
  unfolding run_loop end
  run_loop-Finishes zero m h enough = absurd (omega arith)
  run_loop-Finishes (suc fuel) m h enough = elim (Bool-cases (is_running m.execution.status)) [
    | inr stopped ↦ rw (stopped, run_loop) (h, stopped)
    | inl runs ↦
        rw (runs, run_loop)
          (go (turn m) (turn-Leaves p m (h, runs)) (λ n. run_loop-Finishes fuel n))
  ]
    where
      go :
          (f : Flow (Unit {0}) (Machine env))
          → Leaves p (λ n. rounds_left p n < rounds_left p m) f
          → ((n : Machine env) → InBudget p n → rounds_left p n < fuel → Finishes (run_loop fuel n))
          → Finishes (elim f [
            | next _ n ↦ run_loop fuel n
            | break n ↦ some n
            | out_of_budget r n ↦ some (end Status.terminated r none n)
            | raised_error s n ↦ some (fail s n)
            | no_fuel ↦ none
          ])
      go (next a n) l rest = rest n l.0.0 (omega arith)
      go (break n) l rest = l
      go (out_of_budget r n) l rest = ground arith
      go (raised_error s n) l rest = fail-Ended s n l
      go no_fuel l rest = l

  -- With fuel for every round that is left the loop ends, within the budgets, and not "running".
  pub run_loop_total :
      (fuel : ℕ) (m : Machine env)
      → InBudget p m
      → rounds_left p m < fuel
      → (n : Machine env) × (run_loop fuel m ≡ some n)
        × InBudget p n
        × (is_running n.execution.status ≡ false)
  run_loop_total fuel m h enough = go (run_loop fuel m) (run_loop-Finishes fuel m h enough)
    where
      go :
          (o : Option (Machine env))
          → Finishes o
          → (n : Machine env) × (o ≡ some n)
            × InBudget p n
            × (is_running n.execution.status ≡ false)
      go none f = absurd f
      go (some n) f = (n, refl, f.0, f.1)
