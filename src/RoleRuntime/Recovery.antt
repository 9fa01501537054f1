-- ===== src/RoleRuntime/Recovery.antt =====
-- An execution that is recovered from its last snapshot returns too.
use transit_scholar.Base.{
  ◌≡◌, refl, true, false, Option, none, some, [], arith, Bool-cases, inl, inr,
}
use transit_scholar.Base.Result.{ok}
use transit_scholar.RoleRuntime.State.{
  RoleRuntimeProfile, Environment, Execution, Machine, Operation, provider, tool, is_running,
  is_paused, role_resume, boundary, start, end, working,
}
use transit_scholar.RoleRuntime.Loop.Budget.{InBudget}
use transit_scholar.RoleRuntime.Start.{Request, owns, settle, execute}
use transit_scholar.RoleRuntime.Outcome.{run_total}

module _ (env : Environment) where
  -- the machine in which a saved execution is taken up
  abbrev pub recovered : Execution env → env.World → Machine env
  recovered saved world = record { execution = saved; world = world; boundaries = [] }

  settle-InBudget :
      (p : RoleRuntimeProfile) (m : Machine env) → InBudget p m → InBudget p (settle env m)
  unfolding settle boundary end
  settle-InBudget p m h = go (working m).operation_in_flight refl
    where
      go :
          (o : Option (Operation env.Raw env.Action env.Value))
          → (working m).operation_in_flight ≡ o
          → InBudget p (settle env m)
      go none e = rw (e, settle) (ground (arith, h))
      go (some provider) e = rw (e, settle) (ground (arith, h))
      go (some (tool index action)) e = rw (e, settle) (ground (arith, h))

  -- A saved execution that is within the budgets of a profile and is recovered by its owner returns,
  -- within them, and it is then not "running".
  pub execute_recovered :
      (p : RoleRuntimeProfile) (request : Request) (saved : Execution env) (world : env.World)
      → owns env saved request ≡ true
      → InBudget p (recovered saved world)
      → (n : Machine env) × (execute env request (some saved) world ≡ ok (some n))
        × InBudget p n
        × (is_running n.execution.status ≡ false)
  unfolding execute boundary start
  execute_recovered p request saved world own h = elim (Bool-cases (is_paused saved.status)) [
    | inl held ↦
        let resumed : Machine env =
          boundary role_resume
            (record { execution = start saved; world = world; boundaries = [] }) in
        let within : InBudget p resumed = ground (arith, h) in
        let (n, ended, budget, stopped) =
          run_total env p (settle env resumed) (settle-InBudget p resumed within) in
        (n, rw (own, execute) (rw held (rw ended refl)), budget, stopped)
    | inr unpaused ↦ elim (Bool-cases (is_running saved.status)) [
      | inl live ↦
          let m = recovered saved world in
          let (n, ended, budget, stopped) =
            run_total env p (settle env m) (settle-InBudget p m h) in
          (n, rw (own, execute) (rw unpaused (rw live (rw ended refl))), budget, stopped)
      | inr over ↦ (recovered saved world, rw (own, execute) (rw unpaused (rw over refl)), h, over)
    ]
  ]
