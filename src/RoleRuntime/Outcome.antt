-- ===== src/RoleRuntime/Outcome.antt =====
-- What a caller of `RoleRuntime.execute` can rely on: it returns, within the budgets, and an action
-- whose outcome is unknown after a crash is not carried out again.
use transit_scholar.Base.{
  ℕ, zero, suc, ◌+◌, ◌-◌, ◌<◌, ◌≡◌, refl, ◌⊎◌, true, false, none, some, [], ◌∷◌, ◌++◌, inl, inr,
  arith,
}
use transit_scholar.Base.Result.{ok}
use transit_scholar.RoleRuntime.State.{
  RoleRuntimeProfile, tool, abandoned, Environment, Execution, Machine, running, paused, terminated,
  is_running, is_paused, in_flight_action_abandoned, role_start, role_resume, boundary, start,
  working,
}
use transit_scholar.RoleRuntime.Loop.{run_loop, close}
use transit_scholar.RoleRuntime.Loop.Budget.{InBudget, rounds_left}
use transit_scholar.RoleRuntime.Loop.Termination.{run_loop_total}
use transit_scholar.RoleRuntime.Start.{Request, new_execution, owns, settle, run, execute}

module _ (env : Environment) where
  pub run_total :
      (p : RoleRuntimeProfile) (m : Machine env)
      → InBudget p m
      → (n : Machine env) × (run env m ≡ some n)
        × InBudget p n
        × (is_running n.execution.status ≡ false)
  unfolding run close boundary
  run_total p m h =
      let fuel : ℕ = m.execution.runtime_profile.max_steps - (working m).current_step + 2 in
      let enough : rounds_left p m < fuel = ground (arith, h.profile) in
      let (n, ended, in_budget, stopped) = run_loop_total p fuel m h enough in
      (close n, rw (ended, run), ground (arith, in_budget), ground (arith, stopped))

  -- A new execution of a Role returns, whatever the model, the contract, the tools and the polls do.
  -- It is then not "running", and its counts of calls of the model, of calls of tools and of steps
  -- are at most the `max_llm_calls`, `max_tool_calls` and `max_steps` of the Role's profile.
  pub execute_new :
      (request : Request) (world : env.World)
      → (n : Machine env) × (execute env request none world ≡ ok (some n))
        × InBudget request.runtime_profile n
        × (is_running n.execution.status ≡ false)
  unfolding execute boundary start
  execute_new request world =
      let m : Machine env = boundary role_start (record {
        execution = start (new_execution env request);
        world = world;
        boundaries = [];
      }) in
      let (n, ended, in_budget, stopped) = run_total request.runtime_profile m (ground arith) in
      (n, rw ended, in_budget, stopped)

  run_loop_stopped :
      (fuel : ℕ) (m : Machine env)
      → 0 < fuel
      → is_running m.execution.status ≡ false
      → run_loop fuel m ≡ some m
  unfolding run_loop
  run_loop_stopped zero m h stopped = absurd (omega arith)
  run_loop_stopped (suc fuel) m h stopped = rw (stopped, run_loop) refl

  run_stopped :
      (m : Machine env) → is_running m.execution.status ≡ false → run env m ≡ some (close m)
  unfolding run
  run_stopped m stopped =
      rw
        (
          run_loop_stopped (m.execution.runtime_profile.max_steps - (working m).current_step + 2) m
              (omega arith) stopped,
          run,
        )
        refl

  record Abandoned (action : env.Action) (m n : Machine env) : Type 0 where
    status : n.execution.status ≡ terminated
    reason : n.execution.termination_reason ≡ some in_flight_action_abandoned
    artifacts :
        (working n).intermediate_artifacts
        ≡ (working m).intermediate_artifacts ++ abandoned action ∷ []
    world : n.world ≡ m.world

  settle_abandons :
      (m : Machine env) (index : ℕ) (action : env.Action)
      → (working m).operation_in_flight ≡ some (tool index action)
      → Abandoned action m (settle env m)
  unfolding settle
  settle_abandons m index action flight = rw (flight, settle) (ground arith)

  run-settle :
      (m : Machine env) (index : ℕ) (action : env.Action)
      → (working m).operation_in_flight ≡ some (tool index action)
      → (n : Machine env) × (run env (settle env m) ≡ some n) × Abandoned action m n
  unfolding close boundary
  run-settle m index action flight =
      let a = settle_abandons m index action flight in
      (
        close (settle env m),
        run_stopped (settle env m) (ground (arith, a.status)),
        ground (arith, a),
      )

  -- If a saved execution that is running or paused is recovered by its owner with an action in
  -- flight, `execute` returns it as terminated for `in_flight_action_abandoned`, with the action
  -- listed as abandoned, and without any call of the model, a tool or a poll: the world is untouched.
  pub execute_abandons :
      (request : Request) (saved : Execution env) (world : env.World) (index : ℕ)
      (action : env.Action)
      → owns env saved request ≡ true
      → (saved.status ≡ running) ⊎ (saved.status ≡ paused)
      → saved.working_state.operation_in_flight ≡ some (tool index action)
      → (n : Machine env) × (execute env request (some saved) world ≡ ok (some n))
        × (n.execution.status ≡ terminated)
        × (n.execution.termination_reason ≡ some in_flight_action_abandoned)
        × (n.execution.working_state.intermediate_artifacts
            ≡ saved.working_state.intermediate_artifacts ++ abandoned action ∷ [])
        × (n.world ≡ world)
  unfolding execute boundary start
  execute_abandons request saved world index action own (inl live) flight =
      let m : Machine env = record { execution = saved; world = world; boundaries = [] } in
      let (n, ended, a) = run-settle m index action flight in
      let started : is_running saved.status ≡ true = rw live refl in
      let unpaused : is_paused saved.status ≡ false = rw live refl in
      (
        n,
        rw (own, execute) (rw unpaused (rw started (rw ended refl))),
        a.status,
        a.reason,
        a.artifacts,
        a.world,
      )
  execute_abandons request saved world index action own (inr live) flight =
      let m : Machine env =
        boundary role_resume (record { execution = start saved; world = world; boundaries = [] }) in
      let (n, ended, a) = run-settle m index action flight in
      let held : is_paused saved.status ≡ true = rw live refl in
      (n, rw (own, execute) (rw held (rw ended refl)), a.status, a.reason, a.artifacts, a.world)
