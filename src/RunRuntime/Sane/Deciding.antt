-- ===== src/RunRuntime/Sane/Deciding.antt =====
-- The polls, the limits, the snapshot and the decision of a round
-- (src/transit_scholar/layer3/runtime/run_runtime.py) leave the state, the outcomes and the plan as they are.
use transit_scholar.Base.{
  ℕ, zero, suc, ◌≤◌, ◌≡◌, ◌≢◌, Bool, none, some, length, arith, inl, inr, Bool-cases, Option-cases,
}
use transit_scholar.RunRuntime.Plan.{RunDecision, plan_sequencing_error}
use transit_scholar.RunRuntime.State.{
  run_completed, Reason, semantic_completion, stopped, pause_requested, max_run_steps, max_sessions,
  max_planning_rounds, max_failed_sessions, RunEvent, Environment, Machine, event, set_world,
  run_retry,
}
use transit_scholar.RunRuntime.Turn.{
  status_of, poll_pause, limit_reason, check_limits, snapshot, coordinate,
}
use transit_scholar.RunRuntime.Sane.{IsReady, IsClosed, IsSame, Meets}
use transit_scholar.RunRuntime.Sane.Closing.{pause_result-IsClosed, ready-result}

module _ (env : Environment) (m0 : Machine env) where
  abbrev pub Kept : {A : Type 0} → A → Machine env → Type 0
  Kept a m = IsSame env m0 m

  pub set_world-IsSame :
      (m : Machine env) (world : env.World) → IsSame env m0 m → IsSame env m0 (set_world world m)
  unfolding set_world
  set_world-IsSame m world same = record {
    state = same.state;
    outcomes = same.outcomes;
    plan = same.plan;
  }

  pub event-IsSame : (m : Machine env) (e : RunEvent) → IsSame env m0 m → IsSame env m0 (event e m)
  unfolding event
  event-IsSame m e same = record { state = same.state; outcomes = same.outcomes; plan = same.plan }

  -- what is the same as a ready machine is ready
  pub IsSame-IsReady : (m : Machine env) → IsSame env m0 m → IsReady env m0 → IsReady env m
  IsSame-IsReady m same ready = record {
    idle = rw (same.state) (ready.idle);
    live = rw (same.state) (ready.live);
    sessions = rw (same.outcomes) (ready.sessions);
    failures = rw (same.state) (ready.failures);
    rounds = rw (same.state) (ready.rounds);
  }

  pub poll_pause-IsSame :
      (m : Machine env)
      → IsSame env m0 m
      → IsReady env m0
      → Meets env (Kept {A = Unit}) (IsClosed env) (poll_pause m)
  unfolding poll_pause
  poll_pause-IsSame m same ready =
      let world = (env.is_pause_requested m.world).1 in
      let polled = set_world-IsSame m world same in
      let still = IsSame-IsReady (set_world world m) polled ready in
      elim (Bool-cases (env.is_pause_requested m.world).0) [
        | inl requested ↦ rw requested (
            pause_result-IsClosed env (Kept {A = Unit}) (set_world world m)
              (ground (arith, still.sessions, still.idle))
              (ground (arith, still.failures, still.idle)) still.rounds)
        | inr on ↦ rw on polled
      ]

  -- a machine that has passed the limits
  pub record IsWithin (m : Machine env) : Type 0 where
    pub same : IsSame env m0 m
    pub steps : m0.state.run_steps ≤ env.config.max_run_steps
    pub failures : length m0.state.failed_session_ids ≤ env.config.max_failed_sessions
    pub rounds : m0.state.planning_round ≤ env.config.max_planning_rounds

  limit_reason-some :
      (cancel : Bool) (m : Machine env) (reason : Reason)
      → limit_reason cancel m ≡ some reason
      → status_of (some reason) ≢ run_completed
  unfolding limit_reason
  limit_reason-some cancel m semantic_completion h e = ground arith
  limit_reason-some cancel m stopped h e = ground (arith, e)
  limit_reason-some cancel m pause_requested h e = ground (arith, e)
  limit_reason-some cancel m max_run_steps h e = ground (arith, e)
  limit_reason-some cancel m max_sessions h e = ground (arith, e)
  limit_reason-some cancel m max_planning_rounds h e = ground (arith, e)
  limit_reason-some cancel m max_failed_sessions h e = ground (arith, e)

  limit_reason-none :
      (cancel : Bool) (m : Machine env)
      → limit_reason cancel m ≡ none
      → (m.state.run_steps ≤ env.config.max_run_steps)
        × (length m.state.failed_session_ids ≤ env.config.max_failed_sessions)
        × (m.state.planning_round ≤ env.config.max_planning_rounds)
  unfolding limit_reason
  limit_reason-none cancel m h = ground (arith, h)

  pub check_limits-IsWithin :
      (m : Machine env)
      → IsSame env m0 m
      → IsReady env m0
      → Meets env (λ (u : Unit {0}) m'. IsWithin m') (IsClosed env) (check_limits m)
  unfolding check_limits
  check_limits-IsWithin m same ready =
      let (cancel, world) = env.is_cancelled m.world in
      let polled = set_world world m in
      let kept = set_world-IsSame m world same in
      elim (Option-cases (limit_reason cancel polled)) [
        | inl within ↦
            let (steps, failures, rounds) = limit_reason-none cancel polled within in
            rw (within, Meets)
              (record {
                same = kept;
                steps = rw (← kept.state) steps;
                failures = rw (← kept.state) failures;
                rounds = rw (← kept.state) rounds;
              })
        | inr (reason, reached) ↦
            rw (reached, Meets)
              (ready-result env (λ (u : Unit {0}) m'. IsWithin m') polled (some reason)
                (limit_reason-some cancel polled reason reached) (IsSame-IsReady polled kept ready))
      ]

  pub snapshot-IsSame :
      (m : Machine env)
      → IsSame env m0 m
      → Meets env (Kept {A = env.Snapshot}) (IsClosed env) (snapshot m)
  unfolding snapshot
  snapshot-IsSame m same =
      let (built, world) = env.build_snapshot m.outcomes m.plan m.state m.world in
      elim (Option-cases built) [
        | inl nothing ↦ rw (nothing, Meets) tt
        | inr (snap, made) ↦ rw (made, Meets) (set_world-IsSame m world same)
      ]

  -- the decision fits the plan
  abbrev pub Fitting : RunDecision → Machine env → Type 0
  Fitting decision m = IsSame env m0 m × (plan_sequencing_error decision m0.plan ≡ none)

  pub coordinate-Fitting :
      (left : ℕ) (snap : env.Snapshot) (m : Machine env)
      → IsSame env m0 m
      → Meets env Fitting (IsClosed env) (coordinate left snap m)
  unfolding coordinate
  coordinate-Fitting zero snap m same =
      let (reply, world) = env.coordinator snap m.world in
      elim (Option-cases reply) [
        | inl nothing ↦ rw (nothing, Meets) tt
        | inr (decision, replied) ↦ elim (Option-cases (plan_sequencing_error decision m.plan)) [
          | inl fits ↦
              rw (replied, Meets)
                (rw (fits, Meets) (set_world-IsSame m world same, rw (← same.plan) fits))
          | inr (problem, unfit) ↦ rw (replied, Meets) (rw (unfit, Meets) tt)
        ]
      ]
  coordinate-Fitting (suc left) snap m same =
      let (reply, world) = env.coordinator snap m.world in
      let asked = set_world-IsSame m world same in
      elim (Option-cases reply) [
        | inl nothing ↦ rw (nothing, Meets) tt
        | inr (decision, replied) ↦ elim (Option-cases (plan_sequencing_error decision m.plan)) [
          | inl fits ↦ rw (replied, Meets) (rw (fits, Meets) (asked, rw (← same.plan) fits))
          | inr (problem, unfit) ↦
              let told = event-IsSame (set_world world m) (run_retry problem) asked in
              rw (replied, Meets)
                (rw (unfit, Meets)
                  (coordinate-Fitting left snap (event (run_retry problem) (set_world world m))
                    told))
        ]
      ]
