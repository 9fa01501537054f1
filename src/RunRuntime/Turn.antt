-- ===== src/RunRuntime/Turn.antt =====
-- One round of the loop of `RunResearchRuntime._execute`
-- (src/transit_scholar/layer3/runtime/run_runtime.py): the polls, the limits, the decision, and the
-- ends of a call.
use transit_scholar.Base.{
  ℕ, zero, suc, String, Bool, true, false, Option, none, some, map, length, ltb, if◌then◌else◌,
}
use transit_scholar.Base.Text.{nonempty}
use transit_scholar.RunRuntime.Plan.{RunDecision, plan_sequencing_error}
use transit_scholar.RunRuntime.State.{
  completed, RunStatus, running, run_completed, run_cancelled, run_terminated, run_failed, paused,
  Reason, semantic_completion, stopped, pause_requested, max_run_steps, max_sessions,
  max_planning_rounds, max_failed_sessions, RunFinalResponseArtifact, RunEvent, synthesis_started,
  run_retry, run_paused, run_finished, run_aborted, Environment, Machine, Flow, next, stop, raised,
  event, set_world, persist, set_run_status, set_state,
}

-- the status that a termination reason gives
abbrev pub status_of : Option Reason → RunStatus
status_of (some semantic_completion) = run_completed
status_of (some stopped) = run_cancelled
status_of _ = run_terminated

-- the AgentRun's status after a run that has ended or paused
abbrev pub agent_status : RunStatus → RunStatus
agent_status run_completed = run_completed
agent_status run_cancelled = run_cancelled
agent_status paused = paused
agent_status _ = run_failed

abbrev pub is_success : RunStatus → Bool
is_success run_completed = true
is_success _ = false

-- the event of the end
abbrev pub ending : RunStatus → Option Reason → RunEvent
ending status reason = if is_success status then run_finished reason else run_aborted reason

-- _DECISION_REPAIR_LIMIT
abbrev pub decision_repair_limit : ℕ
decision_repair_limit = 2

-- `decision.completion_reason or ""`
abbrev pub answer_of : Option String → String
answer_of none = ""
answer_of (some reason) = reason

-- `first or second`
abbrev pub or_else : Option String → Option String → Option String
or_else none second = second
or_else (some first) second = if nonempty first then some first else second

module _ {env : Environment} where
  -- ----- the ends of a call

  -- what `_result` does once the state is saved
  unfoldable pub close_run : RunStatus → Option Reason → Machine env → Machine env
  unfolding set_run_status event set_world
  close_run status reason m =
      let told = event (ending status reason) (set_run_status (agent_status status) m) in
      let committed = env.commit m.world in
      let after =
        if is_success status then env.complete_lifecycle m.outcomes committed else committed in
      set_world after told

  unfoldable pub result :
      {A : Type 0} → Option Reason → Option RunFinalResponseArtifact → Machine env → Flow env A
  unfolding close_run persist
  result reason artifact m =
      let status = status_of reason in
      let ended = set_state (record (m.state) { status = status; termination_reason = reason }) m in
      stop (record { status = status; termination_reason = reason; final_response = artifact })
        (close_run status reason (persist artifact ended))

  unfoldable pub pause_result : {A : Type 0} → Machine env → Flow env A
  unfolding persist set_run_status event set_world
  pause_result m =
      let held = persist none (
        set_state (record (m.state) { status = running; termination_reason = some pause_requested })
          m) in
      let closed =
        event (run_paused m.state.current_research_session_id) (set_run_status paused held) in
      stop
        (record {
          status = paused;
          termination_reason = some pause_requested;
          final_response = none;
        })
        (set_world (env.commit m.world) closed)

  -- ----- polls and limits

  unfoldable pub poll_pause : Machine env → Flow env (Unit {0})
  unfolding set_world pause_result
  poll_pause m =
      let (requested, world) = env.is_pause_requested m.world in
      let polled = set_world world m in if requested then pause_result polled else next tt polled

  unfoldable pub limit_reason : Bool → Machine env → Option Reason
  limit_reason cancel m =
      if cancel
      then some stopped
      else if ltb env.config.max_run_steps m.state.run_steps
      then some max_run_steps
      else if ltb env.config.max_sessions (length m.outcomes)
      then some max_sessions
      else if ltb env.config.max_planning_rounds m.state.planning_round
      then some max_planning_rounds
      else if ltb env.config.max_failed_sessions (length m.state.failed_session_ids)
      then some max_failed_sessions
      else none

  unfoldable pub check_limits : Machine env → Flow env (Unit {0})
  unfolding set_world limit_reason result
  check_limits m =
      let (cancel, world) = env.is_cancelled m.world in
      let polled = set_world world m in
      elim (limit_reason cancel polled) [
        | some reason ↦ result (some reason) none polled
        | none ↦ next tt polled
      ]

  -- ----- the decision

  unfoldable pub snapshot : Machine env → Flow env env.Snapshot
  unfolding set_world
  snapshot m =
      let (built, world) = env.build_snapshot m.outcomes m.plan m.state m.world in
      elim built [
        | some s ↦ next s (set_world world m)
        | none ↦ raised "the snapshot" (set_world world m)
      ]

  -- with the number of times that an ill-sequenced decision is asked for again
  unfoldable pub coordinate : ℕ → env.Snapshot → Machine env → Flow env RunDecision
  unfolding set_world event plan_sequencing_error
  coordinate zero snap m =
      let (reply, world) = env.coordinator snap m.world in
      let asked = set_world world m in
      elim reply [
        | none ↦ raised "the coordinator" asked
        | some decision ↦ elim (plan_sequencing_error decision m.plan) [
          | none ↦ next decision asked
          | some problem ↦ raised "the sequencing of the decision" asked
        ]
      ]
  coordinate (suc left) snap m =
      let (reply, world) = env.coordinator snap m.world in
      let asked = set_world world m in
      elim reply [
        | none ↦ raised "the coordinator" asked
        | some decision ↦ elim (plan_sequencing_error decision m.plan) [
          | none ↦ next decision asked
          | some problem ↦ coordinate left snap (event (run_retry problem) asked)
        ]
      ]

  -- ----- completion

  unfoldable pub default_artifact : RunDecision → Machine env → RunFinalResponseArtifact
  default_artifact decision m = record {
    answer_text = answer_of decision.completion_reason;
    contributing_session_ids = map (λ o. o.research_session_id) m.outcomes;
    status = completed;
    completion_reason = decision.completion_reason;
  }

  -- the artifact of a completed run, and the result with it
  unfoldable pub complete_with :
      RunDecision → RunFinalResponseArtifact → Machine env → Flow env (Unit {0})
  unfolding result
  complete_with decision artifact m =
      let reason = or_else decision.completion_reason artifact.completion_reason in
      let final = record artifact { status = completed; completion_reason = reason } in
      result (some semantic_completion) (some final) m

  unfoldable pub synthesize : RunDecision → env.Snapshot → Machine env → Flow env (Unit {0})
  unfolding event set_world default_artifact complete_with
  synthesize decision snap m =
      let began = event synthesis_started m in
      elim env.synthesis [
        | none ↦ complete_with decision (default_artifact decision began) began
        | some write ↦
            let (artifact, world) = write snap began.world in
            let wrote = set_world world began in
            elim artifact [
              | some given ↦ complete_with decision given wrote
              | none ↦ raised "the synthesis" wrote
            ]
      ]
