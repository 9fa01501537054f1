-- ===== src/RunRuntime/Sane/Closing.antt =====
-- The two ways in which `RunResearchRuntime` (src/transit_scholar/layer3/runtime/run_runtime.py) returns.
use transit_scholar.Base.{
  ◌+◌, ◌≤◌, ◌≡◌, ◌≢◌, refl, true, false, Option, none, some, length, is_some, arith,
}
use transit_scholar.RunRuntime.State.{
  run_completed, Reason, semantic_completion, stopped, pause_requested, max_run_steps, max_sessions,
  max_planning_rounds, max_failed_sessions, RunFinalResponseArtifact, Environment, Machine, event,
  set_world, persist, set_run_status,
}
use transit_scholar.RunRuntime.Turn.{status_of, close_run, result, pause_result}
use transit_scholar.RunRuntime.Sane.{in_progress, is_terminal, is_open, IsReady, IsClosed, Meets}

status_of-settled : (reason : Option Reason) → is_open (status_of reason) ≡ false
status_of-settled none = refl
status_of-settled (some semantic_completion) = refl
status_of-settled (some stopped) = refl
status_of-settled (some pause_requested) = refl
status_of-settled (some max_run_steps) = refl
status_of-settled (some max_sessions) = refl
status_of-settled (some max_planning_rounds) = refl
status_of-settled (some max_failed_sessions) = refl

module _ (env : Environment) {A : Type 0} (N : A → Machine env → Type 0) (m : Machine env) where
  pub result-IsClosed :
      (reason : Option Reason) (artifact : Option RunFinalResponseArtifact)
      → length m.outcomes + in_progress m.state ≤ env.config.max_sessions
      → length m.state.failed_session_ids + in_progress m.state ≤ env.config.max_failed_sessions + 1
      → m.state.planning_round ≤ env.config.max_planning_rounds + 1
      → (status_of reason ≡ run_completed → (is_terminal m.plan ≡ true) × (is_some artifact ≡ true))
      → Meets env N (IsClosed env) (result reason artifact m)
  unfolding result close_run persist event set_world set_run_status
  result-IsClosed reason artifact sessions failures rounds done = record {
    sane = record {
      sessions = sessions;
      failures = failures;
      rounds = rounds;
      complete = λ e. (done e).0;
      ended = λ e. refl;
    };
    saved = λ h. rw h refl;
    agent = λ h. rw h refl;
    settled = status_of-settled reason;
    complete = done;
  }

  pub pause_result-IsClosed :
      length m.outcomes + in_progress m.state ≤ env.config.max_sessions
      → length m.state.failed_session_ids + in_progress m.state ≤ env.config.max_failed_sessions + 1
      → m.state.planning_round ≤ env.config.max_planning_rounds + 1
      → Meets env N (IsClosed env) (pause_result m)
  unfolding pause_result persist event set_world set_run_status
  pause_result-IsClosed sessions failures rounds = record {
    sane = record {
      sessions = sessions;
      failures = failures;
      rounds = rounds;
      complete = λ e. ground (arith, e);
      ended = λ e. ground (arith, e);
    };
    saved = λ h. rw h refl;
    agent = λ h. rw h refl;
    settled = refl;
    complete = λ e. ground (arith, e);
  }

  -- a ready machine ends with any reason but completion
  pub ready-result :
      (reason : Option Reason)
      → status_of reason ≢ run_completed
      → IsReady env m
      → Meets env N (IsClosed env) (result reason none m)
  ready-result reason other ready =
      result-IsClosed reason none (ground (arith, ready.sessions, ready.idle))
        (ground (arith, ready.failures, ready.idle)) ready.rounds (λ e. elim (other e) [ ])
