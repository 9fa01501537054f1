-- ===== src/RunRuntime/Sane/Calls.antt =====
-- `RunResearchRuntime.execute` as a whole (src/transit_scholar/layer3/runtime/run_runtime.py), new or after
-- a restart.
use transit_scholar.Base.{◌≡◌, true, Option, none, some}
use transit_scholar.RunRuntime.State.{run_failed, Environment, Checkpoint}
use transit_scholar.RunRuntime.Turn.{result}
use transit_scholar.RunRuntime.Run.{Outcome, returned, failed_with, no_fuel}
use transit_scholar.RunRuntime.Sane.{IsSane, IsClosed}

module _ (env : Environment) where
  -- what is saved of a run
  abbrev pub IsSaneCheckpoint : Checkpoint env → Type 0
  IsSaneCheckpoint c = IsSane env c.state c.outcomes c.plan

  -- Either nothing is saved yet, or what is saved is sane.
  abbrev pub IsSaneStart : Option (Checkpoint env) → Type 0
  IsSaneStart none = Unit
  IsSaneStart (some c) = IsSaneCheckpoint c

  -- The call returns with what is saved and the AgentRun in agreement, or raises with the AgentRun failed.
  abbrev pub EndsWell : Outcome env → Type 0
  EndsWell (returned result m) = IsClosed env result m
  EndsWell (failed_with message m) = env.has_execution_service ≡ true → m.run_status ≡ run_failed
  EndsWell no_fuel = ⊥
