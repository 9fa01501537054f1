-- ===== src/Runner.antt =====
-- `LocalExecutionManager` of src/transit_scholar/api/runtime/manager.py: one slot for an AgentRun,
-- which is reserved, claimed, run and released. A block under the manager's lock is one function;
-- threads are interleaved between the blocks. The ThreadPoolExecutor is not part of the repository:
-- it may refuse a submission, and it calls `_release` when a run has finished.
pub mod Slot
pub mod Submit
mod Examples
use transit_scholar.Base.{
  ℕ, ◌+◌, String, Bool, true, false, not, ◌&&◌, ◌||◌, Option, none, some, List, [], ◌∷◌, ◌==◌,
  is_some, str_eq, if◌then◌else◌,
}
use transit_scholar.Base.Text.{nonempty}
use transit_scholar.Base.Result.{Result, ok, err}
use transit_scholar.Records.{is_one_of}

pub data RunnerError : Type 0 where
  -- RunnerBusyError, for its two reasons
  busy shut_down : RunnerError
  run_id_required reservation_not_active : RunnerError
  -- the executor refuses a submission
  not_submitted : RunnerError
  -- the callback cannot be attached to the future
  not_attached : RunnerError

-- What the executor does with a run: it refuses it; or it gives a future, which is pending or has finished when
-- the callback is attached to it, or to which none can be attached, and then `cancel` may come in time.
pub data Submission : Type 0 where
  not_taken : Submission
  pending completed : ℕ → Submission
  unattached : ℕ → Bool → Submission

-- A future and the token of a reservation are identities.
pub record Manager : Type 0 where
  pub active_run_id : Option String
  pub reservation : Option ℕ
  pub futures : List (String × ℕ)
  pub closed : Bool
  pub next_token : ℕ
  -- the calls of `submit_reserved` that have claimed the slot and not yet kept a future
  pub submitting : List String
  -- what the executor has been given and has not finished
  pub unfinished : List (String × ℕ)

abbrev pub new_manager : Manager
new_manager = record {
  active_run_id = none;
  reservation = none;
  futures = [];
  closed = false;
  next_token = 0;
  submitting = [];
  unfinished = [];
}

abbrev pub is_busy : Manager → Bool
is_busy m = is_some m.active_run_id || is_some m.reservation

unfoldable pub reserve : Manager → Result RunnerError ℕ × Manager
reserve m = if is_busy m then (err busy, m) else if m.closed then (err shut_down, m) else (
  ok m.next_token,
  record m { reservation = some m.next_token; next_token = m.next_token + 1 },
)

-- `self._reservation is reservation`
abbrev pub is_held : ℕ → Option ℕ → Bool
is_held token none = false
is_held token (some held) = held == token

unfoldable pub release_reservation : ℕ → Manager → Manager
release_reservation token m =
    if is_held token m.reservation then record m { reservation = none } else m

-- `submit_reserved` up to the end of its first block under the lock
unfoldable pub claim : ℕ → String → Manager → Result RunnerError (Unit {0}) × Manager
unfolding release_reservation
claim token agent_run_id m =
    if not (nonempty agent_run_id)
    then (err run_id_required, release_reservation token m)
    else if m.closed
    then (err shut_down, m)
    else if not (is_held token m.reservation)
    then (err reservation_not_active, m)
    else (
      ok tt,
      record m {
        reservation = none;
        active_run_id = some agent_run_id;
        submitting = agent_run_id ∷ m.submitting;
      },
    )

-- one thread fewer is submitting the run
unfoldable pub leave : String → List String → List String
leave id [] = []
leave id (x ∷ xs) = let rest = leave id xs in if str_eq id x then xs else x ∷ rest

abbrev pub is_job : String → ℕ → String × ℕ → Bool
is_job id future (i, f) = str_eq id i && (future == f)

-- `self._futures[agent_run_id] = future`
unfoldable pub put_future : String → ℕ → List (String × ℕ) → List (String × ℕ)
put_future id future [] = (id, future) ∷ []
put_future id future ((i, f) ∷ rest) =
    let later = put_future id future rest in
    if str_eq id i then (id, future) ∷ rest else (i, f) ∷ later

-- the executor has taken the run: its future is kept
unfoldable pub register : String → ℕ → Manager → Manager
unfolding leave put_future
register agent_run_id future m = record m {
  futures = put_future agent_run_id future m.futures;
  submitting = leave agent_run_id m.submitting;
  unfinished = (agent_run_id, future) ∷ m.unfinished;
}

-- `if self._active_run_id == agent_run_id: self._active_run_id = None`
unfoldable pub clear_active : String → Option String → Option String
clear_active id none = none
clear_active id (some active) = if str_eq active id then none else some active

-- the executor has refused the run
unfoldable pub abort : String → Manager → Manager
unfolding leave clear_active
abort agent_run_id m = record m {
  active_run_id = clear_active agent_run_id m.active_run_id;
  submitting = leave agent_run_id m.submitting;
}

-- the first of these that is the job is left out
unfoldable pub drop_job : String → ℕ → List (String × ℕ) → List (String × ℕ)
drop_job id future [] = []
drop_job id future (j ∷ js) =
    let rest = drop_job id future js in if is_job id future j then js else j ∷ rest

unfoldable pub has_job : String → ℕ → List (String × ℕ) → Bool
has_job id future [] = false
has_job id future (j ∷ js) = is_job id future j || has_job id future js

-- `_release`, where the executor has finished the run
unfoldable pub release : String → ℕ → Manager → Manager
unfolding drop_job clear_active
release agent_run_id future m = record m {
  futures = drop_job agent_run_id future m.futures;
  active_run_id = clear_active agent_run_id m.active_run_id;
}

-- the executor has finished the run
unfoldable pub finish : String → ℕ → Manager → Manager
unfolding drop_job release
finish agent_run_id future m =
    release agent_run_id future
      (record m { unfinished = drop_job agent_run_id future m.unfinished })

-- the callback cannot be attached: the future is forgotten and cancelled
unfoldable pub withdraw : String → ℕ → Bool → Manager → Manager
unfolding drop_job clear_active
withdraw agent_run_id future cancelled m = record m {
  futures = drop_job agent_run_id future m.futures;
  active_run_id = clear_active agent_run_id m.active_run_id;
  unfinished = (if cancelled then drop_job agent_run_id future m.unfinished else m.unfinished);
}

-- `add_done_callback`, which calls `_release` at once where the future has finished
unfoldable pub attach : String → Submission → Manager → Result RunnerError ℕ × Manager
unfolding register finish withdraw abort
attach agent_run_id not_taken m = (err not_submitted, abort agent_run_id m)
attach agent_run_id (pending future) m = (ok future, register agent_run_id future m)
attach agent_run_id (completed future) m =
    (ok future, finish agent_run_id future (register agent_run_id future m))
attach agent_run_id (unattached future cancelled) m =
    (err not_attached, withdraw agent_run_id future cancelled (register agent_run_id future m))

-- `submit_reserved` by one thread
unfoldable pub submit_reserved : ℕ → String → Submission → Manager → Result RunnerError ℕ × Manager
unfolding claim attach
submit_reserved token agent_run_id taken m =
    let (claimed, m') = claim token agent_run_id m in
    elim claimed [ err e ↦ (err e, m') | ok _ ↦ attach agent_run_id taken m' ]

-- `submit`: a reservation that is not used up is released when `submit_reserved` raises
unfoldable pub submit : String → Submission → Manager → Result RunnerError ℕ × Manager
unfolding reserve submit_reserved release_reservation
submit agent_run_id taken m =
    let (reserved, m') = reserve m in
    elim reserved [
      | err e ↦ (err e, m')
      | ok token ↦
          let (made, n) = submit_reserved token agent_run_id taken m' in
          elim made [ ok future ↦ (ok future, n) | err e ↦ (err e, release_reservation token n) ]
    ]

-- the first block of `shutdown`
abbrev pub begin_shutdown : Manager → Manager
begin_shutdown m = record m { closed = true }

-- its last block: `detached` is `active_future is None or active_future.done()`
unfoldable pub end_shutdown : Bool → Manager → Manager
end_shutdown detached m = record m {
  active_run_id = (if detached then none else m.active_run_id);
  reservation = none;
}
