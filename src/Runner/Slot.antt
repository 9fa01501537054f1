-- ===== src/Runner/Slot.antt =====
-- Any interleaving of the manager's blocks, with the runs that are in the executor's hands. A callback that finds
-- its future finished is a finish right after the registration. `Future.add_done_callback` raises
-- nothing, so the block that forgets a future is not among them.
use transit_scholar.Base.{
  ℕ, ◌+◌, ◌≤◌, ◌≡◌, refl, String, Bool, true, false, Option, none, List, [], ◌∷◌, length, inl, inr,
  is_some, arith, if◌then◌else◌, Bool-cases,
}
use transit_scholar.Records.{is_one_of}
use transit_scholar.Runner.{
  Manager, new_manager, reserve, release_reservation, claim, leave, register, clear_active, abort,
  drop_job, has_job, release, begin_shutdown, end_shutdown,
}

-- A block that a thread, the executor or the shutdown runs.
pub data Event : Type 0 where
  reserving : Event
  releasing : ℕ → Event
  claiming : ℕ → String → Event
  registered : String → ℕ → Event
  refused : String → Event
  finished : String → ℕ → Event
  shutting_down : Event
  shut : Bool → Event

-- A block whose thread is not there, or a finish of a job that is not there, changes nothing.
unfoldable pub step : Event → Manager → Manager
unfolding is_one_of has_job drop_job reserve release_reservation claim register abort release
    end_shutdown
step reserving m = (reserve m).1
step (releasing token) m = release_reservation token m
step (claiming token id) m = (claim token id m).1
step (registered id future) m = if is_one_of id m.submitting then register id future m else m
step (refused id) m = if is_one_of id m.submitting then abort id m else m
step (finished id future) m =
    if has_job id future m.unfinished
    then release id future (record m { unfinished = drop_job id future m.unfinished })
    else m
step shutting_down m = begin_shutdown m
step (shut detached) m = if m.closed then end_shutdown detached m else m

unfoldable pub steps : List Event → Manager → Manager
unfolding step
steps [] m = m
steps (e ∷ es) m = steps es (step e m)

-- the runs that are being submitted or carried out
abbrev pub load : Manager → ℕ
load m = length m.submitting + length m.unfinished

pub record IsExclusive (m : Manager) : Type 0 where
  pub single : load m ≤ 1
  pub idle : m.closed ≡ false → m.active_run_id ≡ none → load m ≡ 0
  pub reserved : m.closed ≡ false → is_some m.reservation ≡ true → m.active_run_id ≡ none

leave_shorter :
    (id : String) (xs : List String) → is_one_of id xs ≡ true → length (leave id xs) + 1 ≡ length xs
unfolding leave is_one_of
leave_shorter id [] h = cc
leave_shorter id (x ∷ xs) h = ground (arith, h, leave_shorter id xs)

drop_job_shorter :
    (id : String) (future : ℕ) (js : List (String × ℕ))
    → has_job id future js ≡ true
    → length (drop_job id future js) + 1 ≡ length js
unfolding drop_job has_job
drop_job_shorter id future [] h = cc
drop_job_shorter id future (j ∷ js) h = ground (arith, h, drop_job_shorter id future js)

reserve-IsExclusive : (m : Manager) → IsExclusive m → IsExclusive (reserve m).1
unfolding reserve
reserve-IsExclusive m h = ground (arith, h.single, h.idle, h.reserved)

release_reservation-IsExclusive :
    (token : ℕ) (m : Manager) → IsExclusive m → IsExclusive (release_reservation token m)
unfolding release_reservation
release_reservation-IsExclusive token m h = ground (arith, h.single, h.idle, h.reserved)

claim-IsExclusive :
    (token : ℕ) (id : String) (m : Manager) → IsExclusive m → IsExclusive (claim token id m).1
unfolding claim release_reservation
claim-IsExclusive token id m h = ground (arith, h.single, h.idle, h.reserved)

register-IsExclusive :
    (id : String) (future : ℕ) (m : Manager)
    → is_one_of id m.submitting ≡ true
    → IsExclusive m
    → IsExclusive (register id future m)
unfolding register
register-IsExclusive id future m there h =
    ground (arith, h.single, h.idle, h.reserved, leave_shorter id m.submitting there)

clear_active-none : (id : String) (o : Option String) → o ≡ none → clear_active id o ≡ none
unfolding clear_active
clear_active-none id o h = ground arith

abort-IsExclusive :
    (id : String) (m : Manager)
    → is_one_of id m.submitting ≡ true
    → IsExclusive m
    → IsExclusive (abort id m)
unfolding abort
abort-IsExclusive id m there h =
    let fewer = leave_shorter id m.submitting there in
    record {
      single = omega (arith, h.single, fewer);
      idle = λ live gone. omega (arith, h.single, fewer);
      reserved = λ live kept. clear_active-none id m.active_run_id (h.reserved live kept);
    }

finish-IsExclusive :
    (id : String) (future : ℕ) (m : Manager)
    → has_job id future m.unfinished ≡ true
    → IsExclusive m
    → IsExclusive (release id future (record m { unfinished = drop_job id future m.unfinished }))
unfolding release
finish-IsExclusive id future m there h =
    let fewer = drop_job_shorter id future m.unfinished there in
    record {
      single = omega (arith, h.single, fewer);
      idle = λ live gone. omega (arith, h.single, fewer);
      reserved = λ live kept. clear_active-none id m.active_run_id (h.reserved live kept);
    }

step-IsExclusive : (e : Event) (m : Manager) → IsExclusive m → IsExclusive (step e m)
unfolding step end_shutdown
step-IsExclusive reserving m h = reserve-IsExclusive m h
step-IsExclusive (releasing token) m h = release_reservation-IsExclusive token m h
step-IsExclusive (claiming token id) m h = claim-IsExclusive token id m h
step-IsExclusive (registered id future) m h = elim (Bool-cases (is_one_of id m.submitting)) [
  | inl there ↦ rw (there, step) (register-IsExclusive id future m there h)
  | inr absent ↦ rw (absent, step) h
]
step-IsExclusive (refused id) m h = elim (Bool-cases (is_one_of id m.submitting)) [
  | inl there ↦ rw (there, step) (abort-IsExclusive id m there h)
  | inr absent ↦ rw (absent, step) h
]
step-IsExclusive (finished id future) m h = elim (Bool-cases (has_job id future m.unfinished)) [
  | inl there ↦ rw (there, step) (finish-IsExclusive id future m there h)
  | inr absent ↦ rw (absent, step) h
]
step-IsExclusive shutting_down m h = ground (arith, h.single)
step-IsExclusive (shut detached) m h = ground (arith, h.single, h.idle, h.reserved)

steps-IsExclusive : (es : List Event) (m : Manager) → IsExclusive m → IsExclusive (steps es m)
unfolding steps
steps-IsExclusive [] m h = h
steps-IsExclusive (e ∷ es) m h = steps-IsExclusive es (step e m) (step-IsExclusive e m h)

-- However the blocks of a new manager are interleaved, at most one run is being submitted or carried
-- out. While the manager is open, none is where no run is active, and a reservation is held only
-- where no run is active.
pub steps-new_manager-IsExclusive : (es : List Event) → IsExclusive (steps es new_manager)
steps-new_manager-IsExclusive es =
    steps-IsExclusive es new_manager
      (record { single = omega arith; idle = λ live gone. refl; reserved = λ live kept. refl })
