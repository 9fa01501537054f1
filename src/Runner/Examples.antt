-- ===== src/Runner/Examples.antt =====
-- Two runs, one after the other.
use transit_scholar.Base.{◌⊎◌, refl, List, [], ◌∷◌, ◌≡◌, false, none, some}
use transit_scholar.Runner.{
  new_manager, not_taken, pending, completed, is_busy, reserve, release_reservation, claim,
  register, attach, finish, drop_job, clear_active, submit_reserved, submit, release,
}
use transit_scholar.Runner.Submit.{submit-raises-is_busy, submit-release}
use transit_scholar.Runner.Slot.{
  Event, reserving, claiming, registered, finished, steps, IsExclusive,
  steps-new_manager-IsExclusive,
}

-- the second reservation is refused, and the third holds the second token
abbrev events : List Event
events =
    reserving
    ∷ claiming 0 "r"
    ∷ reserving
    ∷ registered "r" 7
    ∷ finished "r" 7
    ∷ reserving
    ∷ claiming 1 "s"
    ∷ registered "s" 8
    ∷ []

steps-new_manager-IsExclusive_example : IsExclusive (steps events new_manager)
steps-new_manager-IsExclusive_example = steps-new_manager-IsExclusive events

-- a run without a name is refused
submit-raises-is_busy_example : is_busy (submit "" not_taken new_manager).1 ≡ false
unfolding submit reserve submit_reserved claim release_reservation
submit-raises-is_busy_example = submit-raises-is_busy "" not_taken new_manager refl refl

-- a run that is still carried out when `submit` returns; with `completed 7` it is the other case
submit-release_example :
    ((pending 7 ≡ pending 7)
      × ((submit "r" (pending 7) new_manager).1.active_run_id ≡ some "r")
      × (is_busy (finish "r" 7 (submit "r" (pending 7) new_manager).1) ≡ false))
    ⊎ ((pending 7 ≡ completed 7) × (is_busy (submit "r" (pending 7) new_manager).1 ≡ false))
unfolding submit reserve submit_reserved claim release_reservation attach register
submit-release_example = submit-release "r" (pending 7) 7 new_manager refl refl

finished_at_once : (submit "r" (completed 7) new_manager).1.active_run_id ≡ none
unfolding submit reserve submit_reserved claim release_reservation attach register finish release
    drop_job clear_active
finished_at_once = refl
