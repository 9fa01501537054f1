-- ===== src/Runner/Submit.antt =====
-- `submit` by one thread, and the slot afterwards.
use transit_scholar.Base.{
  ℕ, ◌≡◌, ◌⊎◌, inl, inr, String, Bool, true, false, some, arith, eq_iff, ==_iff,
}
use transit_scholar.Base.Result.{Result, ok, err}
use transit_scholar.Runner.{
  RunnerError, Manager, Submission, not_taken, pending, completed, unattached, is_busy, reserve,
  release_reservation, claim, register, clear_active, abort, attach, withdraw, finish,
  submit_reserved, submit, release,
}

abbrev pub raises : {A : Type 0} → Result RunnerError A → Bool
raises (ok a) = false
raises (err e) = true

-- If the slot is free and `submit` raises, for whatever reason, the slot is free again.
pub submit-raises-is_busy :
    (id : String) (taken : Submission) (m : Manager)
    → is_busy m ≡ false
    → raises (submit id taken m).0 ≡ true
    → is_busy (submit id taken m).1 ≡ false
unfolding submit reserve submit_reserved claim release_reservation attach abort withdraw finish
    release clear_active register
submit-raises-is_busy id taken m free h =
    ground (arith, free, h, eq_iff id id, ==_iff m.next_token m.next_token)

-- If the slot is free and `submit` returns a future, then either the future is pending, the run is active, and
-- once the executor has finished it the slot is free again; or it had finished already, and the
-- slot is free when `submit` returns.
pub submit-release :
    (id : String) (taken : Submission) (future : ℕ) (m : Manager)
    → is_busy m ≡ false
    → (submit id taken m).0 ≡ ok future
    → ((taken ≡ pending future)
        × ((submit id taken m).1.active_run_id ≡ some id)
        × (is_busy (finish id future (submit id taken m).1) ≡ false))
      ⊎ ((taken ≡ completed future) × (is_busy (submit id taken m).1 ≡ false))
unfolding submit reserve submit_reserved claim release_reservation attach abort withdraw finish
    release clear_active register
submit-release id not_taken future m free h = ground (arith, free, h)
submit-release id (pending given) future m free h =
    inl (ground (arith, free, h, eq_iff id id, ==_iff m.next_token m.next_token))
submit-release id (completed given) future m free h =
    inr (ground (arith, free, h, eq_iff id id, ==_iff m.next_token m.next_token))
submit-release id (unattached given cancelled) future m free h = ground (arith, free, h)
