-- ===== src/Rerank/Schedule.antt =====
-- `LLMFineRerankConfig`, `recompute_round_quota`, `build_elimination_schedule` and
-- `validate_round_quotas` of src/transit_scholar/layer3/rerank/scheduler.py. A `ValueError` is an
-- `err` with a constructor for its message.
pub mod Quota
pub mod Budget
pub mod Balance
use transit_scholar.Base.{
  ℕ, zero, suc, ◌+◌, ◌-◌, ◌/◌, min, Bool, true, false, not, ◌&&◌, List, [], ◌∷◌, map, any, sum, ltb,
  ◌==◌, if◌then◌else◌,
}
use transit_scholar.Base.Int.{ℤ, pos, is_negative, is_below_one, to_ℕ}
use transit_scholar.Base.Result.{Result, ok, err, ◌>>=◌, ◌>>◌, guard}

pub data ScheduleError : Type 0 where
  entry_candidates_not_positive group_size_not_positive max_rounds_not_positive
        final_top_k_not_positive :
      ScheduleError
  actual_candidate_count_negative survivor_count_negative effective_final_top_k_negative
        rounds_remaining_not_positive :
      ScheduleError
  quotas_negative budget_mismatch survivors_mismatch quota_exceeds_budget target_missed :
      ScheduleError

-- A constructed configuration: `__post_init__` has accepted its four counts.
pub record LlmFineRerankConfig : Type 0 where
  pub entry_candidates : ℕ
  pub group_size : ℕ
  pub max_rounds : ℕ
  pub final_top_k : ℕ
  pub seed : ℤ

-- the constructor, with the checks of `__post_init__` in their order
unfoldable pub new_config : ℤ → ℤ → ℤ → ℤ → ℤ → Result ScheduleError LlmFineRerankConfig
new_config entry group rounds top_k seed = do
  guard (not (is_below_one entry)) entry_candidates_not_positive
  guard (not (is_below_one group)) group_size_not_positive
  guard (not (is_below_one rounds)) max_rounds_not_positive
  guard (not (is_below_one top_k)) final_top_k_not_positive
  ok (record {
    entry_candidates = to_ℕ entry;
    group_size = to_ℕ group;
    max_rounds = to_ℕ rounds;
    final_top_k = to_ℕ top_k;
    seed = seed;
  })

pub record EliminationRound : Type 0 where
  pub round_number : ℕ
  pub survivor_count : ℕ
  pub elimination_quota : ℕ

pub record LlmEliminationSchedule : Type 0 where
  pub configured_entry_candidates : ℕ
  pub actual_candidate_count : ℕ
  pub effective_entry_count : ℕ
  pub configured_final_top_k : ℕ
  pub effective_final_top_k : ℕ
  pub total_eliminations : ℕ
  pub rounds : List EliminationRound

abbrev pub round_quotas : LlmEliminationSchedule → List ℕ
round_quotas s = map (λ r. r.elimination_quota) s.rounds

-- `-(-a // n)` for `n > 0`: the quotient rounded up
unfoldable pub ceil_div : ℕ → ℕ → ℕ
ceil_div a n = (a + (n - 1)) / n

unfoldable pub recompute_round_quota : ℤ → ℤ → ℤ → Result ScheduleError ℕ
recompute_round_quota survivor_count effective_final_top_k rounds_remaining = do
  guard (not (is_negative survivor_count)) survivor_count_negative
  guard (not (is_negative effective_final_top_k)) effective_final_top_k_negative
  guard (not (is_below_one rounds_remaining)) rounds_remaining_not_positive
  -- both are not negative here, so the truncated difference is `max(0, a - b)`
  let remaining_eliminations = to_ℕ survivor_count - to_ℕ effective_final_top_k
  ok (ceil_div remaining_eliminations (to_ℕ rounds_remaining))

-- `for round_number in range(1, max_rounds + 1)`: `left` rounds of the range are left. A quota is
-- at most the eliminations that remain (`Quota.ceil_div-le`), so no `-=` goes below 0.
unfoldable pub elimination_rounds :
    ℕ → ℕ → ℕ → ℕ → ℕ → ℕ → Result ScheduleError (List EliminationRound)
elimination_rounds zero round_number max_rounds top_k survivors remaining = ok []
elimination_rounds (suc left) round_number max_rounds top_k survivors remaining =
    elim (remaining == 0) [
      | true ↦ ok []
      | false ↦ do
        let rounds_remaining = max_rounds - round_number + 1
        quota ← recompute_round_quota (pos survivors) (pos top_k) (pos rounds_remaining)
        rest ←
            elimination_rounds left (round_number + 1) max_rounds top_k (survivors - quota)
              (remaining - quota)
        ok (
            record {
              round_number = round_number;
              survivor_count = survivors;
              elimination_quota = quota;
            }
            ∷ rest)
    ]

unfoldable pub build_elimination_schedule :
    ℤ → LlmFineRerankConfig → Result ScheduleError LlmEliminationSchedule
build_elimination_schedule actual_candidate_count config = do
  guard (not (is_negative actual_candidate_count)) actual_candidate_count_negative
  let effective_entry = min config.entry_candidates (to_ℕ actual_candidate_count)
  let effective_top_k = min config.final_top_k effective_entry
  let total_eliminations = effective_entry - effective_top_k
  rounds ←
      elimination_rounds config.max_rounds 1 config.max_rounds effective_top_k effective_entry
        total_eliminations
  ok (record {
    configured_entry_candidates = config.entry_candidates;
    actual_candidate_count = to_ℕ actual_candidate_count;
    effective_entry_count = effective_entry;
    configured_final_top_k = config.final_top_k;
    effective_final_top_k = effective_top_k;
    total_eliminations = total_eliminations;
    rounds = rounds;
  })

-- The loop of `validate_round_quotas`; it returns the survivors. `survivors - target` is an `int`
-- in the source, so the test `quota > survivors - target` is written without a difference.
unfoldable pub validate_rounds : ℕ → ℕ → List EliminationRound → Result ScheduleError ℕ
validate_rounds target survivors [] = ok survivors
validate_rounds target survivors (r ∷ rs) = do
  guard (r.survivor_count == survivors) survivors_mismatch
  guard (not (ltb survivors (r.elimination_quota + target))) quota_exceeds_budget
  validate_rounds target (survivors - r.elimination_quota) rs

-- A quota is a number here, so the first test of the source, for a negative one, never fails.
unfoldable pub validate_round_quotas : LlmEliminationSchedule → Result ScheduleError (Unit {0})
unfolding validate_rounds
validate_round_quotas schedule = do
  guard (sum (round_quotas schedule) == schedule.total_eliminations) budget_mismatch
  survivors ←
      validate_rounds schedule.effective_final_top_k schedule.effective_entry_count schedule.rounds
  guard (survivors == schedule.effective_final_top_k) target_missed
  ok tt
