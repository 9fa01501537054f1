-- ===== src/Rerank/Examples.antt =====
-- A schedule for 23 candidates in four rounds, and its quotas.
use transit_scholar.Base.{refl, [], ◌∷◌, ◌+◌, ◌≤◌, min, ◌≡◌, sum, length, arith}
use transit_scholar.Base.Int.{pos}
use transit_scholar.Base.Result.{ok}
use transit_scholar.Rerank.Schedule.{
  LlmFineRerankConfig, LlmEliminationSchedule, round_quotas, elimination_rounds,
  recompute_round_quota, ceil_div, build_elimination_schedule, validate_round_quotas,
}
use transit_scholar.Rerank.Schedule.Budget.{
  build_elimination_schedule-validates, build_elimination_schedule-balanced,
}
use transit_scholar.Rerank.Schedule.Balance.{AllShares, IsFrontLoaded}

abbrev config : LlmFineRerankConfig
config = record {
  entry_candidates = 20;
  group_size = 6;
  max_rounds = 4;
  final_top_k = 5;
  seed = pos 0;
}

build_elimination_schedule-validates_example :
    (s : LlmEliminationSchedule) × (build_elimination_schedule (pos 23) config ≡ ok s)
    × (validate_round_quotas s ≡ ok tt)
    × (sum (round_quotas s) + s.effective_final_top_k ≡ min 20 23)
    × (s.effective_final_top_k ≡ min 5 (min 20 23))
    × (length s.rounds ≤ 4)
build_elimination_schedule-validates_example =
    build_elimination_schedule-validates 23 config (omega arith)

-- 15 eliminations in four rounds: 4, 4, 4 and 3
abbrev schedule : LlmEliminationSchedule
schedule = record {
  configured_entry_candidates = 20;
  actual_candidate_count = 23;
  effective_entry_count = 20;
  configured_final_top_k = 5;
  effective_final_top_k = 5;
  total_eliminations = 15;
  rounds =
      record { round_number = 1; survivor_count = 20; elimination_quota = 4 }
      ∷ record { round_number = 2; survivor_count = 16; elimination_quota = 4 }
      ∷ record { round_number = 3; survivor_count = 12; elimination_quota = 4 }
      ∷ record { round_number = 4; survivor_count = 8; elimination_quota = 3 }
      ∷ [];
}

build_elimination_schedule-balanced_example :
    AllShares 4 15 schedule.rounds × IsFrontLoaded schedule.rounds
unfolding build_elimination_schedule elimination_rounds recompute_round_quota ceil_div
build_elimination_schedule-balanced_example =
    build_elimination_schedule-balanced 23 config schedule (omega arith) refl
