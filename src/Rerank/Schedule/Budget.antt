-- ===== src/Rerank/Schedule/Budget.antt =====
-- The schedule that is built spends its budget exactly, and passes its own validation.
use transit_scholar.Base.{
  ℕ, zero, suc, ◌+◌, ◌-◌, ◌≤◌, ◌<◌, min, ◌≡◌, refl, inl, inr, List, [], ◌∷◌, map, sum, length,
  arith, ◌==◌, ==_iff, Bool-cases,
}
use transit_scholar.Base.Int.{pos}
use transit_scholar.Base.Result.{ok}
use transit_scholar.Rerank.Schedule.{
  EliminationRound, LlmFineRerankConfig, LlmEliminationSchedule, round_quotas, ceil_div,
  recompute_round_quota, elimination_rounds, build_elimination_schedule, validate_rounds,
  validate_round_quotas,
}
use transit_scholar.Rerank.Schedule.Balance.{AllShares, IsFrontLoaded, AllShares-cons}
use transit_scholar.Rerank.Schedule.Quota.{ceil_div-le, ceil_div-one}

recompute_ok :
    (s k r : ℕ) → 0 < r → recompute_round_quota (pos s) (pos k) (pos r) ≡ ok (ceil_div (s - k) r)
unfolding recompute_round_quota
recompute_ok s k zero h = elim h [ ]
recompute_ok s k (suc r) h = refl

-- What the loop over the rounds left makes of `remaining` eliminations above the target `k`.
record IsExact (left k remaining : ℕ) (rs : List EliminationRound) : Type 0 where
  total : sum (map (λ (r : EliminationRound). r.elimination_quota) rs) ≡ remaining
  validates : validate_rounds k (k + remaining) rs ≡ ok k
  short : length rs ≤ left
  shares : AllShares left remaining rs
  front : IsFrontLoaded rs

IsExact-cons :
    (left k remaining n : ℕ) (rs : List EliminationRound)
    → IsExact left k (remaining - ceil_div remaining (suc left)) rs
    → IsExact (suc left) k remaining (
        record {
          round_number = n;
          survivor_count = k + remaining;
          elimination_quota = ceil_div remaining (suc left);
        }
        ∷ rs)
unfolding validate_rounds
IsExact-cons left k remaining n rs e =
    let q = ceil_div remaining (suc left) in
    let le : q ≤ remaining = ceil_div-le remaining left in
    let (shares, front) = AllShares-cons left remaining n (k + remaining) rs e.shares e.front in
    let shift : k + remaining - q ≡ k + (remaining - q) = omega arith in
    record {
      total = omega (arith, e.total);
      validates = rw shift (ground (arith, e.validates));
      short = omega (arith, e.short);
      shares = shares;
      front = front;
    }

round_quota :
    (left n max k remaining : ℕ)
    → suc left + n ≡ max + 1
    → recompute_round_quota (pos (k + remaining)) (pos k) (pos (max - n + 1))
      ≡ ok (ceil_div remaining (suc left))
round_quota left n max k remaining e =
    let above : k + remaining - k ≡ remaining = omega arith in
    let still_left : max - n + 1 ≡ suc left = omega arith in
    rw still_left (rw (recompute_ok (k + remaining) k (suc left) (omega arith)) (rw above refl))

last_quota : (left remaining : ℕ) → left ≡ 0 → remaining - ceil_div remaining (suc left) ≡ 0
last_quota left remaining e = rw e (rw (ceil_div-one remaining) (omega arith))

elimination_rounds-IsExact :
    (left n max k remaining : ℕ)
    → left + n ≡ max + 1
    → (left ≡ 0 → remaining ≡ 0)
    → (rs : List EliminationRound) × (elimination_rounds left n max k (k + remaining) remaining
        ≡ ok rs)
      × IsExact left k remaining rs
unfolding elimination_rounds validate_rounds
elimination_rounds-IsExact zero n max k remaining e last =
    let none_left : remaining ≡ 0 = last refl in
    (
      [],
      refl,
      record {
        total = omega arith;
        validates = rw none_left (ground arith);
        short = omega arith;
        shares = tt;
        front = tt;
      },
    )
elimination_rounds-IsExact (suc left) n max k remaining e last =
    elim (Bool-cases (remaining == 0)) [
      | inl done ↦
          let none_left : remaining ≡ 0 = (==_iff remaining 0).0 done in
          (
            [],
            rw (done, elimination_rounds),
            record {
              total = omega arith;
              validates = rw none_left (ground arith);
              short = omega arith;
              shares = tt;
              front = tt;
            },
          )
      | inr more ↦
          let q = ceil_div remaining (suc left) in
          let (rs, built, exact) =
            elimination_rounds-IsExact left (n + 1) max k (remaining - q) (omega arith)
              (last_quota left remaining) in
          let shift : k + remaining - q ≡ k + (remaining - q) =
            omega (arith, ceil_div-le remaining left) in
          (
            record { round_number = n; survivor_count = k + remaining; elimination_quota = q } ∷ rs,
            rw (more, elimination_rounds)
                (rw (round_quota left n max k remaining e) (rw shift (rw built))),
            IsExact-cons left k remaining n rs exact,
          )
    ]

-- the schedule that is built, with the rounds that the loop gives
record Built (count : ℕ) (config : LlmFineRerankConfig) (s : LlmEliminationSchedule) : Type 0 where
  built : build_elimination_schedule (pos count) config ≡ ok s
  entry : s.effective_entry_count ≡ min config.entry_candidates count
  kept : s.effective_final_top_k ≡ min config.final_top_k (min config.entry_candidates count)
  total : s.total_eliminations + s.effective_final_top_k ≡ s.effective_entry_count
  exact : IsExact config.max_rounds s.effective_final_top_k s.total_eliminations s.rounds

build_elimination_schedule-Built :
    (count : ℕ) (config : LlmFineRerankConfig)
    → 0 < config.max_rounds
    → (s : LlmEliminationSchedule) × Built count config s
unfolding build_elimination_schedule
build_elimination_schedule-Built count config h =
    let entry = min config.entry_candidates count in
    let k = min config.final_top_k entry in
    let (rs, built, exact) =
      elimination_rounds-IsExact config.max_rounds 1 config.max_rounds k (entry - k) refl
        (λ z. omega arith) in
    let whole : k + (entry - k) ≡ entry = omega arith in
    (
      record {
        configured_entry_candidates = config.entry_candidates;
        actual_candidate_count = count;
        effective_entry_count = entry;
        configured_final_top_k = config.final_top_k;
        effective_final_top_k = k;
        total_eliminations = entry - k;
        rounds = rs;
      },
      record {
        built = rw (rw whole at built);
        entry = refl;
        kept = refl;
        total = omega arith;
        exact = exact;
      },
    )

-- For a number of candidates that is not negative and a configuration whose round count is
-- positive, a schedule is built, it is accepted by `validate_round_quotas`, its quotas add up to
-- the candidates entered less those kept, and it has at most `max_rounds` rounds.
pub build_elimination_schedule-validates :
    (count : ℕ) (config : LlmFineRerankConfig)
    → 0 < config.max_rounds
    → (s : LlmEliminationSchedule) × (build_elimination_schedule (pos count) config ≡ ok s)
      × (validate_round_quotas s ≡ ok tt)
      × (sum (round_quotas s) + s.effective_final_top_k ≡ min config.entry_candidates count)
      × (s.effective_final_top_k ≡ min config.final_top_k (min config.entry_candidates count))
      × (length s.rounds ≤ config.max_rounds)
unfolding validate_round_quotas
build_elimination_schedule-validates count config h =
    let (s, b) = build_elimination_schedule-Built count config h in
    let whole : s.effective_final_top_k + s.total_eliminations ≡ s.effective_entry_count =
      omega (arith, b.total) in
    (
      s,
      b.built,
      ground (arith, b.exact.total, rw whole at b.exact.validates),
      omega (arith, b.exact.total, b.total, b.entry),
      b.kept,
      b.exact.short,
    )

-- The quotas of a schedule that is built with a positive round count are spread evenly: each is the
-- number of eliminations divided by `max_rounds`, rounded down or up, and none is below the one
-- that follows it.
pub build_elimination_schedule-balanced :
    (count : ℕ) (config : LlmFineRerankConfig) (s : LlmEliminationSchedule)
    → 0 < config.max_rounds
    → build_elimination_schedule (pos count) config ≡ ok s
    → AllShares config.max_rounds s.total_eliminations s.rounds × IsFrontLoaded s.rounds
build_elimination_schedule-balanced count config s h made =
    let (built, b) = build_elimination_schedule-Built count config h in
    let same : built ≡ s = ground (arith, b.built, made) in
    rw (← same) (b.exact.shares, b.exact.front)
