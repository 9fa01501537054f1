-- ===== src/Rerank/Schedule/Balance.antt =====
-- The quotas of the schedule that is built are spread evenly over the rounds, the larger ones first.
use native.Mathlib.Nat.{mul-le-mul_right}
use transit_scholar.Base.{
  ℕ, suc, ◌+◌, ◌-◌, ◌*◌, ◌≤◌, ◌<◌, inl, inr, List, [], ◌∷◌, arith, leb, leb→le, Bool-cases,
}
use transit_scholar.Rerank.Schedule.{EliminationRound, ceil_div}
use transit_scholar.Rerank.Schedule.Quota.{ceil_div-le, ceil_div_bounds}

-- `q` is `total / n`, rounded down or up
abbrev pub IsShare : ℕ → ℕ → ℕ → Type 0
IsShare n total q = (q * n < total + n) × (total < (q + 1) * n)

abbrev pub AllShares : ℕ → ℕ → List EliminationRound → Type 0
AllShares n total [] = Unit {0}
AllShares n total (r ∷ rs) = IsShare n total r.elimination_quota × AllShares n total rs

abbrev pub AtMost : ℕ → List EliminationRound → Type 0
AtMost q [] = Unit {0}
AtMost q (r ∷ rs) = r.elimination_quota ≤ q

-- no quota is below the one that follows it
abbrev pub IsFrontLoaded : List EliminationRound → Type 0
IsFrontLoaded [] = Unit {0}
IsFrontLoaded (r ∷ rs) = AtMost r.elimination_quota rs × IsFrontLoaded rs

below : (a b n : ℕ) → a * n < b * n → a < b
below a b n h = elim (Bool-cases (leb b a)) [
  | inl le ↦ absurd (omega (arith, h, mul-le-mul_right n (leb→le b a le)))
  | inr gt ↦ ground (arith, gt)
]

-- a quota of the first of `n + 1` rounds, and the others once it is taken off
record IsFirst (n total q : ℕ) : Type 0 where
  within : q ≤ total
  covers : total ≤ q * suc n
  least : q * suc n < total + suc n

ceil_div-IsFirst : (total n : ℕ) → IsFirst n total (ceil_div total (suc n))
ceil_div-IsFirst total n = record {
  within = ceil_div-le total n;
  covers = (ceil_div_bounds total n).0;
  least = omega (arith, (ceil_div_bounds total n).1);
}

share_le : (n total q p : ℕ) → IsFirst n total q → IsShare n (total - q) p → p ≤ q
share_le n total q p f s = omega (arith, below p (q + 1) n (omega (arith, f.within, f.covers, s.0)))

share_ge : (n total q p : ℕ) → IsFirst n total q → IsShare n (total - q) p → q ≤ p + 1
share_ge n total q p f s = omega (arith, below q (p + 2) n (omega (arith, f.within, f.least, s.1)))

IsShare-suc :
    (n total q p : ℕ) → IsFirst n total q → IsShare n (total - q) p → IsShare (suc n) total p
IsShare-suc n total q p f s =
    let le = share_le n total q p f s in
    let ge = share_ge n total q p f s in
    (omega (arith, f.within, s.0, le), omega (arith, f.within, s.1, ge))

AllShares-suc :
    (n total q : ℕ) (rs : List EliminationRound)
    → IsFirst n total q
    → AllShares n (total - q) rs
    → AllShares (suc n) total rs × AtMost q rs
AllShares-suc n total q [] f s = (tt, tt)
AllShares-suc n total q (r ∷ rs) f s = (
  (IsShare-suc n total q r.elimination_quota f s.0, (AllShares-suc n total q rs f s.1).0),
  share_le n total q r.elimination_quota f s.0,
)

-- a round that takes the rounded-up share, before rounds that are spread evenly
pub AllShares-cons :
    (n total m survivors : ℕ) (rs : List EliminationRound)
    → AllShares n (total - ceil_div total (suc n)) rs
    → IsFrontLoaded rs
    → AllShares (suc n) total (
        record {
          round_number = m;
          survivor_count = survivors;
          elimination_quota = ceil_div total (suc n);
        }
        ∷ rs)
      × IsFrontLoaded (
          record {
            round_number = m;
            survivor_count = survivors;
            elimination_quota = ceil_div total (suc n);
          }
          ∷ rs)
AllShares-cons n total m survivors rs shares front =
    let f = ceil_div-IsFirst total n in
    let (spread, at_most) = AllShares-suc n total (ceil_div total (suc n)) rs f shares in
    (((f.least, omega (arith, f.covers)), spread), (at_most, front))
