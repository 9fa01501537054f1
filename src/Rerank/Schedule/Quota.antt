-- ===== src/Rerank/Schedule/Quota.antt =====
-- Arithmetic of the rounded-up quotient that is a round's quota.
use native.Mathlib.Nat.{div-add-mod', mod-lt}
use transit_scholar.Base.{ℕ, suc, ◌+◌, ◌*◌, ◌≤◌, ◌≡◌, arith}
use transit_scholar.Rerank.Schedule.{ceil_div}

-- A round eliminates at most what remains.
pub ceil_div-le : (a n : ℕ) → ceil_div a (suc n) ≤ a
unfolding ceil_div
ceil_div-le a n = grind (arith, div-add-mod' (a + n) (suc n), mod-lt (a + n) {m = suc n})

-- The last round eliminates all that remains.
pub ceil_div-one : (a : ℕ) → ceil_div a 1 ≡ a
unfolding ceil_div
ceil_div-one a = omega arith

pub ceil_div_bounds :
    (a n : ℕ) → (a ≤ ceil_div a (suc n) * suc n) × (ceil_div a (suc n) * suc n ≤ a + n)
unfolding ceil_div
ceil_div_bounds a n = grind (arith, div-add-mod' (a + n) (suc n), mod-lt (a + n) {m = suc n})
