-- ===== src/Base/Int.antt =====
-- Python's `int` where the source tests its sign.
use Prim.Native.Nat.{ℕ, zero, suc}
use mathlib.Core.Bool.{Bool, true, false}

-- `negsuc n` is -(n + 1).
pub data ℤ : Type 0 where
  pos : ℕ → ℤ
  negsuc : ℕ → ℤ

-- `x < 0`
abbrev pub is_negative : ℤ → Bool
is_negative (pos n) = false
is_negative (negsuc n) = true

-- `x < 1`
abbrev pub is_below_one : ℤ → Bool
is_below_one (pos zero) = true
is_below_one (pos (suc n)) = false
is_below_one (negsuc n) = true

-- `max(0, x)`
abbrev pub to_ℕ : ℤ → ℕ
to_ℕ (pos n) = n
to_ℕ (negsuc n) = 0
