-- ===== src/Base/Text/Laws.antt =====
-- `strip` twice is `strip` once.
use Prim.Native.String.{String, [], ◌∷◌}
use mathlib.Core.Path.{◌≡◌, refl}
use mathlib.Core.Bool.{false, not, ◌&&◌}
use mathlib.Core.Logic.{inl, inr}
use transit_scholar.Base.Tests.{Bool-cases}
use transit_scholar.Base.Text.{is_space, nonempty, lstrip, rstrip, strip}

-- the text does not begin with a space
abbrev IsTrimmed : String → Type 0
IsTrimmed [] = Unit
IsTrimmed (c ∷ s) = is_space c ≡ false

lstrip-IsTrimmed : (s : String) → IsTrimmed (lstrip s)
unfolding lstrip
lstrip-IsTrimmed [] = tt
lstrip-IsTrimmed (c ∷ s) = elim (Bool-cases (is_space c)) [
  | inl space ↦ rw space (lstrip-IsTrimmed s)
  | inr letter ↦ rw letter letter
]

lstrip_of_IsTrimmed : (s : String) → IsTrimmed s → lstrip s ≡ s
unfolding lstrip
lstrip_of_IsTrimmed [] h = refl
lstrip_of_IsTrimmed (c ∷ s) h = rw h refl

rstrip-IsTrimmed : (s : String) → IsTrimmed s → IsTrimmed (rstrip s)
unfolding rstrip
rstrip-IsTrimmed [] h = tt
rstrip-IsTrimmed (c ∷ s) h = rw h h

rstrip-rstrip : (s : String) → rstrip (rstrip s) ≡ rstrip s
unfolding rstrip
rstrip-rstrip [] = refl
rstrip-rstrip (c ∷ s) = elim (Bool-cases (is_space c && not (nonempty (rstrip s)))) [
  | inl blank ↦ rw blank refl
  | inr kept ↦ rw kept (rw (rstrip-rstrip s) (rw kept refl))
]

pub strip-strip : (s : String) → strip (strip s) ≡ strip s
unfolding strip
strip-strip s =
    rw (lstrip_of_IsTrimmed (rstrip (lstrip s)) (rstrip-IsTrimmed (lstrip s) (lstrip-IsTrimmed s)))
      (rstrip-rstrip (lstrip s))
