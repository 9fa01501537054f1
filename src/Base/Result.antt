-- ===== src/Base/Result.antt =====
-- A call that may raise, and a method that mutates a store and may raise. What was written before
-- a raise stays written, so the store comes back beside the error too.
use mathlib.Core.Path.{◌≡◌, refl}
use mathlib.Core.Logic.{◌⊎◌, inl, inr}
use mathlib.Core.Bool.{Bool, true, false}

pub data Result {ℓ κ} (E : Type ℓ) (A : Type κ) : Type (ℓ ⊔ κ) where
  ok : A → Result E A
  err : E → Result E A

-- `if not test: raise raised`
abbrev pub guard : {Raised : Type 0} → Bool → Raised → Result Raised (Unit {0})
guard false raised = err raised
guard true raised = ok tt

infixl 5 ◌>>=◌
-- what follows a call that may raise
abbrev pub ◌>>=◌ :
    {Raised Given Made : Type 0}
    → Result Raised Given
    → (Given → Result Raised Made)
    → Result Raised Made
err raised >>= next = err raised
ok given >>= next = next given

infixl 5 ◌>>◌
abbrev pub ◌>>◌ :
    {Raised Given Made : Type 0} → Result Raised Given → Result Raised Made → Result Raised Made
first >> second = first >>= λ given. second

-- a chain that returns has had every part of it return
pub >>=-eq-ok :
    {Raised Given Made : Type 0} (first : Result Raised Given) (next : Given → Result Raised Made)
    {made : Made}
    → (first >>= next) ≡ ok made
    → (given : Given) × (first ≡ ok given) × (next given ≡ ok made)
>>=-eq-ok (err raised) next returned = cc
>>=-eq-ok (ok given) next returned = (given, refl, returned)

pub Result-cases :
    {E A : Type 0} (m : Result E A) → ((e : E) × (m ≡ err e)) ⊎ ((a : A) × (m ≡ ok a))
Result-cases (ok a) = inr (a, refl)
Result-cases (err e) = inl (e, refl)

pub guard-eq-ok :
    {E B : Type 0} (b : Bool) (e : E) (k : Result E B) {x : B}
    → (guard b e >> k) ≡ ok x
    → (b ≡ true) × (k ≡ ok x)
guard-eq-ok true e k h = (refl, h)
guard-eq-ok false e k h = cc
