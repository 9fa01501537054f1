-- ===== src/Base/Distinct.antt =====
-- Lists without repetition, and what is a member of them.
use Prim.Native.Nat.{suc, ◌≤◌}
use mathlib.Core.Path.{◌≡◌, refl, sym, ◌∙◌}
use mathlib.Core.Logic.{◌≢◌, ◌⊎◌, inl, inr}
use mathlib.Core.List.{List, [], ◌∷◌, ◌++◌, Memᴰ}
use native.Mathlib.Omega.{arith}
use transit_scholar.Base.Lists.{length}

module _ {A : Type 0} where
  -- no member of the list occurs twice
  abbrev pub IsDistinct : List A → Type 0
  IsDistinct [] = Unit
  IsDistinct (x ∷ xs) = (Memᴰ x xs → ⊥) × IsDistinct xs

  abbrev pub AllIn : List A → List A → Type 0
  AllIn xs ys = (x : A) → Memᴰ x xs → Memᴰ x ys

  -- a list from which one occurrence of a member is taken
  removed : {x : A} (ys : List A) → Memᴰ x ys → List A
  removed [] m = []
  removed (y ∷ ys) (Memᴰ.head e) = ys
  removed (y ∷ ys) (Memᴰ.tail m) = y ∷ removed ys m

  length-removed : {x : A} (ys : List A) (m : Memᴰ x ys) → length ys ≡ suc (length (removed ys m))
  unfolding removed
  length-removed [] m = elim m [ ]
  length-removed (y ∷ ys) (Memᴰ.head e) = refl
  length-removed (y ∷ ys) (Memᴰ.tail m) = omega (arith, length-removed ys m)

  mem-removed :
      {x : A} (z : A) (ys : List A) (m : Memᴰ x ys) → z ≢ x → Memᴰ z ys → Memᴰ z (removed ys m)
  unfolding removed
  mem-removed z [] m other n = elim m [ ]
  mem-removed z (y ∷ ys) (Memᴰ.head e) other (Memᴰ.head f) = elim (other (f ∙ sym e)) [ ]
  mem-removed z (y ∷ ys) (Memᴰ.head e) other (Memᴰ.tail n) = n
  mem-removed z (y ∷ ys) (Memᴰ.tail m) other (Memᴰ.head f) = Memᴰ.head f
  mem-removed z (y ∷ ys) (Memᴰ.tail m) other (Memᴰ.tail n) = Memᴰ.tail (mem-removed z ys m other n)

  -- a list without repetition is no longer than one that has all its members
  pub length-IsDistinct : (xs ys : List A) → IsDistinct xs → AllIn xs ys → length xs ≤ length ys
  length-IsDistinct [] ys distinct inside = omega arith
  length-IsDistinct (x ∷ xs) ys (fresh, distinct) inside =
      let m = inside x (Memᴰ.head refl) in
      let rest =
        length-IsDistinct xs (removed ys m) distinct
          (λ z n. mem-removed z ys m (λ e. fresh (rw (← e) n)) (inside z (Memᴰ.tail n))) in
      omega (arith, rest, length-removed ys m)

  pub mem-append : (x : A) (xs ys : List A) → Memᴰ x (xs ++ ys) → Memᴰ x xs ⊎ Memᴰ x ys
  mem-append x [] ys m = inr m
  mem-append x (z ∷ xs) ys (Memᴰ.head e) = inl (Memᴰ.head e)
  mem-append x (z ∷ xs) ys (Memᴰ.tail m) = elim (mem-append x xs ys m) [
    | inl n ↦ inl (Memᴰ.tail n)
    | inr n ↦ inr n
  ]

  pub mem_left : (x : A) (xs ys : List A) → Memᴰ x xs → Memᴰ x (xs ++ ys)
  mem_left x [] ys m = elim m [ ]
  mem_left x (z ∷ xs) ys (Memᴰ.head e) = Memᴰ.head e
  mem_left x (z ∷ xs) ys (Memᴰ.tail m) = Memᴰ.tail (mem_left x xs ys m)

  pub mem_right : (x : A) (xs ys : List A) → Memᴰ x ys → Memᴰ x (xs ++ ys)
  mem_right x [] ys m = m
  mem_right x (z ∷ xs) ys m = Memᴰ.tail (mem_right x xs ys m)

  pub append-IsDistinct :
      (xs ys : List A)
      → IsDistinct xs
      → IsDistinct ys
      → ((x : A) → Memᴰ x xs → Memᴰ x ys → ⊥)
      → IsDistinct (xs ++ ys)
  append-IsDistinct [] ys left right apart = right
  append-IsDistinct (x ∷ xs) ys (fresh, left) right apart = (
    λ m. elim (mem-append x xs ys m) [ inl n ↦ fresh n | inr n ↦ apart x (Memᴰ.head refl) n ],
    append-IsDistinct xs ys left right (λ z m n. apart z (Memᴰ.tail m) n),
  )
