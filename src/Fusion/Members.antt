-- ===== src/Fusion/Members.antt =====
-- Reranking (src/transit_scholar/layer2/retrieval/fusion.py) keeps the members of the protected set.
pub mod Padding
use transit_scholar.Base.{
  ℕ, zero, suc, ◌+◌, ◌≤◌, String, ◌≡◌, ◌≢◌, ◌↔◌, refl, sym, ap, ◌∙◌, Bool, true, false, Option,
  none, some, ◌⊎◌, inl, inr, List, [], ◌∷◌, ◌++◌, map, Memᴰ, length, length-append, str_eq, eq_iff,
  any, arith, if◌then◌else◌, Bool-cases, Option-cases,
}
use transit_scholar.Base.Distinct.{
  IsDistinct, AllIn, length-IsDistinct, mem-append, mem_left, mem_right, append-IsDistinct,
}
use transit_scholar.Fusion.{
  RetrievalHit, key_of, has_id, get_elem?, take, clone, add_clone, keep_missing, reranked_hits,
  missing_hits, pad_protected_set, number_hits,
}

module _ {Score Body : Type 0} where
  abbrev pub keys : List (RetrievalHit Score Body) → List String
  keys hits = map key_of hits

  -- every hit has an identifier
  abbrev pub AllNamed : List (RetrievalHit Score Body) → Type 0
  AllNamed [] = Unit
  AllNamed (hit ∷ hits) = (hit.chunk_id ≡ some (key_of hit)) × AllNamed hits

  pub get_elem-mem :
      (hits : List (RetrievalHit Score Body)) (i : ℕ) (hit : RetrievalHit Score Body)
      → get_elem? hits i ≡ some hit
      → Memᴰ (key_of hit) (keys hits)
  get_elem-mem [] i hit h = cc
  get_elem-mem (x ∷ xs) zero hit h =
      let same : hit ≡ x = ground (arith, h) in Memᴰ.head (ap key_of same)
  get_elem-mem (x ∷ xs) (suc i) hit h = Memᴰ.tail (get_elem-mem xs i hit h)

  -- hits with one identifier stand at one place
  get_elem-place :
      (hits : List (RetrievalHit Score Body)) (i j : ℕ) (a b : RetrievalHit Score Body)
      → IsDistinct (keys hits)
      → get_elem? hits i ≡ some a
      → get_elem? hits j ≡ some b
      → key_of a ≡ key_of b
      → i ≡ j
  get_elem-place [] i j a b distinct ha hb e = cc
  get_elem-place (x ∷ xs) zero zero a b distinct ha hb e = refl
  get_elem-place (x ∷ xs) zero (suc j) a b (fresh, distinct) ha hb e =
      let same : a ≡ x = ground (arith, ha) in
      elim (fresh (rw (← same) (rw e (get_elem-mem xs j b hb)))) [ ]
  get_elem-place (x ∷ xs) (suc i) zero a b (fresh, distinct) ha hb e =
      let same : b ≡ x = ground (arith, hb) in
      elim (fresh (rw (← same) (rw (← e) (get_elem-mem xs i a ha)))) [ ]
  get_elem-place (x ∷ xs) (suc i) (suc j) a b (fresh, distinct) ha hb e =
      ap suc (get_elem-place xs i j a b distinct ha hb e)

  get_elem-named :
      (hits : List (RetrievalHit Score Body)) (i : ℕ) (hit : RetrievalHit Score Body)
      → AllNamed hits
      → get_elem? hits i ≡ some hit
      → hit.chunk_id ≡ some (key_of hit)
  get_elem-named [] i hit named h = cc
  get_elem-named (x ∷ xs) zero hit (first, rest) h =
      let same : hit ≡ x = ground (arith, h) in rw same first
  get_elem-named (x ∷ xs) (suc i) hit (first, rest) h = get_elem-named xs i hit rest h

  -- a reranked hit is one of those that the pairs name
  abbrev pub Named : List (RetrievalHit Score Body) → List (ℕ × Score) → String → Type 0
  Named protected pairs key =
      (i : ℕ) × (hit : RetrievalHit Score Body) × Memᴰ i (map (λ p. p.0) pairs)
      × (get_elem? protected i ≡ some hit)
      × (key_of hit ≡ key)

  add_clone-Named :
      (protected : List (RetrievalHit Score Body)) (i : ℕ) (score : Score)
      (pairs : List (ℕ × Score)) (rest : List (RetrievalHit Score Body)) (key : String)
      (o : Option (RetrievalHit Score Body))
      → get_elem? protected i ≡ o
      → (Memᴰ key (keys rest) → Named protected pairs key)
      → Memᴰ key (keys (add_clone o score rest))
      → Named protected ((i, score) ∷ pairs) key
  unfolding add_clone clone
  add_clone-Named protected i score pairs rest key none h later m =
      let (j, hit, n, at, e) = later m in (j, hit, Memᴰ.tail n, at, e)
  add_clone-Named protected i score pairs rest key (some hit) h later (Memᴰ.head e) =
      (i, hit, Memᴰ.head refl, h, sym e)
  add_clone-Named protected i score pairs rest key (some hit) h later (Memᴰ.tail m) =
      let (j, other, n, at, e) = later m in (j, other, Memᴰ.tail n, at, e)

  pub reranked_hits-Named :
      (protected : List (RetrievalHit Score Body)) (pairs : List (ℕ × Score)) (key : String)
      → Memᴰ key (keys (reranked_hits protected pairs))
      → Named protected pairs key
  unfolding reranked_hits
  reranked_hits-Named protected [] key m = elim m [ ]
  reranked_hits-Named protected ((i, score) ∷ pairs) key m =
      add_clone-Named protected i score pairs (reranked_hits protected pairs) key
        (get_elem? protected i) refl (reranked_hits-Named protected pairs key) m

  add_clone-IsDistinct :
      (score : Score) (rest : List (RetrievalHit Score Body)) (o : Option (RetrievalHit Score Body))
      → ((hit : RetrievalHit Score Body) → o ≡ some hit → Memᴰ (key_of hit) (keys rest) → ⊥)
      → IsDistinct (keys rest)
      → IsDistinct (keys (add_clone o score rest))
  unfolding add_clone clone
  add_clone-IsDistinct score rest none fresh distinct = distinct
  add_clone-IsDistinct score rest (some hit) fresh distinct = (fresh hit refl, distinct)

  -- A reply that names every index at most once gives every identifier at most once.
  pub reranked_hits-IsDistinct :
      (protected : List (RetrievalHit Score Body)) (pairs : List (ℕ × Score))
      → IsDistinct (keys protected)
      → IsDistinct (map (λ (p : ℕ × Score). p.0) pairs)
      → IsDistinct (keys (reranked_hits protected pairs))
  unfolding reranked_hits
  reranked_hits-IsDistinct protected [] distinct once = tt
  reranked_hits-IsDistinct protected ((i, score) ∷ pairs) distinct (fresh, once) =
      add_clone-IsDistinct score (reranked_hits protected pairs) (get_elem? protected i)
        (λ hit h m.
          let (j, other, n, at, e) = reranked_hits-Named protected pairs (key_of hit) m in
          let same = get_elem-place protected i j hit other distinct h at (sym e) in
          fresh (rw same n))
        (reranked_hits-IsDistinct protected pairs distinct once)

  add_clone-AllNamed :
      (score : Score) (rest : List (RetrievalHit Score Body)) (o : Option (RetrievalHit Score Body))
      → ((hit : RetrievalHit Score Body) → o ≡ some hit → hit.chunk_id ≡ some (key_of hit))
      → AllNamed rest
      → AllNamed (add_clone o score rest)
  unfolding add_clone clone
  add_clone-AllNamed score rest none named all = all
  add_clone-AllNamed score rest (some hit) named all = (named hit refl, all)

  pub reranked_hits-AllNamed :
      (protected : List (RetrievalHit Score Body)) (pairs : List (ℕ × Score))
      → AllNamed protected
      → AllNamed (reranked_hits protected pairs)
  unfolding reranked_hits
  reranked_hits-AllNamed protected [] named = tt
  reranked_hits-AllNamed protected ((i, score) ∷ pairs) named =
      add_clone-AllNamed score (reranked_hits protected pairs) (get_elem? protected i)
        (λ hit h. get_elem-named protected i hit named h)
        (reranked_hits-AllNamed protected pairs named)

  pub any-mem :
      (hits : List (RetrievalHit Score Body)) (id : String)
      → AllNamed hits
      → (any (has_id id) hits ≡ true) ↔ Memᴰ id (keys hits)
  any-mem [] id named = (λ h. cc, λ m. elim m [ ])
  any-mem (hit ∷ hits) id (first, named) =
      let rest = any-mem hits id named in
      let test : has_id id hit ≡ str_eq (key_of hit) id = rw first refl in
      (
        λ h. elim (Bool-cases (str_eq (key_of hit) id)) [
          | inl here ↦ Memᴰ.head (sym ((eq_iff (key_of hit) id).0 here))
          | inr other ↦ Memᴰ.tail (rest.0 (ground (arith, h, test, other)))
        ],
        λ m. elim m [
          | Memᴰ.head e ↦
              let here : str_eq (key_of hit) id ≡ true = (eq_iff (key_of hit) id).1 (sym e) in
              ground (arith, test, here)
          | Memᴰ.tail n ↦ ground (arith, rest.1 n)
        ],
      )
