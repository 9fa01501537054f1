-- ===== src/Fusion/Members/Padding.antt =====
-- The reranked hits and the missing ones are together the protected set
-- (`_pad_protected_set` of src/transit_scholar/layer2/retrieval/fusion.py).
use transit_scholar.Base.{
  ℕ, zero, suc, ◌≤◌, String, ◌≡◌, refl, ap, ◌⊎◌, inl, inr, List, [], ◌∷◌, ◌++◌, map, Memᴰ, length,
  length-append, any, arith, Bool-cases,
}
use transit_scholar.Base.Distinct.{
  IsDistinct, AllIn, length-IsDistinct, mem-append, mem_left, mem_right, append-IsDistinct,
}
use transit_scholar.Fusion.{
  RetrievalHit, key_of, has_id, take, keep_missing, reranked_hits, missing_hits, pad_protected_set,
}
use transit_scholar.Fusion.Members.{
  keys, AllNamed, get_elem-mem, reranked_hits-Named, reranked_hits-IsDistinct,
  reranked_hits-AllNamed, any-mem,
}

take_all : {A : Type 0} (n : ℕ) (xs : List A) → length xs ≤ n → take n xs ≡ xs
take_all zero [] h = refl
take_all zero (x ∷ xs) h = ground (arith, h)
take_all (suc n) [] h = refl
take_all (suc n) (x ∷ xs) h = ap (λ ys. x ∷ ys) (take_all n xs (omega (arith, h)))

module _ {Score Body : Type 0} where
  module _ (reranked : List (RetrievalHit Score Body)) (named : AllNamed reranked) where
    -- what the missing hits are, by their identifiers
    record IsMissing (missing protected : List (RetrievalHit Score Body)) : Type 0 where
      inside : AllIn (keys missing) (keys protected)
      apart : (id : String) → Memᴰ id (keys reranked) → Memᴰ id (keys missing) → ⊥
      once : IsDistinct (keys missing)
      cover :
          (id : String)
          → Memᴰ id (keys protected)
          → Memᴰ id (keys reranked) ⊎ Memᴰ id (keys missing)

    missing_hits-IsMissing :
        (protected : List (RetrievalHit Score Body))
        → AllNamed protected
        → IsDistinct (keys protected)
        → IsMissing (missing_hits reranked protected) protected
    unfolding missing_hits keep_missing
    missing_hits-IsMissing [] all distinct = record {
      inside = λ id m. m;
      apart = λ id m n. elim n [ ];
      once = tt;
      cover = λ id m. elim m [ ];
    }
    missing_hits-IsMissing (hit ∷ hits) (first, all) (fresh, distinct) =
        let rest = missing_hits-IsMissing hits all distinct in
        let known = any-mem reranked (key_of hit) named in
        elim (Bool-cases (any (has_id (key_of hit)) reranked)) [
          | inl there ↦
              rw (first, keep_missing)
                (rw there (record {
                  inside = λ id m. Memᴰ.tail (rest.inside id m);
                  apart = rest.apart;
                  once = rest.once;
                  cover = λ id m. elim m [
                    | Memᴰ.head e ↦ inl (rw e (known.0 there))
                    | Memᴰ.tail n ↦ rest.cover id n
                  ];
                }))
          | inr absent ↦
              let out : Memᴰ (key_of hit) (keys reranked) → ⊥ = λ m. cc (known.1 m, absent) in
              rw (first, keep_missing)
                (rw absent (record {
                  inside = λ id m. elim m [
                    | Memᴰ.head e ↦ Memᴰ.head e
                    | Memᴰ.tail n ↦ Memᴰ.tail (rest.inside id n)
                  ];
                  apart = λ id m n. elim n [
                    | Memᴰ.head e ↦ out (rw (← e) m)
                    | Memᴰ.tail k ↦ rest.apart id m k
                  ];
                  once = (λ m. fresh (rest.inside (key_of hit) m), rest.once);
                  cover = λ id m. elim m [
                    | Memᴰ.head e ↦ inr (Memᴰ.head e)
                    | Memᴰ.tail n ↦ elim (rest.cover id n) [
                      | inl k ↦ inl k
                      | inr k ↦ inr (Memᴰ.tail k)
                    ]
                  ];
                }))
        ]

  keys-append : (xs ys : List (RetrievalHit Score Body)) → keys (xs ++ ys) ≡ keys xs ++ keys ys
  keys-append [] ys = refl
  keys-append (x ∷ xs) ys = ap (λ ks. key_of x ∷ ks) (keys-append xs ys)

  length-keys : (xs : List (RetrievalHit Score Body)) → length (keys xs) ≡ length xs
  length-keys [] = refl
  length-keys (x ∷ xs) = ap suc (length-keys xs)

  -- the same identifiers, none of them twice
  pub record IsSameSet (result protected : List (RetrievalHit Score Body)) : Type 0 where
    pub once : IsDistinct (keys result)
    pub inside : AllIn (keys result) (keys protected)
    pub cover : AllIn (keys protected) (keys result)

  module _ (protected : List (RetrievalHit Score Body)) (pairs : List (ℕ × Score)) (top_k : ℕ)
      (all : AllNamed protected) (distinct : IsDistinct (keys protected))
      (once : IsDistinct (map (λ (p : ℕ × Score). p.0) pairs)) where
    reranked_inside : AllIn (keys (reranked_hits protected pairs)) (keys protected)
    reranked_inside id m =
        let (i, hit, n, at, e) = reranked_hits-Named protected pairs id m in
        rw (← e) (get_elem-mem protected i hit at)

    joined-IsSameSet :
        IsSameSet
          (reranked_hits protected pairs ++ missing_hits (reranked_hits protected pairs) protected)
          protected
    joined-IsSameSet =
        let reranked = reranked_hits protected pairs in
        let named = reranked_hits-AllNamed protected pairs all in
        let missing = missing_hits reranked protected in
        let facts = missing_hits-IsMissing reranked named protected all distinct in
        let one = reranked_hits-IsDistinct protected pairs distinct once in
        let split = keys-append reranked missing in
        record {
          once =
              rw split
                (append-IsDistinct (keys reranked) (keys missing) one facts.once facts.apart);
          inside = λ id m.
              let n : Memᴰ id (keys reranked ++ keys missing) = rw (← split) m in
              elim (mem-append id (keys reranked) (keys missing) n) [
                | inl k ↦ reranked_inside id k
                | inr k ↦ facts.inside id k
              ];
          cover = λ id m. rw split (elim (facts.cover id m) [
            | inl k ↦ mem_left id (keys reranked) (keys missing) k
            | inr k ↦ mem_right id (keys reranked) (keys missing) k
          ]);
        }

    pub pad-IsSameSet :
        length protected ≤ top_k
        → IsSameSet (pad_protected_set (reranked_hits protected pairs) protected top_k) protected
    unfolding pad_protected_set
    pad-IsSameSet room =
        let reranked = reranked_hits protected pairs in
        let missing = missing_hits reranked protected in
        let joined = joined-IsSameSet in
        let short =
          length-IsDistinct (keys (reranked ++ missing)) (keys protected) joined.once
            joined.inside in
        let fits : length (reranked ++ missing) ≤ top_k =
          omega (arith, short, room, length-keys (reranked ++ missing), length-keys protected) in
        let part : length reranked ≤ top_k = omega (arith, fits, length-append reranked missing) in
        rw (take_all top_k reranked part, take_all top_k (reranked ++ missing) fits) joined
