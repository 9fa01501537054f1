-- ===== src/Fusion/Entries/Examples.antt =====
-- Two searches fused and reranked; and a reply that names an index twice, which loses a hit.
use transit_scholar.Base.{
  ℕ, ◌+◌, ◌-◌, String, ◌≡◌, refl, Bool, Option, none, some, List, [], ◌∷◌, map, leb, arith, Memᴰ,
}
use transit_scholar.Fusion.{RetrievalHit, Method, Reply, scored, key_of, fuse, fuse_hybrid}
use transit_scholar.Fusion.Entries.{fuse_hybrid-IsSameSet}
use transit_scholar.Fusion.Members.Padding.{IsSameSet}

abbrev hit : String → RetrievalHit ℕ String
hit id = record {
  chunk_id = some id;
  score = 0;
  rank = 0;
  bm25_rank = none;
  dense_rank = none;
  rrf_rank = none;
  rerank_score = none;
  body = "text";
}

-- integral shares, 100 less the rank
abbrev share : Method → ℕ → ℕ
share method rank = 100 - rank

abbrev at_least : ℕ → ℕ → Bool
at_least a b = leb b a

abbrev words : List (RetrievalHit ℕ String)
words = hit "a" ∷ hit "b" ∷ []

abbrev vectors : List (RetrievalHit ℕ String)
vectors = hit "b" ∷ hit "c" ∷ []

abbrev reply : List (RetrievalHit ℕ String) → ℕ → Reply ℕ String
reply hits top_k = scored ((1, 7) ∷ (9, 5) ∷ [])

abbrev repeating : List (RetrievalHit ℕ String) → ℕ → Reply ℕ String
repeating hits top_k = scored ((0, 7) ∷ (0, 7) ∷ [])

abbrev keys_of : Option (List (RetrievalHit ℕ String) × List String) → List String
keys_of none = []
keys_of (some (hits, warnings)) = map key_of hits

abbrev fused :
    Option (List (RetrievalHit ℕ String) → ℕ → Reply ℕ String)
    → Option (List (RetrievalHit ℕ String) × List String)
fused = fuse_hybrid 0 ◌+◌ share at_least words vectors 10 2

plain_keys : keys_of (fused none) ≡ "b" ∷ "a" ∷ []
unfolding fuse_hybrid
plain_keys = refl

reranked_keys : keys_of (fused (some reply)) ≡ "a" ∷ "b" ∷ []
unfolding fuse_hybrid
reranked_keys = refl

-- the hit "a" is lost
repeating_keys : keys_of (fused (some repeating)) ≡ "b" ∷ "b" ∷ []
unfolding fuse_hybrid
repeating_keys = refl

abbrev protected : List (RetrievalHit ℕ String)
protected =
    record (hit "b") { score = 197; bm25_rank = some 2; dense_rank = some 1; rrf_rank = some 1 }
    ∷ record (hit "a") { score = 99; bm25_rank = some 1; rrf_rank = some 2 }
    ∷ []

fuse_hybrid-IsSameSet_example :
    (result : List (RetrievalHit ℕ String)) × (plain : List (RetrievalHit ℕ String)) × (fused
        (some reply)
      ≡ some (result, []))
    × (fused none ≡ some (plain, []))
    × IsSameSet result plain
unfolding fuse
fuse_hybrid-IsSameSet_example =
    fuse_hybrid-IsSameSet 0 ◌+◌ share at_least words vectors 10 2 reply protected
      ((1, 7) ∷ (9, 5) ∷ []) refl refl ((λ m. not_nine m), ((λ m. elim m [ ]), tt))
  where
    not_nine : Memᴰ {A = ℕ} 1 (9 ∷ []) → ⊥
    not_nine (Memᴰ.head e) = ground (arith, e)
    not_nine (Memᴰ.tail m) = elim m [ ]
