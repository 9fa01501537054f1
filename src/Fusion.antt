-- ===== src/Fusion.antt =====
-- Hybrid fusion (src/transit_scholar/layer2/retrieval/fusion.py): the ranks of two searches are fused, and
-- the best hits reranked without losing one. Scores are floating-point numbers, a parameter with
-- their addition and comparison; what a hit carries through unchanged is its `body`.
pub mod Members
pub mod Once
pub mod Entries
use transit_scholar.Base.{
  ℕ, zero, suc, ◌+◌, String, Bool, true, false, not, Option, none, some, List, [], ◌∷◌, ◌++◌, map,
  str_eq, any, if◌then◌else◌,
}
use transit_scholar.Base.Result.{Result, ok, err}

abbrev pub get_elem? : {A : Type 0} → List A → ℕ → Option A
get_elem? [] n = none
get_elem? (x ∷ xs) zero = some x
get_elem? (x ∷ xs) (suc n) = get_elem? xs n

-- Python's `xs[:n]`
abbrev pub take : {A : Type 0} → ℕ → List A → List A
take zero xs = []
take (suc n) [] = []
take (suc n) (x ∷ xs) = x ∷ take n xs

pub data Method : Type 0 where
  bm25 dense : Method

module _ (Score Body : Type 0) where
  pub record RetrievalHit : Type 0 where
    pub chunk_id : Option String
    pub score : Score
    pub rank : ℕ
    pub bm25_rank : Option ℕ
    pub dense_rank : Option ℕ
    pub rrf_rank : Option ℕ
    pub rerank_score : Option Score
    pub body : Body

  -- the entries of `scores` and `ranks` for one chunk
  pub record Entry : Type 0 where
    pub chunk_id : String
    pub score : Score
    pub bm25_rank : Option ℕ
    pub dense_rank : Option ℕ

  -- the reranker, where it is there and available: pairs of an index and a score, or the
  -- error code of a failure
  pub data Reply : Type 0 where
    scored : List (ℕ × Score) → Reply
    unavailable : String → Reply

module _ {Score Body : Type 0} where
  -- `hit.chunk_id or ""`
  abbrev pub key_of : RetrievalHit Score Body → String
  key_of hit = elim hit.chunk_id [ none ↦ "" | some id ↦ id ]

  abbrev pub has_id : String → RetrievalHit Score Body → Bool
  has_id id hit = elim hit.chunk_id [ none ↦ false | some other ↦ str_eq other id ]

  -- ----- reranking

  unfoldable pub clone : RetrievalHit Score Body → Score → RetrievalHit Score Body
  clone hit score = record hit { rank = 0; rerank_score = some score }

  -- the hit that a pair names, if it names one, and others
  unfoldable pub add_clone :
      Option (RetrievalHit Score Body)
      → Score
      → List (RetrievalHit Score Body)
      → List (RetrievalHit Score Body)
  unfolding clone
  add_clone none score rest = rest
  add_clone (some hit) score rest = clone hit score ∷ rest

  -- the hits of a reply, without those that name no index
  unfoldable pub reranked_hits :
      List (RetrievalHit Score Body) → List (ℕ × Score) → List (RetrievalHit Score Body)
  unfolding add_clone
  reranked_hits protected [] = []
  reranked_hits protected ((index, score) ∷ pairs) =
      add_clone (get_elem? protected index) score (reranked_hits protected pairs)

  -- a protected hit is kept, if it has an identifier that is not among the reranked ones
  unfoldable pub keep_missing :
      Option String
      → List (RetrievalHit Score Body)
      → RetrievalHit Score Body
      → List (RetrievalHit Score Body)
      → List (RetrievalHit Score Body)
  keep_missing none reranked hit rest = rest
  keep_missing (some id) reranked hit rest = if any (has_id id) reranked then rest else hit ∷ rest

  -- the protected hits that are not among the reranked ones
  unfoldable pub missing_hits :
      List (RetrievalHit Score Body)
      → List (RetrievalHit Score Body)
      → List (RetrievalHit Score Body)
  unfolding keep_missing
  missing_hits reranked [] = []
  missing_hits reranked (hit ∷ hits) =
      keep_missing hit.chunk_id reranked hit (missing_hits reranked hits)

  unfoldable pub pad_protected_set :
      List (RetrievalHit Score Body)
      → List (RetrievalHit Score Body)
      → ℕ
      → List (RetrievalHit Score Body)
  unfolding missing_hits
  pad_protected_set reranked protected top_k =
      take top_k (take top_k reranked ++ missing_hits reranked protected)

  -- `for rank, hit in enumerate(hits, start=...)`
  unfoldable pub number_hits : ℕ → List (RetrievalHit Score Body) → List (RetrievalHit Score Body)
  number_hits rank [] = []
  number_hits rank (hit ∷ hits) = record hit { rank = rank } ∷ number_hits (rank + 1) hits

  -- the protected hits, reranked if there is a reranker, and the warnings
  unfoldable pub rerank :
      Option (List (RetrievalHit Score Body) → ℕ → Reply Score Body)
      → List (RetrievalHit Score Body)
      → ℕ
      → List (RetrievalHit Score Body) × List String
  unfolding reranked_hits pad_protected_set number_hits
  rerank none protected top_k = (number_hits 1 protected, [])
  rerank (some provider) protected top_k = elim (provider protected top_k) [
    | unavailable code ↦ (number_hits 1 protected, code ∷ [])
    | scored pairs ↦
        (number_hits 1 (pad_protected_set (reranked_hits protected pairs) protected top_k), [])
  ]

  -- ----- the fusion of ranks

  module _ (zero_score : Score) (plus : Score → Score → Score) (share : Method → ℕ → Score)
      (at_least : Score → Score → Bool) where
    unfoldable pub new_entry : Method → String → ℕ → Entry Score Body
    new_entry bm25 key rank = record {
      chunk_id = key;
      score = plus zero_score (share bm25 rank);
      bm25_rank = some rank;
      dense_rank = none;
    }
    new_entry dense key rank = record {
      chunk_id = key;
      score = plus zero_score (share dense rank);
      bm25_rank = none;
      dense_rank = some rank;
    }

    unfoldable pub old_entry : Method → ℕ → Entry Score Body → Entry Score Body
    old_entry bm25 rank e = record e {
      score = plus e.score (share bm25 rank);
      bm25_rank = some rank;
    }
    old_entry dense rank e = record e {
      score = plus e.score (share dense rank);
      dense_rank = some rank;
    }

    -- the entry of a key is changed, or a new one comes last
    unfoldable pub put_entry :
        Method → String → ℕ → List (Entry Score Body) → List (Entry Score Body)
    unfolding new_entry old_entry
    put_entry method key rank [] = new_entry method key rank ∷ []
    put_entry method key rank (e ∷ es) =
        let rest = put_entry method key rank es in
        if str_eq e.chunk_id key then old_entry method rank e ∷ es else e ∷ rest

    unfoldable pub add_hits :
        Method
        → ℕ
        → List (RetrievalHit Score Body)
        → List (Entry Score Body)
        → List (Entry Score Body)
    unfolding put_entry
    add_hits method rank [] entries = entries
    add_hits method rank (hit ∷ hits) entries =
        add_hits method (rank + 1) hits (put_entry method (key_of hit) rank entries)

    -- `sorted(..., reverse=True)`, which keeps the order of equal scores
    unfoldable pub insert : Entry Score Body → List (Entry Score Body) → List (Entry Score Body)
    insert e [] = e ∷ []
    insert e (d ∷ ds) =
        let rest = insert e ds in if at_least e.score d.score then e ∷ d ∷ ds else d ∷ rest

    unfoldable pub sorted : List (Entry Score Body) → List (Entry Score Body)
    unfolding insert
    sorted [] = []
    sorted (e ∷ es) = insert e (sorted es)

    -- `by_id[chunk_id]`: the first hit with the identifier
    unfoldable pub find_hit :
        String → List (RetrievalHit Score Body) → Option (RetrievalHit Score Body)
    find_hit id [] = none
    find_hit id (hit ∷ hits) =
        let rest = find_hit id hits in if has_id id hit then some hit else rest

    unfoldable pub fused_hit :
        Entry Score Body → ℕ → RetrievalHit Score Body → RetrievalHit Score Body
    fused_hit e rrf_rank base = record {
      chunk_id = base.chunk_id;
      score = e.score;
      rank = 0;
      bm25_rank = e.bm25_rank;
      dense_rank = e.dense_rank;
      rrf_rank = some rrf_rank;
      rerank_score = none;
      body = base.body;
    }

    -- `none` is a KeyError
    unfoldable pub fused_hits :
        List (RetrievalHit Score Body)
        → ℕ
        → List (Entry Score Body)
        → Option (List (RetrievalHit Score Body))
    unfolding find_hit fused_hit
    fused_hits hits rrf_rank [] = some []
    fused_hits hits rrf_rank (e ∷ es) =
        let rest = fused_hits hits (rrf_rank + 1) es in
        elim (find_hit e.chunk_id hits) [
          | none ↦ none
          | some base ↦ elim rest [
            | none ↦ none
            | some fused ↦ some (fused_hit e rrf_rank base ∷ fused)
          ]
        ]

    -- the protected set
    unfoldable pub fuse :
        List (RetrievalHit Score Body)
        → List (RetrievalHit Score Body)
        → ℕ
        → ℕ
        → Option (List (RetrievalHit Score Body))
    unfolding add_hits sorted fused_hits
    fuse bm25_hits dense_hits candidate_k top_k =
        let entries = add_hits dense 1 dense_hits (add_hits bm25 1 bm25_hits []) in
        elim (fused_hits (bm25_hits ++ dense_hits) 1 (take candidate_k (sorted entries))) [
          | none ↦ none
          | some hits ↦ some (take top_k hits)
        ]

    unfoldable pub fuse_hybrid :
        List (RetrievalHit Score Body)
        → List (RetrievalHit Score Body)
        → ℕ
        → ℕ
        → Option (List (RetrievalHit Score Body) → ℕ → Reply Score Body)
        → Option (List (RetrievalHit Score Body) × List String)
    unfolding fuse rerank
    fuse_hybrid bm25_hits dense_hits candidate_k top_k provider =
        elim (fuse bm25_hits dense_hits candidate_k top_k) [
          | none ↦ none
          | some protected ↦ some (rerank provider protected top_k)
        ]
