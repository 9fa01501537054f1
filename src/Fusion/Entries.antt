-- ===== src/Fusion/Entries.antt =====
-- The protected set of `fuse_hybrid` (src/transit_scholar/layer2/retrieval/fusion.py), and what the reranking
-- makes of it.
mod Examples
use transit_scholar.Base.{
  ℕ, zero, suc, ◌+◌, ◌≤◌, String, ◌≡◌, ◌≢◌, ◌↔◌, refl, sym, ap, ◌∙◌, Bool, true, false, Option,
  none, some, ◌⊎◌, inl, inr, List, [], ◌∷◌, ◌++◌, map, Memᴰ, length, str_eq, eq_iff, arith,
  if◌then◌else◌, Bool-cases, Option-cases,
}
use transit_scholar.Base.Distinct.{IsDistinct, AllIn}
use transit_scholar.Fusion.{
  RetrievalHit, Entry, Method, bm25, dense, Reply, scored, key_of, has_id, take, new_entry,
  old_entry, put_entry, add_hits, insert, sorted, find_hit, fused_hit, fused_hits, fuse, rerank,
  fuse_hybrid, number_hits, pad_protected_set, reranked_hits,
}
use transit_scholar.Fusion.Members.{keys, AllNamed}
use transit_scholar.Fusion.Members.Padding.{IsSameSet, pad-IsSameSet}
use transit_scholar.Fusion.Once.{
  take-IsDistinct, map-take, length-take, ids, take-AllNamed, add_hits-IsDistinct,
  sorted-IsDistinct,
}

module _ {Score Body : Type 0} where
  module _ (zero_score : Score) (plus : Score → Score → Score) (share : Method → ℕ → Score)
      (at_least : Score → Score → Bool) where
    find_hit-named :
        (id : String) (hits : List (RetrievalHit Score Body)) (hit : RetrievalHit Score Body)
        → find_hit zero_score plus share at_least id hits ≡ some hit
        → hit.chunk_id ≡ some id
    unfolding find_hit
    find_hit-named id [] hit h = cc
    find_hit-named id (x ∷ xs) hit h = elim (Bool-cases (has_id id x)) [
      | inr other ↦ find_hit-named id xs hit (ground (arith, h, other))
      | inl here ↦
          let same : hit ≡ x = ground (arith, h, here) in
          rw same (elim (Option-cases x.chunk_id) [
            | inl unnamed ↦ ground (arith, here, unnamed)
            | inr (name, named) ↦ ground (arith, here, named, eq_iff name id)
          ])
    ]

    fused_hits-keys :
        (hits : List (RetrievalHit Score Body)) (rank : ℕ) (entries : List (Entry Score Body))
        (fused : List (RetrievalHit Score Body))
        → fused_hits zero_score plus share at_least hits rank entries ≡ some fused
        → (keys fused ≡ ids entries) × AllNamed fused
    unfolding fused_hits fused_hit
    fused_hits-keys hits rank [] fused h =
        let same : fused ≡ [] = ground (arith, h) in rw same (refl, tt)
    fused_hits-keys hits rank (e ∷ es) fused h =
        elim (Option-cases (find_hit zero_score plus share at_least e.chunk_id hits)) [
          | inl missing ↦ ground (arith, h, missing)
          | inr (base, found) ↦
              elim (Option-cases (fused_hits zero_score plus share at_least hits (rank + 1) es)) [
                | inl fails ↦ ground (arith, h, found, fails)
                | inr (rest, made) ↦
                    let (tail_keys, tail_named) = fused_hits-keys hits (rank + 1) es rest made in
                    let name = find_hit-named e.chunk_id hits base found in
                    let same : fused ≡ fused_hit zero_score plus share at_least e rank base ∷ rest =
                      ground (arith, h, found, made) in
                    rw same
                      (rw name (ap (λ ks. e.chunk_id ∷ ks) tail_keys), (rw name refl, tail_named))
              ]
        ]

    -- the protected set: every hit named, no identifier twice, and no more than asked for
    fuse-protected :
        (bm25_hits dense_hits : List (RetrievalHit Score Body)) (candidate_k top_k : ℕ)
        (protected : List (RetrievalHit Score Body))
        → fuse zero_score plus share at_least bm25_hits dense_hits candidate_k top_k
          ≡ some protected
        → AllNamed protected × IsDistinct (keys protected) × (length protected ≤ top_k)
    unfolding fuse
    fuse-protected bm25_hits dense_hits candidate_k top_k protected h =
        let first = add_hits zero_score plus share at_least bm25 1 bm25_hits [] in
        let entries = add_hits zero_score plus share at_least dense 1 dense_hits first in
        let best = take candidate_k (sorted zero_score plus share at_least entries) in
        let all = bm25_hits ++ dense_hits in
        elim (Option-cases (fused_hits zero_score plus share at_least all 1 best)) [
          | inl fails ↦ ground (arith, h, fails)
          | inr (hits, made) ↦
              let (named_keys, named) = fused_hits-keys all 1 best hits made in
              let same : protected ≡ take top_k hits = ground (arith, h, made) in
              let distinct : IsDistinct (ids entries) =
                add_hits-IsDistinct zero_score plus share at_least dense 1 dense_hits first
                  (add_hits-IsDistinct zero_score plus share at_least bm25 1 bm25_hits [] tt) in
              let chosen : IsDistinct
                  (take candidate_k (ids (sorted zero_score plus share at_least entries))) =
                take-IsDistinct candidate_k (ids (sorted zero_score plus share at_least entries))
                  (sorted-IsDistinct zero_score plus share at_least entries distinct) in
              let some_keys : IsDistinct (keys hits) =
                rw
                  (
                    named_keys,
                    map-take (λ (e : Entry Score Body). e.chunk_id) candidate_k
                        (sorted zero_score plus share at_least entries),
                  )
                  chosen in
              rw same (
                take-AllNamed top_k hits named,
                rw (map-take key_of top_k hits) (take-IsDistinct top_k (keys hits) some_keys),
                length-take top_k hits,
              )
        ]

    number_hits-keys :
        (rank : ℕ) (hits : List (RetrievalHit Score Body))
        → keys (number_hits rank hits) ≡ keys hits
    unfolding number_hits
    number_hits-keys rank [] = refl
    number_hits-keys rank (hit ∷ hits) =
        ap (λ ks. key_of hit ∷ ks) (number_hits-keys (rank + 1) hits)

    -- If the two searches fuse, and the reranker answers with pairs that name every index at most once, then the
    -- reranked result has exactly the members of the plain one, each once, whatever the reranker leaves out
    -- or names beyond the range, and whatever the order of scores.
    pub fuse_hybrid-IsSameSet :
        (bm25_hits dense_hits : List (RetrievalHit Score Body)) (candidate_k top_k : ℕ)
        (provider : List (RetrievalHit Score Body) → ℕ → Reply Score Body)
        (protected : List (RetrievalHit Score Body)) (pairs : List (ℕ × Score))
        → fuse zero_score plus share at_least bm25_hits dense_hits candidate_k top_k
          ≡ some protected
        → provider protected top_k ≡ scored pairs
        → IsDistinct (map (λ (p : ℕ × Score). p.0) pairs)
        → (result : List (RetrievalHit Score Body)) × (plain : List (RetrievalHit Score Body))
          × (fuse_hybrid zero_score plus share at_least bm25_hits dense_hits candidate_k top_k
                (some provider)
              ≡ some (result, []))
          × (fuse_hybrid zero_score plus share at_least bm25_hits dense_hits candidate_k top_k none
              ≡ some (plain, []))
          × IsSameSet result plain
    unfolding fuse_hybrid rerank
    fuse_hybrid-IsSameSet bm25_hits dense_hits candidate_k top_k provider protected pairs fused
          replied once =
        let (named, distinct, room) =
          fuse-protected bm25_hits dense_hits candidate_k top_k protected fused in
        let padded = pad_protected_set (reranked_hits protected pairs) protected top_k in
        let same = pad-IsSameSet protected pairs top_k named distinct once room in
        (
          number_hits 1 padded,
          number_hits 1 protected,
          rw (fused, fuse_hybrid) (rw (replied, rerank) refl),
          rw (fused, fuse_hybrid) refl,
          record {
            once = rw (number_hits-keys 1 padded) same.once;
            inside = rw (number_hits-keys 1 padded, number_hits-keys 1 protected) same.inside;
            cover = rw (number_hits-keys 1 padded, number_hits-keys 1 protected) same.cover;
          },
        )
