-- ===== src/Fusion/Once.antt =====
-- The entries that `fuse_hybrid` (src/transit_scholar/layer2/retrieval/fusion.py) adds to and sorts, as a list
-- with the identifiers for keys.
use transit_scholar.Base.{
  ℕ, zero, suc, ◌+◌, ◌≤◌, String, ◌≡◌, ◌≢◌, refl, sym, ap, ◌∙◌, Bool, inl, inr, List, [], ◌∷◌, map,
  Memᴰ, length, str_eq, eq_iff, arith, Bool-cases,
}
use transit_scholar.Base.Distinct.{IsDistinct, AllIn}
use transit_scholar.Fusion.{
  RetrievalHit, Entry, Method, bm25, dense, key_of, take, new_entry, old_entry, put_entry, add_hits,
  insert, sorted,
}
use transit_scholar.Fusion.Members.{AllNamed}

take-AllIn : {A : Type 0} (n : ℕ) (xs : List A) → AllIn (take n xs) xs
take-AllIn zero xs x m = elim m [ ]
take-AllIn (suc n) [] x m = elim m [ ]
take-AllIn (suc n) (y ∷ ys) x (Memᴰ.head e) = Memᴰ.head e
take-AllIn (suc n) (y ∷ ys) x (Memᴰ.tail m) = Memᴰ.tail (take-AllIn n ys x m)

pub take-IsDistinct : {A : Type 0} (n : ℕ) (xs : List A) → IsDistinct xs → IsDistinct (take n xs)
take-IsDistinct zero xs distinct = tt
take-IsDistinct (suc n) [] distinct = tt
take-IsDistinct (suc n) (y ∷ ys) (fresh, distinct) =
    (λ m. fresh (take-AllIn n ys y m), take-IsDistinct n ys distinct)

pub map-take :
    {A B : Type 0} (f : A → B) (n : ℕ) (xs : List A) → map f (take n xs) ≡ take n (map f xs)
map-take f zero xs = refl
map-take f (suc n) [] = refl
map-take f (suc n) (x ∷ xs) = ap (λ ys. f x ∷ ys) (map-take f n xs)

pub length-take : {A : Type 0} (n : ℕ) (xs : List A) → length (take n xs) ≤ n
length-take zero xs = omega arith
length-take (suc n) [] = omega arith
length-take (suc n) (x ∷ xs) = omega (arith, length-take n xs)

module _ {Score Body : Type 0} where
  abbrev pub ids : List (Entry Score Body) → List String
  ids entries = map (λ e. e.chunk_id) entries

  pub take-AllNamed :
      (n : ℕ) (hits : List (RetrievalHit Score Body)) → AllNamed hits → AllNamed (take n hits)
  take-AllNamed zero hits all = tt
  take-AllNamed (suc n) [] all = tt
  take-AllNamed (suc n) (hit ∷ hits) (first, all) = (first, take-AllNamed n hits all)

  module _ (zero_score : Score) (plus : Score → Score → Score) (share : Method → ℕ → Score)
      (at_least : Score → Score → Bool) where
    old_entry-chunk_id :
        (method : Method) (rank : ℕ) (e : Entry Score Body)
        → (old_entry zero_score plus share at_least method rank e).chunk_id ≡ e.chunk_id
    unfolding old_entry
    old_entry-chunk_id bm25 rank e = refl
    old_entry-chunk_id dense rank e = refl

    new_entry-chunk_id :
        (method : Method) (key : String) (rank : ℕ) (e : Entry Score Body)
        → e ≡ new_entry zero_score plus share at_least method key rank
        → e.chunk_id ≡ key
    unfolding new_entry
    new_entry-chunk_id bm25 key rank e same = ap (λ (x : Entry Score Body). x.chunk_id) same
    new_entry-chunk_id dense key rank e same = ap (λ (x : Entry Score Body). x.chunk_id) same

    abbrev put : Method → String → ℕ → List (Entry Score Body) → List (Entry Score Body)
    put = put_entry zero_score plus share at_least

    abbrev NotIn : String → List (Entry Score Body) → Type 0
    NotIn id entries = Memᴰ id (ids entries) → ⊥

    put_entry-NotIn :
        (method : Method) (key : String) (rank : ℕ) (entries : List (Entry Score Body))
        (id : String)
        → id ≢ key
        → NotIn id entries
        → NotIn id (put method key rank entries)
    unfolding put_entry
    put_entry-NotIn method key rank [] id other out = λ m. elim m [
      | Memᴰ.head e ↦ other (e ∙ new_entry-chunk_id method key rank _ refl)
      | Memᴰ.tail n ↦ elim n [ ]
    ]
    put_entry-NotIn method key rank (e ∷ es) id other out =
        elim (Bool-cases (str_eq e.chunk_id key)) [
          | inl here ↦ rw here (λ m. elim m [
            | Memᴰ.head x ↦ out (Memᴰ.head (x ∙ old_entry-chunk_id method rank e))
            | Memᴰ.tail n ↦ out (Memᴰ.tail n)
          ])
          | inr there ↦ rw there (λ m. elim m [
            | Memᴰ.head x ↦ out (Memᴰ.head x)
            | Memᴰ.tail n ↦ put_entry-NotIn method key rank es id other (λ k. out (Memᴰ.tail k)) n
          ])
        ]

    put_entry-IsDistinct :
        (method : Method) (key : String) (rank : ℕ) (entries : List (Entry Score Body))
        → IsDistinct (ids entries)
        → IsDistinct (ids (put method key rank entries))
    unfolding put_entry
    put_entry-IsDistinct method key rank [] distinct = (λ m. elim m [ ], tt)
    put_entry-IsDistinct method key rank (e ∷ es) (fresh, distinct) =
        elim (Bool-cases (str_eq e.chunk_id key)) [
          | inl here ↦ rw here (λ m. fresh (rw (← old_entry-chunk_id method rank e) m), distinct)
          | inr there ↦
              let other : e.chunk_id ≢ key = λ x. cc (there, (eq_iff e.chunk_id key).1 x) in
              rw there (
                put_entry-NotIn method key rank es e.chunk_id other fresh,
                put_entry-IsDistinct method key rank es distinct,
              )
        ]

    pub add_hits-IsDistinct :
        (method : Method) (rank : ℕ) (hits : List (RetrievalHit Score Body))
        (entries : List (Entry Score Body))
        → IsDistinct (ids entries)
        → IsDistinct (ids (add_hits zero_score plus share at_least method rank hits entries))
    unfolding add_hits
    add_hits-IsDistinct method rank [] entries distinct = distinct
    add_hits-IsDistinct method rank (hit ∷ hits) entries distinct =
        add_hits-IsDistinct method (rank + 1) hits _
          (put_entry-IsDistinct method (key_of hit) rank entries distinct)

    abbrev place : Entry Score Body → List (Entry Score Body) → List (Entry Score Body)
    place = insert zero_score plus share at_least

    insert-NotIn :
        (e : Entry Score Body) (entries : List (Entry Score Body)) (id : String)
        → id ≢ e.chunk_id
        → NotIn id entries
        → NotIn id (place e entries)
    unfolding insert
    insert-NotIn e [] id other out =
        λ m. elim m [ Memᴰ.head x ↦ other x | Memᴰ.tail n ↦ elim n [ ] ]
    insert-NotIn e (d ∷ ds) id other out = elim (Bool-cases (at_least e.score d.score)) [
      | inl before ↦ rw before (λ m. elim m [ Memᴰ.head x ↦ other x | Memᴰ.tail n ↦ out n ])
      | inr after ↦ rw after (λ m. elim m [
        | Memᴰ.head x ↦ out (Memᴰ.head x)
        | Memᴰ.tail n ↦ insert-NotIn e ds id other (λ k. out (Memᴰ.tail k)) n
      ])
    ]

    insert-IsDistinct :
        (e : Entry Score Body) (entries : List (Entry Score Body))
        → NotIn e.chunk_id entries
        → IsDistinct (ids entries)
        → IsDistinct (ids (place e entries))
    unfolding insert
    insert-IsDistinct e [] out distinct = (out, distinct)
    insert-IsDistinct e (d ∷ ds) out (fresh, distinct) =
        elim (Bool-cases (at_least e.score d.score)) [
          | inl before ↦ rw before (out, (fresh, distinct))
          | inr after ↦
              let other : d.chunk_id ≢ e.chunk_id = λ x. out (Memᴰ.head (sym x)) in
              rw after (
                insert-NotIn e ds d.chunk_id other fresh,
                insert-IsDistinct e ds (λ m. out (Memᴰ.tail m)) distinct,
              )
        ]

    abbrev order : List (Entry Score Body) → List (Entry Score Body)
    order = sorted zero_score plus share at_least

    sorted-NotIn :
        (entries : List (Entry Score Body)) (id : String)
        → NotIn id entries
        → NotIn id (order entries)
    unfolding sorted
    sorted-NotIn [] id out = out
    sorted-NotIn (e ∷ es) id out =
        insert-NotIn e (order es) id (λ x. out (Memᴰ.head x))
          (sorted-NotIn es id (λ m. out (Memᴰ.tail m)))

    pub sorted-IsDistinct :
        (entries : List (Entry Score Body))
        → IsDistinct (ids entries)
        → IsDistinct (ids (order entries))
    unfolding sorted
    sorted-IsDistinct [] distinct = tt
    sorted-IsDistinct (e ∷ es) (fresh, distinct) =
        insert-IsDistinct e (order es) (sorted-NotIn es e.chunk_id fresh)
          (sorted-IsDistinct es distinct)
