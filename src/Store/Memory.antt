-- ===== src/Store/Memory.antt =====
-- A table in memory, as a list of rows with distinct keys kept by the lookups: it shows that the
-- assumptions on a table can be met.
use transit_scholar.Base.{
  ◌≡◌, refl, ◌↔◌, Bool, true, false, ◌⊎◌, Option, none, some, List, [], ◌∷◌, Memᴰ, arith,
  if◌then◌else◌, Bool-cases, Option-cases, any, map, is_some, not, ◌&&◌, ◌||◌, inl, inr,
}
use transit_scholar.Store.{Table, unless}

module _ {Row : Type 0} (r row : Row) (rest : List Row) where
  mem_if :
      (b : Bool)
      → Memᴰ row (if b then r ∷ rest else rest)
      → ((b ≡ true) × (row ≡ r)) ⊎ Memᴰ row rest
  mem_if true (Memᴰ.head e) = inl (refl, e)
  mem_if true (Memᴰ.tail m) = inr m
  mem_if false m = inr m

  if_mem_tail : (b : Bool) → Memᴰ row rest → Memᴰ row (if b then r ∷ rest else rest)
  if_mem_tail true m = Memᴰ.tail m
  if_mem_tail false m = m

  if_mem_head : (b : Bool) → b ≡ true → row ≡ r → Memᴰ row (if b then r ∷ rest else rest)
  if_mem_head true h e = Memᴰ.head e
  if_mem_head false h e = cc

module _ {Key Row : Type 0} (key : Row → Key) (same : Key → Key → Bool)
    (same_iff : (a b : Key) → (same a b ≡ true) ↔ (a ≡ b)) where
  unfoldable pub get : List Row → Key → Option Row
  get [] k = none
  get (r ∷ rs) k = if same (key r) k then some r else get rs k

  unfoldable pub add : Row → List Row → Option (List Row)
  unfolding get
  add row rows = if is_some (get rows (key row)) then none else some (row ∷ rows)

  unfoldable pub delete : Key → List Row → List Row
  delete k [] = []
  delete k (r ∷ rs) = let rest = delete k rs in if same (key r) k then rest else r ∷ rest

  unfoldable pub assign : Row → List Row → List Row
  unfolding delete
  assign row rows = row ∷ delete (key row) rows

  hidden : List Key → Key → Bool
  hidden [] k = false
  hidden (s ∷ seen) k = same s k || hidden seen k

  -- a row that an earlier one with its key hides is not in the table
  visible : (Row → Bool) → List Key → List Row → List Row
  unfolding hidden
  visible test seen [] = []
  visible test seen (r ∷ rs) =
      let rest = visible test (key r ∷ seen) rs in
      if test r && not (hidden seen (key r)) then r ∷ rest else rest

  unfoldable pub select : (Row → Bool) → List Row → List Row
  unfolding visible
  select test rows = visible test [] rows

  pub get_key : (rows : List Row) (k : Key) (row : Row) → get rows k ≡ some row → key row ≡ k
  unfolding get
  get_key [] k row h = cc
  get_key (r ∷ rs) k row h = ground (arith, same_iff (key r) k, get_key rs k row)

  pub get-delete :
      (k : Key) (rows : List Row) (j : Key)
      → get (delete k rows) j ≡ (if same k j then none else get rows j)
  unfolding get delete
  get-delete k [] j = ground arith
  get-delete k (r ∷ rs) j =
      ground (arith, get-delete k rs j, same_iff (key r) k, same_iff (key r) j, same_iff k j)

  pub get-add :
      (row : Row) (rows new : List Row) (k : Key)
      → add row rows ≡ some new
      → get new k ≡ (if same (key row) k then some row else get rows k)
  unfolding add get
  get-add row rows new k h = ground arith

  pub add_taken :
      (row old : Row) (rows : List Row) → get rows (key row) ≡ some old → add row rows ≡ none
  unfolding add
  add_taken row old rows h = ground arith

  pub get-assign :
      (row old : Row) (rows : List Row) (k : Key)
      → get rows (key row) ≡ some old
      → get (assign row rows) k ≡ (if same (key row) k then some row else get rows k)
  unfolding assign get
  get-assign row old rows k h = ground (arith, get-delete (key row) rows k)

  visible_sound :
      (test : Row → Bool) (seen : List Key) (rows : List Row) (row : Row)
      → Memᴰ row (visible test seen rows)
      → (get rows (key row) ≡ some row) × (test row ≡ true) × (hidden seen (key row) ≡ false)
  unfolding visible get hidden
  visible_sound test seen [] row m = elim m [ ]
  visible_sound test seen (r ∷ rs) row m =
      elim (mem_if r row (visible test (key r ∷ seen) rs) (test r && not (hidden seen (key r))) m) [
        | inl (shown, e) ↦ rw e (ground (arith, same_iff (key r) (key r)))
        | inr later ↦ ground (arith, visible_sound test (key r ∷ seen) rs row later)
      ]

  visible_complete :
      (test : Row → Bool) (seen : List Key) (rows : List Row) (row : Row)
      → get rows (key row) ≡ some row
      → test row ≡ true
      → hidden seen (key row) ≡ false
      → Memᴰ row (visible test seen rows)
  unfolding visible get hidden
  visible_complete test seen [] row g t h = cc
  visible_complete test seen (r ∷ rs) row g t h = elim (Bool-cases (same (key r) (key row))) [
    | inl here ↦
        let found : row ≡ r = ground arith in
        let shown : (test r && not (hidden seen (key r))) ≡ true = rw (← found) (ground arith) in
        if_mem_head r row (visible test (key r ∷ seen) rs) _ shown found
    | inr later ↦
        if_mem_tail r row (visible test (key r ∷ seen) rs) _
          (visible_complete test (key r ∷ seen) rs row (ground arith) t (ground arith))
  ]

  pub select_sound :
      (test : Row → Bool) (rows : List Row) (row : Row)
      → Memᴰ row (select test rows)
      → (get rows (key row) ≡ some row) × (test row ≡ true)
  unfolding select
  select_sound test rows row m = let (g, t, h) = visible_sound test [] rows row m in (g, t)

  pub select_complete :
      (test : Row → Bool) (rows : List Row) (row : Row)
      → get rows (key row) ≡ some row
      → test row ≡ true
      → Memᴰ row (select test rows)
  unfolding select hidden
  select_complete test rows row g t = visible_complete test [] rows row g t refl

  unfoldable pub delete_keys : List Key → List Row → List Row
  unfolding delete
  delete_keys [] rows = rows
  delete_keys (k ∷ ks) rows = delete_keys ks (delete k rows)

  -- every row that a query would find is deleted
  unfoldable pub delete_where : (Row → Bool) → List Row → List Row
  unfolding delete_keys select
  delete_where test rows = delete_keys (map key (select test rows)) rows

  get-delete_keys :
      (ks : List Key) (rows : List Row) (j : Key)
      → get (delete_keys ks rows) j ≡ (if any (λ k. same k j) ks then none else get rows j)
  unfolding delete_keys
  get-delete_keys [] rows j = refl
  get-delete_keys (k ∷ ks) rows j =
      ground (arith, get-delete_keys ks (delete k rows) j, get-delete k rows j)

  any_key :
      (rs : List Row) (j : Key)
      → any (λ k. same k j) (map key rs) ≡ true
      → (r : Row) × Memᴰ r rs × (key r ≡ j)
  any_key [] j h = cc
  any_key (r ∷ rs) j h = elim (Bool-cases (same (key r) j)) [
    | inl here ↦ (r, Memᴰ.head refl, (same_iff (key r) j).0 here)
    | inr other ↦ let (q, m, e) = any_key rs j (ground (arith, h, other)) in (q, Memᴰ.tail m, e)
  ]

  mem-any : (rs : List Row) (r : Row) → Memᴰ r rs → any (λ k. same k (key r)) (map key rs) ≡ true
  mem-any [] r m = elim m [ ]
  mem-any (q ∷ rs) r (Memᴰ.head e) =
      let refl_true : same (key r) (key r) ≡ true = (same_iff (key r) (key r)).1 refl in
      rw (← e) (ground (arith, refl_true))
  mem-any (q ∷ rs) r (Memᴰ.tail m) = ground (arith, mem-any rs r m)

  pub get-delete_where :
      (test : Row → Bool) (rows : List Row) (k : Key)
      → get (delete_where test rows) k ≡ unless test (get rows k)
  unfolding delete_where
  get-delete_where test rows k =
      let keys = map key (select test rows) in
      elim (Option-cases (get rows k)) [
        | inl none_there ↦ rw (none_there) (ground (arith, get-delete_keys keys rows k, none_there))
        | inr (row, there) ↦
            let named = get_key rows k row there in
            let stays = get-delete_keys keys rows k in
            elim (Bool-cases (test row)) [
              | inl passes ↦
                  let present : get rows (key row) ≡ some row = rw named there in
                  let gone =
                    mem-any (select test rows) row (select_complete test rows row present passes) in
                  ground (arith, there, passes, stays, gone, named)
              | inr kept ↦ elim (Bool-cases (any (λ j. same j k) keys)) [
                | inr absent ↦ ground (arith, there, kept, stays, absent)
                | inl hit ↦
                    let (q, m, e) = any_key (select test rows) k hit in
                    let (held, passed) = select_sound test rows q m in
                    ground (arith, there, kept, held, passed, e)
              ]
            ]
      ]

  unfoldable pub table : Table Key Row key same
  unfolding get add assign delete delete_where select hidden
  table = record {
    Rows = List Row;
    get = get;
    add = add;
    assign = assign;
    delete = delete;
    delete_where = delete_where;
    select = select;
    get_key = get_key;
    get-add = get-add;
    add_taken = add_taken;
    get-assign = get-assign;
    get-delete = get-delete;
    get-delete_where = get-delete_where;
    select_sound = select_sound;
    select_complete = select_complete;
  }
