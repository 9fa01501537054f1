-- ===== src/RunRuntime/Plan/Laws.antt =====
-- The item that a planned decision starts (`sorted` and `next` of
-- src/transit_scholar/layer3/runtime/run_runtime.py).
use transit_scholar.Base.{
  ℕ, ◌≤◌, ◌≡◌, ◌↔◌, refl, subst, true, false, some, inl, inr, List, [], ◌∷◌, Memᴰ, leb, arith,
  Bool-cases,
}
use transit_scholar.RunRuntime.Plan.{
  ResearchPlanItem, is_pending, first_item, insert_item, sorted_items, next_pending,
}

-- the item is pending, and no pending item of the list has a smaller order
pub record IsFirstPending (item : ResearchPlanItem) (items : List ResearchPlanItem) : Type 0 where
  pub listed : Memᴰ item items
  pub is_open : is_pending item.status ≡ true
  pub least :
      (other : ResearchPlanItem)
      → Memᴰ other items
      → is_pending other.status ≡ true
      → item.order ≤ other.order

-- every item has an order no greater than those that follow it
abbrev IsAscending : List ResearchPlanItem → Type 0
IsAscending [] = Unit
IsAscending (item ∷ items) =
    ((other : ResearchPlanItem) → Memᴰ other items → item.order ≤ other.order) × IsAscending items

mem-insert_item :
    (item other : ResearchPlanItem) (items : List ResearchPlanItem)
    → Memᴰ other (insert_item item items)
    → Memᴰ other (item ∷ items)
unfolding insert_item
mem-insert_item item other [] m = m
mem-insert_item item other (head ∷ items) m = elim (Bool-cases (leb item.order head.order)) [
  | inl before ↦
      let same : insert_item item (head ∷ items) ≡ item ∷ head ∷ items = rw before refl in
      subst (λ xs. Memᴰ other xs) same m
  | inr after ↦
      let same : insert_item item (head ∷ items) ≡ head ∷ insert_item item items = rw after refl in
      let there : Memᴰ other (head ∷ insert_item item items) = subst (λ xs. Memᴰ other xs) same m in
      elim there [
        | Memᴰ.head e ↦ Memᴰ.tail (Memᴰ.head e)
        | Memᴰ.tail n ↦ elim (mem-insert_item item other items n) [
          | Memᴰ.head e ↦ Memᴰ.head e
          | Memᴰ.tail k ↦ Memᴰ.tail (Memᴰ.tail k)
        ]
      ]
]

insert_item-mem :
    (item other : ResearchPlanItem) (items : List ResearchPlanItem)
    → Memᴰ other (item ∷ items)
    → Memᴰ other (insert_item item items)
unfolding insert_item
insert_item-mem item other [] m = m
insert_item-mem item other (head ∷ items) m = elim (Bool-cases (leb item.order head.order)) [
  | inl before ↦ rw before m
  | inr after ↦
      let there : Memᴰ other (head ∷ insert_item item items) = elim m [
        | Memᴰ.head e ↦ Memᴰ.tail (insert_item-mem item other items (Memᴰ.head e))
        | Memᴰ.tail n ↦ elim n [
          | Memᴰ.head e ↦ Memᴰ.head e
          | Memᴰ.tail k ↦ Memᴰ.tail (insert_item-mem item other items (Memᴰ.tail k))
        ]
      ] in
      rw after there
]

-- a bound on the head and on what follows
bound-cons :
    (n : ℕ) (head : ResearchPlanItem) (items : List ResearchPlanItem)
    → n ≤ head.order
    → ((other : ResearchPlanItem) → Memᴰ other items → n ≤ other.order)
    → (other : ResearchPlanItem) → Memᴰ other (head ∷ items)
    → n ≤ other.order
bound-cons n head items first rest other (Memᴰ.head e) = rw e first
bound-cons n head items first rest other (Memᴰ.tail m) = rest other m

insert_item-IsAscending :
    (item : ResearchPlanItem) (items : List ResearchPlanItem)
    → IsAscending items
    → IsAscending (insert_item item items)
unfolding insert_item
insert_item-IsAscending item [] asc = (λ other m. elim m [ ], tt)
insert_item-IsAscending item (head ∷ items) (low, asc) =
    elim (Bool-cases (leb item.order head.order)) [
      | inl before ↦
          let less : item.order ≤ head.order = ground (arith, before) in
          rw before (
            bound-cons item.order head items less (λ other m. omega (arith, less, low other m)),
            (low, asc),
          )
      | inr after ↦
          let more : head.order ≤ item.order = ground (arith, after) in
          rw after (
            (λ other m.
                bound-cons head.order item items more low other
                  (mem-insert_item item other items m)),
            insert_item-IsAscending item items asc,
          )
    ]

sorted_items-IsAscending : (items : List ResearchPlanItem) → IsAscending (sorted_items items)
unfolding sorted_items
sorted_items-IsAscending [] = tt
sorted_items-IsAscending (item ∷ items) =
    insert_item-IsAscending item (sorted_items items) (sorted_items-IsAscending items)

-- sorting keeps the items
mem-sorted_items :
    (other : ResearchPlanItem) (items : List ResearchPlanItem)
    → Memᴰ other (sorted_items items) ↔ Memᴰ other items
unfolding sorted_items
mem-sorted_items other [] = ((λ m. m), (λ m. m))
mem-sorted_items other (item ∷ items) =
    let same = mem-sorted_items other items in
    (
      (λ m. elim (mem-insert_item item other (sorted_items items) m) [
        | Memᴰ.head e ↦ Memᴰ.head e
        | Memᴰ.tail n ↦ Memᴰ.tail (same.0 n)
      ]),
      (λ m.
          insert_item-mem item other (sorted_items items)
            (elim m [ Memᴰ.head e ↦ Memᴰ.head e | Memᴰ.tail n ↦ Memᴰ.tail (same.1 n) ])),
    )

first_item-IsFirstPending :
    (items : List ResearchPlanItem) (item : ResearchPlanItem)
    → IsAscending items
    → first_item (λ i. is_pending i.status) items ≡ some item
    → IsFirstPending item items
unfolding first_item
first_item-IsFirstPending [] item asc h = cc
first_item-IsFirstPending (head ∷ items) item (low, asc) h =
    elim (Bool-cases (is_pending head.status)) [
      | inl first ↦
          let same : item ≡ head = ground (arith, h, first) in
          record {
            listed = Memᴰ.head same;
            is_open = rw same first;
            least =
                λ other m p. rw same (bound-cons head.order head items (omega arith) low other m);
          }
      | inr closed ↦
          let rest = first_item-IsFirstPending items item asc (ground (arith, h, closed)) in
          record {
            listed = Memᴰ.tail rest.listed;
            is_open = rest.is_open;
            least = skip rest.least closed;
          }
    ]
  where
    skip :
        ((other : ResearchPlanItem)
          → Memᴰ other items
          → is_pending other.status ≡ true
          → item.order ≤ other.order)
        → is_pending head.status ≡ false
        → (other : ResearchPlanItem) → Memᴰ other (head ∷ items)
        → is_pending other.status ≡ true
        → item.order ≤ other.order
    skip rest closed other (Memᴰ.head e) p = cc (closed, p, e)
    skip rest closed other (Memᴰ.tail m) p = rest other m p

-- The item that comes next is one of the plan's pending items, of the least order among them.
pub next_pending-IsFirstPending :
    (items : List ResearchPlanItem) (item : ResearchPlanItem)
    → next_pending items ≡ some item
    → IsFirstPending item items
unfolding next_pending
next_pending-IsFirstPending items item h =
    let found =
      first_item-IsFirstPending (sorted_items items) item (sorted_items-IsAscending items) h in
    record {
      listed = (mem-sorted_items item items).0 found.listed;
      is_open = found.is_open;
      least = λ other m p. found.least other ((mem-sorted_items other items).1 m) p;
    }
