-- ===== src/Ingestion/Caps.antt =====
-- How many items a digest takes of one source: `cap_per_source` of
-- backend/app/services/ingestion/backfill.py.
use readprism.Prelude.{
  ℕ, ◌+◌, ◌-◌, ◌≡◌, ◌<◌, min, refl, ap, Bool, true, false, ◌&&◌, Option, none, some, List, [], ◌∷◌,
  leb, ◌==◌, if◌then◌else◌, inl, inr, arith, Bool-cases, Option-cases, is_some,
}

pub record Item : Type 0 where
  pub id : ℕ
  pub source_id : Option ℕ

abbrev pub same_source : Option ℕ → Option ℕ → Bool
same_source none none = true
same_source (some a) (some b) = a == b
same_source _ _ = false

abbrev pub bump : (Option ℕ → ℕ) → Option ℕ → Option ℕ → ℕ
bump counts key k = if same_source key k then counts k + 1 else counts k

-- The loop, with the items kept so far by their source.
unfoldable pub keep_items : ℕ → (Option ℕ → ℕ) → List Item → List Item
keep_items top counts [] = []
keep_items top counts (i ∷ items) =
    let skipped = keep_items top counts items in
    let rest = keep_items top (bump counts i.source_id) items in
    if is_some i.source_id && leb top (counts i.source_id) then skipped else i ∷ rest

-- A cap of 0 is no cap; the code treats a negative one alike.
unfoldable pub cap_per_source : List Item → ℕ → List Item
unfolding keep_items
cap_per_source items top = if top == 0 then items else keep_items top (λ key. 0) items

-- The items of the first list are among those of the second, in their order.
pub data Sublist : List Item → List Item → Type 0 where
  done : Sublist [] []
  keep : (i : Item) (l m : List Item) → Sublist l m → Sublist (i ∷ l) (i ∷ m)
  drop : (i : Item) (l m : List Item) → Sublist l m → Sublist l (i ∷ m)

abbrev one_if : Bool → ℕ
one_if true = 1
one_if false = 0

abbrev pub count_of : Option ℕ → List Item → ℕ
count_of key [] = 0
count_of key (i ∷ items) = one_if (same_source i.source_id key) + count_of key items

keep_items-Sublist :
    (top : ℕ) (counts : Option ℕ → ℕ) (items : List Item)
    → Sublist (keep_items top counts items) items
unfolding keep_items
keep_items-Sublist top counts [] = done
keep_items-Sublist top counts (i ∷ items) =
    elim (Bool-cases (is_some i.source_id && leb top (counts i.source_id))) [
      | inl full ↦ rw full (drop i _ items (keep_items-Sublist top counts items))
      | inr free ↦ rw free (keep i _ items (keep_items-Sublist top (bump counts i.source_id) items))
    ]

same_source_eq : (k : Option ℕ) (s : ℕ) → same_source k (some s) ≡ true → k ≡ some s
same_source_eq none s e = cc
same_source_eq (some a) s e = let same : a ≡ s = ground (arith, e) in ap (λ x. some x) same

same_source_named : (k : Option ℕ) (s : ℕ) → same_source k (some s) ≡ true → is_some k ≡ true
same_source_named none s e = cc
same_source_named (some a) s e = refl

keep_items_count :
    (top s : ℕ) (counts : Option ℕ → ℕ) (items : List Item)
    → count_of (some s) (keep_items top counts items)
      ≡ min (count_of (some s) items) (top - counts (some s))
unfolding keep_items
keep_items_count top s counts [] = omega arith
keep_items_count top s counts (i ∷ items) =
    let skip = keep_items_count top s counts items in
    let rest = keep_items_count top s (bump counts i.source_id) items in
    let same : same_source i.source_id (some s) ≡ true → counts i.source_id ≡ counts (some s) =
      λ e. ap counts (same_source_eq i.source_id s e) in
    ground (arith, skip, rest, same, same_source_named i.source_id s)

keep_items_loose :
    (top : ℕ) (counts : Option ℕ → ℕ) (items : List Item)
    → count_of none (keep_items top counts items) ≡ count_of none items
unfolding keep_items
keep_items_loose top counts [] = refl
keep_items_loose top counts (i ∷ items) =
    let skip = keep_items_loose top counts items in
    let rest = keep_items_loose top (bump counts i.source_id) items in ground (arith, skip, rest)

-- With a cap, a digest takes of each source as many items as it has, and no more than the cap: exactly
-- the smaller of the two. Items without a source are all taken, and the order stays.
pub cap_per_source_lem :
    (items : List Item) (top : ℕ)
    → 0 < top
    → ((s : ℕ) → count_of (some s) (cap_per_source items top) ≡ min (count_of (some s) items) top)
      × (count_of none (cap_per_source items top) ≡ count_of none items)
      × Sublist (cap_per_source items top) items
unfolding cap_per_source
cap_per_source_lem items top capped =
    let on : (top == 0) ≡ false = ground (arith, capped) in
    rw on (
      λ s. omega (arith, keep_items_count top s (λ key. 0) items),
      keep_items_loose top (λ key. 0) items,
      keep_items-Sublist top (λ key. 0) items,
    )

-- The plain description: an item is taken unless as many items of its source as the cap come before it,
-- taken or not.
unfoldable pub first_items : ℕ → List Item → List Item → List Item
first_items top before [] = []
first_items top before (i ∷ items) =
    let rest = first_items top (i ∷ before) items in
    if is_some i.source_id && leb top (count_of i.source_id before) then rest else i ∷ rest

keep_items_first :
    (top : ℕ) (counts : Option ℕ → ℕ) (before items : List Item)
    → ((s : ℕ) → counts (some s) ≡ min (count_of (some s) before) top)
    → keep_items top counts items ≡ first_items top before items
unfolding keep_items first_items
keep_items_first top counts before [] agree = refl
keep_items_first top counts before (i ∷ items) agree = elim (Option-cases i.source_id) [
  | inl loose ↦
      let rest =
        keep_items_first top (bump counts i.source_id) (i ∷ before) items
          (λ s. ground (arith, agree s, loose)) in
      ground (arith, rest, loose)
  | inr (a, of_a) ↦
      let here : counts i.source_id ≡ counts (some a) = ap counts of_a in
      let there : count_of i.source_id before ≡ count_of (some a) before =
        ap (λ k. count_of k before) of_a in
      let same_count : (s : ℕ)
          → (a == s) ≡ true
          → count_of (some a) before ≡ count_of (some s) before =
        λ s same.
          let equal : a ≡ s = ground (arith, same) in ap (λ x. count_of (some x) before) equal in
      elim (Bool-cases (leb top (count_of (some a) before))) [
        | inl full ↦
            let rest = keep_items_first top counts (i ∷ before) items λ s.
              elim (Bool-cases (a == s)) [
                | inl same ↦
                    let counted = same_count s same in
                    ground (arith, agree s, counted, same, full, of_a)
                | inr other ↦ ground (arith, agree s, other, of_a)
              ] in
            ground (arith, rest, agree a, here, there, full, of_a)
        | inr free ↦
            let rest = keep_items_first top (bump counts i.source_id) (i ∷ before) items λ s.
              elim (Bool-cases (a == s)) [
                | inl same ↦
                    let counted = same_count s same in
                    ground (arith, agree s, counted, same, free, of_a)
                | inr other ↦ ground (arith, agree s, other, of_a)
              ] in
            ground (arith, rest, agree a, here, there, free, of_a)
      ]
]

-- The loop, which counts what it has taken, takes the items of the plain description, which looks back
-- at all that came before.
pub cap_per_source_first :
    (items : List Item) (top : ℕ) → 0 < top → cap_per_source items top ≡ first_items top [] items
unfolding cap_per_source
cap_per_source_first items top capped =
    ground (arith, keep_items_first top (λ key. 0) [] items (λ s. omega arith), capped)
