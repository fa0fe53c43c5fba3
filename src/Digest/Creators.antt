-- ===== src/Digest/Creators.antt =====
-- The rows that the creator section of backend/app/services/digest/sections.py chooses from.
use readprism.Prelude.{
  mem, ℕ, ◌+◌, ◌≤◌, ◌≡◌, refl, ap, Bool, true, false, ◌||◌, not, Option, none, some, List, [], ◌∷◌,
  ◌++◌, ◌==◌, if◌then◌else◌, arith, Bool-cases, inl, inr,
}
use readprism.Digest.Sections.{
  Row, Board, Group, put_row, put_under, gather, insert_group, best_first, rows_of, saturated,
}

-- The sum of a weight over rows.
abbrev pub weigh : (Row → ℕ) → List Row → ℕ
weigh w [] = 0
weigh w (r ∷ l) = w r + weigh w l

abbrev pub is_id : ℕ → Row → ℕ
is_id k r = if k == r.id then 1 else 0

abbrev pub has_creator : Row → Bool
has_creator r = elim r.creator [ none ↦ false | some c ↦ true ]

module _ (w : Row → ℕ) where
  pub weigh-append : (l m : List Row) → weigh w (l ++ m) ≡ weigh w l + weigh w m
  weigh-append [] m = omega arith
  weigh-append (r ∷ l) m = omega (arith, weigh-append l m)

  put_row-weigh :
      (c : ℕ) (r : Row) (gs : List Group)
      → weigh w (rows_of (put_row c r gs)) ≤ weigh w (rows_of gs) + w r
  unfolding put_row
  put_row-weigh c r [] = omega arith
  put_row-weigh c r (g ∷ gs) =
      let later = put_row-weigh c r gs in
      let old = weigh-append g.rows (rows_of gs) in
      let new = weigh-append g.rows (r ∷ []) in
      let new_all = weigh-append (g.rows ++ (r ∷ [])) (rows_of gs) in
      let skip_all = weigh-append g.rows (rows_of (put_row c r gs)) in
      ground (arith, later, old, new, new_all, skip_all)

  insert_group-weigh :
      (g : Group) (gs : List Group)
      → weigh w (rows_of (insert_group g gs)) ≡ weigh w g.rows + weigh w (rows_of gs)
  unfolding insert_group
  insert_group-weigh g [] = weigh-append g.rows []
  insert_group-weigh g (h ∷ gs) =
      let later = insert_group-weigh g gs in
      let a = weigh-append g.rows (h.rows ++ rows_of gs) in
      let b = weigh-append h.rows (rows_of gs) in
      let c = weigh-append h.rows (rows_of (insert_group g gs)) in ground (arith, later, a, b, c)

  pub best_first-weigh :
      (gs : List Group) → weigh w (rows_of (best_first gs)) ≡ weigh w (rows_of gs)
  unfolding best_first
  best_first-weigh [] = refl
  best_first-weigh (g ∷ gs) =
      let later = best_first-weigh gs in
      let a = insert_group-weigh g (best_first gs) in
      let b = weigh-append g.rows (rows_of gs) in omega arith

  -- The weight of the rows that the selection may take.
  abbrev pub open_weight : Board → Row → ℕ
  open_weight b r = if mem r.id b.used_ids || not (has_creator r) then 0 else w r

  put_under-weigh :
      (r : Row) (o : Option ℕ) (gs : List Group)
      → r.creator ≡ o
      → weigh w (rows_of (put_under o r gs))
        ≤ weigh w (rows_of gs) + (if has_creator r then w r else 0)
  put_under-weigh r none gs e = omega arith
  put_under-weigh r (some c) gs e =
      let one = put_row-weigh c r gs in
      let has : has_creator r ≡ true = ap (λ o. elim o [ none ↦ false | some c ↦ true ]) e in
      ground (arith, one, has)

  pub gather-weigh :
      (max_per_topic : ℕ) (b : Board) (l : List Row) (gs : List Group)
      → weigh w (rows_of (gather max_per_topic b l gs))
        ≤ weigh w (rows_of gs) + weigh (open_weight b) l
  unfolding gather
  gather-weigh max_per_topic b [] gs = omega arith
  gather-weigh max_per_topic b (r ∷ l) gs =
      let one = put_under-weigh r r.creator gs refl in
      elim (Bool-cases (mem r.id b.used_ids || saturated max_per_topic b r)) [
        | inl skip ↦ rw skip (let later = gather-weigh max_per_topic b l gs in omega arith)
        | inr take ↦ rw take (
            let later = gather-weigh max_per_topic b l (put_under r.creator r gs) in
            let unused : mem r.id b.used_ids ≡ false = ground (arith, take) in
            ground (arith, one, later, unused))
      ]

-- A row that is used already is not open; the open rows of an id are no more than the rows of it.
pub weigh-open :
    (k : ℕ) (b : Board) (l : List Row)
    → weigh (open_weight (is_id k) b) l ≤ (if mem k b.used_ids then 0 else weigh (is_id k) l)
weigh-open k b [] = ground arith
weigh-open k b (r ∷ l) = let later = weigh-open k b l in ground (arith, later)

abbrev pub creatorless : Row → ℕ
creatorless r = if has_creator r then 0 else 1

pub weigh-creatorless : (b : Board) (l : List Row) → weigh (open_weight creatorless b) l ≡ 0
weigh-creatorless b [] = refl
weigh-creatorless b (r ∷ l) = let later = weigh-creatorless b l in ground (arith, later)
