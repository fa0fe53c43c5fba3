-- ===== src/Digest/Passes.antt =====
-- The passes of `SectionBuilder.build` in backend/app/services/digest/sections.py add items under guards
-- only: a property of boards that every guarded `add` keeps holds after every pass.
use readprism.Prelude.{
  mem, ℕ, ◌+◌, ◌-◌, ◌≤◌, ◌≡◌, refl, max, Bool, true, false, ◌&&◌, ◌||◌, not, List, [], ◌∷◌,
  if◌then◌else◌, arith, Bool-cases, inl, inr,
}
use readprism.Digest.Sections.{
  Row, Name, lead, creator, deep_reads, more, discovery, same_name, Board, is_full, add, saturated,
  fill_discovery, fill, gather, best_first, rows_of, emit, fill_creators, fill_more, set_more,
  SectionBuilder, build_main, build, start_board, placed, is_lead_eligible, is_deep_read_eligible,
  is_discovery_eligible,
}
use readprism.Digest.Creators.{
  weigh, is_id, has_creator, creatorless, best_first-weigh, gather-weigh, weigh-open,
  weigh-creatorless,
}

-- The items that a section is for.
abbrev pub eligible : Name → Row → Bool
eligible lead r = is_lead_eligible r
eligible creator r = has_creator r
eligible deep_reads r = is_deep_read_eligible r
eligible more r = not (is_discovery_eligible r)
eligible discovery r = is_discovery_eligible r

abbrev pub allowed : ℕ → Name → Board → Row → Bool
allowed max_per_topic n b r =
    not (mem r.id b.used_ids)
    && (eligible n r && (same_name n discovery || not (saturated max_per_topic b r)))

-- No id stands in two rows.
abbrev pub IsDistinct : List Row → Type 0
IsDistinct l = (k : ℕ) → weigh (is_id k) l ≤ 1

-- The rows that the creator pass has before it: none used, none twice, each with a creator.
abbrev IsPending : List Row → Board → Type 0
IsPending l b =
    ((k : ℕ) → weigh (is_id k) l + (if mem k b.used_ids then 1 else 0) ≤ 1)
    × (weigh creatorless l ≡ 0)

IsPending-tail : (r : Row) (l : List Row) (b : Board) → IsPending (r ∷ l) b → IsPending l b
IsPending-tail r l b (once, all) = (λ k. let h = once k in omega arith, omega arith)

IsPending-add :
    (r : Row) (l : List Row) (b : Board) → IsPending (r ∷ l) b → IsPending l (add creator r b)
unfolding add
IsPending-add r l b (once, all) = (λ k. let h = once k in ground (arith, h), omega arith)

IsPending-head :
    (r : Row) (l : List Row) (b : Board)
    → IsPending (r ∷ l) b
    → (mem r.id b.used_ids ≡ false) × (has_creator r ≡ true)
IsPending-head r l b (once, all) = let h = once r.id in (ground (arith, h), ground (arith, all))

gathered-IsPending :
    (max_per_topic : ℕ) (ranked : List Row) (b : Board)
    → IsDistinct ranked
    → IsPending (rows_of (best_first (gather max_per_topic b ranked []))) b
gathered-IsPending max_per_topic ranked b distinct =
    let gs = gather max_per_topic b ranked [] in
    (
      λ k.
          let sorted = best_first-weigh (is_id k) gs in
          let taken = gather-weigh (is_id k) max_per_topic b ranked [] in
          let open_rows = weigh-open k b ranked in
          let once = distinct k in ground (arith, sorted, taken, open_rows, once),
      let sorted = best_first-weigh creatorless gs in
          let taken = gather-weigh creatorless max_per_topic b ranked [] in
          let none_there = weigh-creatorless b ranked in omega arith,
    )

module _ (max_per_topic : ℕ) (Inv : Board → Type 0)
    (keep : (n : Name) (r : Row) (b : Board)
      → allowed max_per_topic n b r ≡ true
      → Inv b
      → Inv (add n r b)) where
  if-keeps :
      (c : Bool) (b b' : Board)
      → (c ≡ true → Inv b)
      → (c ≡ false → Inv b')
      → Inv (if c then b else b')
  if-keeps true b b' h h' = h refl
  if-keeps false b b' h h' = h' refl

  pub fill_discovery-keeps : (l : List Row) (b : Board) → Inv b → Inv (fill_discovery l b)
  unfolding fill_discovery
  fill_discovery-keeps [] b inv = inv
  fill_discovery-keeps (r ∷ l) b inv =
      let guard = is_discovery_eligible r && not (mem r.id b.used_ids) in
      let b' = if guard then add discovery r b else b in
      let inv' : Inv b' =
        if-keeps guard (add discovery r b) b (λ h. keep discovery r b (ground (arith, h)) inv)
          (λ h. inv) in
      if-keeps (is_full (b'.sections discovery)) b' (fill_discovery l b') (λ h. inv')
        (λ h. fill_discovery-keeps l b' inv')

  pub fill-keeps :
      (n : Name) (p : Row → Bool)
      → ((r : Row) → p r ≡ eligible n r)
      → (l : List Row) (b : Board) → Inv b
      → Inv (fill max_per_topic n p l b)
  unfolding fill
  fill-keeps n p same [] b inv = inv
  fill-keeps n p same (r ∷ l) b inv =
      let b' = add n r b in
      let skip = mem r.id b.used_ids || not (p r) || saturated max_per_topic b r in
      if-keeps skip (fill max_per_topic n p l b)
        (if is_full (b'.sections n) then b' else fill max_per_topic n p l b')
        (λ h. fill-keeps n p same l b inv)
        (λ h.
          let e = same r in
          let inv' : Inv b' = keep n r b (ground (arith, h, e)) inv in
          if-keeps (is_full (b'.sections n)) b' (fill max_per_topic n p l b') (λ _. inv')
            (λ _. fill-keeps n p same l b' inv'))

  emit-keeps : (l : List Row) (b : Board) → IsPending l b → Inv b → Inv (emit max_per_topic l b)
  unfolding emit
  emit-keeps [] b pending inv = inv
  emit-keeps (r ∷ l) b pending inv = elim (Bool-cases (saturated max_per_topic b r)) [
    | inl skip ↦ rw skip (emit-keeps l b (IsPending-tail r l b pending) inv)
    | inr take ↦ rw take (
        let (new, has) = IsPending-head r l b pending in
        emit-keeps l (add creator r b) (IsPending-add r l b pending)
          (keep creator r b (ground (arith, new, has, take)) inv))
  ]

  pub fill_creators-keeps :
      (ranked : List Row) (b : Board)
      → IsDistinct ranked
      → Inv b
      → Inv (fill_creators max_per_topic ranked b)
  unfolding fill_creators
  fill_creators-keeps ranked b distinct inv =
      emit-keeps (rows_of (best_first (gather max_per_topic b ranked []))) b
        (gathered-IsPending max_per_topic ranked b distinct) inv

  pub fill_more-keeps : (l : List Row) (b : Board) → Inv b → Inv (fill_more max_per_topic l b)
  unfolding fill_more
  fill_more-keeps [] b inv = inv
  fill_more-keeps (r ∷ l) b inv =
      let skip = mem r.id b.used_ids || is_discovery_eligible r || saturated max_per_topic b r in
      let b' = if skip then b else add more r b in
      let inv' : Inv b' =
        if-keeps skip b (add more r b) (λ h. inv) (λ h. keep more r b (ground (arith, h)) inv) in
      if-keeps (is_full (b.sections more)) b (fill_more max_per_topic l b') (λ h. inv)
        (λ h. fill_more-keeps l b' inv')

-- The rule of induction for the main passes, and for the whole of `build`.
module _ (s : SectionBuilder) (Inv : Board → Type 0)
    (keep : (n : Name) (r : Row) (b : Board)
      → allowed (max 1 s.topic_share) n b r ≡ true
      → Inv b
      → Inv (add n r b)) where
  pub build_main-keeps :
      (ranked : List Row) → IsDistinct ranked → Inv (start_board s) → Inv (build_main s ranked)
  unfolding build_main
  build_main-keeps ranked distinct inv =
      let m = max 1 s.topic_share in
      let b1 = fill_discovery ranked (start_board s) in
      let b2 = fill m lead is_lead_eligible ranked b1 in
      let b3 = fill_creators m ranked b2 in
      fill-keeps m Inv keep deep_reads is_deep_read_eligible (λ r. refl) ranked b3
        (fill_creators-keeps m Inv keep ranked b2 distinct (
          fill-keeps m Inv keep lead is_lead_eligible (λ r. refl) ranked b1
            (fill_discovery-keeps m Inv keep ranked (start_board s) inv)))

  pub build-keeps :
      ((cap : ℕ) (b : Board) → Inv b → Inv (set_more cap b))
      → (ranked : List Row) → IsDistinct ranked
      → Inv (start_board s)
      → Inv (build s ranked)
  unfolding build
  build-keeps room ranked distinct inv =
      let b = build_main s ranked in
      let cap = s.total_items - placed b in
      fill_more-keeps (max 1 s.topic_share) Inv keep ranked (set_more cap b)
        (room cap b (build_main-keeps ranked distinct inv))
