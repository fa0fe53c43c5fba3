-- ===== src/Ingestion/Uniqueness.antt =====
-- The table of items keeps its constraints: `_insert_items` of
-- backend/app/workers/tasks/ingest_feeds.py.
use readprism.Prelude.{
  All, ℕ, ◌≡◌, ◌↔◌, ◌⊎◌, sym, ap, refl, ◌&&◌, inl, inr, Bool, true, false, ◌||◌, Option, none, some,
  List, [], ◌∷◌, arith, Bool-cases,
}
use readprism.Prelude.Text.{Text, text_eq, text_eq_iff}
use readprism.Ingestion.Filing.{
  ContentItem, same_owner, same_id, guid_eq, clashes, any_clash, insert_items,
}

-- What the unique constraints of the table forbid of two rows: one URL twice among public rows or among
-- the rows of one owner, or one guid twice in one source. A missing source or guid is no value.
pub Conflicts : ContentItem → ContentItem → Type 0
Conflicts c d =
    ((c.owner_user_id ≡ d.owner_user_id) × (c.item.url ≡ d.item.url))
    ⊎ ((source : ℕ) × (guid : Text) × (c.source_id ≡ some source)
        × (d.source_id ≡ some source)
        × (c.item.guid ≡ some guid)
        × (d.item.guid ≡ some guid))

-- A row of the table is in conflict with `c`.
unfoldable pub ConflictsWith : ContentItem → List ContentItem → Type 0
ConflictsWith c [] = ⊥
ConflictsWith c (d ∷ table) = Conflicts c d ⊎ ConflictsWith c table

-- No two rows are in conflict.
unfoldable pub IsUnique : List ContentItem → Type 0
IsUnique [] = Unit
IsUnique (c ∷ table) = (¬ ConflictsWith c table) × IsUnique table

same_owner_iff : (o p : Option ℕ) → (same_owner o p ≡ true) ↔ (o ≡ p)
same_owner_iff none none = (λ h. refl, λ h. refl)
same_owner_iff none (some b) = (λ h. cc, λ h. cc)
same_owner_iff (some a) none = (λ h. cc, λ h. cc)
same_owner_iff (some a) (some b) = (λ h. ground (arith, h), λ h. ground (arith, h))

same_id_iff : (o p : Option ℕ) → (same_id o p ≡ true) ↔ ((k : ℕ) × (o ≡ some k) × (p ≡ some k))
same_id_iff none p = (λ h. cc, λ (k, e, g). cc)
same_id_iff (some a) none = (λ h. cc, λ (k, e, g). cc)
same_id_iff (some a) (some b) =
    (λ h. (a, refl, ground (arith, h)), λ (k, e, g). ground (arith, e, g))

guid_eq_iff :
    (o p : Option Text) → (guid_eq o p ≡ true) ↔ ((t : Text) × (o ≡ some t) × (p ≡ some t))
guid_eq_iff none p = (λ h. cc, λ (k, e, g). cc)
guid_eq_iff (some a) none = (λ h. cc, λ (k, e, g). cc)
guid_eq_iff (some a) (some b) = (
  λ h. (a, refl, sym (ap some ((text_eq_iff a b).0 h))),
  λ (t, e, g). (text_eq_iff a b).1 (let one : a ≡ b = cc in one),
)

clashes_iff : (c d : ContentItem) → (clashes c d ≡ true) ↔ Conflicts c d
unfolding Conflicts
clashes_iff c d =
    let owner = same_owner_iff c.owner_user_id d.owner_user_id in
    let url = text_eq_iff c.item.url d.item.url in
    let source = same_id_iff c.source_id d.source_id in
    let guid = guid_eq_iff c.item.guid d.item.guid in
    (
      λ h.
          elim (Bool-cases
            (same_owner c.owner_user_id d.owner_user_id && text_eq c.item.url d.item.url)) [
              | inl t ↦ inl (owner.0 (ground (arith, t)), url.0 (ground (arith, t)))
              | inr f ↦
                  let (k, a, b) = source.0 (ground (arith, h, f)) in
                  let (t, x, y) = guid.0 (ground (arith, h, f)) in inr (k, t, a, b, x, y)
            ],
      λ where_from. elim where_from [
        | inl (o, u) ↦ let a = owner.1 o in let b = url.1 u in ground (arith, a, b)
        | inr (k, t, a, b, x, y) ↦
            let one = source.1 (k, a, b) in let two = guid.1 (t, x, y) in ground (arith, one, two)
      ],
    )

any_clash_iff :
    (c : ContentItem) (table : List ContentItem)
    → (any_clash c table ≡ true) ↔ ConflictsWith c table
unfolding ConflictsWith
any_clash_iff c [] = (λ h. cc, λ h. absurd h)
any_clash_iff c (d ∷ table) =
    let here = clashes_iff c d in
    let there = any_clash_iff c table in
    (
      λ h. elim (Bool-cases (clashes c d)) [
        | inl t ↦ inl (here.0 t)
        | inr f ↦ inr (there.0 (ground (arith, h, f)))
      ],
      λ h. elim h [
        | inl a ↦ let t = here.1 a in ground (arith, t)
        | inr b ↦ let t = there.1 b in ground (arith, t)
      ],
    )

no_clash :
    (c : ContentItem) (table : List ContentItem)
    → any_clash c table ≡ false
    → ¬ ConflictsWith c table
no_clash c table f h = let t = (any_clash_iff c table).1 h in cc

-- The rows of the first table are among those of the second, for every row's clashes.
abbrev Grows : List ContentItem → List ContentItem → Type 0
Grows s t = (c : ContentItem) → any_clash c s ≡ true → any_clash c t ≡ true

owner_refl : (o : Option ℕ) → same_owner o o ≡ true
owner_refl none = refl
owner_refl (some a) = ground arith

clashes_refl : (c : ContentItem) → clashes c c ≡ true
clashes_refl c = ground (arith, owner_refl c.owner_user_id, text_eq_iff c.item.url c.item.url)

module _ (blocked : Text → Bool) where
  insert_items-Grows :
      (rows table : List ContentItem) → Grows table (insert_items blocked rows table).1
  unfolding insert_items
  insert_items-Grows [] table c h = h
  insert_items-Grows (d ∷ rows) table c h =
      elim (Bool-cases (blocked d.item.url || any_clash d table)) [
        | inl skip ↦ rw skip (insert_items-Grows rows table c h)
        | inr new ↦ rw new (insert_items-Grows rows (d ∷ table) c (ground (arith, h)))
      ]

  pub insert_items-IsUnique :
      (rows table : List ContentItem)
      → IsUnique table
      → IsUnique (insert_items blocked rows table).1
  unfolding insert_items IsUnique
  insert_items-IsUnique [] table u = u
  insert_items-IsUnique (d ∷ rows) table u =
      elim (Bool-cases (blocked d.item.url || any_clash d table)) [
        | inl skip ↦ rw skip (insert_items-IsUnique rows table u)
        | inr new ↦
            rw new
              (insert_items-IsUnique rows (d ∷ table) (no_clash d table (ground (arith, new)), u))
      ]

  settled :
      (rows table : List ContentItem)
      → All (λ c. (blocked c.item.url || any_clash c table) ≡ true) rows
      → insert_items blocked rows table ≡ (0, table)
  unfolding insert_items
  settled [] table a = refl
  settled (c ∷ rows) table (known, a) = rw known (settled rows table a)

  insert_items_settles :
      (rows table t : List ContentItem)
      → Grows (insert_items blocked rows table).1 t
      → All (λ c. (blocked c.item.url || any_clash c t) ≡ true) rows
  unfolding insert_items
  insert_items_settles [] table t g = tt
  insert_items_settles (c ∷ rows) table t g =
      elim (Bool-cases (blocked c.item.url || any_clash c table)) [
        | inl skip ↦
            let g' : Grows (insert_items blocked rows table).1 t = rw skip at g in
            let kept = insert_items-Grows rows table c in
            let grown = g' c in
            (ground (arith, skip, kept, grown), insert_items_settles rows table t g')
        | inr new ↦
            let g' : Grows (insert_items blocked rows (c ∷ table)).1 t = rw new at g in
            let kept = insert_items-Grows rows (c ∷ table) c in
            let grown = g' c in
            (
              ground (arith, kept, grown, clashes_refl c),
              insert_items_settles rows (c ∷ table) t g',
            )
      ]

  -- Of rows that are inserted, each is blocked or in conflict with a row of the table `t`, itself at
  -- the least.
  Settled : List ContentItem → List ContentItem → Type 0
  Settled rows t = All (λ c. (blocked c.item.url ≡ true) ⊎ ConflictsWith c t) rows

  All-Settled :
      (rows t : List ContentItem)
      → All (λ c. (blocked c.item.url || any_clash c t) ≡ true) rows
      → Settled rows t
  unfolding Settled
  All-Settled [] t a = tt
  All-Settled (c ∷ rows) t (h, a) = (
    elim (Bool-cases (blocked c.item.url)) [
      | inl b ↦ inl b
      | inr b ↦ inr ((any_clash_iff c t).0 (ground (arith, h, b)))
    ],
    All-Settled rows t a,
  )

  -- A table that satisfies the unique constraints keeps satisfying them, whatever rows are inserted. No
  -- row is left out without a reason: afterwards each is blocked, or the constraints forbid it beside
  -- the table, as they do for a row that is in it. Inserting the same rows again changes nothing.
  pub insert_items_lem :
      (rows table : List ContentItem)
      → IsUnique table
      → let after = (insert_items blocked rows table).1 in
        IsUnique after
        × All (λ c. (blocked c.item.url ≡ true) ⊎ ConflictsWith c after) rows
        × (insert_items blocked rows after ≡ (0, after))
  unfolding Settled
  insert_items_lem rows table u =
      let after = (insert_items blocked rows table).1 in
      let known = insert_items_settles rows table after (λ c h. h) in
      (insert_items-IsUnique rows table u, All-Settled rows after known, settled rows after known)
