-- ===== src/Ingestion/Novelty.antt =====
-- What is stored of a batch is known when the batch comes again: `dispatch_source` in
-- backend/app/services/ingestion/dispatcher.py.
use readprism.Prelude.{
  All, ◌≡◌, refl, sym, ap, ◌∙◌, inl, inr, true, ◌||◌, Option, none, some, List, [], ◌∷◌, arith,
  Bool-cases,
}
use readprism.Prelude.Text.{Text, member, text_eq, text_eq_iff}
use readprism.Ingestion.Items.{RawItem, HashLib, is_near_duplicate}
use readprism.Ingestion.Dedup.{has_guid, note, Stored, near_any, is_known, fresh_items}

-- What is on file once items were stored too.
abbrev pub with_items : List RawItem → Stored → Stored
with_items [] s = s
with_items (i ∷ l) s =
    let r = with_items l s in
    record { urls = i.url ∷ r.urls; guids = note i.guid r.guids; hashes = note i.simhash r.hashes }

-- Everything on file in `s` is on file in `t`.
abbrev Within : Stored → Stored → Type 0
Within s t =
    ((u : Text) → member u s.urls ≡ true → member u t.urls ≡ true)
    × ((u : Text) → member u s.guids ≡ true → member u t.guids ≡ true)
    × ((u : Text) → member u s.hashes ≡ true → member u t.hashes ≡ true)

near_any-member :
    (lib : HashLib) (h : Option Text) (p : Text) (l : List Text)
    → member p l ≡ true
    → is_near_duplicate lib h (some p) ≡ true
    → near_any lib h l ≡ true
near_any-member lib h p [] m e = cc
near_any-member lib h p (q ∷ l) m e = elim (Bool-cases (text_eq p q)) [
  | inl same ↦
      let q_is_p = (text_eq_iff p q).0 same in
      let here : is_near_duplicate lib h (some q) ≡ true =
        sym (ap (λ t. is_near_duplicate lib h (some t)) q_is_p) ∙ e in
      rw here refl
  | inr other ↦ ground (arith, near_any-member lib h p l (ground (arith, m, other)) e)
]

near_any-within :
    (lib : HashLib) (h : Option Text) (l l' : List Text)
    → ((u : Text) → member u l ≡ true → member u l' ≡ true)
    → near_any lib h l ≡ true
    → near_any lib h l' ≡ true
near_any-within lib h [] l' w e = cc
near_any-within lib h (p ∷ l) l' w e = elim (Bool-cases (is_near_duplicate lib h (some p))) [
  | inl near ↦ near_any-member lib h p l' (w p (ground (arith, text_eq_iff p p))) near
  | inr far ↦ near_any-within lib h l l' (λ u m. w u (ground (arith, m))) (ground (arith, e, far))
]

has_guid-within :
    (g : Option Text) (l l' : List Text)
    → ((u : Text) → member u l ≡ true → member u l' ≡ true)
    → has_guid g l ≡ true
    → has_guid g l' ≡ true
has_guid-within none l l' w e = e
has_guid-within (some []) l l' w e = e
has_guid-within (some (c ∷ t)) l l' w e = w (c ∷ t) e

is_known-Within :
    (lib : HashLib) (s t : Stored) (i : RawItem)
    → Within s t
    → is_known lib s i ≡ true
    → is_known lib t i ≡ true
is_known-Within lib s t i (u, g, h) e =
    let by_url = u i.url in
    let by_guid = has_guid-within i.guid s.guids t.guids g in
    let by_hash = near_any-within lib i.simhash s.hashes t.hashes h in
    ground (arith, by_url, by_guid, by_hash, e)

-- An item that was filed: its URL and its hash are on file.
abbrev Covers : Stored → RawItem → Type 0
Covers t i =
    (member i.url t.urls ≡ true)
    × ((p : Text) → member p (note i.simhash []) ≡ true → member p t.hashes ≡ true)

pub member-note :
    (o : Option Text) (l : List Text) (u : Text)
    → member u (note o l) ≡ (member u (note o []) || member u l)
member-note none l u = refl
member-note (some []) l u = refl
member-note (some (c ∷ t)) l u = ground arith

module _ (lib : HashLib) where
  known_again :
      (items : List RawItem) (s t : Stored)
      → Within s t
      → All (Covers t) (fresh_items lib items s)
      → All (λ i. is_known lib t i ≡ true) items
  unfolding fresh_items
  known_again [] s t w c = tt
  known_again (i ∷ items) s t w c = elim (Bool-cases (is_known lib s i)) [
    | inl known ↦ (is_known-Within lib s t i w known, known_again items s t w (rw known at c))
    | inr new ↦
        let c' : All (Covers t)
            (i ∷ fresh_items lib items (record s { hashes = note i.simhash s.hashes })) =
          rw new at c in
        let (u, g, h) = w in
        (
          ground (arith, c'.0.0),
          known_again items (record s { hashes = note i.simhash s.hashes }) t
              (
                u,
                g,
                λ p m.
                    let split = member-note i.simhash s.hashes p in
                    let filed = c'.0.1 p in
                    let before = h p in ground (arith, split, filed, before, m),
              )
              c'.1,
        )
  ]

  fresh_items-known :
      (items : List RawItem) (t : Stored)
      → All (λ i. is_known lib t i ≡ true) items
      → fresh_items lib items t ≡ []
  unfolding fresh_items
  fresh_items-known [] t a = refl
  fresh_items-known (i ∷ items) t (known, a) = rw known (fresh_items-known items t a)

with_items-Within : (l : List RawItem) (s : Stored) → Within s (with_items l s)
with_items-Within [] s = (λ u m. m, λ u m. m, λ u m. m)
with_items-Within (i ∷ l) s =
    let (a, b, c) = with_items-Within l s in
    (
      λ u m. ground (arith, a u m),
      λ u m. ground (arith, b u m, member-note i.guid (with_items l s).guids u),
      λ u m. ground (arith, c u m, member-note i.simhash (with_items l s).hashes u),
    )

Covers-cons :
    (i : RawItem) (t : Stored) (l : List RawItem)
    → All (Covers t) l
    → All (Covers (with_items (i ∷ []) t)) l
Covers-cons i t [] a = tt
Covers-cons i t (j ∷ l) ((u, h), a) = (
  (ground (arith, u), λ p m. ground (arith, h p m, member-note i.simhash t.hashes p)),
  Covers-cons i t l a,
)

with_items-Covers : (l : List RawItem) (s : Stored) → All (Covers (with_items l s)) l
with_items-Covers [] s = tt
with_items-Covers (i ∷ l) s = (
  (
    ground (arith, text_eq_iff i.url i.url),
    λ p m. ground (arith, m, member-note i.simhash (with_items l s).hashes p),
  ),
  Covers-cons i (with_items l s) l (with_items-Covers l s),
)

-- Once all the new items of a batch are stored, the same batch has no new item left.
pub fresh_items_again :
    (lib : HashLib) (items : List RawItem) (s : Stored)
    → fresh_items lib items (with_items (fresh_items lib items s) s) ≡ []
fresh_items_again lib items s =
    let kept = fresh_items lib items s in
    fresh_items-known lib items (with_items kept s) (
      known_again lib items s (with_items kept s) (with_items-Within kept s)
        (with_items-Covers kept s))
