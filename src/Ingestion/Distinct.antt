-- ===== src/Ingestion/Distinct.antt =====
-- The new items of a batch differ from what is on file and from each other: `dispatch_source` in
-- backend/app/services/ingestion/dispatcher.py.
use readprism.Prelude.{
  ◌≡◌, refl, ap, inl, inr, true, false, ◌||◌, Option, none, some, List, [], ◌∷◌, or_else, arith,
  Bool-cases,
}
use readprism.Prelude.Text.{Text, member}
use readprism.Ingestion.Items.{RawItem, UrlLib, HashLib, canonicalize_url}
use readprism.Ingestion.Dedup.{
  annotate_item, has_guid, note, known_url, collapse, Stored, near_any, is_known, fresh_items,
}
use readprism.Ingestion.Novelty.{with_items, member-note}

-- No two items share a URL or a guid, nor has one a URL or guid of the given ones.
abbrev AreDistinct : List Text → List Text → List RawItem → Type 0
AreDistinct urls guids [] = Unit
AreDistinct urls guids (i ∷ l) =
    (member i.url urls ≡ false)
    × (has_guid i.guid guids ≡ false)
    × AreDistinct (i.url ∷ urls) (note i.guid guids) l

-- No item is on file, each item being put on file before the next is looked at.
abbrev pub AreNovel : HashLib → Stored → List RawItem → Type 0
AreNovel lib s [] = Unit
AreNovel lib s (i ∷ l) = (is_known lib s i ≡ false) × AreNovel lib (with_items (i ∷ []) s) l

url_new :
    (o : Option Text) (urls : List Text)
    → known_url o urls ≡ false
    → member (or_else o []) urls ≡ false
url_new none urls h = cc
url_new (some u) urls h = h

pub collapse-AreDistinct :
    (ul : UrlLib) (hl : HashLib) (items : List RawItem) (urls guids : List Text)
    → AreDistinct urls guids (collapse ul hl items urls guids)
unfolding collapse annotate_item
collapse-AreDistinct ul hl [] urls guids = tt
collapse-AreDistinct ul hl (i ∷ items) urls guids =
    elim (Bool-cases (known_url (canonicalize_url ul i.url) urls || has_guid i.guid guids)) [
      | inl skip ↦ rw skip (collapse-AreDistinct ul hl items urls guids)
      | inr take ↦ rw take (
        url_new (canonicalize_url ul i.url) urls (ground (arith, take)),
        ground (arith, take),
        collapse-AreDistinct ul hl items (or_else (canonicalize_url ul i.url) [] ∷ urls)
            (note i.guid guids),
      )
    ]

-- The texts of `t` are among those of `s` and the given ones.
abbrev Among : Stored → Stored → List Text → List Text → Type 0
Among t s urls guids =
    ((u : Text) → member u t.urls ≡ true → (member u s.urls || member u urls) ≡ true)
    × ((u : Text) → member u t.guids ≡ true → (member u s.guids || member u guids) ≡ true)
    × (t.hashes ≡ s.hashes)

has_guid_among :
    (g : Option Text) (l m n : List Text)
    → ((u : Text) → member u l ≡ true → (member u m || member u n) ≡ true)
    → has_guid g m ≡ false
    → has_guid g n ≡ false
    → has_guid g l ≡ false
has_guid_among none l m n a h k = refl
has_guid_among (some []) l m n a h k = refl
has_guid_among (some (c ∷ t)) l m n a h k = ground (arith, a (c ∷ t), h, k)

module _ (lib : HashLib) where
  not_known :
      (i : RawItem) (s t : Stored) (urls guids : List Text)
      → Among t s urls guids
      → member i.url urls ≡ false
      → has_guid i.guid guids ≡ false
      → is_known lib s i ≡ false
      → is_known lib t i ≡ false
  not_known i s t urls guids (u, g, h) new_url new_guid new =
      let by_guid = has_guid_among i.guid t.guids s.guids guids g in
      let near = ap (near_any lib i.simhash) h in
      ground (arith, u i.url, by_guid, near, new_url, new_guid, new)

  pub fresh_items-AreNovel :
      (items : List RawItem) (s t : Stored) (urls guids : List Text)
      → AreDistinct urls guids items
      → Among t s urls guids
      → AreNovel lib t (fresh_items lib items s)
  unfolding fresh_items
  fresh_items-AreNovel [] s t urls guids d a = tt
  fresh_items-AreNovel (i ∷ items) s t urls guids (new_url, new_guid, d) (u, g, h) =
      elim (Bool-cases (is_known lib s i)) [
        | inl known ↦ rw known (
            fresh_items-AreNovel items s t (i.url ∷ urls) (note i.guid guids) d (
              λ x m. ground (arith, u x m),
              λ x m. ground (arith, g x m, member-note i.guid guids x),
              h,
            ))
        | inr new ↦ rw new (
          not_known i s t urls guids (u, g, h) new_url new_guid new,
          fresh_items-AreNovel items (record s { hashes = note i.simhash s.hashes })
              (with_items (i ∷ []) t) (i.url ∷ urls) (note i.guid guids) d
              (
                λ x m. ground (arith, u x, m),
                λ x m.
                    ground
                      (arith, g x, m, member-note i.guid guids x, member-note i.guid t.guids x),
                ap (note i.simhash) h,
              ),
        )
      ]
