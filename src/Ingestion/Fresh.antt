-- ===== src/Ingestion/Fresh.antt =====
-- What it means for an item to be new, by the rows on file themselves: `dispatch_source` in
-- backend/app/services/ingestion/dispatcher.py.
use mathlib.Core.Path.{subst}
use readprism.Prelude.{
  All, ◌≡◌, ◌≢◌, refl, sym, ap, ◌∙◌, inl, inr, true, false, Option, none, some, List, [], ◌∷◌,
  arith, Bool-cases,
}
use readprism.Prelude.Text.{Text, member, text_eq, text_eq_iff}
use readprism.Ingestion.Items.{RawItem, UrlLib, HashLib, canonicalize_url, is_near_duplicate}
use readprism.Ingestion.Dedup.{
  has_guid, note, Stored, near_any, is_known, StoredRow, stored_of, new_items, collapse,
}
use readprism.Ingestion.Distinct.{AreNovel, fresh_items-AreNovel, collapse-AreDistinct}
use readprism.Ingestion.Novelty.{with_items, member-note}

-- The item has another URL than the given one, another guid unless one is missing or empty, and its text
-- is no near duplicate where both have a hash.
pub record IsApart (lib : HashLib) (item : RawItem) (url guid hash : Option Text) : Type 0 where
  pub other_url : url ≢ some item.url
  pub other_guid : (g : Text) → g ≢ [] → guid ≡ some g → item.guid ≢ some g
  pub other_text :
      (h : Text) → h ≢ [] → hash ≡ some h → is_near_duplicate lib item.simhash (some h) ≡ false

-- Each item of the batch is apart from each stored row, whose URL is read back in its canonical form.
abbrev pub AreNewTo : UrlLib → HashLib → List StoredRow → List RawItem → Type 0
AreNewTo urls lib rows items =
    All (λ r. All (λ j. IsApart lib j (canonicalize_url urls r.url) r.guid r.simhash) items) rows

-- Each item is apart from those before it in the batch.
unfoldable pub AreApart : HashLib → List RawItem → Type 0
AreApart lib [] = Unit
AreApart lib (i ∷ l) = All (λ j. IsApart lib j (some i.url) i.guid i.simhash) l × AreApart lib l

-- What a place holds that an item is looked up in, for one row of it.
Holds : Stored → Option Text → Option Text → Option Text → Type 0
Holds s url guid hash =
    ((u : Text) → url ≡ some u → member u s.urls ≡ true)
    × ((g : Text) → g ≢ [] → guid ≡ some g → member g s.guids ≡ true)
    × ((h : Text) → h ≢ [] → hash ≡ some h → member h s.hashes ≡ true)

near_of :
    (lib : HashLib) (o : Option Text) (h : Text) (l : List Text)
    → member h l ≡ true
    → near_any lib o l ≡ false
    → is_near_duplicate lib o (some h) ≡ false
near_of lib o h [] m far = cc
near_of lib o h (p ∷ l) m far = elim (Bool-cases (text_eq h p)) [
  | inl same ↦
      ap (λ t. is_near_duplicate lib o (some t)) ((text_eq_iff h p).0 same) ∙ ground (arith, far)
  | inr other ↦ near_of lib o h l (ground (arith, m, other)) (ground (arith, far))
]

has_guid_of :
    (o : Option Text) (g : Text) (l : List Text)
    → g ≢ []
    → member g l ≡ true
    → has_guid o l ≡ false
    → o ≢ some g
has_guid_of none g l full m missing e = cc
has_guid_of (some []) g l full m missing e = full (let same : [] ≡ g = cc in sym same)
has_guid_of (some (c ∷ t)) g l full m missing e =
    let same : c ∷ t ≡ g = cc in let found = subst (λ x. member x l ≡ true) (sym same) m in cc

unknown-IsApart :
    (lib : HashLib) (s : Stored) (item : RawItem) (url guid hash : Option Text)
    → Holds s url guid hash
    → is_known lib s item ≡ false
    → IsApart lib item url guid hash
unfolding Holds
unknown-IsApart lib s item url guid hash (u, g, h) new = record {
  other_url = λ e. let m = u item.url e in let clash : true ≡ false = ground (arith, new, m) in cc;
  other_guid = λ t full e. has_guid_of item.guid t s.guids full (g t full e) (ground (arith, new));
  other_text = λ t full e. near_of lib item.simhash t s.hashes (h t full e) (ground (arith, new));
}

-- Everything on file in `s` is on file in `t`.
abbrev IsMore : Stored → Stored → Type 0
IsMore s t =
    ((u : Text) → member u s.urls ≡ true → member u t.urls ≡ true)
    × ((u : Text) → member u s.guids ≡ true → member u t.guids ≡ true)
    × ((u : Text) → member u s.hashes ≡ true → member u t.hashes ≡ true)

Holds-IsMore :
    (s t : Stored) (url guid hash : Option Text)
    → IsMore s t
    → Holds s url guid hash
    → Holds t url guid hash
unfolding Holds
Holds-IsMore s t url guid hash (a, b, c) (u, g, h) =
    (λ x e. a x (u x e), λ x full e. b x (g x full e), λ x full e. c x (h x full e))

filed-IsMore : (i : RawItem) (s : Stored) → IsMore s (with_items (i ∷ []) s)
filed-IsMore i s = (
  λ u m. ground (arith, m),
  λ u m. ground (arith, m, member-note i.guid s.guids u),
  λ u m. ground (arith, m, member-note i.simhash s.hashes u),
)

row-IsMore :
    (urls : UrlLib) (r : StoredRow) (rows : List StoredRow)
    → IsMore (stored_of urls rows) (stored_of urls (r ∷ rows))
unfolding stored_of
row-IsMore urls r rows = (
  λ u m. ground (arith, m),
  λ u m. ground (arith, m, member-note r.guid (stored_of urls rows).guids u),
  λ u m. ground (arith, m, member-note r.simhash (stored_of urls rows).hashes u),
)

noted :
    (o : Option Text) (l : List Text) (t : Text) → t ≢ [] → o ≡ some t → member t (note o l) ≡ true
noted none l t full e = cc
noted (some []) l t full e = absurd (full (let same : [] ≡ t = cc in sym same))
noted (some (c ∷ u)) l t full e =
    let same : t ≡ c ∷ u = cc in ground (arith, (text_eq_iff t (c ∷ u)).1 same)

filed-Holds :
    (i : RawItem) (s : Stored) → Holds (with_items (i ∷ []) s) (some i.url) i.guid i.simhash
unfolding Holds
filed-Holds i s = (
  λ u e. let same : u ≡ i.url = cc in ground (arith, (text_eq_iff u i.url).1 same),
  noted i.guid s.guids,
  noted i.simhash s.hashes,
)

row-Holds :
    (urls : UrlLib) (r : StoredRow) (rows : List StoredRow)
    → Holds (stored_of urls (r ∷ rows)) (canonicalize_url urls r.url) r.guid r.simhash
unfolding Holds stored_of
row-Holds urls r rows = (
  λ u e. let self = (text_eq_iff u u).1 refl in rw e (ground (arith, self)),
  noted r.guid (stored_of urls rows).guids,
  noted r.simhash (stored_of urls rows).hashes,
)

module _ (urls : UrlLib) (lib : HashLib) where
  All-IsApart :
      (items : List RawItem) (s : Stored) (url guid hash : Option Text)
      → Holds s url guid hash
      → AreNovel lib s items
      → All (λ j. IsApart lib j url guid hash) items
  All-IsApart [] s url guid hash h n = tt
  All-IsApart (i ∷ items) s url guid hash h (new, n) = (
    unknown-IsApart lib s i url guid hash h new,
    All-IsApart items (with_items (i ∷ []) s) url guid hash
        (Holds-IsMore s (with_items (i ∷ []) s) url guid hash (filed-IsMore i s) h) n,
  )

  novel-AreApart : (items : List RawItem) (s : Stored) → AreNovel lib s items → AreApart lib items
  unfolding AreApart
  novel-AreApart [] s n = tt
  novel-AreApart (i ∷ items) s (new, n) = (
    All-IsApart items (with_items (i ∷ []) s) (some i.url) i.guid i.simhash (filed-Holds i s) n,
    novel-AreApart items (with_items (i ∷ []) s) n,
  )

  novel-AreNewTo :
      (rows : List StoredRow) (s : Stored) (items : List RawItem)
      → IsMore (stored_of urls rows) s
      → AreNovel lib s items
      → AreNewTo urls lib rows items
  novel-AreNewTo [] s items more n = tt
  novel-AreNewTo (r ∷ rows) s items more n =
      let (a, b, c) = row-IsMore urls r rows in
      let (x, y, z) = more in
      (
        All-IsApart items s (canonicalize_url urls r.url) r.guid r.simhash
            (Holds-IsMore (stored_of urls (r ∷ rows)) s (canonicalize_url urls r.url) r.guid
              r.simhash more (row-Holds urls r rows))
            n,
        novel-AreNewTo rows s items (λ u m. x u (a u m), λ u m. y u (b u m), λ u m. z u (c u m)) n,
      )

  -- Every item that a fetch yields is new: against each stored row and each item before it in the
  -- batch it has another URL, another guid unless one is missing or empty, and a text that is no near
  -- duplicate where both have a hash.
  pub new_items-AreNew :
      (rows : List StoredRow) (items : List RawItem)
      → AreNewTo urls lib rows (new_items urls lib rows items)
        × AreApart lib (new_items urls lib rows items)
  unfolding new_items
  new_items-AreNew rows items =
      let s = stored_of urls rows in
      let novel =
        fresh_items-AreNovel lib (collapse urls lib items [] []) s s [] []
          (collapse-AreDistinct urls lib items [] [])
          (λ x m. ground (arith, m), λ x m. ground (arith, m), refl) in
      (novel-AreNewTo rows s _ (λ u m. m, λ u m. m, λ u m. m) novel, novel-AreApart _ s novel)
