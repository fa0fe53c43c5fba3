-- ===== src/Digest/Candidates.antt =====
-- What a digest build ranks: the upper half of `build_digest` in backend/app/services/digest/builder.py.
-- The queries (`_candidates`, `_quiet_day_fallback`, the serendipity picks and the warmup of new
-- readers) are parameters, as the items that they answer, the warmup none where it raises.
use readprism.Prelude.{
  ℕ, ◌+◌, ◌≤◌, Bool, true, false, ◌&&◌, Option, none, some, List, [], ◌∷◌, ◌++◌, map, max, mem,
  length, ltb, ◌==◌, if◌then◌else◌,
}
use readprism.Prelude.Text.{Text, lower, member}
use readprism.Ingestion.Caps.{Item, cap_per_source}

-- What the pipeline reads of an item.
pub record Found : Type 0 where
  pub item : Item
  pub language : Option Text

abbrev is_wanted : List Text → Option Text → Bool
is_wanted wanted none = true
is_wanted wanted (some l) = member (lower l) wanted

unfoldable pub keep_wanted : List Text → List Found → List Found
keep_wanted wanted [] = []
keep_wanted wanted (f ∷ found) =
    let rest = keep_wanted wanted found in if is_wanted wanted f.language then f ∷ rest else rest

abbrev pub is_empty : List Text → Bool
is_empty [] = true
is_empty (t ∷ l) = false

-- The language filter; no preference is no filter.
unfoldable pub filter_languages : List Text → List Found → List Found
unfolding keep_wanted
filter_languages preferred found =
    if is_empty preferred then found else keep_wanted (map lower preferred) found

abbrev pub items_of : List Found → List Item
items_of = map (λ f. f.item)

abbrev pub ids_of : List Item → List ℕ
ids_of = map (λ i. i.id)

-- The warmup items that are not there yet.
unfoldable pub merge_warmup : List ℕ → List Item → List Item
merge_warmup existing [] = []
merge_warmup existing (w ∷ warmup) =
    let skipped = merge_warmup existing warmup in
    let added = merge_warmup (w.id ∷ existing) warmup in
    if mem w.id existing then skipped else w ∷ added

-- The queries of one build, and `math.ceil(n * 0.10)` of floats.
pub record Queries : Type 0 where
  pub has_feeds : Bool
  pub candidates : List Found
  pub fallback : List Found
  pub serendipity : ℕ → List Item
  pub warmup : Option (List Item)
  pub ceil_tenth : ℕ → ℕ

pub record Content : Type 0 where
  pub content_items : List Item
  pub quiet_fallback_ids : List ℕ
  pub serendipity_items : List Item

abbrev is_none : List Item → Bool
is_none [] = true
is_none (i ∷ l) = false

abbrev or_none : Option (List Item) → List Item
or_none none = []
or_none (some l) = l

-- The window's items, in the preferred languages, at most `cap` for each source.
unfoldable pub fresh_content : ℕ → List Text → Queries → List Item
unfolding filter_languages cap_per_source
fresh_content cap preferred q =
    let found = if q.has_feeds then q.candidates else [] in
    cap_per_source (items_of (filter_languages preferred found)) cap

-- On a quiet day, what was not read in two weeks.
unfoldable pub quiet_content : ℕ → List Text → Queries → List Item
unfolding filter_languages cap_per_source
quiet_content cap preferred q =
    cap_per_source (items_of (filter_languages preferred q.fallback)) cap

unfoldable pub gather : ℕ → List Text → ℕ → Queries → Content
unfolding fresh_content quiet_content merge_warmup
gather cap preferred user_age_days q =
    let fresh = fresh_content cap preferred q in
    let quiet = is_none fresh && q.has_feeds in
    let content = if quiet then quiet_content cap preferred q else fresh in
    let warm = merge_warmup (ids_of content) (or_none q.warmup) in
    record {
      content_items =
          if ltb user_age_days 14 && ltb (length content) 10 then content ++ warm else content;
      quiet_fallback_ids = if quiet then ids_of content else [];
      serendipity_items = q.serendipity (max 5 (q.ceil_tenth (length content)));
    }

-- `all_items`, which the digest clusters and ranks.
unfoldable pub all_items : Content → List Item
all_items c = c.content_items ++ c.serendipity_items

unfoldable pub count_id : ℕ → List Item → ℕ
count_id k [] = 0
count_id k (i ∷ items) = (if k == i.id then 1 else 0) + count_id k items

-- No two items have one id.
abbrev pub AreDistinct : List Item → Type 0
AreDistinct items = (k : ℕ) → count_id k items ≤ 1
