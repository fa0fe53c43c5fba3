-- ===== src/Ingestion/Dedup.antt =====
-- The items of a fetch that are new: the second half of `dispatch_source` in
-- backend/app/services/ingestion/dispatcher.py. Sets of texts are lists.
use readprism.Prelude.{
  Bool, true, false, ◌||◌, Option, none, some, List, [], ◌∷◌, ◌++◌, if◌then◌else◌, or_else,
}
use readprism.Prelude.Text.{Text, member}
use readprism.Ingestion.Items.{
  RawItem, UrlLib, HashLib, canonicalize_url, simhash_text, is_near_duplicate,
}

-- `_annotate_item`; the other fields that it fills describe the text.
unfoldable pub annotate_item : HashLib → RawItem → RawItem
annotate_item lib item = record item {
  simhash = some (simhash_text lib (item.title ++ (10 ∷ or_else item.full_text [])));
}

-- `item.guid and item.guid in guids`
abbrev pub has_guid : Option Text → List Text → Bool
has_guid none guids = false
has_guid (some []) guids = false
has_guid (some (c ∷ t)) guids = member (c ∷ t) guids

-- Adds a text that is there and not empty.
abbrev pub note : Option Text → List Text → List Text
note none l = l
note (some []) l = l
note (some (c ∷ t)) l = (c ∷ t) ∷ l

abbrev pub known_url : Option Text → List Text → Bool
known_url none urls = true
known_url (some u) urls = member u urls

module _ (urls_lib : UrlLib) (hashes_lib : HashLib) where
  -- The first loop: one item of a canonical URL and of a guid.
  unfoldable pub collapse : List RawItem → List Text → List Text → List RawItem
  unfolding annotate_item
  collapse [] seen_urls seen_guids = []
  collapse (raw ∷ items) seen_urls seen_guids =
      let item = annotate_item hashes_lib raw in
      let canonical = canonicalize_url urls_lib item.url in
      let skipped = collapse items seen_urls seen_guids in
      let url = or_else canonical [] in
      let rest = collapse items (url ∷ seen_urls) (note item.guid seen_guids) in
      if known_url canonical seen_urls || has_guid item.guid seen_guids
      then skipped
      else record item { url = url } ∷ rest

-- What is on file for the feed.
pub record Stored : Type 0 where
  pub urls : List Text
  pub guids : List Text
  pub hashes : List Text

abbrev pub near_any : HashLib → Option Text → List Text → Bool
near_any lib h [] = false
near_any lib h (p ∷ l) = is_near_duplicate lib h (some p) || near_any lib h l

-- An item that is on file already, under its URL, its guid, or nearly so by its text.
abbrev pub is_known : HashLib → Stored → RawItem → Bool
is_known lib s item =
    member item.url s.urls || has_guid item.guid s.guids || near_any lib item.simhash s.hashes

-- The second loop. Only the hashes grow as it goes: URLs and guids are distinct by then.
unfoldable pub fresh_items : HashLib → List RawItem → Stored → List RawItem
fresh_items lib [] s = []
fresh_items lib (item ∷ items) s =
    let skipped = fresh_items lib items s in
    let rest = fresh_items lib items (record s { hashes = note item.simhash s.hashes }) in
    if is_known lib s item then skipped else item ∷ rest

-- The rows of the stored items, read back. A URL that cannot be read is left out.
pub record StoredRow : Type 0 where
  pub url : Text
  pub guid : Option Text
  pub simhash : Option Text

abbrev add_url : Option Text → List Text → List Text
add_url none l = l
add_url (some u) l = u ∷ l

unfoldable pub stored_of : UrlLib → List StoredRow → Stored
stored_of lib [] = record { urls = []; guids = []; hashes = [] }
stored_of lib (r ∷ rows) =
    let s = stored_of lib rows in
    record {
      urls = add_url (canonicalize_url lib r.url) s.urls;
      guids = note r.guid s.guids;
      hashes = note r.simhash s.hashes;
    }

-- The items of a batch that are new to the feed.
unfoldable pub new_items : UrlLib → HashLib → List StoredRow → List RawItem → List RawItem
new_items urls hashes rows items =
    fresh_items hashes (collapse urls hashes items [] []) (stored_of urls rows)
