-- ===== src/Ingestion/Filing.antt =====
-- The table of items (backend/app/models/content.py) and its insertions: `_insert_items` of
-- backend/app/workers/tasks/ingest_feeds.py, and the query of `dispatch_source` in
-- backend/app/services/ingestion/dispatcher.py.
use readprism.Prelude.{
  ℕ, ◌+◌, Bool, true, false, ◌&&◌, ◌||◌, Option, none, some, List, [], ◌∷◌, ◌==◌, if◌then◌else◌,
}
use readprism.Prelude.Text.{Text, text_eq}
use readprism.Ingestion.Items.{RawItem}
use readprism.Ingestion.Dedup.{StoredRow}

-- A row of `content_items`. The text of a transcript, which `_ingest_source` puts before that of its
-- item, is left out: nothing here reads a stored text.
pub record ContentItem : Type 0 where
  pub source_id : Option ℕ
  pub feed_id : Option ℕ
  pub owner_user_id : Option ℕ
  pub item : RawItem

abbrev opt_eq : Option ℕ → ℕ → Bool
opt_eq none n = false
opt_eq (some m) n = m == n

abbrev pub guid_eq : Option Text → Option Text → Bool
guid_eq (some a) (some b) = text_eq a b
guid_eq _ _ = false

abbrev pub same_id : Option ℕ → Option ℕ → Bool
same_id (some a) (some b) = a == b
same_id _ _ = false

abbrev pub same_owner : Option ℕ → Option ℕ → Bool
same_owner none none = true
same_owner (some a) (some b) = a == b
same_owner _ _ = false

abbrev stored_row : ContentItem → StoredRow
stored_row c = record { url = c.item.url; guid = c.item.guid; simhash = c.item.simhash }

abbrev in_scope : Option ℕ → ℕ → ContentItem → Bool
in_scope none id c = opt_eq c.source_id id
in_scope (some f) id c = opt_eq c.feed_id f

-- The rows of `content_items` of a shared feed, or of a source.
unfoldable pub scope : Option ℕ → ℕ → List ContentItem → List StoredRow
scope feed id [] = []
scope feed id (c ∷ l) =
    let rest = scope feed id l in if in_scope feed id c then stored_row c ∷ rest else rest

-- Whether two rows break a unique constraint: on the URL among public rows and per owner, or on the
-- source and the guid.
abbrev pub clashes : ContentItem → ContentItem → Bool
clashes a b =
    (same_owner a.owner_user_id b.owner_user_id && text_eq a.item.url b.item.url)
    || (same_id a.source_id b.source_id && guid_eq a.item.guid b.item.guid)

abbrev pub any_clash : ContentItem → List ContentItem → Bool
any_clash c [] = false
any_clash c (d ∷ l) = clashes c d || any_clash c l

-- `_insert_items`: the number of new rows, and the table. `blocked` is the takedown list.
unfoldable pub insert_items :
    (Text → Bool) → List ContentItem → List ContentItem → ℕ × List ContentItem
insert_items blocked [] table = (0, table)
insert_items blocked (c ∷ rows) table =
    let skipped = insert_items blocked rows table in
    let (n, t) = insert_items blocked rows (c ∷ table) in
    if blocked c.item.url || any_clash c table then skipped else (n + 1, t)
