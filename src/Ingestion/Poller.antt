-- ===== src/Ingestion/Poller.antt =====
-- The poll of one source or shared feed: `dispatch_source` of
-- backend/app/services/ingestion/dispatcher.py, and `_ingest_source`, `_record_source_failure`
-- and `_seconds_since` of backend/app/workers/tasks/ingest_feeds.py.
use readprism.Prelude.{
  ℕ, ◌-◌, ◌/◌, Bool, true, false, ◌&&◌, ◌||◌, not, Option, none, some, List, [], ◌∷◌, ◌++◌, map,
  leb, ltb, ◌==◌, if◌then◌else◌, or_else, length, take,
}
use readprism.Prelude.Int.{pos}
use readprism.Prelude.Text.{Text, codes}
use readprism.Url.{UrlParts}
use readprism.Ingestion.Schedule.{second}
use readprism.Ingestion.Poll.{
  Source, Outcome, fetch_error, or_text, is_dead_reddit_feed, mark_reddit_feed_dead,
  apply_poll_result,
}
use readprism.Ingestion.Items.{RawItem, UrlLib, HashLib, newest_n}
use readprism.Ingestion.Dedup.{new_items}
use readprism.Ingestion.Filing.{ContentItem, scope, insert_items}
use readprism.Ingestion.Dispatch.{
  Web, FeedFetchResult, or_opt, fetch_feed, remember_validators, apply_permanent_redirect,
}

pub data SourceType : Type 0 where
  newsletter rss scraped : SourceType

-- A row of `sources` or `feeds`, with its type. Only a newsletter's owner is read.
pub record Target : Type 0 where
  pub id : ℕ
  pub user_id : ℕ
  pub source_type : SourceType
  pub row : Source

abbrev is_newsletter : SourceType → Bool
is_newsletter newsletter = true
is_newsletter _ = false

abbrev is_rss : SourceType → Bool
is_rss rss = true
is_rss _ = false

abbrev is_scraped : SourceType → Bool
is_scraped scraped = true
is_scraped _ = false

abbrev has_text : Option Text → Bool
has_text none = false
has_text (some []) = false
has_text (some (c ∷ t)) = true

-- What a fetch leaves: the row, the status that it noted, and the items.
pub record Fetched : Type 0 where
  pub row : Source
  pub last_http_status : Option ℕ
  pub items : List RawItem

-- The rediscovery of a feed without items.
abbrev pub rediscover : Web → Source → Option ℕ → Option Text → Fetched
rediscover web source status none = record { row = source; last_http_status = status; items = [] }
rediscover web source status (some found) =
    let fetched = fetch_feed web 3 found none none in
    let row = remember_validators source fetched in
    record {
      row = elim (fetched.items) [ [] ↦ row | i ∷ l ↦ record row { feed_url = some found } ];
      last_http_status = status;
      items = fetched.items;
    }

abbrev no_feed_url : Option Text → Bool
no_feed_url none = true
no_feed_url (some u) = false

abbrev pub feed_items : Web → Source → FeedFetchResult → Fetched
feed_items web source fetched =
    let items = if fetched.not_modified then [] else fetched.items in
    if length items == 0 && not fetched.not_modified && no_feed_url source.feed_url
    then rediscover web source fetched.status_code (or_opt (web.autodiscover 2 source.url) none)
    else record { row = source; last_http_status = fetched.status_code; items = items }

module _ (web : Web) (lib : UrlLib) where
  -- The first half of `dispatch_source`, up to the backfill.
  unfoldable pub fetch_items : Target → Fetched
  unfolding fetch_feed remember_validators apply_permanent_redirect
  fetch_items t =
      let plain : List RawItem → Fetched =
        λ items. record { row = t.row; last_http_status = none; items = items } in
      let feed_url = or_text t.row.feed_url t.row.url in
      let fetched = fetch_feed web 0 feed_url t.row.http_etag t.row.http_last_modified in
      let noted = remember_validators t.row fetched in
      if is_newsletter t.source_type
      then plain web.newsletter_items
      else if has_text t.row.feed_url || is_rss t.source_type
      then feed_items web (apply_permanent_redirect lib noted feed_url fetched.permanent_url)
          fetched
      else if is_scraped t.source_type
      then plain (elim (web.scrape_page t.row.url) [ none ↦ [] | some i ↦ i ∷ [] ])
      else plain []

-- The backfill of the first batch; none is the exception of `newest_n`.
unfoldable pub backfill : ℕ → Fetched → Option Fetched
backfill limit f =
    if length f.items == 0 || f.row.initial_backfill_done
    then some f
    else elim (newest_n f.items limit) [
      | none ↦ none
      | some items ↦
          some (record f { row = record (f.row) { initial_backfill_done = true }; items = items })
    ]

-- In whole seconds, and 0 if there was no earlier fetch.
unfoldable pub seconds_since : Option ℕ → ℕ → ℕ
seconds_since none now = 0
seconds_since (some t) now = (now - t) / second

abbrev opt_test : (ℕ → Bool) → Option ℕ → Bool
opt_test p none = false
opt_test p (some n) = p n

abbrev pub is_failed : Option ℕ → Bool
is_failed = opt_test (λ n. n == 429 || leb 500 n)

abbrev pub is_gone : Option ℕ → Bool
is_gone = opt_test (λ n. n == 410)

abbrev row_of : Target → ℕ → Option ℕ → RawItem → ContentItem
row_of t source_id feed_id item = record {
  source_id = some source_id;
  feed_id = feed_id;
  owner_user_id = if is_newsletter t.source_type then some t.user_id else none;
  item = item;
}

-- What the bookkeeping reports to the scheduler. No row has the `retry_after` that it looks for.
unfoldable pub outcome_of : Source → Option ℕ → ℕ → ℕ → Outcome
unfolding seconds_since
outcome_of row status added moment = record {
  new_items = ltb 0 added && not (is_failed status) && not (is_gone status);
  error = is_failed status;
  gone = is_gone status;
  retry_after = none;
  gap_seconds = pos (seconds_since row.last_fetched_at moment);
}

-- A poll's result: the row, the number of new items, and the table of items.
pub record Polled : Type 0 where
  pub row : Source
  pub added : ℕ
  pub table : List ContentItem

module _ (urlparse : Text → UrlParts) (dead_after_days : ℕ) (rng : ℕ → ℕ) (show : ℕ → Text) where
  -- The end of `_ingest_source`: the status of the fetch onto the row.
  unfoldable pub note_status : Source → Option ℕ → ℕ → ℕ → Source
  unfolding outcome_of
  note_status row status added moment =
      let bad = is_failed status || is_gone status in
      let marked =
        if bad
        then record row {
          last_error = some (fetch_error (codes "HTTP " ++ show (or_else status 0)));
          last_error_at = some moment;
        }
        else row in
      let polled =
        apply_poll_result urlparse dead_after_days rng marked moment
          (outcome_of marked status added moment) in
      if bad
      then polled
      else record polled { last_fetched_at = some moment; last_error = none; last_error_at = none }

  -- `_record_source_failure` on the row.
  unfoldable pub record_failure : Source → ℕ → Text → Source
  record_failure row moment error =
      apply_poll_result urlparse dead_after_days rng
        (record row {
          last_error = some (fetch_error (take 500 error));
          last_error_at = some moment;
        })
        moment
        record {
          new_items = false;
          error = true;
          gone = false;
          retry_after = none;
          gap_seconds = pos 0;
        }

  module _ (web : Web) (lib : UrlLib) (hashes : HashLib) (blocked : Text → Bool) (limit : ℕ) where
    abbrev finish : Target → ℕ → Option ℕ → ℕ → List ContentItem → Option Fetched → Option Polled
    finish t source_id feed_id moment table none = none
    finish t source_id feed_id moment table (some f) =
        let items = new_items lib hashes (scope feed_id t.id table) f.items in
        let (added, table') = insert_items blocked (map (row_of t source_id feed_id) items) table in
        some record {
          row = note_status f.row f.last_http_status added moment;
          added = added;
          table = table';
        }

    -- `_ingest_source`, started at `now` and ended at `moment`; none where it raises.
    unfoldable pub ingest_source : Target → ℕ → Option ℕ → ℕ → ℕ → List ContentItem → Option Polled
    unfolding fetch_items backfill note_status insert_items scope
    ingest_source t source_id feed_id now moment table =
        if is_dead_reddit_feed urlparse (or_text t.row.feed_url t.row.url) now
        then some record { row = mark_reddit_feed_dead t.row now; added = 0; table = table }
        else finish t source_id feed_id moment table (backfill limit (fetch_items web lib t))
