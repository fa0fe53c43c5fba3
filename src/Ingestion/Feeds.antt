-- ===== src/Ingestion/Feeds.antt =====
-- Attaching subscriptions to shared feeds and mirroring the poll state back:
-- backend/app/services/ingestion/feeds.py. A feed's row is a `Source` row of the polled columns under the
-- unique `key` column, which stands for its id.
use readprism.Prelude.{
  ℕ, Bool, true, false, ◌&&◌, not, Option, none, some, List, [], ◌∷◌, ◌++◌, map, if◌then◌else◌,
  or_else,
}
use readprism.Prelude.Text.{Text, text_eq}
use readprism.Url.{UrlParts}
use readprism.Ingestion.Schedule.{healthy, dead, default_interval}
use readprism.Ingestion.Poll.{
  Source, reddit_notice, or_text, or_number, is_dead_reddit_feed, reddit_rss_ended,
}

pub record Feed : Type 0 where
  pub key : Text
  pub row : Source

-- A subscription: a user's own row, and the feed that it reads.
pub record Subscription : Type 0 where
  pub row : Source
  pub feed_id : Option Text

abbrev pub feed_key_of : Source → Text
feed_key_of source = or_text source.feed_url source.url

-- `select(Feed).where(Feed.key == key)`
unfoldable pub find_feed : Text → List Feed → Option Feed
find_feed key [] = none
find_feed key (f ∷ feeds) = if text_eq f.key key then some f else find_feed key feeds

unfoldable pub update_feed : Text → (Feed → Feed) → List Feed → List Feed
update_feed key change [] = []
update_feed key change (f ∷ feeds) =
    if text_eq f.key key then change f ∷ feeds else f ∷ update_feed key change feeds

-- The shared feed made for the first subscription of a key.
unfoldable pub new_feed : Bool → Bool → ℕ → Source → Feed
new_feed reddit ended now source = record {
  key = feed_key_of source;
  row = record source {
    is_active = not reddit;
    poll_interval_seconds = some (or_number source.poll_interval_seconds default_interval);
    next_poll_at = if reddit then none else source.next_poll_at;
    feed_status = if reddit then some dead else some (or_else source.feed_status healthy);
    failure_since = none;
    last_error = if reddit then some (reddit_notice ended) else source.last_error;
    last_error_at = if reddit then some now else source.last_error_at;
    dead_notice_pending = reddit;
    fetch_error_count = some (or_else source.fetch_error_count 0);
  };
}

-- A dead feed that someone subscribes to again.
unfoldable pub revive : Feed → Feed
revive feed = record feed {
  row = record (feed.row) { is_active = true; feed_status = some healthy; next_poll_at = none };
}

abbrev pub file_feed : Bool → Bool → ℕ → Source → List Feed → Option Feed → List Feed
file_feed reddit ended now source feeds none = feeds ++ (new_feed reddit ended now source ∷ [])
file_feed reddit ended now source feeds (some f) =
    if not f.row.is_active && not reddit
    then update_feed (feed_key_of source) revive feeds
    else feeds

unfoldable pub subscribe : Bool → Bool → Source → Subscription
subscribe reddit ended source = record {
  row =
      if reddit
      then record source {
        is_active = false;
        dead_notice_pending = true;
        feed_status = some dead;
        last_error = some (reddit_notice ended);
      }
      else source;
  feed_id = some (feed_key_of source);
}

module _ (urlparse : Text → UrlParts) (now : ℕ) where
  -- One round of the loop of `sync_feeds`.
  unfoldable pub attach : List Feed → Source → List Feed × Subscription
  unfolding reddit_rss_ended
  attach feeds source =
      let key = feed_key_of source in
      let reddit = is_dead_reddit_feed urlparse key now in
      let ended = reddit_rss_ended now in
      (file_feed reddit ended now source feeds (find_feed key feeds), subscribe reddit ended source)

  -- `sync_feeds` over its pending rows.
  unfoldable pub sync_feeds : List Feed → List Source → List Feed × List Subscription
  sync_feeds feeds [] = (feeds, [])
  sync_feeds feeds (source ∷ pending) =
      let (feeds', s) = attach feeds source in
      let (feeds'', rest) = sync_feeds feeds' pending in (feeds'', s ∷ rest)

-- Copies the poll state of a feed onto one subscriber's row, and pauses it if the feed died.
unfoldable pub mirror_one : Feed → Source → Source
mirror_one feed source =
    let died = not feed.row.is_active && source.is_active in
    record source {
      feed_url = feed.row.feed_url;
      last_fetched_at = feed.row.last_fetched_at;
      http_etag = feed.row.http_etag;
      http_last_modified = feed.row.http_last_modified;
      poll_interval_seconds = feed.row.poll_interval_seconds;
      next_poll_at = feed.row.next_poll_at;
      recent_gap_seconds = feed.row.recent_gap_seconds;
      feed_status = feed.row.feed_status;
      failure_since = feed.row.failure_since;
      last_error_at = feed.row.last_error_at;
      last_error = feed.row.last_error;
      fetch_error_count = feed.row.fetch_error_count;
      initial_backfill_done = feed.row.initial_backfill_done;
      is_active = if died then false else source.is_active;
      dead_notice_pending = if died then true else source.dead_notice_pending;
    }

unfoldable pub mirror : Feed → List Source → List Source
mirror feed = map (mirror_one feed)
