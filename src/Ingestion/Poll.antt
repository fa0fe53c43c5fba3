-- ===== src/Ingestion/Poll.antt =====
-- Writing a poll's outcome onto a row of `sources` or `feeds`: `apply_poll_result` and the Reddit and
-- YouTube rules of backend/app/services/ingestion/schedule.py. Only the columns that scheduling reads
-- or writes are in the row. `urlparse` and `rng` are parameters.
use readprism.Prelude.{
  ℕ, ◌*◌, Bool, true, false, ◌&&◌, ◌||◌, not, Option, none, some, List, [], ◌∷◌, ltb, leb, ◌==◌,
  if◌then◌else◌, or_else,
}
use readprism.Prelude.Int.{ℤ, pos, negsuc}
use readprism.Prelude.Text.{Text, codes, text_eq, remove_prefix, ends_with, rstrip, lower}
use readprism.Url.{UrlParts}
use readprism.Ingestion.Schedule.{
  ScheduleState, FeedStatus, healthy, dead, default_interval, second, on_quiet, on_new_items,
  on_error, on_rate_limited, youtube_error,
}

-- `last_error`: the Reddit notice (with whether RSS has ended), or a failed fetch.
pub data LastError : Type 0 where
  reddit_notice : Bool → LastError
  fetch_error : Text → LastError

pub record Source : Type 0 where
  pub url : Text
  pub feed_url : Option Text
  pub poll_interval_seconds : Option ℕ
  pub fetch_error_count : Option ℕ
  pub recent_gap_seconds : List ℕ
  pub feed_status : Option FeedStatus
  pub failure_since : Option ℕ
  pub next_poll_at : Option ℕ
  pub is_active : Bool
  pub dead_notice_pending : Bool
  pub last_error : Option LastError
  pub last_error_at : Option ℕ
  pub last_fetched_at : Option ℕ
  pub http_etag : Option Text
  pub http_last_modified : Option Text
  pub initial_backfill_done : Bool

-- `getattr(source, "feed_url", None) or getattr(source, "url", None)`: an empty text is falsy.
abbrev pub or_text : Option Text → Text → Text
or_text none t = t
or_text (some []) t = t
or_text (some (c ∷ s)) t = c ∷ s

abbrev pub is_dead : Option FeedStatus → Bool
is_dead (some dead) = true
is_dead _ = false

-- 13 November 2026, UTC.
abbrev pub reddit_rss_end : ℕ
reddit_rss_end = 1_794_528_000 * second

unfoldable pub reddit_rss_ended : ℕ → Bool
reddit_rss_ended now = leb reddit_rss_end now

abbrev reddit_host : Text → Bool
reddit_host host = text_eq host (codes "reddit.com") || ends_with host (codes ".reddit.com")

abbrev youtube_host : Text → Bool
youtube_host host = text_eq host (codes "youtube.com")

-- The result of a poll, as its caller reports it.
pub record Outcome : Type 0 where
  pub new_items : Bool
  pub error : Bool
  pub gone : Bool
  pub retry_after : Option ℤ
  pub gap_seconds : ℤ

-- The truth value of an optional number.
abbrev pub truthy : Option ℤ → Bool
truthy none = false
truthy (some (pos n)) = ltb 0 n
truthy (some (negsuc n)) = true

-- `getattr(source, name, None) or default`: zero is falsy.
abbrev pub or_number : Option ℕ → ℕ → ℕ
or_number none d = d
or_number (some n) d = if n == 0 then d else n

abbrev pub state_of : Source → ScheduleState
state_of source = record {
  interval_seconds = or_number source.poll_interval_seconds default_interval;
  consecutive_errors = or_else source.fetch_error_count 0;
  recent_gaps = source.recent_gap_seconds;
  status = or_else source.feed_status healthy;
  failure_since = source.failure_since;
}

-- The scheduler's choice among the transitions.
unfoldable pub next_state : ℕ → (ℕ → ℕ) → Bool → Outcome → ScheduleState → ℕ → ScheduleState × ℕ
next_state dead_after_days rng youtube o state now =
    if (o.error || o.gone) && youtube
    then youtube_error dead_after_days state now
    else if o.gone
    then on_error state now none true
    else if o.error && truthy o.retry_after
    then on_rate_limited state now (or_else o.retry_after (pos 0))
    else if o.error
    then on_error state now o.retry_after false
    else if o.new_items
    then on_new_items state now rng o.gap_seconds
    else on_quiet state now rng

-- The assignments at the end of `apply_poll_result`.
unfoldable pub write_schedule : Source → ScheduleState × ℕ → Source
write_schedule source (nxt, when) =
    let died = is_dead (some nxt.status) in
    record source {
      poll_interval_seconds = some nxt.interval_seconds;
      fetch_error_count = some nxt.consecutive_errors;
      recent_gap_seconds = nxt.recent_gaps;
      feed_status = some nxt.status;
      failure_since = nxt.failure_since;
      next_poll_at = some when;
      is_active = if died then false else source.is_active;
      dead_notice_pending =
          if died && not (is_dead source.feed_status) then true else source.dead_notice_pending;
    }

unfoldable pub mark_reddit_feed_dead : Source → ℕ → Source
unfolding reddit_rss_ended
mark_reddit_feed_dead source now = record source {
  feed_status = some dead;
  is_active = false;
  last_error = some (reddit_notice (reddit_rss_ended now));
  last_error_at = some now;
  next_poll_at = none;
  dead_notice_pending =
      if not (is_dead source.feed_status) then true else source.dead_notice_pending;
}

module _ (urlparse : Text → UrlParts) where
  unfoldable pub is_reddit_feed : Text → Bool
  is_reddit_feed [] = false
  is_reddit_feed (c ∷ s) =
      reddit_host (remove_prefix (lower (or_else (urlparse (c ∷ s)).hostname [])) (codes "www."))

  unfoldable pub is_dead_reddit_feed : Text → ℕ → Bool
  unfolding is_reddit_feed reddit_rss_ended
  is_dead_reddit_feed url now = is_reddit_feed url && reddit_rss_ended now

  unfoldable pub is_youtube_feed : Text → Bool
  is_youtube_feed url =
      let parts = urlparse url in
      let host = remove_prefix (remove_prefix (lower parts.netloc) (codes "www.")) (codes "m.") in
      youtube_host host && text_eq (rstrip b'/' parts.path) (codes "/feeds/videos.xml")

  module _ (dead_after_days : ℕ) (rng : ℕ → ℕ) where
    unfoldable pub apply_poll_result : Source → ℕ → Outcome → Source
    apply_poll_result source now o =
        let url = or_text source.feed_url source.url in
        if is_dead_reddit_feed url now
        then mark_reddit_feed_dead source now
        else write_schedule source
            (next_state dead_after_days rng (is_youtube_feed url) o (state_of source) now)
