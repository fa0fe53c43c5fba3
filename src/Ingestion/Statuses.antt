-- ===== src/Ingestion/Statuses.antt =====
-- What the answer of a feed's server does to its row: `fetch_feed` of
-- backend/app/services/ingestion/rss_parser.py, then `_ingest_source` of
-- backend/app/workers/tasks/ingest_feeds.py.
use readprism.Prelude.{
  ℕ, suc, ◌+◌, ◌≡◌, ◌≢◌, inl, inr, refl, ◌∙◌, true, false, ◌||◌, Option, none, some, List, ◌==◌,
  or_else, arith, Option-cases, if◌then◌else◌,
}
use readprism.Prelude.Text.{Text}
use readprism.Url.{UrlParts}
use readprism.Ingestion.Schedule.{
  healthy, on_quiet, on_new_items, on_error, on_rate_limited, youtube_error,
}
use readprism.Ingestion.Poll.{
  Source, or_text, is_dead_reddit_feed, apply_poll_result, write_schedule, next_state,
}
use readprism.Ingestion.Dispatch.{
  Web, Entry, found_items, search_page, own_items, HttpFeed, FeedFetchResult, load_feed_bytes,
  fetch_feed, has_status, is_reported, body_of, or_opt, remember_validators,
  apply_permanent_redirect, primary_items, parse_some, no_items,
}
use readprism.Ingestion.Items.{UrlLib}
use readprism.Ingestion.Poller.{
  Target, rss, rediscover, feed_items, fetch_items, outcome_of, note_status, is_failed, is_gone,
}

-- The status that a fetch tells its caller.
abbrev pub told : Option HttpFeed → Option ℕ
told none = none
told (some f) = if f.status == 304 || is_reported f.status then some f.status else none

-- A result that tells no status.
abbrev IsSilent : FeedFetchResult → Type 0
IsSilent r = r.status_code ≡ none

found_items-IsSilent :
    (p : Option HttpFeed) (parsed : Option (Option (List Entry))) (own : FeedFetchResult)
    → IsSilent own
    → IsSilent (or_else (found_items p parsed own) no_items)
found_items-IsSilent p none own h = refl
found_items-IsSilent p (some none) own h = h
found_items-IsSilent p (some (some l)) own h = refl

search_page-IsSilent :
    (web : Web) (call : ℕ) (url : Text) (found : Option Text) (own : FeedFetchResult)
    → IsSilent own
    → IsSilent (or_else (search_page web call url found own) no_items)
search_page-IsSilent web call url none own h = h
search_page-IsSilent web call url (some d) own h =
    let second = load_feed_bytes web (suc call) d none none in
    let body = parse_some web (body_of second) in
    ground (arith, found_items-IsSilent second body own h, h)

own_items-IsSilent :
    (p : Option HttpFeed) (feed : Option (List Entry)) → IsSilent (own_items p feed)
own_items-IsSilent p none = refl
own_items-IsSilent p (some l) = refl

primary_items-IsSilent :
    (web : Web) (call : ℕ) (url : Text) (p : Option HttpFeed)
    (parsed : Option (Option (List Entry)))
    → IsSilent (or_else (primary_items web call url p parsed) no_items)
primary_items-IsSilent web call url p none = refl
primary_items-IsSilent web call url p (some feed) =
    let found = or_opt (web.autodiscover call url) none in
    ground (
      arith,
      search_page-IsSilent web call url found (own_items p feed) (own_items-IsSilent p feed),
      own_items-IsSilent p feed,
    )

pub fetch_feed_status :
    (web : Web) (call : ℕ) (url : Text) (etag last_modified : Option Text)
    → (fetch_feed web call url etag last_modified).status_code
      ≡ told (load_feed_bytes web call url etag last_modified)
unfolding fetch_feed
fetch_feed_status web call url etag last_modified =
    elim (Option-cases (load_feed_bytes web call url etag last_modified)) [
      | inl unread ↦ rw unread (primary_items-IsSilent web call url none (some none))
      | inr (p, read) ↦ rw read (
          ground (
            arith,
            primary_items-IsSilent web call url (some p) (parse_some web (body_of (some p))),
          ))
    ]

module _ (urlparse : Text → UrlParts) (days : ℕ) (rng : ℕ → ℕ) (show : ℕ → Text) (row : Source)
    (status : Option ℕ) (added moment : ℕ) where
  -- The bookkeeping of a poll, for a feed that Reddit's shutdown does not end. A status of 410, 429 or
  -- 500 and more adds one to the failures, leaves an error on the row and keeps the time of the last
  -- fetch; any other, or none, ends the failures, clears the error and notes the fetch.
  pub note_status_lem :
      is_dead_reddit_feed urlparse (or_text row.feed_url row.url) moment ≡ false
      → let r = note_status urlparse days rng show row status added moment in
        ((is_failed status || is_gone status) ≡ true
          → (r.fetch_error_count ≡ some (or_else row.fetch_error_count 0 + 1))
            × (r.last_error ≢ none)
            × (r.last_error_at ≡ some moment)
            × (r.last_fetched_at ≡ row.last_fetched_at))
        × ((is_failed status || is_gone status) ≡ false
            → (r.feed_status ≡ some healthy)
              × (r.fetch_error_count ≡ some 0)
              × (r.failure_since ≡ none)
              × (r.last_error ≡ none)
              × (r.last_fetched_at ≡ some moment))
  unfolding note_status outcome_of apply_poll_result write_schedule next_state on_quiet on_new_items
      on_error on_rate_limited youtube_error
  note_status_lem alive = ground arith

told_fine :
    (p : Option HttpFeed) (status : Option ℕ)
    → has_status is_reported p ≡ false
    → status ≡ told p
    → (is_failed status || is_gone status) ≡ false
told_fine none status q e = rw e refl
told_fine (some f) status q e = rw e (ground arith)

rediscover_status :
    (web : Web) (row : Source) (status : Option ℕ) (found : Option Text)
    → (rediscover web row status found).last_http_status ≡ status
rediscover_status web row status none = refl
rediscover_status web row status (some found) = refl

feed_items_status :
    (web : Web) (row : Source) (fetched : FeedFetchResult)
    → (feed_items web row fetched).last_http_status ≡ fetched.status_code
feed_items_status web row fetched =
    let found = or_opt (web.autodiscover 2 row.url) none in
    ground (arith, rediscover_status web row fetched.status_code found)

-- The status that a followed feed's fetch notes is what the first request tells.
fetch_items-told :
    (web : Web) (lib : UrlLib) (t : Target)
    → t.source_type ≡ rss
    → (fetch_items web lib t).last_http_status
      ≡ told (
          load_feed_bytes web 0
            (or_text t.row.feed_url t.row.url)
            t.row.http_etag
            t.row.http_last_modified)
unfolding fetch_items
fetch_items-told web lib t followed =
    let url = or_text t.row.feed_url t.row.url in
    let fetched = fetch_feed web 0 url t.row.http_etag t.row.http_last_modified in
    let noted = remember_validators t.row fetched in
    let row = apply_permanent_redirect lib noted url fetched.permanent_url in
    rw followed (
      ground (arith, feed_items_status web row fetched)
      ∙ fetch_feed_status web 0 url t.row.http_etag t.row.http_last_modified)

-- Whatever a followed feed answers but 410, 429 and 500 or more (a 404, say), and also if it cannot be
-- reached, the bookkeeping of the poll, where it is reached, leaves the row healthy, with no failure and
-- no error on record, unless Reddit's shutdown ends the feed. A poll that raises before is rolled back.
pub fetch_items-healthy :
    (urlparse : Text → UrlParts) (days : ℕ) (rng : ℕ → ℕ) (show : ℕ → Text) (web : Web)
    (lib : UrlLib) (t : Target) (added moment : ℕ)
    → t.source_type ≡ rss
    → has_status is_reported (
        load_feed_bytes web 0
          (or_text t.row.feed_url t.row.url)
          t.row.http_etag
          t.row.http_last_modified)
      ≡ false
    → let f = fetch_items web lib t in
      is_dead_reddit_feed urlparse (or_text f.row.feed_url f.row.url) moment ≡ false
      → let r = note_status urlparse days rng show f.row f.last_http_status added moment in
        (r.feed_status ≡ some healthy) × (r.fetch_error_count ≡ some 0) × (r.last_error ≡ none)
fetch_items-healthy urlparse days rng show web lib t added moment followed quiet alive =
    let f = fetch_items web lib t in
    let noted =
      (note_status_lem urlparse days rng show f.row f.last_http_status added moment alive).1 (
        told_fine
          (load_feed_bytes web 0 (or_text t.row.feed_url t.row.url) t.row.http_etag
            t.row.http_last_modified)
          f.last_http_status quiet (fetch_items-told web lib t followed)) in
    (noted.0, noted.1, noted.3)
