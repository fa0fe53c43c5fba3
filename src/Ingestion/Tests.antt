-- ===== src/Ingestion/Tests.antt =====
-- Runs of the poll schedule, and the theorems at concrete rows.
use readprism.Prelude.{
  ◌↔◌, ◌⊎◌, ◌≤◌, ◌+◌, or_else, ℕ, ◌+◌, ◌*◌, ◌≡◌, refl, true, false, none, some, List, [], ◌∷◌,
  arith,
}
use readprism.Prelude.Int.{pos}
use readprism.Prelude.Text.{Text, codes}
use readprism.Url.{UrlParts}
use readprism.Ingestion.Schedule.{
  dead_after, healthy, platform_outage, dead, second, day, initial_interval, on_error,
  youtube_error,
}
use readprism.Ingestion.Poll.{
  Source, Outcome, is_reddit_feed, is_youtube_feed, is_dead_reddit_feed, apply_poll_result,
  write_schedule, next_state, is_dead,
}
use readprism.Ingestion.Bounds.{RowInRange, IsJitter}
use readprism.Ingestion.Health.{
  IsSound, apply_poll_result_dead_iff, apply_poll_result-IsSound, polls,
}
use readprism.Ingestion.Feeds.{Feed}

-- A parser that finds the same host and path in every link.
abbrev host_only : Text → Text → Text → UrlParts
host_only host path link = record {
  scheme = codes "https";
  username = none;
  password = none;
  hostname = some host;
  port = none;
  netloc = host;
  path = path;
}

abbrev blog : Text → UrlParts
blog = host_only (codes "blog.example") (codes "/feed")

abbrev youtube : Text → UrlParts
youtube = host_only (codes "www.youtube.com") (codes "/feeds/videos.xml")

abbrev even_jitter : ℕ → ℕ
even_jitter i = 1_000_000 * i

even_jitter-IsJitter : IsJitter even_jitter
even_jitter-IsJitter i = omega arith

abbrev start : ℕ
start = 1_790_000_000 * second

abbrev row : Source
row = record {
  url = codes "https://blog.example";
  feed_url = none;
  poll_interval_seconds = some 3600;
  fetch_error_count = some 0;
  recent_gap_seconds = [];
  feed_status = some healthy;
  failure_since = none;
  next_poll_at = none;
  is_active = true;
  dead_notice_pending = false;
  last_error = none;
  last_error_at = none;
  last_fetched_at = none;
  http_etag = none;
  http_last_modified = none;
  initial_backfill_done = true;
}

abbrev server_error : Outcome
server_error = record {
  new_items = false;
  error = true;
  gone = false;
  retry_after = none;
  gap_seconds = pos 0;
}

abbrev fresh : Outcome
fresh = record {
  new_items = true;
  error = false;
  gone = false;
  retry_after = none;
  gap_seconds = pos 60;
}

abbrev gone_410 : Outcome
gone_410 = record {
  new_items = false;
  error = false;
  gone = true;
  retry_after = none;
  gap_seconds = pos 0;
}

abbrev week_of_errors : List (ℕ × Outcome)
week_of_errors =
    (start, server_error) ∷ (start + day, server_error) ∷ (start + 7 * day, server_error) ∷ []

dies_after_a_week : (polls blog 3 even_jitter row week_of_errors).feed_status ≡ some dead
unfolding polls apply_poll_result is_dead_reddit_feed write_schedule next_state is_youtube_feed
    on_error
dies_after_a_week = refl

youtube_survives :
    (polls youtube 14 even_jitter row week_of_errors).feed_status ≡ some platform_outage
unfolding polls apply_poll_result is_dead_reddit_feed write_schedule next_state is_youtube_feed
    youtube_error
youtube_survives = refl

medians : (initial_interval (7200 ∷ 100 ∷ 9000 ∷ []) ≡ 3600) × (initial_interval (60 ∷ []) ≡ 900)
unfolding initial_interval
medians = (refl, refl)

reddit_hosts :
    (is_reddit_feed (host_only (codes "www.reddit.com") []) (codes "x") ≡ true)
    × (is_reddit_feed (host_only (codes "old.reddit.com") []) (codes "x") ≡ true)
    × (is_reddit_feed (host_only (codes "notreddit.com") []) (codes "x") ≡ false)
unfolding is_reddit_feed
reddit_hosts = (refl, refl, refl)

row-RowInRange : RowInRange row
row-RowInRange = omega arith

row-IsSound : IsSound row
row-IsSound = ground arith

blog_alive : is_dead_reddit_feed blog (codes "https://blog.example") start ≡ false
unfolding is_dead_reddit_feed
blog_alive = refl

apply_poll_result-IsSound_example :
    let r = apply_poll_result blog 3 even_jitter row start server_error in
    IsSound r × (or_else r.feed_status healthy ≡ healthy → or_else r.fetch_error_count 0 ≡ 0)
apply_poll_result-IsSound_example =
    apply_poll_result-IsSound blog 3 even_jitter row start server_error row-IsSound

abbrev gone_row : Source
gone_row = apply_poll_result blog 3 even_jitter row start gone_410

not_youtube : is_youtube_feed blog (codes "https://blog.example") ≡ false
unfolding is_youtube_feed
not_youtube = refl

youtube_alive : is_dead_reddit_feed youtube (codes "https://blog.example") start ≡ false
unfolding is_dead_reddit_feed
youtube_alive = refl

a_channel : is_youtube_feed youtube (codes "https://blog.example") ≡ true
unfolding is_youtube_feed
a_channel = refl

week_alive :
    (is_dead_reddit_feed blog (codes "https://blog.example") (start + day) ≡ false)
    × (is_dead_reddit_feed blog (codes "https://blog.example") (start + 7 * day) ≡ false)
unfolding is_dead_reddit_feed
week_alive = (refl, refl)

abbrev dead_feed : Feed
dead_feed = record {
  key = codes "https://blog.example";
  row = record row {
    fetch_error_count = some 9;
    feed_status = some dead;
    failure_since = some start;
    is_active = false;
  };
}

apply_poll_result_dead_iff_example : (is_dead gone_row.feed_status ≡ true) ↔ (
    (gone_410.gone ≡ true)
    ⊎ ((gone_410.error ≡ true) × (or_else row.failure_since start + dead_after ≤ start)))
apply_poll_result_dead_iff_example =
    apply_poll_result_dead_iff blog 3 even_jitter row start gone_410 blog_alive not_youtube
