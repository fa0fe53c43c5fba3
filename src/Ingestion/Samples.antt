-- ===== src/Ingestion/Samples.antt =====
-- Concrete accounts, feeds, pages and libraries, for the runs of the poll tasks.
use readprism.Prelude.{ℕ, ◌+◌, ◌*◌, Bool, true, false, none, some, List, [], ◌∷◌, ◌++◌, length}
use readprism.Prelude.Text.{Text, codes}
use readprism.Url.{UrlParts}
use readprism.Billing.Account.{User, Tier, free, pro, reader, Plan}
use readprism.Entitlements.Quotas.{Account}
use readprism.Abuse.Budgets.{Store}
use readprism.Ingestion.Schedule.{healthy}
use readprism.Ingestion.Poll.{Source}
use readprism.Ingestion.Items.{RawItem, UrlLib, HashLib}
use readprism.Ingestion.Filing.{ContentItem}
use readprism.Ingestion.Dispatch.{Web}
use readprism.Ingestion.Poller.{rss, Target}
use readprism.Ingestion.FeedPoll.{Config, SharedFeed, Subscriber, Clock}
use readprism.Billing.Account
use readprism.Abuse.Budgets

-- 20 September 2026, at about one o'clock.
abbrev pub today : ℕ
today = 1_789_866_000_000_000

abbrev billing : Account.Settings
billing = record {
  hosted = true;
  billing_provider = codes "paddle";
  billing_trial_days = 14;
  billing_past_due_grace_days = 7;
  billing_reader_price_ids = codes "pri_r";
  billing_pro_price_ids = codes "pri_p";
  billing_team_price_ids = [];
  razorpay_plan_id_pro = [];
  billing_checkout_reader_monthly = [];
  billing_checkout_reader_yearly = [];
  billing_checkout_pro_monthly = [];
  billing_checkout_pro_yearly = [];
  billing_checkout_monthly = [];
  billing_checkout_yearly = [];
  hosted_paused_delete_days = 60;
  hosted_delete_reminder_days = 7;
}

abbrev pub abuse : Budgets.Settings
abuse = record {
  hosted = true;
  hosted_fetch_budget_per_hour = 2;
  hosted_host_polls_per_hour = 1;
  hosted_max_sources_per_host = 2;
  inbound_max_message_bytes = 1000;
  hosted_inbound_per_day = 10;
  hosted_inbound_mb_per_day = 1;
}

abbrev pub config : Config
config = record {
  billing = billing;
  configured = λ plan quota. none;
  abuse = abuse;
  hosted_pro_max_poll_minutes = 15;
}

abbrev account : ℕ → Tier → Account
account id tier = record {
  user = record {
    id = id;
    email = codes "reader@example.org";
    tier = tier;
    created_at = 0;
    trial_ends_at = none;
    plan_expires_at = none;
    billing_provider = none;
    billing_customer_id = none;
    billing_subscription_id = none;
    billing_status = none;
    billing_portal_url = none;
    billing_event_at = none;
    deletion_reminder_sent_at = none;
    email_verified_at = none;
  };
  quota_overrides = λ quota. none;
}

-- The first has Pro, the second is paused, the third is a Reader.
abbrev pub accounts : List Account
accounts = account 1 pro ∷ account 2 free ∷ account 3 reader ∷ []

abbrev pub blog_row : Source
blog_row = record {
  url = codes "https://blog.example/feed";
  feed_url = none;
  poll_interval_seconds = some 7200;
  fetch_error_count = some 0;
  recent_gap_seconds = [];
  feed_status = some healthy;
  failure_since = none;
  next_poll_at = some (today + 7200 * 1_000_000);
  is_active = true;
  dead_notice_pending = false;
  last_error = none;
  last_error_at = none;
  last_fetched_at = none;
  http_etag = none;
  http_last_modified = none;
  initial_backfill_done = true;
}

abbrev pub blog : SharedFeed
blog = record {
  id = 7;
  source_type = rss;
  feed = record { key = codes "https://blog.example/feed"; row = blog_row };
}

abbrev follows : ℕ → ℕ → Subscriber
follows id user = record { id = id; user_id = user; row = blog_row }

-- The first account follows the feed twice.
abbrev pub followers : List Subscriber
followers = follows 11 1 ∷ follows 12 2 ∷ follows 13 1 ∷ follows 14 3 ∷ []

abbrev pub no_counts : Store
no_counts = record {
  fetches = λ user hour. 0;
  polls = λ host hour. 0;
  inbound_count = λ user day. 0;
  inbound_bytes = λ user day. 0;
  calls = 0;
  paused_until = λ user. none;
}

abbrev pub always : ℕ → Bool
always n = true

abbrev pub at_blog : Text → UrlParts
at_blog link = record {
  scheme = codes "https";
  username = none;
  password = none;
  hostname = some (codes "www.blog.example");
  port = none;
  netloc = codes "www.blog.example";
  path = link;
}

abbrev pub urls : UrlLib
urls = record {
  urlparse = λ link. some (at_blog link);
  parse_qsl = λ query. [];
  urlencode = λ pairs. [];
  urlunparse = λ scheme host path query. scheme ++ (codes "://" ++ (host ++ path));
  query = λ link. [];
  strip = λ text. text;
  show = λ n. n ∷ [];
}

abbrev pub hashes : HashLib
hashes = record {
  is_alnum = λ char. true;
  lower = λ text. text;
  digest = length;
  show_hex = λ n. n ∷ [];
  read_hex = λ text. some (length text);
}

abbrev item : Text → Text → RawItem
item link title = record {
  url = link;
  title = title;
  full_text = none;
  guid = some title;
  published_at = some today;
  simhash = none;
}

-- Two entries of one story, and another.
abbrev pub items : List RawItem
items =
    item (codes "/a") (codes "First")
    ∷ item (codes "/a") (codes "Again")
    ∷ item (codes "/b") (codes "Second")
    ∷ []

abbrev pub table : List ContentItem
table =
    record {
      source_id = some 11;
      feed_id = some 7;
      owner_user_id = none;
      item = item (codes "https://blog.example/a") (codes "First");
    }
    ∷ []

-- A host that answers 404 to everything.
abbrev pub missing : Web
missing = record {
  fetch = λ call url etag modified. some record {
    status_code = 404;
    content = [];
    etag = none;
    last_modified = none;
    permanent_url = none;
  };
  xml_safe = λ body. some body;
  parse = λ body. some [];
  autodiscover = λ call page. none;
  scrape_page = λ page. none;
  newsletter_items = [];
}

abbrev pub blog_target : Target
blog_target = record { id = 7; user_id = 0; source_type = rss; row = blog_row }

abbrev pub clock : Clock
clock = record { budget = today; started = today + 1; ended = today + 2; priority = today + 3 }
