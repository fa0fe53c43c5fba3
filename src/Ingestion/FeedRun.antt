-- ===== src/Ingestion/FeedRun.antt =====
-- The poll of a shared feed for all of its subscribers: `_ingest_feed`, and what `_ingest_all_feeds_async`
-- does with it, of backend/app/workers/tasks/ingest_feeds.py.
use readprism.Prelude.{ℕ, Bool, not, Option, none, some, List, [], ◌∷◌, if◌then◌else◌, or_else}
use readprism.Prelude.Text.{Text}
use readprism.Url.{UrlParts}
use readprism.Entitlements.Quotas.{Account}
use readprism.Abuse.Budgets.{Store}
use readprism.Ingestion.Poll.{Source}
use readprism.Ingestion.Feeds.{Feed, mirror_one}
use readprism.Ingestion.Items.{UrlLib, HashLib}
use readprism.Ingestion.Filing.{ContentItem}
use readprism.Ingestion.Dispatch.{Web}
use readprism.Ingestion.Poller.{Polled, ingest_source, record_failure}
use readprism.Ingestion.FeedPoll.{
  Config, SharedFeed, Subscriber, Clock, within_budgets, apply_pro_priority,
}

-- `mirror` onto the subscribers' rows.
unfoldable pub mirror_all : Feed → List Subscriber → List Subscriber
mirror_all feed [] = []
mirror_all feed (s ∷ subs) = record s { row = mirror_one feed s.row } ∷ mirror_all feed subs

-- What a feed's poll leaves.
pub record FeedPolled : Type 0 where
  pub feed : SharedFeed
  pub subs : List Subscriber
  pub added : ℕ
  pub table : List ContentItem
  pub store : Store

abbrev pub with_row : SharedFeed → Source → SharedFeed
with_row f row = record f { feed = record (f.feed) { row = row } }

module _ (c : Config) (up : ℕ → Bool) (parse_url : Text → UrlParts) (days : ℕ) (rng : ℕ → ℕ)
    (show : ℕ → Text) (web : Web) (lib : UrlLib) (hashes : HashLib) (blocked : Text → Bool)
    (limit : ℕ) where
  abbrev pub finish_feed :
      Clock
      → List Account
      → List Subscriber
      → SharedFeed
      → Store
      → Option Polled
      → Option FeedPolled
  finish_feed clock users subs f r none = none
  finish_feed clock users subs f r (some p) =
      let f' = with_row f (apply_pro_priority c clock.priority users subs p.row) in
      some record {
        feed = f';
        subs = mirror_all f'.feed subs;
        added = p.added;
        table = p.table;
        store = r;
      }

  -- `subs` are the active subscribers, oldest first. None where the poll raises.
  unfoldable pub ingest_feed :
      Clock
      → List Account
      → List Subscriber
      → SharedFeed
      → List ContentItem
      → Store
      → Option FeedPolled
  unfolding within_budgets apply_pro_priority mirror_all
  ingest_feed clock users [] f table r =
      some record { feed = f; subs = []; added = 0; table = table; store = r }
  ingest_feed clock users (s ∷ subs) f table r =
      let b = within_budgets c up parse_url clock.budget users (s ∷ subs) f.feed.row r in
      let f' = with_row f b.row in
      if not b.goes_on
      then some record {
        feed = f';
        subs = mirror_all f'.feed (s ∷ subs);
        added = 0;
        table = table;
        store = b.store;
      }
      else finish_feed clock users (s ∷ subs) f b.store (
          ingest_source parse_url days rng show web lib hashes blocked limit
            record { id = f.id; user_id = 0; source_type = f.source_type; row = f.feed.row } s.id
            (some f.id) clock.started clock.ended table)

  -- `_record_source_failure` of a feed, with its copies.
  unfoldable pub record_feed_failure :
      SharedFeed → List Subscriber → ℕ → Text → SharedFeed × List Subscriber
  unfolding mirror_all record_failure
  record_feed_failure f subs moment error =
      let f' = with_row f (record_failure parse_url days rng show f.feed.row moment error) in
      (f', mirror_all f'.feed subs)

  -- One round of the loop over the feeds: an exception rolls the feed's rows and items back and its
  -- failure is recorded at the end, but the accounts stay charged.
  unfoldable pub poll_feed :
      Clock
      → List Account
      → List Subscriber
      → SharedFeed
      → List ContentItem
      → Store
      → Text
      → FeedPolled
  unfolding ingest_feed record_feed_failure
  poll_feed clock users subs f table r error =
      let (f', subs') = record_feed_failure f subs clock.ended error in
      or_else (ingest_feed clock users subs f table r) record {
        feed = f';
        subs = subs';
        added = 0;
        table = table;
        store = (within_budgets c up parse_url clock.budget users subs f.feed.row r).store;
      }
