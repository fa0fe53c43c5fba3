-- ===== src/Ingestion/Priority.antt =====
-- After a poll: the Pro priority and the copies on the subscribers' rows, `_apply_pro_priority` and
-- `_ingest_feed` of backend/app/workers/tasks/ingest_feeds.py.
use readprism.Prelude.{
  All, ℕ, ◌+◌, ◌≡◌, ◌≤◌, ◌<◌, inl, inr, refl, Bool, true, false, Option, none, some, List, [], ◌∷◌,
  map, ap, leb, or_else, arith, Bool-cases, Option-cases,
}
use readprism.Prelude.Text.{Text}
use readprism.Url.{UrlParts}
use readprism.Entitlements.Quotas.{Account}
use readprism.Abuse.Budgets.{Store}
use readprism.Ingestion.Poll.{Source}
use readprism.Ingestion.Feeds.{Feed, mirror_one}
use readprism.Ingestion.Items.{UrlLib, HashLib}
use readprism.Ingestion.Filing.{ContentItem}
use readprism.Ingestion.Dispatch.{Web}
use readprism.Ingestion.Poller.{Polled, ingest_source}
use readprism.Ingestion.FeedPoll.{
  Config, SharedFeed, Subscriber, Clock, any_pro, user_ids, minutes, apply_pro_priority,
  within_budgets,
}
use readprism.Ingestion.FeedRun.{
  mirror_all, FeedPolled, with_row, finish_feed, ingest_feed, record_feed_failure, poll_feed,
}

module _ (c : Config) (now : ℕ) (users : List Account) (subs : List Subscriber) (row : Source) where
  abbrev after : Source
  after = apply_pro_priority c now users subs row

  abbrev soonest : ℕ
  soonest = now + minutes c.hosted_pro_max_poll_minutes

  -- The priority of Pro readers touches the next poll and nothing else. A feed with a Pro subscriber
  -- and no failure on record is due within the configured minutes afterwards, on a hosted instance with
  -- such a cap. The rule never delays a poll that is due within the cap, and leaves the next poll of a
  -- feed that has failed, or that no Pro reader follows, as it is.
  pub apply_pro_priority_lem :
      (after ≡ record row { next_poll_at = after.next_poll_at })
      × (c.billing.hosted ≡ true
          → 0 < c.hosted_pro_max_poll_minutes
          → or_else row.fetch_error_count 0 ≡ 0
          → any_pro c now users (user_ids subs) ≡ true
          → (t : ℕ) × (after.next_poll_at ≡ some t) × (t ≤ soonest))
      × ((t : ℕ) → row.next_poll_at ≡ some t → t ≤ soonest → after ≡ row)
      × (0 < or_else row.fetch_error_count 0 → after ≡ row)
      × (any_pro c now users (user_ids subs) ≡ false → after ≡ row)
  unfolding apply_pro_priority
  apply_pro_priority_lem = (
    ground arith,
    λ h l f p. elim (Option-cases row.next_poll_at) [
      | inl unset ↦ (soonest, ground (arith, h, l, f, p, unset), omega arith)
      | inr (t, set) ↦ elim (Bool-cases (leb t soonest)) [
        | inl soon ↦ (t, ground (arith, h, l, f, p, set, soon), ground (arith, soon))
        | inr late ↦ (soonest, ground (arith, h, l, f, p, set, late), omega arith)
      ]
    ],
    λ t e l. ground (arith, e, l),
    λ f. ground (arith, f),
    λ e. ground (arith, e),
  )

-- A subscriber whose row has the state of the feed; one that stopped its own subscription stays stopped.
pub record IsInStep (feed : Feed) (s : Subscriber) : Type 0 where
  pub feed_url : s.row.feed_url ≡ feed.row.feed_url
  pub last_fetched_at : s.row.last_fetched_at ≡ feed.row.last_fetched_at
  pub validators :
      (s.row.http_etag ≡ feed.row.http_etag)
      × (s.row.http_last_modified ≡ feed.row.http_last_modified)
  pub schedule :
      (s.row.poll_interval_seconds ≡ feed.row.poll_interval_seconds)
      × (s.row.next_poll_at ≡ feed.row.next_poll_at)
      × (s.row.recent_gap_seconds ≡ feed.row.recent_gap_seconds)
  pub health :
      (s.row.feed_status ≡ feed.row.feed_status)
      × (s.row.failure_since ≡ feed.row.failure_since)
      × (s.row.fetch_error_count ≡ feed.row.fetch_error_count)
  pub error :
      (s.row.last_error ≡ feed.row.last_error) × (s.row.last_error_at ≡ feed.row.last_error_at)
  pub backfill : s.row.initial_backfill_done ≡ feed.row.initial_backfill_done
  pub stopped : feed.row.is_active ≡ false → s.row.is_active ≡ false

-- The subscriptions, by id and reader.
unfoldable pub subscriptions : List Subscriber → List (ℕ × ℕ)
subscriptions = map (λ s. (s.id, s.user_id))

mirror_all-AllInStep :
    (feed : Feed) (subs : List Subscriber)
    → All (IsInStep feed) (mirror_all feed subs)
      × (subscriptions (mirror_all feed subs) ≡ subscriptions subs)
unfolding mirror_all mirror_one subscriptions
mirror_all-AllInStep feed [] = (tt, refl)
mirror_all-AllInStep feed (s ∷ subs) =
    let (rest, same) = mirror_all-AllInStep feed subs in
    (
      (
        record {
          feed_url = refl;
          last_fetched_at = refl;
          validators = (refl, refl);
          schedule = (refl, refl, refl);
          health = (refl, refl, refl);
          error = (refl, refl);
          backfill = refl;
          stopped = λ e. ground (arith, e);
        },
        rest,
      ),
      ap (λ l. (s.id, s.user_id) ∷ l) same,
    )

module _ (c : Config) (up : ℕ → Bool) (parse_url : Text → UrlParts) (days : ℕ) (rng : ℕ → ℕ)
    (show : ℕ → Text) (web : Web) (lib : UrlLib) (hashes : HashLib) (blocked : Text → Bool)
    (limit : ℕ) (clock : Clock) (users : List Account) (table : List ContentItem) where
  abbrev AreInStep : List Subscriber → Option FeedPolled → Type 0
  AreInStep subs none = Unit
  AreInStep subs (some r) =
      All (IsInStep r.feed.feed) r.subs × (subscriptions r.subs ≡ subscriptions subs)

  finish_feed-AreInStep :
      (subs : List Subscriber) (f : SharedFeed) (r : Store) (p : Option Polled)
      → AreInStep subs (
          finish_feed c up parse_url days rng show web lib hashes blocked limit clock users subs f r
            p)
  finish_feed-AreInStep subs f r none = tt
  finish_feed-AreInStep subs f r (some p) =
      mirror_all-AllInStep (with_row f (apply_pro_priority c clock.priority users subs p.row)).feed
        subs

  ingest_feed-AreInStep :
      (subs : List Subscriber) (f : SharedFeed) (r : Store)
      → AreInStep subs (
          ingest_feed c up parse_url days rng show web lib hashes blocked limit clock users subs f
            table r)
  unfolding ingest_feed
  ingest_feed-AreInStep [] f r = (tt, refl)
  ingest_feed-AreInStep (s ∷ subs) f r =
      let b = within_budgets c up parse_url clock.budget users (s ∷ subs) f.feed.row r in
      elim (Bool-cases b.goes_on) [
        | inl polled ↦ rw polled (
            finish_feed-AreInStep (s ∷ subs) f b.store (
              ingest_source parse_url days rng show web lib hashes blocked limit
                record { id = f.id; user_id = 0; source_type = f.source_type; row = f.feed.row }
                s.id (some f.id) clock.started clock.ended table))
        | inr refused ↦ rw refused (mirror_all-AllInStep (with_row f b.row).feed (s ∷ subs))
      ]

  or_else-AreInStep :
      (subs : List Subscriber) (o : Option FeedPolled) (d : FeedPolled)
      → AreInStep subs o
      → AreInStep subs (some d)
      → AreInStep subs (some (or_else o d))
  or_else-AreInStep subs none d h k = k
  or_else-AreInStep subs (some r) d h k = h

  -- After a round of the loop every active subscriber's row has the feed's link, schedule, health, error and
  -- validators as the round left them and is stopped if the feed is, and the subscriptions are the same: when the poll went through, when the budgets refused it, and when it raised and
  -- was rolled back.
  pub poll_feed-AreInStep :
      (subs : List Subscriber) (f : SharedFeed) (r : Store) (error : Text)
      → let after =
          poll_feed c up parse_url days rng show web lib hashes blocked limit clock users subs f
            table r error in
        All (IsInStep after.feed.feed) after.subs × (subscriptions after.subs ≡ subscriptions subs)
  unfolding poll_feed record_feed_failure
  poll_feed-AreInStep subs f r error =
      let (f', subs') =
        record_feed_failure c up parse_url days rng show web lib hashes blocked limit f subs
          clock.ended error in
      or_else-AreInStep subs
        (ingest_feed c up parse_url days rng show web lib hashes blocked limit clock users subs f
          table r)
        record {
          feed = f';
          subs = subs';
          added = 0;
          table = table;
          store = (within_budgets c up parse_url clock.budget users subs f.feed.row r).store;
        }
        (ingest_feed-AreInStep subs f r) (mirror_all-AllInStep f'.feed subs)
