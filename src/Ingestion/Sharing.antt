-- ===== src/Ingestion/Sharing.antt =====
-- What holds of shared feeds: every subscription reads a feed that exists, subscribers see the feed's
-- state, and what a revived feed inherits.
use readprism.Prelude.{
  ℕ, ◌+◌, ◌≤◌, ◌≡◌, ◌≢◌, refl, Bool, true, false, Option, none, some, List, [], ◌∷◌, ◌++◌, arith,
  All, length, ap, suc,
}
use readprism.Prelude.Text.{Text, text_eq_iff}
use readprism.Url.{UrlParts}
use readprism.Ingestion.Schedule.{dead, dead_after, healthy, on_error, on_rate_limited}
use readprism.Ingestion.Poll.{
  Source, Outcome, is_dead_reddit_feed, is_youtube_feed, next_state, write_schedule,
  apply_poll_result,
}
use readprism.Ingestion.Health.{IsSound}
use readprism.Ingestion.Feeds.{
  Feed, Subscription, feed_key_of, find_feed, update_feed, new_feed, revive, file_feed, subscribe,
  attach, sync_feeds, mirror_one,
}

-- A key that a feed has keeps a feed.
abbrev pub IsKnown : Text → List Feed → Type 0
IsKnown key feeds = find_feed key feeds ≢ none

IsKnown-append :
    (key : Text) (feeds : List Feed) (f : Feed)
    → IsKnown key feeds
    → IsKnown key (feeds ++ (f ∷ []))
unfolding find_feed
IsKnown-append key [] f h = absurd (h refl)
IsKnown-append key (g ∷ feeds) f h = ground (arith, IsKnown-append key feeds f)

find_feed-append_self : (feeds : List Feed) (f : Feed) → IsKnown f.key (feeds ++ (f ∷ []))
unfolding find_feed
find_feed-append_self [] f = ground (arith, text_eq_iff f.key f.key)
find_feed-append_self (g ∷ feeds) f = ground (arith, find_feed-append_self feeds f)

IsKnown-update :
    (key k : Text) (feeds : List Feed)
    → IsKnown key feeds
    → IsKnown key (update_feed k revive feeds)
unfolding find_feed update_feed revive
IsKnown-update key k [] h = h
IsKnown-update key k (g ∷ feeds) h = ground (arith, IsKnown-update key k feeds)

IsKnown-file_feed :
    (key : Text) (reddit ended : Bool) (now : ℕ) (source : Source) (feeds : List Feed)
    (found : Option Feed)
    → IsKnown key feeds
    → IsKnown key (file_feed reddit ended now source feeds found)
IsKnown-file_feed key reddit ended now source feeds none h =
    IsKnown-append key feeds (new_feed reddit ended now source) h
IsKnown-file_feed key reddit ended now source feeds (some f) h =
    ground (arith, IsKnown-update key (feed_key_of source) feeds h)

file_feed-IsKnown :
    (reddit ended : Bool) (now : ℕ) (source : Source) (feeds : List Feed) (found : Option Feed)
    → find_feed (feed_key_of source) feeds ≡ found
    → IsKnown (feed_key_of source) (file_feed reddit ended now source feeds found)
unfolding new_feed
file_feed-IsKnown reddit ended now source feeds none e =
    find_feed-append_self feeds (new_feed reddit ended now source)
file_feed-IsKnown reddit ended now source feeds (some f) e =
    IsKnown-file_feed (feed_key_of source) reddit ended now source feeds (some f) λ n. cc

-- A subscription reads a feed that is on file.
abbrev pub IsAttached : List Feed → Subscription → Type 0
IsAttached feeds s = (key : Text) × (s.feed_id ≡ some key) × IsKnown key feeds

module _ (urlparse : Text → UrlParts) (now : ℕ) where
  IsKnown-attach :
      (key : Text) (feeds : List Feed) (source : Source)
      → IsKnown key feeds
      → IsKnown key (attach urlparse now feeds source).0
  unfolding attach
  IsKnown-attach key feeds source h =
      IsKnown-file_feed key _ _ now source feeds (find_feed (feed_key_of source) feeds) h

  IsKnown-sync_feeds :
      (key : Text) (feeds : List Feed) (pending : List Source)
      → IsKnown key feeds
      → IsKnown key (sync_feeds urlparse now feeds pending).0
  unfolding sync_feeds
  IsKnown-sync_feeds key feeds [] h = h
  IsKnown-sync_feeds key feeds (source ∷ pending) h =
      IsKnown-sync_feeds key (attach urlparse now feeds source).0 pending
        (IsKnown-attach key feeds source h)

  attach-IsKnown :
      (feeds : List Feed) (source : Source)
      → ((attach urlparse now feeds source).1.feed_id ≡ some (feed_key_of source))
        × IsKnown (feed_key_of source) (attach urlparse now feeds source).0
  unfolding attach subscribe
  attach-IsKnown feeds source =
      (refl, file_feed-IsKnown _ _ now source feeds (find_feed (feed_key_of source) feeds) refl)

  -- `sync_feeds` leaves every pending subscription attached to a feed that is on file at the end, one
  -- subscription for each pending row, and takes no feed off the file.
  pub sync_feeds-IsAttached :
      (feeds : List Feed) (pending : List Source)
      → let (feeds', subs) = sync_feeds urlparse now feeds pending in
        All (IsAttached feeds') subs
        × (length subs ≡ length pending)
        × ((key : Text) → IsKnown key feeds → IsKnown key feeds')
  unfolding sync_feeds
  sync_feeds-IsAttached feeds [] = (tt, refl, λ key h. h)
  sync_feeds-IsAttached feeds (source ∷ pending) =
      let step = attach urlparse now feeds source in
      let (attached, counted, kept) = sync_feeds-IsAttached step.0 pending in
      let (filed, known) = attach-IsKnown feeds source in
      (
        ((feed_key_of source, filed, kept (feed_key_of source) known), attached),
        ap suc counted,
        λ key h. kept key (IsKnown-attach key feeds source h),
      )

-- After a mirror the subscriber's row shows the feed's schedule and status, and is active only if the
-- feed is. Mirroring again changes nothing, so a notice that the reader has seen and that was
-- cleared stays cleared.
pub mirror_one_lem :
    (feed : Feed) (source : Source)
    → let row = mirror_one feed source in
      (row.feed_status ≡ feed.row.feed_status)
      × (row.next_poll_at ≡ feed.row.next_poll_at)
      × (row.fetch_error_count ≡ feed.row.fetch_error_count)
      × (row.is_active ≡ true → feed.row.is_active ≡ true)
      × (mirror_one feed row ≡ row)
      × ((mirror_one feed (record row { dead_notice_pending = false })).dead_notice_pending ≡ false)
unfolding mirror_one
mirror_one_lem feed source = ground arith

-- A revived feed keeps the start of its old streak: if that is seven days or more back, the first
-- failed poll after the revival kills it again, without the streak of seven days that kills a fresh
-- feed.
pub revive_dies :
    (urlparse : Text → UrlParts) (days : ℕ) (rng : ℕ → ℕ) (feed : Feed) (since now : ℕ)
    (o : Outcome)
    → feed.row.failure_since ≡ some since
    → since + dead_after ≤ now
    → o.error ≡ true
    → o.gone ≡ false
    → is_dead_reddit_feed urlparse (feed_key_of feed.row) now ≡ false
    → is_youtube_feed urlparse (feed_key_of feed.row) ≡ false
    → let row = (revive feed).row in
      (row.feed_status ≡ some healthy)
      × ((apply_poll_result urlparse days rng row now o).feed_status ≡ some dead)
      × ((apply_poll_result urlparse days rng row now o).is_active ≡ false)
unfolding revive apply_poll_result write_schedule next_state on_error on_rate_limited
revive_dies urlparse days rng feed since now o f old e g r y = ground arith

-- A dead feed that is revived stays sound, with its old failures.
pub revive-IsSound : (feed : Feed) → IsSound feed.row → IsSound (revive feed).row
unfolding revive
revive-IsSound feed h = ground arith
