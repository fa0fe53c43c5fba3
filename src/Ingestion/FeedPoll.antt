-- ===== src/Ingestion/FeedPoll.antt =====
-- Whose budgets a shared feed's poll is charged to, and whose plan hastens the next: `_within_budgets`, `_unpaused` and
-- `_apply_pro_priority` of backend/app/workers/tasks/ingest_feeds.py.
use readprism.Prelude.{
  ℕ, ◌+◌, ◌*◌, Bool, false, ◌&&◌, ◌||◌, not, Option, none, some, List, [], ◌∷◌, leb, ltb, ◌==◌,
  if◌then◌else◌, or_else, mem,
}
use readprism.Prelude.Text.{Text}
use readprism.Url.{UrlParts}
use readprism.Billing.Account.{User, Tier, free, reader, pro, team}
use readprism.Entitlements.Quotas.{Account, Quota, is_paused, pro_features}
use readprism.Abuse.Budgets.{
  Store, hour_length, next_hour, charge_fetch, charge_host_poll, pause_fetches,
}
use readprism.Ingestion.Poll.{Source, or_text}
use readprism.Ingestion.Feeds.{Feed}
use readprism.Ingestion.Poller.{SourceType}
use readprism.Billing.Account
use readprism.Abuse.Budgets

-- The settings that a poll reads. `abuse` has the deployment mode of `billing`.
pub record Config : Type 0 where
  pub billing : Account.Settings
  pub configured : Account.Plan → Quota → Option ℕ
  pub abuse : Budgets.Settings
  pub hosted_pro_max_poll_minutes : ℕ

abbrev pub abuse_of : Config → Budgets.Settings
abuse_of c = record (c.abuse) { hosted = c.billing.hosted }

-- A row of `feeds`. None of them is a newsletter.
pub record SharedFeed : Type 0 where
  pub id : ℕ
  pub source_type : SourceType
  pub feed : Feed

-- A row of `sources` that follows the feed.
pub record Subscriber : Type 0 where
  pub id : ℕ
  pub user_id : ℕ
  pub row : Source

abbrev pub user_ids : List Subscriber → List ℕ
user_ids [] = []
user_ids (s ∷ subs) = s.user_id ∷ user_ids subs

-- The accounts that follow, each once, in order: `dict.fromkeys`.
unfoldable pub distinct_users : List Subscriber → List ℕ → List ℕ
distinct_users [] seen = []
distinct_users (s ∷ subs) seen =
    let skipped = distinct_users subs seen in
    let rest = distinct_users subs (s.user_id ∷ seen) in
    if mem s.user_id seen then skipped else s.user_id ∷ rest

-- When the stages of a poll read the clock.
pub record Clock : Type 0 where
  pub budget : ℕ
  pub started : ℕ
  pub ended : ℕ
  pub priority : ℕ

abbrev pub set_next : ℕ → Source → Source
set_next t row = record row { next_poll_at = some t }

-- Whether the poll goes on, the feed's row and the store.
pub record Budgeted : Type 0 where
  pub goes_on : Bool
  pub row : Source
  pub store : Store

abbrev pub minutes : ℕ → ℕ
minutes n = n * 60_000_000

-- `feed.next_poll_at is not None and feed.next_poll_at <= soonest`
abbrev pub is_soon : Option ℕ → ℕ → Bool
is_soon none soonest = false
is_soon (some t) soonest = leb t soonest

module _ (c : Config) where
  -- Whether a row of `users` with that id is paused.
  abbrev pub has_paused : ℕ → List Account → ℕ → Bool
  has_paused now [] user = false
  has_paused now (a ∷ users) user =
      (a.user.id == user && is_paused c.billing c.configured now a) || has_paused now users user

  abbrev pub drop_paused : ℕ → List Account → List ℕ → List ℕ
  drop_paused now users [] = []
  drop_paused now users (u ∷ ids) =
      if has_paused now users u then drop_paused now users ids else u ∷ drop_paused now users ids

  unfoldable pub unpaused : ℕ → List Account → List ℕ → List ℕ
  unpaused now users ids = if not c.billing.hosted then ids else drop_paused now users ids

  -- Charges every account, and tells whether one of them was within its budget.
  unfoldable pub charge_each : (ℕ → Bool) → ℕ → Store → List ℕ → Bool × Store
  charge_each up now r [] = (false, r)
  charge_each up now r (u ∷ ids) =
      let (ok, r') = charge_fetch (abuse_of c) up r u 1 now in
      let (others, r'') = charge_each up now r' ids in (ok || others, r'')

  module _ (up : ℕ → Bool) (urlparse : Text → UrlParts) where
    abbrev pub check_host : ℕ → Source → Store → Budgeted
    check_host now row r =
        let (ok, r') =
          charge_host_poll (abuse_of c) up urlparse r (or_text row.feed_url row.url) now in
        record { goes_on = ok; row = if ok then row else set_next (next_hour now) row; store = r' }

    abbrev pub check_accounts : ℕ → Source → List ℕ → Store → Budgeted
    check_accounts now row [] r = record {
      goes_on = false;
      row = set_next (now + 12 * hour_length) row;
      store = r;
    }
    check_accounts now row (u ∷ ids) r =
        let (within, r') = charge_each up now r (u ∷ ids) in
        let (until, r'') = pause_fetches (abuse_of c) up r' (u ∷ ids) now in
        if within
        then check_host now row r'
        else record { goes_on = false; row = set_next until row; store = r'' }

    unfoldable pub within_budgets : ℕ → List Account → List Subscriber → Source → Store → Budgeted
    unfolding unpaused distinct_users charge_each
    within_budgets now users subs row r =
        check_accounts now row (unpaused now users (distinct_users subs [])) r

  abbrev pub any_pro : ℕ → List Account → List ℕ → Bool
  any_pro now [] ids = false
  any_pro now (a ∷ users) ids =
      (mem a.user.id ids && pro_features c.billing c.configured now a) || any_pro now users ids

  unfoldable pub apply_pro_priority : ℕ → List Account → List Subscriber → Source → Source
  apply_pro_priority now users subs row =
      let cap = c.hosted_pro_max_poll_minutes in
      let soonest = now + minutes cap in
      if not c.billing.hosted || cap == 0 || ltb 0 (or_else row.fetch_error_count 0)
      then row
      else if is_soon row.next_poll_at soonest
      then row
      else if any_pro now users (user_ids subs)
      then set_next soonest row
      else row
