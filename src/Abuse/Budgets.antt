-- ===== src/Abuse/Budgets.antt =====
-- Fetch budgets, host caps and inbound caps: backend/app/services/abuse.py, over `cache_incr` of
-- backend/app/utils/cache.py. A moment is a count of microseconds, and an hour or a day is named by its
-- number, as the keys of Redis name it; the counters outlive it. `up` says which calls of Redis succeed,
-- by their number. A limit of 0 is no limit; the code treats a negative one alike.
use readprism.Prelude.{
  ℕ, ◌+◌, ◌*◌, ◌/◌, Bool, true, ◌&&◌, ◌||◌, not, Option, none, some, List, [], ◌∷◌, ltb, leb, ◌==◌,
  if◌then◌else◌, or_else, mem,
}
use readprism.Prelude.Text.{Text, codes, text_eq, lower, remove_prefix}
use readprism.Url.{UrlParts}

pub record Settings : Type 0 where
  pub hosted : Bool
  pub hosted_fetch_budget_per_hour : ℕ
  pub hosted_host_polls_per_hour : ℕ
  pub hosted_max_sources_per_host : ℕ
  pub inbound_max_message_bytes : ℕ
  pub hosted_inbound_per_day : ℕ
  pub hosted_inbound_mb_per_day : ℕ

abbrev pub hour_length : ℕ
hour_length = 3_600_000_000

abbrev pub day_length : ℕ
day_length = 24 * hour_length

-- `_hour`
abbrev pub hour : ℕ → ℕ
hour now = now / hour_length

-- `_next_hour`
unfoldable pub next_hour : ℕ → ℕ
next_hour now = hour now * hour_length + hour_length

-- The counters by account or host and hour or day, how often Redis was called, and
-- `users.fetch_paused_until`.
pub record Store : Type 0 where
  pub fetches : ℕ → ℕ → ℕ
  pub polls : Text → ℕ → ℕ
  pub inbound_count : ℕ → ℕ → ℕ
  pub inbound_bytes : ℕ → ℕ → ℕ
  pub calls : ℕ
  pub paused_until : ℕ → Option ℕ

abbrev pub called : Store → Store
called r = record r { calls = r.calls + 1 }

abbrev pub at : (ℕ → ℕ → ℕ) → ℕ → ℕ → ℕ → ℕ → ℕ → ℕ
at count k h v k' h' = if k == k' && h == h' then v else count k' h'

abbrev pub at_host : (Text → ℕ → ℕ) → Text → ℕ → ℕ → Text → ℕ → ℕ
at_host count k h v k' h' = if text_eq k k' && h == h' then v else count k' h'

-- `used is None or used <= limit`, of a counter that the call raises to `used` if it succeeds.
abbrev pub admits : Bool → ℕ → ℕ → Bool
admits ok used limit = not ok || leb used limit

-- The text after `www.` of a host in lower case; a link without a host has the empty one.
unfoldable pub host_of : (Text → UrlParts) → Text → Text
host_of urlparse url = remove_prefix (lower (or_else (urlparse url).hostname [])) (codes "www.")

module _ (s : Settings) (up : ℕ → Bool) where
  unfoldable pub charge_fetch : Store → ℕ → ℕ → ℕ → Bool × Store
  charge_fetch r user n now =
      let limit = s.hosted_fetch_budget_per_hour in
      let used = r.fetches user (hour now) + n in
      let charged =
        if up r.calls
        then record (called r) { fetches = at r.fetches user (hour now) used }
        else called r in
      if not s.hosted || limit == 0 then (true, r) else (admits (up r.calls) used limit, charged)

  -- `charge_host_poll`, with the host of the link at hand.
  unfoldable pub poll_host : Store → Text → ℕ → Bool × Store
  poll_host r host now =
      let limit = s.hosted_host_polls_per_hour in
      let used = r.polls host (hour now) + 1 in
      let charged =
        if up r.calls
        then record (called r) { polls = at_host r.polls host (hour now) used }
        else called r in
      if not s.hosted || limit == 0 || text_eq host []
      then (true, r)
      else (admits (up r.calls) used limit, charged)

  unfoldable pub charge_host_poll : (Text → UrlParts) → Store → Text → ℕ → Bool × Store
  unfolding host_of
  charge_host_poll urlparse r url now = poll_host r (host_of urlparse url) now

  -- `pause_fetches`: when the pause ends, and the accounts with their notice.
  unfoldable pub pause_fetches : Store → List ℕ → ℕ → ℕ × Store
  unfolding next_hour
  pause_fetches r user_ids now = (
    next_hour now,
    record r {
      paused_until = λ u. if mem u user_ids then some (next_hour now) else r.paused_until u;
    },
  )

  -- `require_fetch_budget`: none passes, and the time of Retry-After's end goes with a 429.
  unfoldable pub require_fetch_budget : Store → ℕ → ℕ → Option ℕ × Store
  unfolding charge_fetch pause_fetches
  require_fetch_budget r user now =
      let (ok, charged) = charge_fetch r user 1 now in
      let (until, noted) = pause_fetches charged (user ∷ []) now in
      if ok then (none, charged) else (some until, noted)

  -- Why an inbound newsletter is refused.
  pub data Refusal : Type 0 where
    too_large count_reached volume_reached : Refusal

  abbrev count_step : Store → ℕ → ℕ → Bool × Store
  count_step r user d =
      let used = r.inbound_count user d + 1 in
      let counted =
        if up r.calls
        then record (called r) { inbound_count = at r.inbound_count user d used }
        else called r in
      if s.hosted_inbound_per_day == 0
      then (true, r)
      else (admits (up r.calls) used s.hosted_inbound_per_day, counted)

  abbrev volume_step : Store → ℕ → ℕ → ℕ → Bool × Store
  volume_step r user d size =
      let used = r.inbound_bytes user d + size in
      let counted =
        if up r.calls
        then record (called r) { inbound_bytes = at r.inbound_bytes user d used }
        else called r in
      if s.hosted_inbound_mb_per_day == 0
      then (true, r)
      else (admits (up r.calls) used (s.hosted_inbound_mb_per_day * 1_000_000), counted)

  abbrev inbound_for : Store → ℕ → ℕ → ℕ → Option Refusal × Store
  inbound_for r user size now =
      let (counted, r1) = count_step r user (now / day_length) in
      let (fitted, r2) = volume_step r1 user (now / day_length) size in
      if not counted
      then (some count_reached, r1)
      else if not fitted
      then (some volume_reached, r2)
      else (none, r2)

  abbrev inbound_user : Store → Option ℕ → ℕ → ℕ → Option Refusal × Store
  inbound_user r none size now = (none, r)
  inbound_user r (some user) size now = if s.hosted then inbound_for r user size now else (none, r)

  unfoldable pub inbound_allowed : Store → Option ℕ → ℕ → ℕ → Option Refusal × Store
  inbound_allowed r user size now =
      if ltb 0 s.inbound_max_message_bytes && ltb s.inbound_max_message_bytes size
      then (some too_large, r)
      else inbound_user r user size now

-- The sources of an account by host: `counts` of `enforce_sources_per_host`.
unfoldable pub count_host : (Text → UrlParts) → Text → List Text → ℕ
unfolding host_of
count_host urlparse host [] = 0
count_host urlparse host (url ∷ urls) =
    (if text_eq (host_of urlparse url) host then 1 else 0) + count_host urlparse host urls

abbrev pub bump : (Text → ℕ) → Text → Text → ℕ
bump counts host h = if text_eq host h then counts h + 1 else counts h

-- The loop over the new links; some is the host of the 422.
unfoldable pub add_links : (Text → UrlParts) → ℕ → (Text → ℕ) → List Text → Option Text
unfolding host_of
add_links urlparse limit counts [] = none
add_links urlparse limit counts (url ∷ urls) =
    let host = host_of urlparse url in
    let skipped = add_links urlparse limit counts urls in
    let rest = add_links urlparse limit (bump counts host) urls in
    if text_eq host [] then skipped else if ltb limit (counts host + 1) then some host else rest

-- `existing` are the links that the account follows, the feed's own link where there is one.
unfoldable pub enforce_sources_per_host :
    Settings → (Text → UrlParts) → List Text → List Text → Option Text
unfolding count_host add_links
enforce_sources_per_host s urlparse existing urls =
    let limit = s.hosted_max_sources_per_host in
    if not s.hosted || limit == 0
    then none
    else add_links urlparse limit (λ h. count_host urlparse h existing) urls
