-- ===== src/Entitlements/Allowance.antt =====
-- Daily allowances: `used_today`, `remaining_today`, `record_use`, `take` and `newsletter_allowed` of
-- backend/app/services/entitlements.py, over `cache_incr` of backend/app/utils/cache.py. The counters are
-- those of one account on one UTC day, which is what the Redis key names; they outlive the day, so
-- their TTL plays no part. `up` says which calls of Redis succeed, by their number.
use readprism.Prelude.{
  ℕ, ◌+◌, ◌*◌, Bool, true, false, not, ◌||◌, Option, none, some, ◌==◌, if◌then◌else◌,
}
use readprism.Prelude.Int.{ℤ, pos, negsuc, pos_part, ◌+ℤ◌, ◌-ℤ◌, leb_ℤ}
use readprism.Billing.Account.{Settings, Plan}
use readprism.Entitlements.Quotas.{
  Quota, sources, creators, newsletters, newsletter_mb, llm_summaries, digest_builds, Account,
  is_paused, limit,
}

pub record Redis : Type 0 where
  pub count : Quota → ℤ
  pub calls : ℕ

abbrev pub same_quota : Quota → Quota → Bool
same_quota sources sources = true
same_quota creators creators = true
same_quota newsletters newsletters = true
same_quota newsletter_mb newsletter_mb = true
same_quota llm_summaries llm_summaries = true
same_quota digest_builds digest_builds = true
same_quota _ _ = false

abbrev pub update : (Quota → ℤ) → Quota → ℤ → Quota → ℤ
update count q v k = if same_quota q k then v else count k

-- The caller's answer after a successful or failed call.
abbrev pub called : Redis → Redis
called r = record r { calls = r.calls + 1 }

unfoldable pub cache_incr : (ℕ → Bool) → Redis → Quota → ℤ → Option ℤ × Redis
cache_incr up r q amount =
    let value = r.count q +ℤ amount in
    if up r.calls
    then (some value, record { count = update r.count q value; calls = r.calls + 1 })
    else (none, called r)

-- Newsletter volume is counted in bytes and limited in MB.
abbrev pub scaled : Quota → ℕ → ℕ
scaled newsletter_mb n = n * 1_000_000
scaled _ n = n

unfoldable pub used_today : (ℕ → Bool) → Redis → Quota → ℤ × Redis
used_today up r q = (if up r.calls then r.count q else pos 0, called r)

abbrev pub is_zero : ℤ → Bool
is_zero (pos n) = n == 0
is_zero (negsuc n) = false

-- `used is None or used <= cap`
abbrev pub fits : Option ℤ → ℕ → Bool
fits none cap = true
fits (some used) cap = leb_ℤ used (pos cap)

-- The two calls of `take`, with the limit at hand: the amount is counted first, and taken back if it
-- does not fit.
abbrev pub count_in : (ℕ → Bool) → ℕ → Quota → ℕ → Redis → Bool × Redis
count_in up cap q amount r =
    let (used, r') = cache_incr up r q (pos amount) in (fits used (scaled q cap), r')

abbrev pub take_back : (ℕ → Bool) → Quota → ℕ → Redis → Redis
take_back up q amount r = (cache_incr up r q (pos 0 -ℤ pos amount)).1

unfoldable pub charge : (ℕ → Bool) → ℕ → Quota → ℕ → Redis → Bool × Redis
charge up cap q amount r =
    let (granted, r') = count_in up cap q amount r in
    if granted then (true, r') else (false, take_back up q amount r')

module _ (s : Settings) (configured : Plan → Quota → Option ℕ) (now : ℕ) (up : ℕ → Bool) where
  unfoldable pub remaining_today : Account → Quota → Redis → Option ℕ × Redis
  unfolding used_today
  remaining_today a q r =
      let cap = limit s configured now a q in
      let (used, r') = used_today up r q in
      if is_paused s configured now a
      then (some 0, r)
      else if cap == 0
      then (none, r)
      else (some (pos_part (pos (scaled q cap) -ℤ used)), r')

  unfoldable pub record_use : Account → Quota → ℤ → Redis → Redis
  record_use a q amount r =
      if is_zero amount || limit s configured now a q == 0 then r else (cache_incr up r q amount).1

  unfoldable pub take : Account → Quota → ℕ → Redis → Bool × Redis
  take a q amount r =
      let cap = limit s configured now a q in
      if is_paused s configured now a
      then (false, r)
      else if cap == 0
      then (true, r)
      else charge up cap q amount r

  -- Whether one inbound newsletter is allowed; a refused volume gives the count back.
  unfoldable pub newsletter_allowed : Account → ℕ → Redis → Bool × Redis
  newsletter_allowed a size_bytes r =
      let (counted, r1) = take a newsletters 1 r in
      let (fitted, r2) = take a newsletter_mb size_bytes r1 in
      if not counted
      then (false, r1)
      else if not fitted
      then (false, record_use a newsletters (negsuc 0) r2)
      else (true, r2)
