-- ===== src/RateLimit/Window.antt =====
-- The fixed-window limiter: backend/app/utils/ratelimit.py. The counters of one scope are a function of
-- the client's address; a counter without an expiry lives on. The two calls of Redis may fail, each on
-- its own.
use readprism.Prelude.Text.{Text, codes, text_eq}
use readprism.Prelude.{
  ℕ, ◌+◌, Bool, false, ◌||◌, not, Option, none, some, List, [], ◌∷◌, leb, ltb, ◌==◌, if◌then◌else◌,
}
use readprism.Billing.Account.{strip, split_commas}

pub record RateLimiter : Type 0 where
  pub rate_limit_enabled : Bool
  pub max_requests : ℕ
  pub window_seconds : ℕ
  pub fail_closed : Bool

pub record Counter : Type 0 where
  pub count : ℕ
  pub expires_at : Option ℕ

abbrev pub Redis : Type 0
Redis = Text → Option Counter

-- What a request brings, and which calls of Redis succeed during it.
pub record Request : Type 0 where
  pub now : ℕ
  pub forwarded : Option Text
  pub host : Option Text
  pub incr_up : Bool
  pub expire_up : Bool

pub data Verdict : Type 0 where
  allowed too_many unavailable : Verdict

abbrev first_part : List Text → Text
first_part [] = []
first_part (p ∷ ps) = strip p

abbrev of_host : Option Text → Text
of_host none = codes "unknown"
of_host (some host) = host

-- `_client_ip`
unfoldable pub client_ip : Option Text → Option Text → Text
client_ip none host = of_host host
client_ip (some []) host = of_host host
client_ip (some (c ∷ t)) host = first_part (split_commas (c ∷ t))

abbrev pub has_passed : ℕ → Option ℕ → Bool
has_passed now none = false
has_passed now (some t) = leb t now

-- The count that INCR finds: 0 where there is no counter, or none any more.
abbrev pub live : ℕ → Option Counter → ℕ
live now none = 0
live now (some c) = if has_passed now c.expires_at then 0 else c.count

abbrev pub set_counter : Redis → Text → Counter → Redis
set_counter r ip c k = if text_eq k ip then some c else r k

abbrev pub expiry : Option Counter → Option ℕ
expiry none = none
expiry (some c) = c.expires_at

-- On an exception.
abbrev pub failed : RateLimiter → Verdict
failed l = if l.fail_closed then unavailable else allowed

-- INCR and the EXPIRE of a first count, for a counter as it is found.
unfoldable pub charge : RateLimiter → Request → Option Counter → Verdict × Option Counter
charge l q found =
    let count = live q.now found + 1 in
    let verdict = if ltb l.max_requests count then too_many else allowed in
    if not q.incr_up
    then (failed l, found)
    else if not (count == 1)
    then (verdict, some (record { count = count; expires_at = expiry found }))
    else if q.expire_up
    then (verdict, some (record { count = count; expires_at = some (q.now + l.window_seconds) }))
    else (failed l, some (record { count = count; expires_at = none }))

abbrev pub store : Redis → Text → Verdict × Option Counter → Verdict × Redis
store r ip (v, none) = (v, r)
store r ip (v, some c) = (v, set_counter r ip c)

-- `RateLimiter.__call__`
unfoldable pub call : RateLimiter → Redis → Request → Verdict × Redis
unfolding charge client_ip
call l r q =
    let ip = client_ip q.forwarded q.host in
    if not l.rate_limit_enabled || l.max_requests == 0
    then (allowed, r)
    else store r ip (charge l q (r ip))
