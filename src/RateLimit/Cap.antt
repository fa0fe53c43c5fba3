-- ===== src/RateLimit/Cap.antt =====
-- What the limiter of backend/app/utils/ratelimit.py promises, and where it does not recover.
use readprism.Prelude.Text.{Text, text_eq, text_eq_iff}
use readprism.Prelude.{
  ap, All, ℕ, suc, ◌+◌, ◌-◌, ◌≤◌, ◌<◌, ◌≡◌, Bool, refl, true, false, none, some, List, [], ◌∷◌,
  arith, length, min, ltb, if◌then◌else◌,
}
use readprism.RateLimit.Window.{
  RateLimiter, Redis, Request, Counter, Verdict, allowed, too_many, client_ip, charge, call,
  set_counter,
}

abbrev pub is_allowed : Verdict → Bool
is_allowed allowed = true
is_allowed _ = false

-- How many of the requests are let through, one after the other.
unfoldable pub run : RateLimiter → Redis → List Request → ℕ
run l r [] = 0
run l r (q ∷ qs) =
    let (verdict, r') = call l r q in (if is_allowed verdict then 1 else 0) + run l r' qs

-- A request of the client while its window is open, with the store up.
abbrev pub IsWithin : Text → ℕ → Request → Type 0
IsWithin ip end q = (client_ip q.forwarded q.host ≡ ip) × (q.now < end) × (q.incr_up ≡ true)

abbrev at_count : ℕ → ℕ → Counter
at_count n end = record { count = n; expires_at = some end }

text_eq_self : (t : Text) → text_eq t t ≡ true
text_eq_self t = (text_eq_iff t t).1 refl

module _ (l : RateLimiter) (on : l.rate_limit_enabled ≡ true)
    (some_limit : 1 ≤ l.max_requests) where
  call_open :
      (ip : Text) (end n : ℕ) (r : Redis) (q : Request)
      → r ip ≡ some (at_count (suc n) end)
      → IsWithin ip end q
      → call l r q ≡ (
        if ltb l.max_requests (suc n + 1) then too_many else allowed,
        set_counter r ip (at_count (suc n + 1) end),
      )
  unfolding call charge
  call_open ip end n r q found (same, before, up) =
      rw (same, found, up, on) (ground (arith, before, some_limit))

  run_open :
      (ip : Text) (end n : ℕ) (r : Redis) (qs : List Request)
      → r ip ≡ some (at_count (suc n) end)
      → All (IsWithin ip end) qs
      → run l r qs ≡ min (l.max_requests - suc n) (length qs)
  unfolding run
  run_open ip end n r [] found w = ground arith
  run_open ip end n r (q ∷ qs) found (h, w) =
      let r' = set_counter r ip (at_count (suc n + 1) end) in
      let found' : r' ip ≡ some (at_count (suc (suc n)) end) =
        rw (text_eq_self ip) (ap (λ m. some (at_count m end)) (omega arith)) in
      let later = run_open ip end (suc n) r' qs found' w in
      rw (call_open ip end n r q found h) (ground (arith, later))

  call_first :
      (r : Redis) (q : Request)
      → r (client_ip q.forwarded q.host) ≡ none
      → q.incr_up ≡ true
      → q.expire_up ≡ true
      → call l r q ≡ (
        allowed,
        set_counter r (client_ip q.forwarded q.host) (at_count 1 (q.now + l.window_seconds)),
      )
  unfolding call charge
  call_first r q unseen up up' = rw (unseen, up, up', on) (ground (arith, some_limit))

  -- With rate limiting on and a limit of one or more, and while the store is up, of the requests that a
  -- client makes from the one that opens its window to the window's end as many are let through as the
  -- limit says, or all of them if they are fewer.
  pub run_capped :
      (r : Redis) (q : Request) (qs : List Request)
      → r (client_ip q.forwarded q.host) ≡ none
      → q.incr_up ≡ true
      → q.expire_up ≡ true
      → All (IsWithin (client_ip q.forwarded q.host) (q.now + l.window_seconds)) qs
      → run l r (q ∷ qs) ≡ min l.max_requests (suc (length qs))
  unfolding run
  run_capped r q qs unseen up up' w =
      let ip = client_ip q.forwarded q.host in
      let end = q.now + l.window_seconds in
      let r' = set_counter r ip (at_count 1 end) in
      let found : r' ip ≡ some (at_count 1 end) = rw (text_eq_self ip) refl in
      let later = run_open ip end 0 r' qs found w in
      rw (call_first r q unseen up up') (ground (arith, later, some_limit))

-- When EXPIRE fails after the first INCR, the counter has no expiry. From then on, however late, as
-- soon as the limit is used up every request of the client is refused while the store is up.
pub call_stuck :
    (l : RateLimiter) (r : Redis) (q : Request) (n : ℕ)
    → l.rate_limit_enabled ≡ true
    → 1 ≤ l.max_requests
    → l.max_requests ≤ n
    → q.incr_up ≡ true
    → r (client_ip q.forwarded q.host) ≡ some (record { count = n; expires_at = none })
    → (call l r q).0 ≡ too_many
unfolding call charge
call_stuck l r q n on some_limit full up found = ground (arith, on, some_limit, full, up, found)
